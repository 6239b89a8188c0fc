-- ===== src/Toolgram/Reads/Strings.antt =====
-- A quoted string, as a value and as a key.
use q.Prelude.{Bool, true, false, List, [], ◌∷◌, ◌++◌, ◌≡◌, refl, ◌∙◌, arith}
use q.Toolgram.State.{Grammar, St, is_hex}
use q.Toolgram.Step.{step_str, step_esc, step_hex}
use q.Toolgram.Machine.{advance_str}
use q.Toolgram.Json.{Piece, Hex, hex_text, Escape, piece, pieces}
use q.Toolgram.Reads.{advance_str-append}

-- Inside a string value, or inside a key.
abbrev pub inside : Bool → St
inside true = St.j_keystr
inside false = St.j_str

abbrev pub behind : Bool → St
behind true = St.j_keycolon
behind false = St.j_after_val

hex_text-is_hex : (h : Hex) → is_hex (hex_text h) ≡ true
unfolding is_hex
hex_text-is_hex (Hex.decimal d h) = ground arith
hex_text-is_hex (Hex.lower d h) = ground arith
hex_text-is_hex (Hex.upper d h) = ground arith

advance_str-escape :
    (key : Bool) (x : Escape) (g : Grammar)
    → g.dead ≡ false
    → g.st ≡ inside key
    → advance_str g (piece (Piece.escape x)) ≡ (g, true)
unfolding advance_str step_str step_esc
advance_str-escape true Escape.quote g d e = ground arith
advance_str-escape true _ g d e = ground arith
advance_str-escape false Escape.quote g d e = ground arith
advance_str-escape false _ g d e = ground arith

advance_str-piece :
    (key : Bool) (p : Piece) (g : Grammar)
    → g.dead ≡ false
    → g.st ≡ inside key
    → advance_str g (piece p) ≡ (g, true)
unfolding advance_str step_str step_esc step_hex
advance_str-piece true (Piece.plain c h a b) g d e = ground arith
advance_str-piece false (Piece.plain c h a b) g d e = ground arith
advance_str-piece key (Piece.escape x) g d e = advance_str-escape key x g d e
advance_str-piece true (Piece.unicode x y z w) g d e =
    ground (arith, hex_text-is_hex x, hex_text-is_hex y, hex_text-is_hex z, hex_text-is_hex w)
advance_str-piece false (Piece.unicode x y z w) g d e =
    ground (arith, hex_text-is_hex x, hex_text-is_hex y, hex_text-is_hex z, hex_text-is_hex w)

advance_str-pieces :
    (key : Bool) (ps : List Piece) (g : Grammar)
    → g.dead ≡ false
    → g.st ≡ inside key
    → advance_str g (pieces ps) ≡ (g, true)
advance_str-pieces key [] g d e = unfold advance_str in refl
advance_str-pieces key (p ∷ ps) g d e =
    advance_str-append (piece p) (pieces ps) g g (advance_str-piece key p g d e)
    ∙ advance_str-pieces key ps g d e

advance_str-close :
    (key : Bool) (g : Grammar)
    → g.dead ≡ false
    → g.st ≡ inside key
    → advance_str g (b'"' ∷ []) ≡ (record g { st = behind key }, true)
unfolding advance_str step_str
advance_str-close true g d e = ground arith
advance_str-close false g d e = ground arith

-- The rest of a string, up to its closing quote.
pub advance_str-rest :
    (key : Bool) (ps : List Piece) (g : Grammar)
    → g.dead ≡ false
    → g.st ≡ inside key
    → advance_str g (pieces ps ++ b'"' ∷ []) ≡ (record g { st = behind key }, true)
advance_str-rest key ps g d e =
    advance_str-append (pieces ps) (b'"' ∷ []) g g (advance_str-pieces key ps g d e)
    ∙ advance_str-close key g d e
