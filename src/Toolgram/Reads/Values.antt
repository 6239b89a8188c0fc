-- ===== src/Toolgram/Reads/Values.antt =====
-- Every JSON value is read, inside an open container.
use q.Prelude.{
  ℕ, true, false, List, [], ◌∷◌, ◌++◌, ◌≡◌, ◌⊎◌, inl, inr, refl, ◌∙◌, ap, arith, Bytes, codes,
  length,
}
use q.Toolgram.State.{Grammar, St}
use q.Toolgram.Step.{
  is_num_end, step_j_value, step_j_value_req, step_after_val, step_j_key, match_word,
}
use q.Toolgram.Machine.{step_in, advance_str}
use q.Toolgram.Json.{Blank, blank, blanks, Word, word, Piece, quoted, pieces}
use q.Toolgram.Reads.{
  skips, Reads, Reads-intro, advance_str-append, advance_str-cons, advance_str-blanks,
  step_in-blank,
}
use q.Toolgram.Reads.Strings.{advance_str-rest}
use q.Toolgram.Reads.Numbers.{WantsValue, ended, step_in-ended}

abbrev pub Ended : St → Type 0
Ended s = ended s ≡ true

abbrev pub Is : St → St → Type 0
Is s t = t ≡ s

-- Where the machine goes when it closes a container that stands on `k`.
abbrev pub popped : Bytes → St
popped [] = St.obj_close
popped (c ∷ k) = St.j_after_val

-- After white space a number has ended.
settled : List Blank → St → St
settled [] s = s
settled (w ∷ ws) s = St.j_after_val

settled-Ended : (ws : List Blank) (s : St) → Ended s → Ended (settled ws s)
unfolding settled
settled-Ended [] s e = e
settled-Ended (w ∷ ws) s e = refl

is_num_end-blank : (w : Blank) → is_num_end (blank w) ≡ true
is_num_end-blank Blank.space = refl
is_num_end-blank _ = refl

advance_str-Ended-blanks :
    (ws : List Blank) (g : Grammar)
    → g.dead ≡ false
    → Ended g.st
    → advance_str g (blanks ws) ≡ (record g { st = settled ws g.st }, true)
unfolding settled step_after_val step_in
advance_str-Ended-blanks [] g d e = unfold advance_str in refl
advance_str-Ended-blanks (w ∷ ws) g d e =
    let h = record g { st = St.j_after_val } in
    advance_str-cons (blank w) (blanks ws) g h d (
      step_in-ended g.st g (blank w) refl e (is_num_end-blank w)
      ∙ step_in-blank St.j_after_val h w refl)
    ∙ advance_str-blanks ws h d refl

pub Reads-blanks :
    (ws : List Blank) (g : Grammar)
    → g.dead ≡ false
    → Ended g.st
    → Reads g (blanks ws) Ended g.stack
Reads-blanks ws g d e =
    Reads-intro g _ (blanks ws) (advance_str-Ended-blanks ws g d e) d refl refl refl
      (settled-Ended ws g.st e)

-- A closer, or a comma, behind a value.
Reads-step :
    (g g' : Grammar) (c : ℕ) {P : St → Type 0} {k : Bytes}
    → g.dead ≡ false
    → Ended g.st
    → is_num_end c ≡ true
    → step_after_val (record g { st = St.j_after_val }) c ≡ (g', true)
    → g'.dead ≡ false
    → g'.names ≡ g.names
    → g'.name_pref ≡ g.name_pref
    → g'.stack ≡ k
    → P g'.st
    → Reads g (c ∷ []) P k
Reads-step g g' c d e n s d' ns p k st =
    Reads-intro g g' (c ∷ [])
      (advance_str-cons c [] g g' d (step_in-ended g.st g c refl e n ∙ s)
        ∙ unfold advance_str in refl)
      d' ns p k st

pub Reads-close_arr :
    (g : Grammar) (k : Bytes)
    → g.dead ≡ false
    → Ended g.st
    → g.stack ≡ b'[' ∷ k
    → Reads g (b']' ∷ []) (Is (popped k)) k
unfolding step_after_val
Reads-close_arr g [] d e s =
    Reads-step g (record g { stack = []; st = St.obj_close }) b']' d e refl (ground arith) d refl
      refl refl refl
Reads-close_arr g (c ∷ k) d e s =
    Reads-step g (record g { stack = c ∷ k; st = St.j_after_val }) b']' d e refl (ground arith) d
      refl refl refl refl

pub Reads-close_obj :
    (g : Grammar) (k : Bytes)
    → g.dead ≡ false
    → Ended g.st
    → g.stack ≡ b'{' ∷ k
    → Reads g (b'}' ∷ []) (Is (popped k)) k
unfolding step_after_val
Reads-close_obj g [] d e s =
    Reads-step g (record g { stack = []; st = St.obj_close }) b'}' d e refl (ground arith) d refl
      refl refl refl
Reads-close_obj g (c ∷ k) d e s =
    Reads-step g (record g { stack = c ∷ k; st = St.j_after_val }) b'}' d e refl (ground arith) d
      refl refl refl refl

pub Reads-comma_arr :
    (g : Grammar) (k : Bytes)
    → g.dead ≡ false
    → Ended g.st
    → g.stack ≡ b'[' ∷ k
    → Reads g (b',' ∷ []) (Is St.j_value_req) (b'[' ∷ k)
unfolding step_after_val
Reads-comma_arr g k d e s =
    Reads-step g (record g { st = St.j_value_req }) b',' d e refl (ground arith) d refl refl s refl

pub Reads-comma_obj :
    (g : Grammar) (k : Bytes)
    → g.dead ≡ false
    → Ended g.st
    → g.stack ≡ b'{' ∷ k
    → Reads g (b',' ∷ []) (Is St.j_key_req) (b'{' ∷ k)
unfolding step_after_val
Reads-comma_obj g k d e s =
    Reads-step g (record g { st = St.j_key_req }) b',' d e refl (ground arith) d refl refl s refl

abbrev pub after_word : Grammar → Word → Grammar
after_word g w = record g { lit_word = word w; lit = length (word w); st = St.j_after_val }

abbrev in_word : Grammar → Word → Grammar
in_word g w = record g { lit_word = word w; lit = 1; st = St.j_lit }

abbrev word_tail : Word → Bytes
word_tail Word.true_word = codes "rue"
word_tail Word.false_word = codes "alse"
word_tail Word.null_word = codes "ull"

abbrev initial : Word → ℕ
initial Word.true_word = b't'
initial Word.false_word = b'f'
initial Word.null_word = b'n'

step_in-initial :
    (w : Word) (g : Grammar) → WantsValue g → step_in g.st g (initial w) ≡ (in_word g w, true)
unfolding step_in step_j_value step_j_value_req
step_in-initial Word.true_word g (ne, inl e) = ground arith
step_in-initial Word.false_word g (ne, inl e) = ground arith
step_in-initial Word.null_word g (ne, inl e) = ground arith
step_in-initial Word.true_word g (ne, inr e) = ground arith
step_in-initial Word.false_word g (ne, inr e) = ground arith
step_in-initial Word.null_word g (ne, inr e) = ground arith

advance_str-word_tail :
    (w : Word) (g : Grammar)
    → g.dead ≡ false
    → advance_str (in_word g w) (word_tail w) ≡ (after_word g w, true)
unfolding advance_str match_word
advance_str-word_tail Word.true_word g d = rw d
advance_str-word_tail Word.false_word g d = rw d
advance_str-word_tail Word.null_word g d = rw d

word-split : (w : Word) → word w ≡ initial w ∷ word_tail w
word-split Word.true_word = refl
word-split _ = refl

pub advance_str-word :
    (w : Word) (g : Grammar)
    → g.dead ≡ false
    → WantsValue g
    → advance_str g (word w) ≡ (after_word g w, true)
advance_str-word w g d h =
    ap (advance_str g) (word-split w)
    ∙ advance_str-cons (initial w) (word_tail w) g (in_word g w) d (step_in-initial w g h)
    ∙ advance_str-word_tail w g d

pub advance_str-quoted :
    (ps : List Piece) (g : Grammar)
    → g.dead ≡ false
    → WantsValue g
    → advance_str g (quoted ps) ≡ (record g { st = St.j_after_val }, true)
unfolding advance_str step_j_value step_j_value_req
advance_str-quoted ps g d (ne, inl e) =
    ground (arith, advance_str-rest false ps (record g { st = St.j_str }) d refl)
advance_str-quoted ps g d (ne, inr e) =
    ground (arith, advance_str-rest false ps (record g { st = St.j_str }) d refl)

-- An opener, where a value may start.
pub step_in_open :
    (g : Grammar)
    → WantsValue g
    → (step_in g.st g b'[' ≡ (record g { stack = b'[' ∷ g.stack; st = St.j_value }, true))
      × (step_in g.st g b'{' ≡ (record g { stack = b'{' ∷ g.stack; st = St.j_key }, true))
unfolding step_in step_j_value step_j_value_req
step_in_open g (ne, inl e) = ground arith
step_in_open g (ne, inr e) = ground arith

step_in-key_quote :
    (g : Grammar)
    → (g.st ≡ St.j_key) ⊎ (g.st ≡ St.j_key_req)
    → step_in g.st g b'"' ≡ (record g { st = St.j_keystr }, true)
unfolding step_in step_j_key
step_in-key_quote g (inl e) = ground arith
step_in-key_quote g (inr e) = ground arith

-- White space, a key, white space and the colon.
pub advance_str-key :
    (ws ws' : List Blank) (ps : List Piece) (t : Bytes) (g : Grammar)
    → g.dead ≡ false
    → (g.st ≡ St.j_key) ⊎ (g.st ≡ St.j_key_req)
    → advance_str g (blanks ws ++ (quoted ps ++ (blanks ws' ++ (b':' ∷ t))))
      ≡ advance_str (record g { st = St.j_value }) t
advance_str-key ws ws' ps t g d e =
    let inside_key = record g { st = St.j_keystr } in
    let behind_key = record g { st = St.j_keycolon } in
    advance_str-append (blanks ws) _ g g (advance_str-blanks ws g d (skips_key e))
    ∙ advance_str-cons b'"' _ g inside_key d (step_in-key_quote g e)
    ∙ advance_str-append (pieces ps ++ b'"' ∷ []) _ inside_key behind_key
        (advance_str-rest true ps inside_key d refl)
    ∙ advance_str-append (blanks ws') _ behind_key behind_key
        (advance_str-blanks ws' behind_key d refl)
    ∙ advance_str-cons b':' t behind_key (record g { st = St.j_value }) d (unfold step_in in refl)
  where
    skips_key : (g.st ≡ St.j_key) ⊎ (g.st ≡ St.j_key_req) → skips g.st ≡ true
    skips_key (inl p) = ap skips p
    skips_key (inr p) = ap skips p

-- An empty array or object closes at once.
pub Reads-close_empty_arr :
    (k : Bytes) (g : Grammar)
    → g.dead ≡ false
    → g.stack ≡ b'[' ∷ k
    → g.st ≡ St.j_value
    → Reads g (b']' ∷ []) (Is (popped k)) k
unfolding advance_str step_j_value
Reads-close_empty_arr [] g d s e =
    Reads-intro g (record g { stack = []; st = St.obj_close }) (b']' ∷ []) (ground arith) d refl
      refl refl refl
Reads-close_empty_arr (c ∷ k) g d s e =
    Reads-intro g (record g { stack = c ∷ k; st = St.j_after_val }) (b']' ∷ []) (ground arith) d
      refl refl refl refl

pub Reads-close_empty_obj :
    (k : Bytes) (g : Grammar)
    → g.dead ≡ false
    → g.stack ≡ b'{' ∷ k
    → g.st ≡ St.j_key
    → Reads g (b'}' ∷ []) (Is (popped k)) k
unfolding advance_str step_j_key
Reads-close_empty_obj [] g d s e =
    Reads-intro g (record g { stack = []; st = St.obj_close }) (b'}' ∷ []) (ground arith) d refl
      refl refl refl
Reads-close_empty_obj (c ∷ k) g d s e =
    Reads-intro g (record g { stack = c ∷ k; st = St.j_after_val }) (b'}' ∷ []) (ground arith) d
      refl refl refl refl
