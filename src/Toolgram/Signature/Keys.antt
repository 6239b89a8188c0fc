-- ===== src/Toolgram/Signature/Keys.antt =====
-- Equal signatures admit equal texts.
use q.Prelude.{
  ℕ, true, false, leb, List, [], ◌∷◌, ◌++◌, append-nil, get_or, ◌≡◌, inl, inr, refl, sym, ap, subst,
  ◌∙◌, arith, Bytes, Without, Bool-cases, ap₂, not, ◌&&◌,
}
use q.Toolgram.State.{Grammar, St}
use q.Toolgram.Machine.{token_ok, done, is_done_st}
use q.Toolgram.Valid.{Braces, NameFits}
use q.Toolgram.Signature.{st_index, bottom_up, name_key, signature}
use q.Toolgram.Signature.Decimal.{to_string, to_string-injective, bar-Without-to_string}
use q.Toolgram.Signature.Relabel.{relist, rename, token_ok-relist, token_ok-rename}
use q.Toolgram.Signature.Names.{AllWithout, split_at, any_prefix-Without, sort_names-SameScans}
use q.Toolgram.Signature.Tracked.{Tracked, StackFits-Braces}

abbrev all_st : List St
all_st =
    St.ws_obj_open ∷ St.key_open_q ∷ St.key_name ∷ St.key_colon ∷ St.name_open_q ∷ St.name_val
    ∷ St.arg_comma ∷ St.argkey_open_q ∷ St.argkey ∷ St.args_colon ∷ St.j_value ∷ St.j_value_req
    ∷ St.j_str ∷ St.j_str_esc ∷ St.j_str_u1 ∷ St.j_str_u2 ∷ St.j_str_u3 ∷ St.j_str_u4
    ∷ St.j_num_minus ∷ St.j_num_zero ∷ St.j_num_int ∷ St.j_num_dot ∷ St.j_num_frac ∷ St.j_num_e
    ∷ St.j_num_esign ∷ St.j_num_exp ∷ St.j_lit ∷ St.j_key ∷ St.j_key_req ∷ St.j_keystr ∷ St.j_keyesc
    ∷ St.j_key_u1 ∷ St.j_key_u2 ∷ St.j_key_u3 ∷ St.j_key_u4 ∷ St.j_keycolon ∷ St.j_after_val
    ∷ St.obj_close ∷ St.done_ ∷ St.closer_ ∷ St.closed_ ∷ []

get_or-st_index : (s : St) → get_or all_st (st_index s) St.closed_ ≡ s
unfolding st_index
get_or-st_index St.ws_obj_open = refl
get_or-st_index _ = refl

st_index-injective : (s t : St) → st_index s ≡ st_index t → s ≡ t
st_index-injective s t e =
    sym (get_or-st_index s) ∙ ap (λ i. get_or all_st i St.closed_) e ∙ get_or-st_index t

bottom_up-append : (s : Bytes) (c : ℕ) → bottom_up (s ++ c ∷ []) ≡ c ∷ bottom_up s
unfolding bottom_up
bottom_up-append [] c = refl
bottom_up-append (x ∷ s) c = ap (λ t. t ++ x ∷ []) (bottom_up-append s c)

bottom_up-bottom_up : (k : Bytes) → bottom_up (bottom_up k) ≡ k
unfolding bottom_up
bottom_up-bottom_up [] = refl
bottom_up-bottom_up (c ∷ k) = bottom_up-append (bottom_up k) c ∙ ap (◌∷◌ c) (bottom_up-bottom_up k)

Without-append_one : (c d : ℕ) (s : Bytes) → Without c s → (c ≡ d → ⊥) → Without c (s ++ d ∷ [])
Without-append_one c d [] h ne = (ne, tt)
Without-append_one c d (x ∷ s) h ne = (h.0, Without-append_one c d s h.1 ne)

bar-Without-bottom_up : (k : Bytes) → Braces k → Without b'|' (bottom_up k)
unfolding bottom_up
bar-Without-bottom_up [] h = tt
bar-Without-bottom_up (c ∷ k) h =
    Without-append_one b'|' c (bottom_up k) (bar-Without-bottom_up k h.1) (ground arith)

-- Up to the name it holds a prefix of a registered name at most.
bar-Without-name :
    (s : St) (p : Bytes) (ns : List Bytes)
    → leb (st_index s) 5 ≡ true
    → NameFits s p ns
    → AllWithout b'|' ns
    → Without b'|' p
unfolding st_index
bar-Without-name St.name_val p ns h (inl e) clean = subst (Without b'|') (sym e) tt
bar-Without-name St.name_val p ns h (inr e) clean = any_prefix-Without b'|' p ns e clean
bar-Without-name St.ws_obj_open p ns h e clean = subst (Without b'|') (sym e) tt
bar-Without-name St.key_open_q p ns h e clean = subst (Without b'|') (sym e) tt
bar-Without-name St.key_name p ns h e clean = subst (Without b'|') (sym e) tt
bar-Without-name St.key_colon p ns h e clean = subst (Without b'|') (sym e) tt
bar-Without-name St.name_open_q p ns h e clean = subst (Without b'|') (sym e) tt
bar-Without-name _ p ns h e clean = absurd (cc)

-- What the part of the signature in front of the last literal tells.
record SameFront (g h : Grammar) : Type 0 where
  same_st : g.st ≡ h.st
  same_stack : g.stack ≡ h.stack
  same_lit : g.lit ≡ h.lit
  same_tail : g.lit_word ++ name_key g ≡ h.lit_word ++ name_key h

module _ (g h : Grammar) (t : Tracked g) (u : Tracked h) (e : signature g ≡ signature h) where
  same_front : SameFront g h
  unfolding signature
  same_front =
      let bars = λ (k : Grammar) (v : Tracked k).
        bar-Without-bottom_up k.stack (StackFits-Braces k.st k.stack v.valid.stack_fits) in
      let rest : bottom_up g.stack
            ++ (b'|' ∷ (to_string g.lit ++ (b'|' ∷ (g.lit_word ++ name_key g))))
          ≡ bottom_up h.stack ++ (b'|' ∷ (to_string h.lit ++ (b'|' ∷ (h.lit_word ++ name_key h)))) =
        ground arith in
      let (stacks, after) = split_at b'|' _ _ _ _ (bars g t) (bars h u) rest in
      let (lits, tails) =
        split_at b'|' _ _ _ _ (bar-Without-to_string g.lit) (bar-Without-to_string h.lit) after in
      record {
        same_st = st_index-injective g.st h.st (ground arith);
        same_stack =
            sym (bottom_up-bottom_up g.stack) ∙ ap bottom_up stacks ∙ bottom_up-bottom_up h.stack;
        same_lit = to_string-injective g.lit h.lit lits;
        same_tail = tails;
      }

  early_name_key :
      (k : Grammar)
      → leb (st_index k.st) 5 ≡ true
      → name_key k ≡ b'|' ∷ (k.name_pref ++ (b'|' ∷ k.names_key))
  unfolding name_key
  early_name_key k early = rw early

  late_name_key : (k : Grammar) → leb (st_index k.st) 5 ≡ false → name_key k ≡ []
  unfolding name_key
  late_name_key k late = rw late

  early_tokens : leb (st_index g.st) 5 ≡ true → (s : Bytes) → token_ok h s ≡ token_ok g s
  early_tokens early s =
      let f = same_front in
      let early' : leb (st_index h.st) 5 ≡ true =
        subst (λ x. leb (st_index x) 5 ≡ true) f.same_st early in
      let bars = λ (k : Grammar) (v : Tracked k) (low : leb (st_index k.st) 5 ≡ true).
        bar-Without-name k.st k.name_pref k.names low v.valid.name_fits v.clean.no_bar in
      let tails : g.lit_word ++ (b'|' ∷ (g.name_pref ++ (b'|' ∷ g.names_key)))
          ≡ h.lit_word ++ (b'|' ∷ (h.name_pref ++ (b'|' ∷ h.names_key))) =
        ap (λ n. g.lit_word ++ n) (sym (early_name_key g early))
        ∙ f.same_tail
        ∙ ap (λ n. h.lit_word ++ n) (early_name_key h early') in
      let (words, after) = split_at b'|' _ _ _ _ t.word_bar u.word_bar tails in
      let (names, keys) = split_at b'|' _ _ _ _ (bars g t early) (bars h u early') after in
      let same =
        sort_names-SameScans h.names g.names u.clean.no_separator t.clean.no_separator
          (sym u.keyed ∙ sym keys ∙ t.keyed) in
      let moved : h ≡ relist h.names h.names_key g = λ i. record {
        names = h.names;
        names_key = h.names_key;
        name_pref = sym names i;
        lit_word = sym words i;
        stack = sym f.same_stack i;
        lit = sym f.same_lit i;
        st = sym f.same_st i;
        dead = (u.alive ∙ sym t.alive) i;
      } in
      ap (λ k. token_ok k s) moved ∙ token_ok-relist s g h.names h.names_key same

  late_tokens : leb (st_index g.st) 5 ≡ false → (s : Bytes) → token_ok h s ≡ token_ok g s
  late_tokens late s =
      let f = same_front in
      let late' : leb (st_index h.st) 5 ≡ false =
        subst (λ x. leb (st_index x) 5 ≡ false) f.same_st late in
      let words : g.lit_word ≡ h.lit_word =
        sym (append-nil g.lit_word)
        ∙ ap (λ n. g.lit_word ++ n) (sym (late_name_key g late))
        ∙ f.same_tail
        ∙ ap (λ n. h.lit_word ++ n) (late_name_key h late')
        ∙ append-nil h.lit_word in
      let moved : h ≡ rename h.names h.names_key h.name_pref g = λ i. record {
        names = h.names;
        names_key = h.names_key;
        name_pref = h.name_pref;
        lit_word = sym words i;
        stack = sym f.same_stack i;
        lit = sym f.same_lit i;
        st = sym f.same_st i;
        dead = (u.alive ∙ sym t.alive) i;
      } in
      ap (λ k. token_ok k s) moved ∙ token_ok-rename s g h.names h.names_key h.name_pref late

  -- Two states with the same signature, each that of a live machine whose fields fit its state and
  -- whose allowlist holds neither a bar nor a unit separator, admit the same texts, and the body is
  -- complete in both or in none.
  pub signature-tokens : ((s : Bytes) → token_ok g s ≡ token_ok h s) × (done g ≡ done h)
  unfolding done
  signature-tokens = (
    λ s. elim (Bool-cases (leb (st_index g.st) 5)) [
      | inl early ↦ sym (early_tokens early s)
      | inr late ↦ sym (late_tokens late s)
    ],
    ap₂ (λ d x. not d && is_done_st x) (t.alive ∙ sym u.alive) (same_front.same_st),
  )
