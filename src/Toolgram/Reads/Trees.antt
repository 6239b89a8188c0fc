-- ===== src/Toolgram/Reads/Trees.antt =====
-- Every JSON value is read inside an open container, by induction over the value.
use q.Prelude.{ℕ, true, false, List, [], ◌∷◌, ◌++◌, ◌≡◌, ◌≢◌, ◌⊎◌, inl, inr, refl, ◌∙◌, ap, Bytes}
use q.Toolgram.State.{Grammar, St}
use q.Toolgram.Machine.{advance_str}
use q.Toolgram.Json.{
  Blank, blanks, quoted, Value, value, Elems, elems, Fields, fields, number, word,
}
use q.Toolgram.Reads.{
  skips, Reads, Reads-intro, Reads-append, advance_str-append, advance_str-cons, advance_str-blanks,
}
use q.Toolgram.Reads.Numbers.{
  WantsValue, ended, after_number, after_number-ended, advance_str-number,
}
use q.Toolgram.Reads.Values.{
  Ended, Is, popped, Reads-blanks, Reads-close_arr, Reads-close_obj, Reads-comma_arr,
  Reads-comma_obj, after_word, advance_str-word, advance_str-quoted, step_in_open, advance_str-key,
  Reads-close_empty_arr, Reads-close_empty_obj,
}

-- What is read after a first part of the text.
pub Reads-from :
    (g g' : Grammar) (s t : Bytes) {P : St → Type 0} {k : Bytes}
    → advance_str g s ≡ advance_str g' t
    → g'.names ≡ g.names
    → g'.name_pref ≡ g.name_pref
    → Reads g' t P k
    → Reads g s P k
Reads-from g g' s t e n p r = record {
  last = r.last;
  runs = e ∙ r.runs;
  alive = r.alive;
  names_kept = r.names_kept ∙ n;
  pref_kept = r.pref_kept ∙ p;
  stack_is = r.stack_is;
  state_is = r.state_is;
}

Reads-after_blanks :
    (g : Grammar) (w : List Blank) (t : Bytes) {P : St → Type 0} {k : Bytes}
    → g.dead ≡ false
    → skips g.st ≡ true
    → Reads g t P k
    → Reads g (blanks w ++ t) P k
Reads-after_blanks g w t d h r =
    Reads-from g g (blanks w ++ t) t
      (advance_str-append (blanks w) t g g (advance_str-blanks w g d h)) refl refl r

-- A value, the white space behind it, and what follows.
Reads-ending :
    {g : Grammar} {v : Bytes} (w : List Blank) (t : Bytes) {P : St → Type 0} {l k : Bytes}
    → Reads g v Ended l
    → ((h : Grammar) → h.dead ≡ false → Ended h.st → h.stack ≡ l → Reads h t P k)
    → Reads g (v ++ (blanks w ++ t)) P k
Reads-ending w t {k = k} r next =
    Reads-append (blanks w ++ t) k r
      λ h d s e. Reads-append t k (Reads-blanks w h d e) λ h' d' s' e'. next h' d' e' (s' ∙ s)

abbrev pub WantsKey : Grammar → Type 0
WantsKey g = (g.st ≡ St.j_key) ⊎ (g.st ≡ St.j_key_req)

cons-ne : {c : ℕ} {k l : Bytes} → l ≡ c ∷ k → l ≢ []
cons-ne e = λ n. cc

skips_value : {s : St} → (s ≡ St.j_value) ⊎ (s ≡ St.j_value_req) → skips s ≡ true
skips_value (inl p) = ap skips p
skips_value (inr p) = ap skips p

-- A container that closes inside another one ends as a value.
Reads-popped :
    (k : Bytes) {g : Grammar} {s : Bytes} → k ≢ [] → Reads g s (Is (popped k)) k → Reads g s Ended k
Reads-popped [] ne r = absurd (ne refl)
Reads-popped (c ∷ k) ne r = record {
  last = r.last;
  runs = r.runs;
  alive = r.alive;
  names_kept = r.names_kept;
  pref_kept = r.pref_kept;
  stack_is = r.stack_is;
  state_is = ap ended r.state_is;
}

-- The arguments of a call: an object on the empty stack, or a value inside a container.
mutual
  unfolding value

  pub Reads-value :
      (v : Value) (g : Grammar) → g.dead ≡ false → WantsValue g → Reads g (value v) Ended g.stack
  Reads-value (Value.str ps) g d h =
      Reads-intro g (record g { st = St.j_after_val }) (quoted ps) (advance_str-quoted ps g d h) d
        refl refl refl refl
  Reads-value (Value.num n) g d h =
      Reads-intro g (record g { st = after_number n }) (number n) (advance_str-number n g d h) d
        refl refl refl (after_number-ended n)
  Reads-value (Value.lit w) g d h =
      Reads-intro g (after_word g w) (word w) (advance_str-word w g d h) d refl refl refl refl
  Reads-value (Value.empty_arr w) g d h =
      let inner = record g { stack = b'[' ∷ g.stack; st = St.j_value } in
      Reads-from g inner _ _ (advance_str-cons b'[' _ g inner d (step_in_open g h).0) refl refl (
        Reads-after_blanks inner w _ d refl
          (Reads-popped g.stack h.0 (Reads-close_empty_arr g.stack inner d refl refl)))
  Reads-value (Value.empty_obj w) g d h =
      let inner = record g { stack = b'{' ∷ g.stack; st = St.j_key } in
      Reads-from g inner _ _ (advance_str-cons b'{' _ g inner d (step_in_open g h).1) refl refl (
        Reads-after_blanks inner w _ d refl
          (Reads-popped g.stack h.0 (Reads-close_empty_obj g.stack inner d refl refl)))
  Reads-value (Value.arr es) g d h =
      let inner = record g { stack = b'[' ∷ g.stack; st = St.j_value } in
      Reads-from g inner _ _ (advance_str-cons b'[' _ g inner d (step_in_open g h).0) refl refl
        (Reads-popped g.stack h.0 (Reads-elems es inner g.stack d refl (inl refl)))
  Reads-value (Value.obj fs) g d h =
      let inner = record g { stack = b'{' ∷ g.stack; st = St.j_key } in
      Reads-from g inner _ _ (advance_str-cons b'{' _ g inner d (step_in_open g h).1) refl refl
        (Reads-popped g.stack h.0 (Reads-fields fs inner g.stack d refl (inl refl)))

  Reads-elems :
      (es : Elems) (g : Grammar) (k : Bytes)
      → g.dead ≡ false
      → g.stack ≡ b'[' ∷ k
      → (g.st ≡ St.j_value) ⊎ (g.st ≡ St.j_value_req)
      → Reads g (elems es) (Is (popped k)) k
  Reads-elems (Elems.last_elem w v w') g k d s h = Reads-after_blanks g w _ d (skips_value h) (
      Reads-ending w' _ (Reads-value v g d (cons-ne s, h))
        λ h1 d1 e1 s1. Reads-close_arr h1 k d1 e1 (s1 ∙ s))
  Reads-elems (Elems.elem w v w' es) g k d s h = Reads-after_blanks g w _ d (skips_value h) (
      Reads-ending w' _ (Reads-value v g d (cons-ne s, h)) λ h1 d1 e1 s1.
        Reads-append (elems es) k (Reads-comma_arr h1 k d1 e1 (s1 ∙ s))
          λ h2 d2 s2 e2. Reads-elems es h2 k d2 s2 (inr e2))

  pub Reads-fields :
      (fs : Fields) (g : Grammar) (k : Bytes)
      → g.dead ≡ false
      → g.stack ≡ b'{' ∷ k
      → WantsKey g
      → Reads g (fields fs) (Is (popped k)) k
  Reads-fields (Fields.last_field w p w' w'' v w3) g k d s h =
      let g' = record g { st = St.j_value } in
      Reads-from g g' _ _ (advance_str-key w w' p _ g d h) refl refl (
        Reads-after_blanks g' w'' _ d refl (
          Reads-ending w3 _ (Reads-value v g' d (cons-ne s, inl refl))
            λ h1 d1 e1 s1. Reads-close_obj h1 k d1 e1 (s1 ∙ s)))
  Reads-fields (Fields.field w p w' w'' v w3 fs) g k d s h =
      let g' = record g { st = St.j_value } in
      Reads-from g g' _ _ (advance_str-key w w' p _ g d h) refl refl (
        Reads-after_blanks g' w'' _ d refl (
          Reads-ending w3 _ (Reads-value v g' d (cons-ne s, inl refl)) λ h1 d1 e1 s1.
            Reads-append (fields fs) k (Reads-comma_obj h1 k d1 e1 (s1 ∙ s))
              λ h2 d2 s2 e2. Reads-fields fs h2 k d2 s2 (inr e2)))
