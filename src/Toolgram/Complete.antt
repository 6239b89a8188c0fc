-- ===== src/Toolgram/Complete.antt =====
-- The machine reads every well-formed call of a registered tool to its end.
use q.Prelude.{
  ℕ, Bool, true, false, List, [], ◌∷◌, ◌++◌, ◌≡◌, ◌≢◌, inl, refl, sym, ◌∙◌, ap, subst, append_assoc,
  append-nil, arith, Bytes, codes, Without,
}
use q.Toolgram.State.{Grammar, St, reset}
use q.Toolgram.Step.{step_name_val, any_eq, any_prefix, step_j_value, match_word, step_done}
use q.Toolgram.Machine.{step_in, advance_str, done, closed, tool_name}
use q.Toolgram.Names.{Registered, Registered-any_eq, Registered-any_prefix}
use q.Toolgram.Json.{
  blanks, Blank, value, fields, Object, object_value, Call, call_head, call_body, call_text,
}
use q.Toolgram.Reads.{skips, Reads, advance_str-append, advance_str-cons, advance_str-blanks}
use q.Toolgram.Reads.Values.{Is, Reads-close_empty_obj}
use q.Toolgram.Reads.Trees.{Reads-from, Reads-fields}

-- White space and then one byte, from a state that skips the one and takes the other.
blanks_then :
    (w : List Blank) (c : ℕ) (t : Bytes) (g g' : Grammar)
    → g.dead ≡ false
    → skips g.st ≡ true
    → step_in g.st g c ≡ (g', true)
    → advance_str g (blanks w ++ (c ∷ t)) ≡ advance_str g' t
blanks_then w c t g g' d h e =
    advance_str-append (blanks w) (c ∷ t) g g (advance_str-blanks w g d h)
    ∙ advance_str-cons c t g g' d e

advance_str-name_key :
    (g : Grammar)
    → g.dead ≡ false
    → advance_str (record g { st = St.key_open_q }) (codes "\"name\"")
      ≡ (record g { lit = 4; st = St.key_colon }, true)
unfolding advance_str
advance_str-name_key g d = rw d

advance_str-args_key :
    (g : Grammar)
    → g.dead ≡ false
    → advance_str (record g { st = St.argkey_open_q }) (codes "\"arguments\"")
      ≡ (record g { lit = 9; st = St.args_colon }, true)
unfolding advance_str
advance_str-args_key g d = rw d

step_in-name_end :
    (g : Grammar)
    → g.st ≡ St.name_val
    → any_eq g.name_pref g.names ≡ true
    → step_in g.st g b'"' ≡ (record g { st = St.arg_comma }, true)
unfolding step_in step_name_val
step_in-name_end g s h = ground arith

step_in-name_byte :
    (g : Grammar) (c : ℕ)
    → g.st ≡ St.name_val
    → b'"' ≢ c
    → any_prefix (g.name_pref ++ c ∷ []) g.names ≡ true
    → step_in g.st g c ≡ (record g { name_pref = g.name_pref ++ c ∷ [] }, true)
unfolding step_in step_name_val
step_in-name_byte g c s ne h = ground arith

-- The name is read byte by byte while it stays a prefix of a registered one.
advance_str-name :
    (r t : Bytes) (g : Grammar)
    → g.dead ≡ false
    → g.st ≡ St.name_val
    → Registered (g.name_pref ++ r) g.names
    → Without b'"' r
    → advance_str g (r ++ (b'"' ∷ t))
      ≡ advance_str (record g { name_pref = g.name_pref ++ r; st = St.arg_comma }) t
advance_str-name [] t g d s reg w =
    let whole = append-nil g.name_pref in
    advance_str-cons b'"' t g _ d (
      step_in-name_end g s
        (Registered-any_eq g.name_pref g.names (subst (λ n. Registered n g.names) whole reg)))
    ∙ ap (λ n. advance_str (record g { name_pref = n; st = St.arg_comma }) t) (sym whole)
advance_str-name (c ∷ r) t g d s reg w =
    let g' = record g { name_pref = g.name_pref ++ c ∷ [] } in
    let regroup = append_assoc g.name_pref (c ∷ []) r in
    let reg' = subst (λ n. Registered n g.names) (sym regroup) reg in
    advance_str-cons c (r ++ (b'"' ∷ t)) g g' d
      (step_in-name_byte g c s w.0 (Registered-any_prefix (g.name_pref ++ c ∷ []) r g.names reg'))
    ∙ advance_str-name r t g' d s reg' w.1
    ∙ ap (λ n. advance_str (record g { name_pref = n; st = St.arg_comma }) t) regroup

-- The object of the arguments, on the empty stack.
Reads-object :
    (o : Object) (g : Grammar)
    → g.dead ≡ false
    → g.stack ≡ []
    → g.st ≡ St.j_value
    → Reads g (value (object_value o)) (Is St.obj_close) []
unfolding value step_in step_j_value
Reads-object (Object.empty_object w) g d s e =
    let inner = record g { stack = b'{' ∷ g.stack; st = St.j_key } in
    Reads-from g inner _ _
      (advance_str-cons b'{' _ g inner d (ground arith)
        ∙ advance_str-append (blanks w) _ inner inner (advance_str-blanks w inner d refl))
      refl refl (Reads-close_empty_obj [] inner d (ap (◌∷◌ b'{') s) refl)
Reads-object (Object.object fs) g d s e =
    let inner = record g { stack = b'{' ∷ g.stack; st = St.j_key } in
    Reads-from g inner _ (fields fs) (advance_str-cons b'{' _ g inner d (ground arith)) refl refl
      (Reads-fields fs inner [] d (ap (◌∷◌ b'{') s) (inl refl))

-- The state in which the value of the arguments is expected.
abbrev at_args : Grammar → Bytes → Grammar
at_args g tool = record g { lit = 9; name_pref = tool; st = St.j_value }

-- The call up to its arguments.
advance_str_head :
    (c : Call) (t : Bytes) (g : Grammar)
    → g.dead ≡ false
    → g.st ≡ St.ws_obj_open
    → Registered c.tool g.names
    → Without b'"' c.tool
    → advance_str g (call_head c t) ≡ advance_str (at_args g c.tool) t
unfolding step_in call_head
advance_str_head c t g d s reg w =
    blanks_then c.before_open b'{' _ g (record g { st = St.key_open_q }) d (ap skips s)
      (ground arith)
    ∙ advance_str-append (blanks c.before_name_key) _ _ _
        (advance_str-blanks c.before_name_key (record g { st = St.key_open_q }) d refl)
    ∙ advance_str-append (codes "\"name\"") _ _ _ (advance_str-name_key g d)
    ∙ blanks_then c.before_name_colon b':' _ (record g { lit = 4; st = St.key_colon })
        (record g { lit = 4; st = St.name_open_q }) d refl refl
    ∙ blanks_then c.before_name b'"' _ (record g { lit = 4; st = St.name_open_q })
        (record g { lit = 4; name_pref = []; st = St.name_val }) d refl refl
    ∙ advance_str-name c.tool _ (record g { lit = 4; name_pref = []; st = St.name_val }) d refl reg
        w
    ∙ blanks_then c.before_comma b',' _
        (record g { lit = 4; name_pref = c.tool; st = St.arg_comma })
        (record g { lit = 4; name_pref = c.tool; st = St.argkey_open_q }) d refl refl
    ∙ advance_str-append (blanks c.before_args_key) _ _ _ (
        advance_str-blanks c.before_args_key
          (record g { lit = 4; name_pref = c.tool; st = St.argkey_open_q }) d refl)
    ∙ advance_str-append (codes "\"arguments\"") _ _ _
        (advance_str-args_key (record g { lit = 4; name_pref = c.tool }) d)
    ∙ blanks_then c.before_args_colon b':' _
        (record g { lit = 9; name_pref = c.tool; st = St.args_colon }) (at_args g c.tool) d refl
        refl

-- What the machine has become when it has read a call: `P` holds of its state.
abbrev pub Accepted : (Grammar → Bool) → List Bytes → Grammar → Call → Bytes → Type 0
Accepted finished ns g c s =
    ((advance_str (reset ns g) s).1 ≡ true)
    × (finished (advance_str (reset ns g) s).0 ≡ true)
    × (tool_name (advance_str (reset ns g) s).0 ≡ c.tool)

abbrev TailAt : Grammar → Bytes → Bytes → Type 0
TailAt g s t =
    (h : Grammar) × (advance_str g s ≡ advance_str h t)
    × (h.dead ≡ false)
    × (h.st ≡ St.done_)
    × (h.name_pref ≡ g.name_pref)

-- The arguments and the closing brace.
tail_done :
    (c : Call) (t : Bytes) (g : Grammar)
    → g.dead ≡ false
    → g.stack ≡ []
    → g.st ≡ St.j_value
    → TailAt g
        (blanks c.before_args
          ++ (value (object_value c.args) ++ (blanks c.after_args ++ (b'}' ∷ t))))
        t
unfolding step_in
tail_done c t g d k s =
    let r = Reads-object c.args g d k s in
    let h = record r.last { st = St.done_ } in
    (
      h,
      advance_str-append (blanks c.before_args) _ g g
            (advance_str-blanks c.before_args g d (ap skips s))
          ∙ advance_str-append (value (object_value c.args)) _ g r.last r.runs
          ∙ blanks_then c.after_args b'}' t r.last h r.alive (ap skips r.state_is)
              (ground (arith, r.state_is)),
      r.alive,
      refl,
      r.pref_kept,
    )

-- The whole body, from a fresh machine.
body_done :
    (ns : List Bytes) (g : Grammar) (c : Call) (t : Bytes)
    → Registered c.tool ns
    → Without b'"' c.tool
    → (h : Grammar) × (advance_str (reset ns g) (call_body c t) ≡ advance_str h t)
      × (h.dead ≡ false)
      × (h.st ≡ St.done_)
      × (h.name_pref ≡ c.tool)
unfolding reset call_body
body_done ns g c t reg w =
    let (h, e, d, s, n) = tail_done c t (at_args (reset ns g) c.tool) refl refl refl in
    (h, advance_str_head c _ (reset ns g) refl refl reg w ∙ e, d, s, n)

advance_str-closer :
    (g : Grammar)
    → g.dead ≡ false
    → g.st ≡ St.done_
    → advance_str g (codes "</tool_call>")
      ≡ (record g { lit_word = codes "</tool_call>"; lit = 12; st = St.closed_ }, true)
advance_str-closer g d s =
    advance_str-cons b'<' _ g
      (record g { lit_word = codes "</tool_call>"; lit = 1; st = St.closer_ }) d
      (unfold step_in step_done in ground arith)
    ∙ unfold advance_str match_word in rw d

-- A call of a registered tool, with any white space and any JSON object as its arguments, is legal
-- byte for byte; behind its closing brace `done()` holds, and `tool_name()` is the tool. The tool's
-- name holds no quote.
pub call_body-done :
    (ns : List Bytes) (g : Grammar) (c : Call)
    → Registered c.tool ns
    → Without b'"' c.tool
    → Accepted done ns g c (call_body c [])
unfolding done tool_name advance_str
call_body-done ns g c reg w =
    let (h, e, d, s, n) = body_done ns g c [] reg w in rw e (refl, ground arith, n)

-- The same for the call with its literal closer: `closed()` holds.
pub call_text-closed :
    (ns : List Bytes) (g : Grammar) (c : Call)
    → Registered c.tool ns
    → Without b'"' c.tool
    → Accepted closed ns g c (call_text c)
unfolding closed tool_name call_text
call_text-closed ns g c reg w =
    let (h, e, d, s, n) = body_done ns g c (blanks c.after_call ++ codes "</tool_call>") reg w in
    rw
      (e
        ∙ advance_str-append (blanks c.after_call) _ h h
            (advance_str-blanks c.after_call h d (ap skips s))
        ∙ advance_str-closer h d s)
      (refl, ground arith, n)
