-- ===== src/Constrain/Runs.antt =====
-- The constrainer over whole requests, one after the other.
use q.Prelude.{ℕ, Bool, false, List, [], ◌∷◌, ◌≡◌, refl, Bytes, ℤ, replicate, false≢true}
use q.Toolgram.State.{Grammar, fresh}
use q.Toolgram.Signature.Tracked.{Tracked, CleanNames}
use q.Toolgram.MaskCache
use q.Toolgram.MaskCache.Exact.{init-CacheFits}
use q.Constrain.Engine.{minus_one, w_plumb}
use q.Constrain.State.{Constrainer, begin, end}
use q.Constrain.Rounds.{on_drafts, on_pending, scan_round, on_id}
use q.Constrain.Staged.{Staged}

-- The calls of the engine's loop while a request is served.
pub data Call : Type 0 where
  scan drafts : List ℕ → Call
  pending : ℤ → Call
  token : ℕ → Call

pub record Request : Type 0 where
  pub tools : List Bytes
  pub calls : List Call

-- The member initialisers, with an engine after its initialisation (`w_max` lanes), and a cache
-- after `init`.
abbrev pub start : Bool → Bool → Bool → ℕ → List Bytes → ℤ → Constrainer
start enabled on_drafts split_ok w_max vocab closer = record {
  eng = record {
    pool = [];
    h_mask_id0 = minus_one;
    h_cap0 = 0;
    tool_split_active = false;
    h_mask_ids5 = replicate w_plumb minus_one;
    d_mask_ids = replicate w_max minus_one;
    d_accept_cap = 0;
    on_drafts = on_drafts;
    split_ok = split_ok;
  };
  cache = MaskCache.init vocab closer;
  host2dev = [];
  enabled = enabled;
  active = false;
  pool_dead = false;
  tg = fresh;
  staged_state = fresh;
  names = [];
  tail = [];
  skip_feed = 0;
  engaged = 0;
  disengaged = 0;
  pool_drops = 0;
  rebinds = 0;
}

module _ (decode_one : ℕ → Bytes) where
  abbrev pub perform : Call → Constrainer → Constrainer
  perform (scan em) s = (scan_round decode_one em s).0
  perform (drafts dr) s = on_drafts decode_one dr s
  perform (pending id) s = on_pending decode_one id s
  perform (token id) s = on_id decode_one id s

  abbrev pub perform_all : List Call → Constrainer → Constrainer
  perform_all [] s = s
  perform_all (c ∷ cs) s = perform_all cs (perform c s)

  -- Requests that were served to their end.
  abbrev pub serve_all : List Request → Constrainer → Constrainer
  serve_all [] s = s
  serve_all (r ∷ rs) s = serve_all rs (end (perform_all r.calls (begin r.tools s)))

abbrev pub AllClean : List Request → Type 0
AllClean [] = Unit
AllClean (r ∷ rs) = CleanNames r.tools × AllClean rs

fresh-Tracked : Tracked fresh
unfolding q.Toolgram.State.reset
fresh-Tracked = record {
  alive = refl;
  valid = record { stack_fits = refl; lit_fits = tt; name_fits = refl };
  keyed = refl;
  clean = record { no_bar = tt; no_separator = tt };
  word_bar = tt;
}

pub start-Staged :
    (enabled on_drafts split_ok : Bool) (w_max : ℕ) (vocab : List Bytes) (closer : ℤ)
    → Staged (start enabled on_drafts split_ok w_max vocab closer)
start-Staged enabled on_drafts split_ok w_max vocab closer = record {
  ready = record {
    pool_fits = record { cache_fits = init-CacheFits vocab closer; mapped = λ ci k h. absurd (cc) };
    clean = record { no_bar = tt; no_separator = tt };
    words = tt;
    staged = fresh-Tracked;
    exact = λ k h. absurd (cc);
  };
  live = λ h. absurd (false≢true h);
  idle = λ h. refl;
}

pub begin-Staged :
    (ns : List Bytes) (s : Constrainer)
    → CleanNames ns
    → Staged s
    → s.active ≡ false
    → Staged (begin ns s)
unfolding begin
begin-Staged ns s clean v off = record {
  ready = record {
    pool_fits = v.ready.pool_fits;
    clean = clean;
    words = v.ready.words;
    staged = v.ready.staged;
    exact = v.ready.exact;
  };
  live = λ h. absurd (false≢true h);
  idle = λ h. v.idle off;
}
