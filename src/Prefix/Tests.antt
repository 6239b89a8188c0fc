-- ===== src/Prefix/Tests.antt =====
-- The cache on a small directory, and the theorems at concrete inputs.
use q.Prelude.{ℕ, ◌+◌, bytes_eq, ◌≤◌, true, none, some, List, [], ◌∷◌, codes, ◌≡◌, refl, arith}
use q.Prefix.Files.{Dir, File, unlink, replace}
use q.Prefix.Cache.{PrefixCacheCfg, Entry, PrefixCache, find}
use q.Prefix.Store.{Outcome, write, init, evict_to_budget, index_entry, tmp_path}
use q.Prefix.Lookup.{Usable, Answers, find-Answers}
use q.Prefix.Budget.{Evicted, evict_to_budget-Evicted}
use q.Prefix.Restart.{GoesThrough, write-restart-find, crashed-invisible}

abbrev cfg : PrefixCacheCfg
cfg = record {
  root = codes "/c";
  max_bytes = 1000;
  min_tokens = 2;
  max_tokens = 32768;
  step_tokens = 8192;
}

abbrev cache : PrefixCache
cache = record { cfg = cfg; compat = 7; enabled = true; index = [] }

abbrev toks : List ℕ
toks = 11 ∷ (12 ∷ (13 ∷ []))

abbrev prompt : List ℕ
prompt = 11 ∷ (12 ∷ (13 ∷ (14 ∷ [])))

abbrev all_well : Outcome
all_well = record { open_ok = true; writes_ok = true; rename_ok = true; now = 5 }

in_budget : GoesThrough cache toks 3 (codes "g") (codes "kv") all_well
unfolding q.Prefix.Store.index_entry
in_budget = record {
  on = refl;
  some_tokens = omega arith;
  enough = omega arith;
  opened = refl;
  written = refl;
  renamed = refl;
  in_budget = omega arith;
}

write-restart-find_example :
    (e : Entry) × (find
        (init cache cfg 7 true true
          (write cache [] toks 3 (codes "g") (codes "kv") all_well).0.1).0.0
        (init cache cfg 7 true true
          (write cache [] toks 3 (codes "g") (codes "kv") all_well).0.1).0.1
        prompt
      ≡ some e)
    × (3 ≤ e.len)
    × Usable
        (init cache cfg 7 true true
          (write cache [] toks 3 (codes "g") (codes "kv") all_well).0.1).0.0
        (init cache cfg 7 true true
          (write cache [] toks 3 (codes "g") (codes "kv") all_well).0.1).0.1
        prompt
        e
write-restart-find_example =
    write-restart-find cache [] toks 3 (codes "g") (codes "kv") all_well in_budget cache cfg refl
      prompt (λ e. absurd (cc)) (omega arith) refl (omega arith)

abbrev torn_file : File
torn_file = record { header = none; tokens = []; state = []; size = 10; mtime = 1 }

abbrev entry_of_age : ℕ → ℕ → Entry
entry_of_age t n = record { path = (b'0' + t) ∷ []; len = 3; key = 1; bytes = n; mtime = t }

abbrev crowded : PrefixCache
crowded = record cache {
  index = entry_of_age 9 500 ∷ (entry_of_age 3 400 ∷ (entry_of_age 6 300 ∷ []));
}

oldest_goes : (evict_to_budget crowded []).0.index ≡ entry_of_age 6 300 ∷ (entry_of_age 9 500 ∷ [])
unfolding evict_to_budget
oldest_goes = refl

-- The files of two of the entries.
abbrev stored : Dir
stored = (b'3' ∷ [], torn_file) ∷ ((b'6' ∷ [], torn_file) ∷ [])

oldest_file_goes : (evict_to_budget crowded stored).1 ≡ (b'6' ∷ [], torn_file) ∷ []
unfolding evict_to_budget bytes_eq
oldest_file_goes = refl

evict_to_budget-Evicted_example : Evicted crowded stored (evict_to_budget crowded stored)
evict_to_budget-Evicted_example = evict_to_budget-Evicted crowded stored refl

-- The cache and the directory after a write.
abbrev filled : PrefixCache × Dir
filled = (write cache [] toks 3 (codes "g") (codes "kv") all_well).0

filled-enabled : filled.0.enabled ≡ true
unfolding write index_entry evict_to_budget
filled-enabled = refl

find-Answers_example : Answers filled.0 filled.1 prompt (find filled.0 filled.1 prompt)
find-Answers_example = find-Answers filled.0 filled.1 prompt filled-enabled

crashed-invisible_example :
    init cache cfg 7 true true (replace (tmp_path cache toks 3) torn_file [])
    ≡ init cache cfg 7 true true (unlink (tmp_path cache toks 3) [])
crashed-invisible_example = crashed-invisible cache cache [] toks 3 torn_file (λ e. absurd (cc))
