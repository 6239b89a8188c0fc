-- ===== src/Prefix/Restart.antt =====
-- What is written is found again after a restart, and a write that was cut off leaves no trace.
use q.Prelude.{
  ℕ, ◌+◌, ◌≤◌, ◌<◌, Bool, true, not, ◌||◌, Option, none, some, List, [], ◌∷◌, ◌++◌, Bytes, codes,
  length, take, drop, length-take, drop-length_add, Among, ◌≡◌, ◌≢◌, refl, sym, ap, subst, ◌∙◌,
  arith, if_intro, append_assoc, leb, ltb,
}
use q.Prefix.Keys.{fnv_start, prefix_key, entry_name, int_bytes, pfx_fnv1a64}
use q.Prefix.Files.{Dir, File, unlink, replace}
use q.Prefix.Cache.{PrefixCacheCfg, Entry, PrefixCache, bytes_of, find}
use q.Prefix.Store.{
  Outcome, write, index_entry, new_entry, entry_file, entry_of, final_path, tmp_path,
  evict_to_budget, name_of, is_torn, is_named, rescan_files, rescan, init,
}
use q.Prefix.Lookup.{Usable, Answers, find-Answers}
use q.Prefix.Names.{entry_name-is_named, entry_name-is_torn, tmp_name-is_torn}
use q.Prefix.Rescan.{
  unlink-NotIn, rescan_files-indexed, rescan_files-kept, rescan_files-swept, name_of-path_in,
  take-take, is_empty-false,
}

abbrev pair : PrefixCache → Dir → PrefixCache × Dir
pair c d = (c, d)

-- A write whose system calls all succeed, of a positive number of tokens that are there, by an
-- enabled cache whose index stays within the budget.
pub record GoesThrough (c : PrefixCache) (toks : List ℕ) (len : ℕ) (gdn kv : Bytes) (o : Outcome)
    : Type 0 where
  pub on : c.enabled ≡ true
  pub some_tokens : 0 < len
  pub enough : len ≤ length toks
  pub opened : o.open_ok ≡ true
  pub written : o.writes_ok ≡ true
  pub renamed : o.rename_ok ≡ true
  pub in_budget :
      bytes_of (index_entry c (new_entry c toks len (length gdn) (length kv) o.now)).index
      ≤ c.cfg.max_bytes

module _ (c : PrefixCache) (d : Dir) (toks : List ℕ) (len : ℕ) (gdn kv : Bytes) (o : Outcome)
    (g : GoesThrough c toks len gdn kv o) where
  written_dir : Dir
  written_dir =
      unlink (final_path c toks len) (unlink (tmp_path c toks len) d)
      ++ (final_path c toks len, entry_file c toks len gdn kv o.now) ∷ []

  write-dir : (write c d toks len gdn kv o).0.1 ≡ written_dir
  unfolding write written_dir
  write-dir =
      let entry = new_entry c toks len (length gdn) (length kv) o.now in
      let full =
        replace (final_path c toks len) (entry_file c toks len gdn kv o.now)
          (unlink (tmp_path c toks len) d) in
      let fits : leb (bytes_of (index_entry c entry).index) c.cfg.max_bytes ≡ true =
        ground (arith, g.in_budget) in
      if_intro (λ (r : (PrefixCache × Dir) × Bool). r.0.1 ≡ written_dir)
        (not c.enabled || (leb len 0 || ltb (length toks) len))
        (λ bad. absurd (ground (arith, g.on, g.some_tokens, g.enough)))
        (λ good.
          if_intro (λ (r : (PrefixCache × Dir) × Bool). r.0.1 ≡ written_dir) (not o.open_ok)
            (λ bad. absurd (ground (arith, g.opened)))
            (λ opened.
              if_intro (λ (r : (PrefixCache × Dir) × Bool). r.0.1 ≡ written_dir)
                (not o.writes_ok || not o.rename_ok)
                (λ bad. absurd (ground (arith, g.written, g.renamed)))
                (λ done. within (index_entry c entry) full fits)))
    where
      within :
          (k : PrefixCache) (full : Dir)
          → leb (bytes_of k.index) k.cfg.max_bytes ≡ true
          → (evict_to_budget k full).1 ≡ full
      within k full fits = unfold evict_to_budget in ground arith

  module _ (c0 : PrefixCache) (cfg' : PrefixCacheCfg) (same_root : cfg'.root ≡ c.cfg.root) where
    restarted : PrefixCache
    restarted = record c0 { cfg = cfg'; compat = c.compat; enabled = true }

    name_of-final : name_of restarted (final_path c toks len) ≡ entry_name (prefix_key toks len) len
    unfolding restarted
    name_of-final =
        ap (λ r. drop (length r + 1) (final_path c toks len)) same_root
        ∙ name_of-path_in c (entry_name (prefix_key toks len) len)

    found_entry : Entry
    found_entry = record {
      path = final_path c toks len;
      len = len;
      key = prefix_key toks len;
      bytes = (entry_file c toks len gdn kv o.now).size;
      mtime = o.now;
    }

    entry_of-written :
        entry_of restarted
          (final_path c toks len)
          (entry_file c toks len gdn kv o.now)
          (entry_file c toks len gdn kv o.now).header
        ≡ some found_entry
    unfolding entry_of entry_file restarted found_entry
    entry_of-written = ground (arith, g.some_tokens)

    -- The files and the index behind the restart.
    after : (PrefixCache × Dir) × Bool
    after = init c0 cfg' c.compat true true (write c d toks len gdn kv o).0.1

    after-rescan :
        cfg'.root ≢ []
        → after.0 ≡ (
          record restarted { index = (rescan_files restarted written_dir).0 },
          (rescan_files restarted written_dir).1,
        )
    unfolding after init rescan restarted
    after-rescan named = rw (is_empty-false cfg'.root named) (
        ap
          (λ (x : Dir).
            let r = rescan_files (record c0 { cfg = cfg'; compat = c.compat; enabled = true }) x in
            pair (record c0 { cfg = cfg'; compat = c.compat; enabled = true; index = r.0 }) r.1)
          write-dir)

    new-Usable :
        (prompt : List ℕ)
        → cfg'.min_tokens ≤ len
        → take len prompt ≡ take len toks
        → len < length prompt
        → Usable
            (record restarted { index = (rescan_files restarted written_dir).0 })
            (rescan_files restarted written_dir).1
            prompt
            found_entry
    unfolding found_entry entry_file restarted written_dir
    new-Usable prompt long same strict = record {
      file = entry_file c toks len gdn kv o.now;
      stored =
          rescan_files-kept restarted (final_path c toks len) (entry_file c toks len gdn kv o.now)
            (unlink (final_path c toks len) (unlink (tmp_path c toks len) d))
            (ap is_torn name_of-final ∙ entry_name-is_torn (prefix_key toks len) len)
            (unlink-NotIn (final_path c toks len) (unlink (tmp_path c toks len) d));
      whole = omega (arith, length-take len toks, g.enough);
      same = take-take len toks ∙ sym same;
      keyed = key_of same;
      long = long;
      strict = strict;
    }
      where
        key_of : take len prompt ≡ take len toks → prefix_key prompt len ≡ prefix_key toks len
        key_of e = unfold prefix_key in ap (λ ts. pfx_fnv1a64 (int_bytes ts) fnv_start) e

    new-indexed : Among found_entry (rescan_files restarted written_dir).0
    unfolding written_dir
    new-indexed =
        rescan_files-indexed restarted (final_path c toks len) (entry_file c toks len gdn kv o.now)
          (unlink (final_path c toks len) (unlink (tmp_path c toks len) d)) found_entry
          (ap is_torn name_of-final ∙ entry_name-is_torn (prefix_key toks len) len)
          (ap is_named name_of-final ∙ entry_name-is_named (prefix_key toks len) len)
          entry_of-written

    -- After a write that goes through and keeps the index within the budget, so that it evicts
    -- nothing, a new process with the same directory and compatibility hash whose minimum is not
    -- above the length finds, for every prompt that goes on from the written tokens, an entry that is
    -- as long at least, and whose file begins with the prompt's tokens.
    pub write-restart-find :
        (prompt : List ℕ)
        → cfg'.root ≢ []
        → cfg'.min_tokens ≤ len
        → take len prompt ≡ take len toks
        → len < length prompt
        → let r = (init c0 cfg' c.compat true true (write c d toks len gdn kv o).0.1).0 in
          (e : Entry) × (find r.0 r.1 prompt ≡ some e) × (len ≤ e.len) × Usable r.0 r.1 prompt e
    unfolding after
    write-restart-find prompt named long same strict =
        subst
          (λ (r : PrefixCache × Dir).
            (e : Entry) × (find r.0 r.1 prompt ≡ some e) × (len ≤ e.len) × Usable r.0 r.1 prompt e)
          (sym (after-rescan named))
          (found (find c1 d1 prompt) (find-Answers c1 d1 prompt on1) refl)
      where
        c1 : PrefixCache
        c1 = record restarted { index = (rescan_files restarted written_dir).0 }

        d1 : Dir
        d1 = (rescan_files restarted written_dir).1

        on1 : c1.enabled ≡ true
        on1 = unfold restarted in refl

        found :
            (a : Option Entry)
            → Answers c1 d1 prompt a
            → find c1 d1 prompt ≡ a
            → (e : Entry) × (find c1 d1 prompt ≡ some e) × (len ≤ e.len) × Usable c1 d1 prompt e
        found none ans eq =
            absurd (ans found_entry new-indexed (new-Usable prompt long same strict))
        found (some e) ans eq = (e, eq, longer, ans.1)
          where
            longer : len ≤ e.len
            longer =
                unfold found_entry in
                ans.2 found_entry new-indexed (new-Usable prompt long same strict)

-- A process that starts in the directory after a write was cut off, whatever the write had left
-- under the temporary name, has the same index and files as one that starts without that file.
pub crashed-invisible :
    (c c0 : PrefixCache) (d : Dir) (toks : List ℕ) (len : ℕ) (torn : File)
    → c.cfg.root ≢ []
    → init c0 c.cfg c.compat true true (replace (tmp_path c toks len) torn d)
      ≡ init c0 c.cfg c.compat true true (unlink (tmp_path c toks len) d)
unfolding init rescan replace
crashed-invisible c c0 d toks len torn named =
    let k = record c0 { cfg = c.cfg; compat = c.compat; enabled = true } in
    rw (is_empty-false c.cfg.root named) (
      ap (λ (r : List Entry × Dir). ((record k { index = r.0 }, r.1), true))
        (rescan_files-swept k (tmp_path c toks len) torn (unlink (tmp_path c toks len) d) (
          ap is_torn (
            ap (drop (length c.cfg.root + 1))
              (append_assoc c.cfg.root (b'/' ∷ entry_name (prefix_key toks len) len) (codes ".tmp"))
            ∙ drop-length_add 1 c.cfg.root
                (b'/' ∷ (entry_name (prefix_key toks len) len ++ codes ".tmp")))
          ∙ tmp_name-is_torn (prefix_key toks len) len)))
