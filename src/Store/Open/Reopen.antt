-- ===== src/Store/Open/Reopen.antt =====
-- What the loading of the files gives back.
use github_runners_infra.Prelude.{
  ◌+◌, Bool, true, false, Option, none, some, List, [], ◌∷◌, ◌≡◌, refl, arith,
}
use github_runners_infra.Dict.{Dict, SameMap}
use github_runners_infra.Record.{Record}
use github_runners_infra.Store.{
  FileStore, Os, Disk, Result, ok, Line, blank, entry, corrupt, JournalFile, Snapshot, missing,
  no_bytes, malformed, decoded, ◌>>=◌,
}
use github_runners_infra.Store.Journal.{apply_entry}
use github_runners_infra.Store.Journal.Replay.{replay}
use github_runners_infra.Store.Save.Durable.{Holds, snapshot_records, journal_lines, journal_tail}
use github_runners_infra.Store.Open.{
  load_snapshot, load_lines, read_journal, load_journal, new_file_store,
}

-- The calls of the loading succeed.
pub record ReadsFiles (os : Os) : Type 0 where
  pub read_snapshot : os.read_snapshot_ok ≡ true
  pub chmod_snapshot : os.chmod_snapshot_ok ≡ true
  pub read_journal : os.read_journal_ok ≡ true
  pub chmod_journal : os.chmod_read_journal_ok ≡ true

-- The loop over the lines is a replay of them.
load_lines-replay :
    (ls : List Line) (s : FileStore) {d : Dict Record}
    → replay ls s.records ≡ some d
    → ((load_lines ls s).0 ≡ ok tt) × ((load_lines ls s).1.records ≡ d)
unfolding load_lines replay
load_lines-replay [] s h = (refl, cc)
load_lines-replay (blank n ∷ ls) s h = load_lines-replay ls s h
load_lines-replay (entry e n ∷ ls) s h =
    load_lines-replay ls
      (record s { records = apply_entry e s.records; journal_entries = s.journal_entries + 1 }) h
load_lines-replay (corrupt n ∷ ls) s h = cc

-- `loadSnapshot` and then `loadJournal`, on a store that was just made.
abbrev pub load_files : Os → Disk → Result (Unit {0}) × FileStore
load_files os disk = (load_snapshot os >>= λ _. load_journal os) (new_file_store disk)

-- A snapshot that decodes is what the store holds.
load_snapshot-decodes :
    (os : Os) (disk : Disk) (base : Dict Record)
    → ReadsFiles os
    → snapshot_records disk.snapshot ≡ some base
    → (b : Bool) × (load_snapshot os (new_file_store disk)
        ≡ (ok b, record (new_file_store disk) { records = base }))
unfolding load_snapshot new_file_store
load_snapshot-decodes os disk base works h = at disk.snapshot refl h
  where
    at :
        (snapshot : Snapshot)
        → disk.snapshot ≡ snapshot
        → snapshot_records snapshot ≡ some base
        → (b : Bool) × (load_snapshot os (new_file_store disk)
            ≡ (ok b, record (new_file_store disk) { records = base }))
    at missing e h = (true, ground (arith, works, e))
    at no_bytes e h = (false, ground (arith, works, e))
    at malformed e h = cc
    at (decoded none) e h = (false, ground (arith, works, e))
    at (decoded (some d)) e h = (false, ground (arith, works, e))

-- A journal that decodes and ends in a newline leads to its replay.
load_journal-replays :
    (os : Os) (s : FileStore) (reached : Dict Record)
    → ReadsFiles os
    → replay (journal_lines s.disk.journal) s.records ≡ some reached
    → journal_tail s.disk.journal ≡ none
    → ((load_journal os s).0 ≡ ok tt) × ((load_journal os s).1.records ≡ reached)
unfolding load_journal
load_journal-replays os s reached works h tail = at s.disk.journal h tail
  where
    at :
        (journal : Option JournalFile)
        → replay (journal_lines journal) s.records ≡ some reached
        → journal_tail journal ≡ none
        → ((read_journal os journal s).0 ≡ ok tt)
          × ((read_journal os journal s).1.records ≡ reached)
    at none h tail = ground (arith, load_lines-replay [] s h)
    at (some j) h tail = ground (arith, works, load_lines-replay j.lines s h)

-- Reopening the files of a durable store gives its records back.
pub reopens :
    (os : Os) (s : FileStore)
    → ReadsFiles os
    → Holds s.disk s.records
    → ((load_files os s.disk).0 ≡ ok tt) × SameMap (load_files os s.disk).1.records s.records
unfolding new_file_store
reopens os s works h =
    let (b, first) = load_snapshot-decodes os s.disk h.base works h.base_decodes in
    let s1 = record (new_file_store s.disk) { records = h.base } in
    let second = load_journal-replays os s1 h.reached works h.replays h.no_tail in
    rw first (second.0, rw second.1 h.same)
