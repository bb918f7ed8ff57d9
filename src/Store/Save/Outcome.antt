-- ===== src/Store/Save/Outcome.antt =====
-- The two outcomes of a save.
use github_runners_infra.Prelude.{
  Bool, true, false, Option, none, some, [], ◌∷◌, ◌≡◌, refl, arith, Bool-cases, inl, inr,
}
use github_runners_infra.Dict.{Dict, SameMap}
use github_runners_infra.Dict.Laws.{SameMap-sym}
use github_runners_infra.Record.{Record}
use github_runners_infra.Store.{
  Entry, entry, JournalFile, Os, FileStore, Result, ok, err, complete, short, IoStep, Error,
  WriteOutcome, need, ◌>>◌,
}
use github_runners_infra.Store.Journal.{apply_entry, append_line, empty_journal}
use github_runners_infra.Store.Save.{
  changes_of, set_journal, compact, roll_back, commit, append_entry, write_changes_to,
  write_changes, save, compaction_due, compact_if_due, mark_saved,
}
use github_runners_infra.Store.Save.Durable.{
  Holds, IsTracked, apply_changes, compact-Holds, Holds-append_line, Holds-open, Holds-journal,
}

-- After a success the files hold the records, and so does the persisted map; after an error both
-- are as they were.
abbrev pub IsSaveOutcome : FileStore → Result (Unit {0}) × FileStore → Type 0
IsSaveOutcome s (ok _, s') = Holds s'.disk s'.persisted × SameMap s'.persisted s.records
IsSaveOutcome s (err _, s') = Holds s'.disk s'.persisted × (s'.persisted ≡ s.persisted)

-- `roll_back` restores the file only if the truncation works.
abbrev pub RollbackWorks : Os → Type 0
RollbackWorks os = os.truncate_ok ≡ true

persisted-compact : (os : Os) (s : FileStore) → (compact os s).1.persisted ≡ s.persisted
unfolding compact
persisted-compact os s = ground arith

compact-IsSaveOutcome :
    (os : Os) (s : FileStore) (records : Dict Record)
    → s.records ≡ records
    → SameMap s.persisted records
    → Holds s.disk s.persisted
    → Holds (compact os s).1.disk (compact os s).1.persisted
      × SameMap (compact os s).1.persisted records
compact-IsSaveOutcome os s records e same h =
    rw (persisted-compact os s) (compact-Holds os s s.persisted (rw e (SameMap-sym same)) h, same)

compact_if_due-IsSaveOutcome :
    (os : Os) (s : FileStore)
    → SameMap s.persisted s.records
    → Holds s.disk s.persisted
    → Holds (compact_if_due os s).disk (compact_if_due os s).persisted
      × SameMap (compact_if_due os s).persisted s.records
unfolding compact_if_due
compact_if_due-IsSaveOutcome os s same h = elim (Bool-cases (compaction_due s)) [
  | inl due ↦ rw due (compact-IsSaveOutcome os s s.records refl same h)
  | inr early ↦ rw early (h, same)
]

module _ (os : Os) (s : FileStore) (changes : Entry) where
  commit_outcome :
      SameMap (apply_entry changes s.persisted) s.records
      → Holds s.disk (apply_entry changes s.persisted)
      → IsSaveOutcome s (commit os changes s)
  unfolding commit
  commit_outcome same h = compact_if_due-IsSaveOutcome os (mark_saved os changes s) same h

  roll_back_outcome :
      (step : IoStep) (j j' : JournalFile)
      → RollbackWorks os
      → s.disk.journal ≡ some j
      → Holds s.disk s.persisted
      → IsSaveOutcome s (roll_back os step j (set_journal j' s))
  unfolding roll_back
  roll_back_outcome step j j' works e h = rw works (Holds-journal s.disk j s.persisted e h, refl)

  append_entry_outcome :
      (w : WriteOutcome) (j : JournalFile)
      → RollbackWorks os
      → s.disk.journal ≡ some j
      → SameMap (apply_entry changes s.persisted) s.records
      → Holds s.disk s.persisted
      → IsSaveOutcome s (append_entry w os changes j s)
  unfolding append_entry
  append_entry_outcome (short left) j works e same h = roll_back_outcome _ j _ works e h
  append_entry_outcome complete j works e same h = elim (Bool-cases os.sync_ok) [
    | inl synced ↦ rw synced (
        compact_if_due-IsSaveOutcome os
          (mark_saved os changes (set_journal (append_line j (entry changes os.encoded_bytes)) s))
          same (Holds-append_line s.disk j changes os.encoded_bytes s.persisted e h))
    | inr unsynced ↦ rw unsynced (roll_back_outcome _ j _ works e h)
  ]

-- A guard that fails returns before anything is written.
need_outcome :
    (b : Bool) (e : Error) (s t : FileStore) (m : FileStore → Result (Unit {0}) × FileStore)
    → Holds t.disk t.persisted
    → t.persisted ≡ s.persisted
    → IsSaveOutcome s (m t)
    → IsSaveOutcome s ((need b e >> m) t)
need_outcome true e s t m h same rest = rest
need_outcome false e s t m h same rest = (h, same)

module _ (os : Os) (s : FileStore) (changes : Entry) where
  write_changes_to_outcome :
      (j : Option JournalFile)
      → RollbackWorks os
      → s.disk.journal ≡ j
      → SameMap (apply_entry changes s.persisted) s.records
      → Holds s.disk s.persisted
      → IsSaveOutcome s (write_changes_to os changes j s)
  unfolding write_changes_to
  write_changes_to_outcome none works e same h =
      let opened = set_journal empty_journal s in
      let h' : Holds opened.disk s.persisted = Holds-open s.disk s.persisted e h in
      need_outcome os.open_ok _ s s _ h refl (
        need_outcome os.chmod_ok _ s opened _ h' refl (
          need_outcome os.sync_directory_ok _ s opened _ h' refl (
            need_outcome os.fstat_ok _ s opened _ h' refl
              (append_entry_outcome os opened changes os.write empty_journal works refl same h'))))
  write_changes_to_outcome (some j) works e same h = need_outcome os.open_ok _ s s _ h refl (
      need_outcome os.chmod_ok _ s s _ h refl (
        need_outcome os.fstat_ok _ s s _ h refl
          (append_entry_outcome os s changes os.write j works e same h)))

write_changes_outcome :
    (os : Os) (s : FileStore) (changes : Entry)
    → RollbackWorks os
    → SameMap (apply_entry changes s.persisted) s.records
    → Holds s.disk s.persisted
    → IsSaveOutcome s (write_changes os changes s)
unfolding write_changes apply_entry
write_changes_outcome os s [] works same h = (h, same)
write_changes_outcome os s (c ∷ changes) works same h = need_outcome os.encode_ok _ s s _ h refl (
    need_outcome os.stat_ok _ s s _ h refl
      (write_changes_to_outcome os s (c ∷ changes) s.disk.journal works refl same h))

-- Where the rollback of a failed append works, a save that succeeds leaves files that hold the
-- records in memory, and one that fails leaves files that hold what they held.
pub save_outcome :
    (os : Os) (s : FileStore)
    → RollbackWorks os
    → IsTracked s
    → Holds s.disk s.persisted
    → IsSaveOutcome s (save os s)
unfolding save
save_outcome os s works tracked h = elim (Bool-cases s.closed) [
  | inl closed ↦ simp closed (h, refl)
  | inr opened ↦ simp opened (
      need_outcome os.mkdir_ok _ s s
        (write_changes os (changes_of s.dirty_keys s.records s.persisted)) h refl
        (write_changes_outcome os s _ works (apply_changes s tracked) h))
]
