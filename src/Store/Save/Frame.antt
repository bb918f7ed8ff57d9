-- ===== src/Store/Save/Frame.antt =====
-- What a save leaves alone: all but the persisted map, the set of dirty keys, the counters of the
-- journal and the disk.
use github_runners_infra.Prelude.{Option, none, some, [], ◌∷◌, ◌≡◌, arith}
use github_runners_infra.Store.{
  FileStore, Os, JournalFile, Entry, entry, IoStep, WriteOutcome, complete, short,
}
use github_runners_infra.Store.Journal.{append_line, append_part, empty_journal}
use github_runners_infra.Store.Save.{
  save, write_changes, write_changes_to, append_entry, changes_of, commit, roll_back, compact,
  set_journal,
}

-- The fields that no save touches.
pub record SameFields (s s' : FileStore) : Type 0 where
  pub locked : s'.locked ≡ s.locked
  pub records : s'.records ≡ s.records
  pub runner_keys : s'.runner_keys ≡ s.runner_keys
  pub deleted_retention : s'.deleted_retention ≡ s.deleted_retention
  pub ordered_keys : s'.ordered_keys ≡ s.ordered_keys
  pub keys_dirty : s'.keys_dirty ≡ s.keys_dirty
  pub max_live_runners : s'.max_live_runners ≡ s.max_live_runners
  pub closed : s'.closed ≡ s.closed

compact-SameFields : (os : Os) (s : FileStore) → SameFields s (compact os s).1
unfolding compact
compact-SameFields os s = ground arith

commit-SameFields : (os : Os) (e : Entry) (s : FileStore) → SameFields s (commit os e s).1
unfolding commit
commit-SameFields os e s = ground arith

roll_back-SameFields :
    (os : Os) (step : IoStep) (j : JournalFile) (s : FileStore)
    → SameFields s (roll_back os step j s).1
unfolding roll_back
roll_back-SameFields os step j s = ground arith

append_entry-SameFields :
    (w : WriteOutcome) (os : Os) (e : Entry) (j : JournalFile) (s : FileStore)
    → SameFields s (append_entry w os e j s).1
unfolding append_entry
append_entry-SameFields (short left) os e j s =
    ground
      (arith, roll_back-SameFields os IoStep.append_journal j (set_journal (append_part j left) s))
append_entry-SameFields complete os e j s =
    let written = set_journal (append_line j (entry e os.encoded_bytes)) s in
    ground
      (arith, commit-SameFields os e written, roll_back-SameFields os IoStep.sync_journal j written)

write_changes_to-SameFields :
    (os : Os) (e : Entry) (j : Option JournalFile) (s : FileStore)
    → SameFields s (write_changes_to os e j s).1
unfolding write_changes_to
write_changes_to-SameFields os e none s =
    ground
      (arith, append_entry-SameFields os.write os e empty_journal (set_journal empty_journal s))
write_changes_to-SameFields os e (some j) s =
    ground (arith, append_entry-SameFields os.write os e j s)

write_changes-SameFields :
    (os : Os) (e : Entry) (s : FileStore) → SameFields s (write_changes os e s).1
unfolding write_changes
write_changes-SameFields os [] s = ground arith
write_changes-SameFields os (c ∷ e) s =
    ground (arith, write_changes_to-SameFields os (c ∷ e) s.disk.journal s)

pub save-SameFields : (os : Os) (s : FileStore) → SameFields s (save os s).1
unfolding save
save-SameFields os s =
    ground (arith, write_changes-SameFields os (changes_of s.dirty_keys s.records s.persisted) s)
