-- ===== src/Store/Save.antt =====
-- internal/state/store.go, `saveLocked`, `compactLocked` and `writeSnapshotLocked`.
pub mod Durable
pub mod Outcome
pub mod Frame
use github_runners_infra.Prelude.{
  ℕ, ◌+◌, ◌*◌, Bool, true, false, ◌||◌, Option, none, some, List, [], ◌∷◌, Text, if◌then◌else◌, leb,
  mem, ite,
}
use github_runners_infra.Dict.{Dict, get}
use github_runners_infra.Record.{Record, Record-discrete}
use github_runners_infra.Store.{
  Entry, entry, JournalFile, decoded, IoStep, Error, store_closed, failed_at, rollback_failed,
  Result, ok, err, WriteOutcome, complete, short, Os, FileStore, ◌>>=◌, ◌>>◌, pure, need, modify,
  continue,
}
use github_runners_infra.Store.Journal.{apply_entry, append_line, append_part, empty_journal}

-- The change of one dirty key, if there is one: the `switch` of the loop over `dirtyKeys`.
unfoldable pub change_of : Option Record → Option Record → Option (Option Record)
change_of none none = none
change_of none (some old) = some none
change_of (some new) none = some (some new)
change_of (some new) (some old) = ite (Record-discrete new old) none (some (some new))

add_change : Text → Option (Option Record) → Entry → Entry
add_change k none e = e
add_change k (some c) e = (k, c) ∷ e

unfoldable pub changes_of : List Text → Dict Record → Dict Record → Entry
unfolding change_of add_change
changes_of [] records persisted = []
changes_of (k ∷ ks) records persisted =
    add_change k (change_of (get k records) (get k persisted)) (changes_of ks records persisted)

unfoldable pub set_journal : JournalFile → FileStore → FileStore
set_journal j s = record s { disk = record (s.disk) { journal = some j } }

-- `writeSnapshotLocked`
unfoldable pub write_snapshot : Os → FileStore → Result (Unit {0}) × FileStore
write_snapshot os = do
  need os.encode_snapshot_ok (failed_at IoStep.encode_snapshot)
  need os.temporary_ok (failed_at IoStep.write_temporary)
  need os.rename_ok (failed_at IoStep.replace_snapshot)
  modify (λ s. record s { disk = record (s.disk) { snapshot = decoded (some s.records) } })
  need os.sync_snapshot_directory_ok (failed_at IoStep.sync_directory)

-- `compactLocked`
unfoldable pub compact : Os → FileStore → Result (Unit {0}) × FileStore
unfolding write_snapshot set_journal
compact os = do
  write_snapshot os
  need os.open_truncate_ok (failed_at IoStep.truncate_journal)
  modify (set_journal empty_journal)
  need os.sync_truncated_ok (failed_at IoStep.truncate_journal)
  need os.close_truncated_ok (failed_at IoStep.truncate_journal)
  modify (λ s. record s { journal_entries = 0; journal_bytes = 0 })

abbrev pub compaction_due : FileStore → Bool
compaction_due s = leb 512 s.journal_entries || leb (4 * 1024 * 1024) s.journal_bytes

-- `rollbackJournal` to the length before the append, and the error that the caller returns.
unfoldable pub roll_back : Os → IoStep → JournalFile → FileStore → Result (Unit {0}) × FileStore
unfolding set_journal
roll_back os step j s =
    if os.truncate_ok
    then (
      err (if os.sync_rollback_ok then failed_at step else rollback_failed step),
      set_journal j s,
    )
    else (err (rollback_failed step), s)

unfoldable pub compact_if_due : Os → FileStore → FileStore
unfolding compact
compact_if_due os s = if compaction_due s then (compact os s).1 else s

-- The bookkeeping after a synced append.
abbrev pub mark_saved : Os → Entry → FileStore → FileStore
mark_saved os changes s = record s {
  persisted = apply_entry changes s.persisted;
  dirty_keys = [];
  journal_entries = s.journal_entries + 1;
  journal_bytes = s.journal_bytes + os.encoded_bytes + 1;
}

-- What follows a synced append. An error of the compaction is only logged.
unfoldable pub commit : Os → Entry → FileStore → Result (Unit {0}) × FileStore
unfolding compact_if_due
commit os changes s = (ok tt, compact_if_due os (mark_saved os changes s))

-- The write to the opened journal `j`, by what the call did.
unfoldable pub append_entry :
    WriteOutcome → Os → Entry → JournalFile → FileStore → Result (Unit {0}) × FileStore
unfolding set_journal roll_back commit
append_entry (short left) os changes j s =
    roll_back os IoStep.append_journal j (set_journal (append_part j left) s)
append_entry complete os changes j s =
    let written = set_journal (append_line j (entry changes os.encoded_bytes)) s in
    if os.sync_ok then commit os changes written else roll_back os IoStep.sync_journal j written

-- From the opening of the journal on; an opened journal exists.
unfoldable pub write_changes_to :
    Os → Entry → Option JournalFile → FileStore → Result (Unit {0}) × FileStore
unfolding append_entry set_journal
write_changes_to os changes none = do
  need os.open_ok (failed_at IoStep.open_journal)
  modify (set_journal empty_journal)
  need os.chmod_ok (failed_at IoStep.secure_journal)
  need os.sync_directory_ok (failed_at IoStep.sync_directory)
  need os.fstat_ok (failed_at IoStep.stat_journal)
  append_entry os.write os changes empty_journal
write_changes_to os changes (some j) = do
  need os.open_ok (failed_at IoStep.open_journal)
  need os.chmod_ok (failed_at IoStep.secure_journal)
  need os.fstat_ok (failed_at IoStep.stat_journal)
  append_entry os.write os changes j

unfoldable pub write_changes : Os → Entry → FileStore → Result (Unit {0}) × FileStore
unfolding write_changes_to
write_changes os [] = modify (λ s. record s { dirty_keys = [] })
write_changes os (c ∷ changes) = do
  need os.encode_ok (failed_at IoStep.encode_journal)
  need os.stat_ok (failed_at IoStep.stat_journal)
  λ s. write_changes_to os (c ∷ changes) s.disk.journal s

-- `saveLocked`
unfoldable pub save : Os → FileStore → Result (Unit {0}) × FileStore
unfolding write_changes
save os s =
    if s.closed
    then (err store_closed, s)
    else (need os.mkdir_ok (failed_at IoStep.create_directory)
          >> write_changes os (changes_of s.dirty_keys s.records s.persisted))
        s

-- `markDirty`
unfoldable pub mark_dirty : Text → FileStore → FileStore
mark_dirty k s = record s {
  dirty_keys = if mem k s.dirty_keys then s.dirty_keys else k ∷ s.dirty_keys;
}
