-- ===== src/Store/Journal.antt =====
-- internal/state/store.go: the contents of the journal, as `saveLocked` appends to them and
-- `loadJournal` replays them.
pub mod Replay
use github_runners_infra.Prelude.{
  ℕ, ◌+◌, Bool, true, false, Option, none, some, List, [], ◌∷◌, ◌++◌, Text, if◌then◌else◌,
}
use github_runners_infra.Dict.{Dict, put, delete}
use github_runners_infra.Record.{Record}
use github_runners_infra.Store.{Entry, Line, blank, entry, corrupt, JournalFile, Os}

-- The body of the loop over `entry.Records`; the same loop updates `persisted` after a save.
unfoldable pub apply_change : Text → Option Record → Dict Record → Dict Record
apply_change k none d = delete k d
apply_change k (some r) d = put k r d

unfoldable pub apply_entry : Entry → Dict Record → Dict Record
apply_entry [] d = d
apply_entry ((k, c) ∷ e) d = apply_entry e (apply_change k c d)

abbrev pub empty_journal : JournalFile
empty_journal = record { lines = []; tail = none }

-- Two runs of bytes with no newline between them. White space round an entry does no harm.
unfoldable pub glue : Line → Line → Line
glue (blank m) (blank n) = blank (m + n)
glue (blank m) (entry e n) = entry e (m + n)
glue (blank m) (corrupt n) = corrupt (m + n)
glue (entry e m) (blank n) = entry e (m + n)
glue (entry e m) (entry _ n) = corrupt (m + n)
glue (entry e m) (corrupt n) = corrupt (m + n)
glue (corrupt m) (blank n) = corrupt (m + n)
glue (corrupt m) (entry _ n) = corrupt (m + n)
glue (corrupt m) (corrupt n) = corrupt (m + n)

unfoldable pub after_tail : Option Line → Line → Line
unfolding glue
after_tail none l = l
after_tail (some t) l = glue t l

-- All bytes of a line and its newline reach the file.
unfoldable pub append_line : JournalFile → Line → JournalFile
unfolding after_tail
append_line j l = record { lines = j.lines ++ after_tail j.tail l ∷ []; tail = none }

-- Some bytes of a line do.
unfoldable pub append_part : JournalFile → Option Line → JournalFile
unfolding after_tail
append_part j none = j
append_part j (some l) = record j { tail = some (after_tail j.tail l) }

unfoldable pub line_bytes : Line → ℕ
line_bytes (blank n) = n
line_bytes (entry _ n) = n
line_bytes (corrupt n) = n

unfoldable pub lines_bytes : List Line → ℕ
unfolding line_bytes
lines_bytes [] = 0
lines_bytes (l ∷ ls) = line_bytes l + 1 + lines_bytes ls
