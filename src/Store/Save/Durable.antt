-- ===== src/Store/Save/Durable.antt =====
-- What a save does to the disk: after a success the files hold the records, and after an error whose
-- rollback worked they hold what they held before.
use github_runners_infra.Prelude.{
  ℕ, false, Option, none, some, List, [], ◌∷◌, Text, ◌≡◌, refl, arith, if◌then◌else◌, text_eq_iff,
  mem,
}
use github_runners_infra.Dict.{Dict, get, SameMap}
use github_runners_infra.Dict.Laws.{SameMap-sym, SameMap-trans}
use github_runners_infra.Dict.Last.{last}
use github_runners_infra.Record.{Record}
use github_runners_infra.Store.{
  Entry, Line, entry, JournalFile, Snapshot, missing, no_bytes, malformed, decoded, Disk, Os,
  FileStore,
}
use github_runners_infra.Store.Journal.{apply_entry, append_line, empty_journal}
use github_runners_infra.Store.Journal.Replay.{
  replay, resolve, get-apply_entry, replay_total, replay_again, replay-append,
}
use github_runners_infra.Store.Save.{change_of, changes_of, compact}

-- The map of a snapshot file, as `loadSnapshot` reads it.
abbrev pub snapshot_records : Snapshot → Option (Dict Record)
snapshot_records missing = some []
snapshot_records no_bytes = some []
snapshot_records malformed = none
snapshot_records (decoded none) = some []
snapshot_records (decoded (some d)) = some d

abbrev pub journal_lines : Option JournalFile → List Line
journal_lines none = []
journal_lines (some j) = j.lines

abbrev pub journal_tail : Option JournalFile → Option Line
journal_tail none = none
journal_tail (some j) = j.tail

-- The files decode, end in a newline, and lead to the records `m`.
pub record Holds (disk : Disk) (m : Dict Record) : Type 0 where
  pub base : Dict Record
  pub reached : Dict Record
  pub base_decodes : snapshot_records disk.snapshot ≡ some base
  pub replays : replay (journal_lines disk.journal) base ≡ some reached
  pub no_tail : journal_tail disk.journal ≡ none
  pub same : SameMap reached m

-- A key that is not dirty has not changed since the last save.
pub record IsTracked (s : FileStore) : Type 0 where
  pub clean : (k : Text) → mem k s.dirty_keys ≡ false → get k s.records ≡ get k s.persisted

change_of_resolves : (a b : Option Record) → resolve (change_of a b) b ≡ a
unfolding change_of
change_of_resolves a b = ground arith

last-changes_of :
    (k : Text) (ks : List Text) (records persisted : Dict Record)
    → last k (changes_of ks records persisted)
      ≡ (if mem k ks then change_of (get k records) (get k persisted) else none)
unfolding changes_of last mem
last-changes_of k [] records persisted = refl
last-changes_of k (j ∷ ks) records persisted =
    ground (arith, text_eq_iff j k, last-changes_of k ks records persisted)

-- The saved changes take the persisted map to the records.
pub apply_changes :
    (s : FileStore)
    → IsTracked s
    → SameMap (apply_entry (changes_of s.dirty_keys s.records s.persisted) s.persisted) s.records
apply_changes s t = record {
  at = λ k. ground (
    arith,
    get-apply_entry k (changes_of s.dirty_keys s.records s.persisted) s.persisted,
    last-changes_of k s.dirty_keys s.records s.persisted,
    change_of_resolves (get k s.records) (get k s.persisted),
    t.clean k,
  );
}

SameMap-apply_entry :
    (e : Entry) {a b : Dict Record} → SameMap a b → SameMap (apply_entry e a) (apply_entry e b)
SameMap-apply_entry e {a} {b} h = record {
  at = λ k. ground (arith, get-apply_entry k e a, get-apply_entry k e b, h.at k);
}

pub Holds-SameMap : {disk : Disk} {m m' : Dict Record} → Holds disk m → SameMap m m' → Holds disk m'
Holds-SameMap h same = record {
  base = h.base;
  reached = h.reached;
  base_decodes = h.base_decodes;
  replays = h.replays;
  no_tail = h.no_tail;
  same = SameMap-trans h.same same;
}

-- Creating the journal changes nothing that the files hold.
pub Holds-open :
    (disk : Disk) (m : Dict Record)
    → disk.journal ≡ none
    → Holds disk m
    → Holds (record disk { journal = some empty_journal }) m
Holds-open disk m e h = record {
  base = h.base;
  reached = h.reached;
  base_decodes = h.base_decodes;
  replays = rw e at (h.replays);
  no_tail = refl;
  same = h.same;
}

-- A journal that is put back holds what it held.
pub Holds-journal :
    (disk : Disk) (j : JournalFile) (m : Dict Record)
    → disk.journal ≡ some j
    → Holds disk m
    → Holds (record disk { journal = some j }) m
Holds-journal disk j m e h = record {
  base = h.base;
  reached = h.reached;
  base_decodes = h.base_decodes;
  replays = rw e at (h.replays);
  no_tail = rw e at (h.no_tail);
  same = h.same;
}

-- An appended entry is one more change of what the files hold.
pub Holds-append_line :
    (disk : Disk) (j : JournalFile) (e : Entry) (n : ℕ) (m : Dict Record)
    → disk.journal ≡ some j
    → Holds disk m
    → Holds (record disk { journal = some (append_line j (entry e n)) }) (apply_entry e m)
unfolding append_line
Holds-append_line disk j e n m eq h = record {
  base = h.base;
  reached = apply_entry e h.reached;
  base_decodes = h.base_decodes;
  replays =
      let tail : j.tail ≡ none = rw eq at (h.no_tail) in
      let lines : replay j.lines h.base ≡ some h.reached = rw eq at (h.replays) in
      rw tail (replay-append j.lines e n h.base lines);
  no_tail = refl;
  same = SameMap-apply_entry e h.same;
}

-- A snapshot of the records that the files hold may be put below the whole journal.
Holds-snapshot :
    (disk : Disk) (records m : Dict Record)
    → SameMap records m
    → Holds disk m
    → Holds (record disk { snapshot = decoded (some records) }) m
Holds-snapshot disk records m same h =
    let (r', eq) = replay_total (journal_lines disk.journal) h.base records h.replays in
    record {
      base = records;
      reached = r';
      base_decodes = refl;
      replays = eq;
      no_tail = h.no_tail;
      same =
          SameMap-trans
            (replay_again (journal_lines disk.journal) h.base records h.replays
              (SameMap-trans same (SameMap-sym h.same)) eq)
            h.same;
    }

-- With the snapshot written the journal may be emptied.
pub Holds-truncated :
    (disk : Disk) (records m : Dict Record)
    → SameMap records m
    → Holds (record disk { snapshot = decoded (some records); journal = some empty_journal }) m
unfolding replay
Holds-truncated disk records m same = record {
  base = records;
  reached = records;
  base_decodes = refl;
  replays = refl;
  no_tail = refl;
  same = same;
}

-- A compaction may stop at any call.
pub compact-Holds :
    (os : Os) (s : FileStore) (m : Dict Record)
    → SameMap s.records m
    → Holds s.disk m
    → Holds (compact os s).1.disk m
unfolding compact
compact-Holds os s m same h =
    ground
      (arith, Holds-snapshot s.disk s.records m same h, Holds-truncated s.disk s.records m same)
