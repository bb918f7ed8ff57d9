-- ===== src/Store/Recovery.antt =====
-- internal/state/store.go: a restart after any operations.
use github_runners_infra.Prelude.{[], none, ◌≡◌, refl}
use github_runners_infra.Dict.{SameMap}
use github_runners_infra.Dict.Laws.{SameMap-refl}
use github_runners_infra.Store.{FileStore, Os, ok, missing}
use github_runners_infra.Store.Journal.Replay.{replay}
use github_runners_infra.Store.Save.Durable.{Holds-SameMap}
use github_runners_infra.Store.Update.Durable.{IsDurable}
use github_runners_infra.Store.Open.{new_file_store}
use github_runners_infra.Store.Open.Reopen.{ReadsFiles, load_files, reopens}
use github_runners_infra.Store.Operations.{Reaches}
use github_runners_infra.Store.Operations.Reach.{Reaches-IsDurable}

-- The store that a first start opens, with no files on the disk.
pub new_file_store-IsDurable :
    IsDurable (new_file_store (record { snapshot = missing; journal = none }))
unfolding new_file_store replay
new_file_store-IsDurable = record {
  holds = record {
    base = [];
    reached = [];
    base_decodes = refl;
    replays = refl;
    no_tail = refl;
    same = SameMap-refl [];
  };
  saved = SameMap-refl [];
}

-- If the files of a store hold its records and the calls that read files succeed, then after any
-- sequence of operations, with any answers of the operating system but a failing truncation,
-- loading the snapshot and the journal that are on the disk succeeds and gives, under every key,
-- the record that the store in memory held.
pub reopens_after :
    (os : Os) (s t : FileStore)
    → ReadsFiles os
    → IsDurable s
    → Reaches s t
    → ((load_files os t.disk).0 ≡ ok tt) × SameMap (load_files os t.disk).1.records t.records
reopens_after os s t works d r =
    let e = Reaches-IsDurable d r in reopens os t works (Holds-SameMap e.holds e.saved)
