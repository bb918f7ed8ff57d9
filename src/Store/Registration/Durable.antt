-- ===== src/Store/Registration/Durable.antt =====
-- internal/state/store.go: `MarkJITCreated` keeps the store durable.
use github_runners_infra.Prelude.{
  ℕ, Option, none, some, Text, text_eq_iff, ◌≡◌, inl, inr, refl, arith, mem, Bool-cases,
}
use github_runners_infra.Dict.{get, put}
use github_runners_infra.Dict.Laws.{get-put, SameMap-put_back}
use github_runners_infra.Record.{Record, is_terminal}
use github_runners_infra.Store.{FileStore, Os, Result, ok, err}
use github_runners_infra.Store.Identity.{completion_marker_key, runner_identity_key}
use github_runners_infra.Store.Save.Outcome.{RollbackWorks}
use github_runners_infra.Store.Update.{set_record, restore}
use github_runners_infra.Store.Update.Durable.{
  IsDurable, IsEdit, Undoes, save_or_undo-IsDurable, IsEdit-set_record,
}
use github_runners_infra.Store.Registration.{
  mark_jit, mark_jit_created, undo_jit, write_jit, index_identity, with_jit, live_marker,
  with_marker, spent_marker,
}

index_identity-IsDurable :
    (identity key : Text) (o : Result (Unit {0}) × FileStore)
    → IsDurable o.1
    → IsDurable (index_identity identity key o).1
unfolding index_identity
index_identity-IsDurable identity key (err e, s) d = d
index_identity-IsDurable identity key (ok u, s) d = record { holds = d.holds; saved = d.saved }

live_marker-get : (found : Option Record) {m : Record} → live_marker found ≡ some m → found ≡ some m
unfolding live_marker
live_marker-get found h = ground arith

module _ (os : Os) (works : RollbackWorks os) (s : FileStore) (d : IsDurable s) where
  undo_jit-Undoes :
      (now : ℕ) (key : Text) (r new : Record) (marker_key : Text) (marker : Option Record)
      → get key s.records ≡ some r
      → live_marker (get marker_key s.records) ≡ marker
      → Undoes s
          (write_jit now key new marker_key marker s)
          (undo_jit key r marker_key marker s.keys_dirty)
  unfolding write_jit undo_jit set_record restore
  undo_jit-Undoes now key r new marker_key none e m = record {
    disk = λ u. refl;
    persisted = λ u. refl;
    records = λ u same. rw same (SameMap-put_back key r new s.records e);
  }
  undo_jit-Undoes now key r new marker_key (some mk) e m = record {
    disk = λ u. refl;
    persisted = λ u. refl;
    records = λ u same. record {
      at = λ j. ground (
        arith,
        same,
        live_marker-get (get marker_key s.records) m,
        text_eq_iff marker_key j,
        text_eq_iff key j,
        get-put marker_key j mk (put key r u.records),
        get-put key j r u.records,
        get-put key j (with_marker mk new) (put marker_key (spent_marker now mk) s.records),
        get-put marker_key j (spent_marker now mk) s.records,
      );
    };
  }

  write_jit-IsEdit :
      (now : ℕ) (key : Text) (new : Record) (marker_key : Text) (marker : Option Record)
      → IsEdit s (write_jit now key new marker_key marker s)
  unfolding write_jit set_record mem
  write_jit-IsEdit now key new marker_key none = IsEdit-set_record key new s
  write_jit-IsEdit now key new marker_key (some mk) = record {
    disk = refl;
    persisted = refl;
    edited = λ j l. ground (
      arith,
      text_eq_iff marker_key j,
      text_eq_iff key j,
      text_eq_iff marker_key key,
      get-put key j (with_marker mk new) (put marker_key (spent_marker now mk) s.records),
      get-put marker_key j (spent_marker now mk) s.records,
    );
  }

  mark_jit-IsDurable :
      (now : ℕ) (key : Text) (runner_id : ℕ) (runner_name : Text) (found : Option Record)
      → get key s.records ≡ found
      → IsDurable (mark_jit os now key runner_id runner_name found s).1
  unfolding mark_jit
  mark_jit-IsDurable now key runner_id runner_name none e = d
  mark_jit-IsDurable now key runner_id runner_name (some r) e =
      elim (Bool-cases (is_terminal r.status)) [
        | inl t ↦ simp t d
        | inr t ↦
            let marker_key = completion_marker_key r.owner r.repository runner_id in
            let marker = live_marker (get marker_key s.records) in
            let new = with_jit now runner_id runner_name r in
            simp t (
              index_identity-IsDurable (runner_identity_key r.owner r.repository runner_id) key _ (
                save_or_undo-IsDurable (undo_jit key r marker_key marker s.keys_dirty) tt s
                  (write_jit now key new marker_key marker s) os works d
                  (write_jit-IsEdit now key new marker_key marker)
                  (undo_jit-Undoes now key r new marker_key marker e refl)))
      ]

  pub mark_jit_created-IsDurable :
      (now : ℕ) (key : Text) (runner_id : ℕ) (runner_name : Text)
      → IsDurable (mark_jit_created os now key runner_id runner_name s).1
  unfolding mark_jit_created
  mark_jit_created-IsDurable now key runner_id runner_name =
      mark_jit-IsDurable now key runner_id runner_name (get key s.records) refl
