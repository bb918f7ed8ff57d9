-- ===== src/Store/Sweep/Durable.antt =====
-- The sweeps keep the store durable: what they undo is what the records were.
use github_runners_infra.Prelude.{
  ℕ, true, false, Option, none, some, List, [], ◌∷◌, Text, text_eq, text_eq_iff, ◌≡◌, inl, inr,
  refl, arith, mem, Bool-cases, Option-cases, length, ◌==◌,
}
use github_runners_infra.Dict.{Dict, get, put, delete, keys, SameMap}
use github_runners_infra.Dict.Laws.{get-put, get-delete}
use github_runners_infra.Dict.Last.{last, later, last-put, last-put-none}
use github_runners_infra.Record.{Record}
use github_runners_infra.Store.{FileStore, Os}
use github_runners_infra.Store.Save.{mark_dirty}
use github_runners_infra.Store.Save.Outcome.{RollbackWorks}
use github_runners_infra.Store.Update.{set_record}
use github_runners_infra.Store.Update.Durable.{IsDurable, IsEdit, save_or_undo-IsDurable}
use github_runners_infra.Store.Sweep.{
  Sweep, sweep_one, release_swept, put_back, undo_sweep, release_swept_orphans, prune_one, prune,
  undo_prune, prune_deleted, is_swept, is_pruned,
}

get-put_back :
    (k : Text) (undo d : Dict Record) → get k (put_back undo d) ≡ later (last k undo) (get k d)
unfolding put_back last
get-put_back k [] d = refl
get-put_back k ((j, r) ∷ undo) d = ground (arith, get-put_back k undo (put j r d), get-put j k r d)

-- The store in the loop differs from `s` at dirty keys only, and the undo knows what they held.
record IsSweep (s : FileStore) (w : Sweep) : Type 0 where
  edit : IsEdit s w.store
  known : (k : Text) (r : Record) → last k w.undo ≡ some r → get k s.records ≡ some r
  unknown : (k : Text) → last k w.undo ≡ none → get k w.store.records ≡ get k s.records

put_back-IsSweep :
    (s : FileStore) (w : Sweep) → IsSweep s w → SameMap (put_back w.undo w.store.records) s.records
put_back-IsSweep s w h = record {
  at = λ k. elim (Option-cases (last k w.undo)) [
    | inl e ↦ ground (arith, get-put_back k w.undo w.store.records, h.unknown k e)
    | inr (r, e) ↦ ground (arith, get-put_back k w.undo w.store.records, h.known k r e)
  ];
}

-- One more write that the undo remembers.
remembered-IsSweep :
    (s : FileStore) (w : Sweep) (k : Text) (r : Record) (t : FileStore)
    → get k s.records ≡ some r
    → IsEdit s t
    → ((j : Text) → text_eq k j ≡ false → get j t.records ≡ get j w.store.records)
    → IsSweep s w
    → IsSweep s (record { store = t; undo = put k r w.undo })
remembered-IsSweep s w k r t e edit others h = record {
  edit = edit;
  known = λ j q l. elim (last-put k j r w.undo l) [
    | inl old ↦ h.known j q old
    | inr (same, new) ↦ ground (arith, text_eq_iff k j)
  ];
  unknown = λ j l.
      let (old, other) = last-put-none k j r w.undo l in
      ground (arith, others j other, h.unknown j old);
}

IsEdit-set : (s t : FileStore) (k : Text) (r : Record) → IsEdit s t → IsEdit s (set_record k r t)
unfolding set_record mem
IsEdit-set s t k r e = record {
  disk = e.disk;
  persisted = e.persisted;
  edited = λ j h. ground (arith, text_eq_iff k j, get-put k j r t.records, e.edited j);
}

IsEdit-delete :
    (s t : FileStore) (k : Text)
    → IsEdit s t
    → IsEdit s (mark_dirty k (record t { records = delete k t.records }))
unfolding mark_dirty mem
IsEdit-delete s t k e = record {
  disk = e.disk;
  persisted = e.persisted;
  edited = λ j h. ground (arith, text_eq_iff k j, get-delete k j t.records, e.edited j);
}

module _ (s : FileStore) where
  sweep_one-IsSweep :
      (clock : Text → ℕ) (provider : Text) (cutoff : ℕ) (k : Text) (found : Option Record)
      (w : Sweep)
      → get k s.records ≡ found
      → IsSweep s w
      → IsSweep s (sweep_one clock provider cutoff k found w)
  unfolding sweep_one set_record
  sweep_one-IsSweep clock provider cutoff k none w e h = h
  sweep_one-IsSweep clock provider cutoff k (some r) w e h =
      elim (Bool-cases (is_swept provider cutoff r)) [
        | inl yes' ↦ rw yes' (
            remembered-IsSweep s w k r _ e (IsEdit-set s w.store k _ h.edit)
              (λ j other. rw (get-put, other)) h)
        | inr no' ↦ rw no' h
      ]

  release_swept-IsSweep :
      (clock : Text → ℕ) (provider : Text) (cutoff : ℕ) (ks : List Text) (w : Sweep)
      → IsSweep s w
      → IsSweep s (release_swept clock provider cutoff s.records ks w)
  unfolding release_swept
  release_swept-IsSweep clock provider cutoff [] w h = h
  release_swept-IsSweep clock provider cutoff (k ∷ ks) w h =
      release_swept-IsSweep clock provider cutoff ks _
        (sweep_one-IsSweep clock provider cutoff k (get k s.records) w refl h)

  prune_one-IsSweep :
      (now retention : ℕ) (k : Text) (found : Option Record) (w : Sweep)
      → get k s.records ≡ found
      → IsSweep s w
      → IsSweep s (prune_one now retention k found w)
  unfolding prune_one mark_dirty
  prune_one-IsSweep now retention k none w e h = h
  prune_one-IsSweep now retention k (some r) w e h = elim (Bool-cases (is_pruned now retention r)) [
    | inl yes' ↦ rw yes' (
        remembered-IsSweep s w k r _ e (IsEdit-delete s w.store k h.edit)
          (λ j other. rw (get-delete, other)) h)
    | inr no' ↦ rw no' h
  ]

  prune-IsSweep :
      (now retention : ℕ) (ks : List Text) (w : Sweep)
      → IsSweep s w
      → IsSweep s (prune now retention s.records ks w)
  unfolding prune
  prune-IsSweep now retention [] w h = h
  prune-IsSweep now retention (k ∷ ks) w h =
      prune-IsSweep now retention ks _
        (prune_one-IsSweep now retention k (get k s.records) w refl h)

  start-IsSweep : IsSweep s (record { store = s; undo = [] })
  unfolding last
  start-IsSweep = record {
    edit = record { disk = refl; persisted = refl; edited = λ k h. refl };
    known = λ k r e. cc;
    unknown = λ k e. refl;
  }

last_of_empty : (k : Text) (undo : Dict Record) → (length undo == 0) ≡ true → last k undo ≡ none
unfolding last
last_of_empty k [] e = refl
last_of_empty k (x ∷ undo) e = absurd (ground arith)

-- A loop that remembered nothing has changed nothing.
untouched :
    (s : FileStore) (w : Sweep)
    → IsSweep s w
    → (length w.undo == 0) ≡ true
    → IsDurable s
    → IsDurable w.store
untouched s w h e d = record {
  holds = rw (h.edit.disk, h.edit.persisted) (d.holds);
  saved = record {
    at =
        λ k. ground (arith, h.edit.persisted, d.saved.at k, h.unknown k (last_of_empty k w.undo e));
  };
}

module _ (os : Os) (works : RollbackWorks os) (s : FileStore) (d : IsDurable s) where
  pub release_swept_orphans-IsDurable :
      (clock : Text → ℕ) (provider : Text) (cutoff : ℕ)
      → IsDurable (release_swept_orphans os clock provider cutoff s).1
  unfolding release_swept_orphans undo_sweep
  release_swept_orphans-IsDurable clock provider cutoff =
      let w =
        release_swept clock provider cutoff s.records (keys s.records)
          (record { store = s; undo = [] }) in
      let h : IsSweep s w =
        release_swept-IsSweep s clock provider cutoff (keys s.records) _ (start-IsSweep s) in
      elim (Bool-cases (length w.undo == 0)) [
        | inl e ↦ rw e (untouched s w h e d)
        | inr e ↦ rw e (
            save_or_undo-IsDurable (undo_sweep w.undo) (length w.undo) s w.store os works d h.edit
              (record {
                disk = λ u. refl;
                persisted = λ u. refl;
                records = λ u e. rw e (put_back-IsSweep s w h);
              }))
      ]

  pub prune_deleted-IsDurable : (now : ℕ) → IsDurable (prune_deleted os now s).1
  unfolding prune_deleted undo_prune
  prune_deleted-IsDurable now =
      let w =
        prune now s.deleted_retention s.records (keys s.records)
          (record { store = s; undo = [] }) in
      let h : IsSweep s w =
        prune-IsSweep s now s.deleted_retention (keys s.records) _ (start-IsSweep s) in
      elim (Bool-cases (length w.undo == 0)) [
        | inl e ↦ rw e (untouched s w h e d)
        | inr e ↦ rw e (
            save_or_undo-IsDurable (undo_prune w.undo) (length w.undo) s
              (record (w.store) { keys_dirty = true }) os works d
              (record { disk = h.edit.disk; persisted = h.edit.persisted; edited = h.edit.edited })
              (record {
                disk = λ u. refl;
                persisted = λ u. refl;
                records = λ u e. rw e (put_back-IsSweep s w h);
              }))
      ]
