-- ===== src/Store/Completion/Durable.antt =====
-- internal/state/store.go: `Create` and `RecordCompletion` keep the store durable.
use github_runners_infra.Prelude.{
  ℕ, true, false, Option, none, some, [], Text, text_eq, text_eq_iff, ◌≡◌, inl, inr, refl, arith,
  mem, Bool-cases, Option-cases, is_empty, ◌==◌,
}
use github_runners_infra.Dict.{get, put, SameMap}
use github_runners_infra.Dict.Laws.{get-put, SameMap-delete_back}
use github_runners_infra.Dict.Last.{last, last-put, last-put-none, get-last-none, last-get-none}
use github_runners_infra.Record.{Record}
use github_runners_infra.Store.{FileStore, Os, Result, ok, err}
use github_runners_infra.Store.Journal.{apply_entry}
use github_runners_infra.Store.Journal.Replay.{get-apply_entry}
use github_runners_infra.Store.Save.Outcome.{RollbackWorks}
use github_runners_infra.Store.Update.{set_record}
use github_runners_infra.Store.Update.Durable.{IsDurable, IsEdit, save_or_undo-IsDurable}
use github_runners_infra.Store.Completion.{
  create, new_record, add_record, undo_create, remember, Progress, add_completion_marker,
  reconcile_runner_completion, reconcile_event_completion, record_completion, completion_marker,
  complete_runner, complete_job, tombstone, completion_matches, rollback, undo_completion,
  drop_identity, complete_indexed, complete_identity, complete_event,
}

-- A store whose maps differ from those of `s` at dirty keys only, and an undo that knows every key
-- that was written.
record IsProgress (s : FileStore) (p : Progress) : Type 0 where
  edit : IsEdit s p.store
  known : (k : Text) (c : Option Record) → last k p.before ≡ some c → get k s.records ≡ c
  unknown : (k : Text) → last k p.before ≡ none → get k p.store.records ≡ get k s.records

start-IsProgress : (s : FileStore) → IsProgress s (record { store = s; before = [] })
unfolding last
start-IsProgress s = record {
  edit = record { disk = refl; persisted = refl; edited = λ k h. refl };
  known = λ k r e. cc;
  unknown = λ k e. refl;
}

rollback-SameMap :
    (s : FileStore) (p : Progress)
    → IsProgress s p
    → SameMap (apply_entry p.before p.store.records) s.records
rollback-SameMap s p h = record {
  at = λ k. elim (Option-cases (last k p.before)) [
    | inl e ↦ ground (arith, get-apply_entry k p.before p.store.records, h.unknown k e)
    | inr (c, e) ↦ ground (arith, get-apply_entry k p.before p.store.records, h.known k c e)
  ];
}

-- A remembered key and a write of it.
module _ (s : FileStore) (p : Progress) (k : Text) (t : FileStore) where
  remembered_at :
      (found : Option (Option Record))
      → get k p.before ≡ found
      → IsEdit s t
      → ((j : Text) → text_eq k j ≡ false → get j t.records ≡ get j p.store.records)
      → IsProgress s p
      → IsProgress s (record {
        store = t;
        before = elim found [ some _ ↦ p.before | none ↦ put k (get k p.store.records) p.before ];
      })
  remembered_at none e edit others h = record {
    edit = edit;
    known = λ j c l. elim (last-put k j (get k p.store.records) p.before l) [
      | inl old ↦ h.known j c old
      | inr (same, new) ↦ ground (arith, text_eq_iff k j, h.unknown k (last-get-none k p.before e))
    ];
    unknown = λ j l.
        let (old, other) = last-put-none k j (get k p.store.records) p.before l in
        ground (arith, others j other, h.unknown j old);
  }
  remembered_at (some c) e edit others h = record {
    edit = edit;
    known = h.known;
    unknown = λ j l. elim (Bool-cases (text_eq k j)) [
      | inl same ↦ ground (arith, text_eq_iff k j, get-last-none j p.before l)
      | inr other ↦ ground (arith, others j other, h.unknown j l)
    ];
  }

  remembered-IsProgress :
      IsEdit s t
      → ((j : Text) → text_eq k j ≡ false → get j t.records ≡ get j p.store.records)
      → IsProgress s p
      → IsProgress s (record { store = t; before = remember k p.before p.store })
  unfolding remember
  remembered-IsProgress edit others h = remembered_at (get k p.before) refl edit others h

module _ (s : FileStore) (p : Progress) (k : Text) (r : Record) (h : IsProgress s p) where
  set-IsProgress :
      IsProgress s (record { store = set_record k r p.store; before = remember k p.before p.store })
  unfolding set_record mem
  set-IsProgress =
      remembered-IsProgress s p k (set_record k r p.store)
        (record {
          disk = h.edit.disk;
          persisted = h.edit.persisted;
          edited = λ j e.
              ground (arith, text_eq_iff k j, get-put k j r p.store.records, h.edit.edited j);
        })
        (λ j other. rw (get-put, other)) h

  add-IsProgress :
      IsProgress s (record { store = add_record k r p.store; before = remember k p.before p.store })
  unfolding add_record set_record mem
  add-IsProgress =
      remembered-IsProgress s p k (add_record k r p.store)
        (record {
          disk = h.edit.disk;
          persisted = h.edit.persisted;
          edited = λ j e.
              ground (arith, text_eq_iff k j, get-put k j r p.store.records, h.edit.edited j);
        })
        (λ j other. rw (get-put, other)) h

module _ (s : FileStore) (now : ℕ) (completion : Record) where
  marker-IsProgress :
      (p : Progress) → IsProgress s p → IsProgress s (add_completion_marker now completion p)
  unfolding add_completion_marker
  marker-IsProgress p h = add-IsProgress s p _ (completion_marker now completion) h

  indexed-IsProgress :
      (identity key : Text) (found : Option Record) (p : Progress)
      → IsProgress s p
      → IsProgress s (complete_indexed now completion identity key found p).2
  unfolding complete_indexed
  indexed-IsProgress identity key none p h = marker-IsProgress p h
  indexed-IsProgress identity key (some r) p h =
      elim (Bool-cases (completion_matches r completion)) [
        | inl e ↦ rw e (set-IsProgress s p key (complete_runner now completion r) h)
        | inr e ↦ rw e (marker-IsProgress p h)
      ]

  identity-IsProgress :
      (identity : Text) (found : Option Text) (p : Progress)
      → IsProgress s p
      → IsProgress s (complete_identity now completion identity found p).2
  unfolding complete_identity
  identity-IsProgress identity none p h = marker-IsProgress p h
  identity-IsProgress identity (some key) p h =
      indexed-IsProgress identity key (get key p.store.records) p h

  runner-IsProgress :
      (p : Progress)
      → IsProgress s p
      → IsProgress s (reconcile_runner_completion now completion p).2
  unfolding reconcile_runner_completion
  runner-IsProgress p h = elim (Bool-cases (completion.github_runner_id == 0)) [
    | inl e ↦ simp e h
    | inr e ↦ simp e (identity-IsProgress _ _ p h)
  ]

  event-IsProgress :
      (found : Option Record) (p : Progress)
      → IsProgress s p
      → IsProgress s (complete_event now completion found p)
  unfolding complete_event
  event-IsProgress none p h = add-IsProgress s p completion.key (tombstone now completion) h
  event-IsProgress (some r) p h =
      set-IsProgress s p completion.key (complete_job now completion r) h

  reconciled-IsProgress :
      (matched : Text) (p : Progress)
      → IsProgress s p
      → IsProgress s (reconcile_event_completion now completion matched p)
  unfolding reconcile_event_completion
  reconciled-IsProgress matched p h = elim (Bool-cases (text_eq matched completion.key)) [
    | inl e ↦ rw e h
    | inr e ↦ rw e (event-IsProgress (get completion.key p.store.records) p h)
  ]

drop_identity-IsDurable :
    (identity : Text) (o : Result (Unit {0}) × FileStore)
    → IsDurable o.1
    → IsDurable (drop_identity identity o).1
unfolding drop_identity
drop_identity-IsDurable identity (err e, s) d = d
drop_identity-IsDurable identity (ok u, s) d = elim (Bool-cases (is_empty identity)) [
  | inl e ↦ rw e d
  | inr e ↦ rw e (record { holds = d.holds; saved = d.saved })
]

module _ (os : Os) (works : RollbackWorks os) (s : FileStore) (d : IsDurable s) where
  pub record_completion-IsDurable :
      (now : ℕ) (completion : Record) → IsDurable (record_completion os now completion s).1
  unfolding record_completion undo_completion rollback
  record_completion-IsDurable now completion =
      let first = reconcile_runner_completion now completion (record { store = s; before = [] }) in
      let p = reconcile_event_completion now completion first.0 first.2 in
      let h : IsProgress s p =
        reconciled-IsProgress s now completion first.0 first.2
          (runner-IsProgress s now completion _ (start-IsProgress s)) in
      drop_identity-IsDurable first.1 _ (
        save_or_undo-IsDurable (undo_completion p.before s.keys_dirty) tt s p.store os works d
          h.edit
          (record {
            disk = λ u. refl;
            persisted = λ u. refl;
            records = λ u e. rw e (rollback-SameMap s p h);
          }))

  pub create-IsDurable : (now : ℕ) (r : Record) → IsDurable (create os now r s).1
  unfolding create undo_create add_record set_record mem
  create-IsDurable now r = elim (Option-cases (get r.key s.records)) [
    | inr (old, e) ↦ rw (e, create) d
    | inl e ↦
        rw (e, create)
          (save_or_undo-IsDurable (undo_create r.key) true s (add_record r.key (new_record now r) s)
            os works d
            (record {
              disk = refl;
              persisted = refl;
              edited = λ j l.
                  ground (arith, text_eq_iff r.key j, get-put r.key j (new_record now r) s.records);
            })
            (record {
              disk = λ u. refl;
              persisted = λ u. refl;
              records =
                  λ u same. rw same (SameMap-delete_back r.key (new_record now r) s.records e);
            }))
  ]
