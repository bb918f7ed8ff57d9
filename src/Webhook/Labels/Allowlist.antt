-- ===== src/Webhook/Labels/Allowlist.antt =====
-- internal/webhook/handler.go, `validateLabels` and `authorizeLabels`: which label sets pass.
use github_runners_infra.Prelude.{
  Bool, true, false, ◌||◌, Option-cases, none, some, List, [], ◌∷◌, ◌++◌, Text, text_eq, mem,
  if◌then◌else◌, ◌≡◌, ◌≢◌, ◌⊎◌, ◌↔◌, inl, inr, refl, arith, subst,
}
use github_runners_infra.Dict.{get}
use github_runners_infra.Webhook.{accepted}
use github_runners_infra.Webhook.Labels.{
  LabelPolicy, label_key, validate_loop, validate_labels, authorize_labels,
}

module _ (p : LabelPolicy) where
  -- Every requested label is on the allowlist, up to case and space.
  abbrev pub AllAllowed : List Text → Type 0
  AllAllowed [] = Unit {0}
  AllAllowed (raw ∷ rest) = (get (label_key raw) p.allowed_labels ≢ none) × AllAllowed rest

  -- The required label is among the requested ones.
  abbrev pub Requests : List Text → Type 0
  Requests [] = ⊥
  Requests (raw ∷ rest) = (text_eq (label_key raw) p.required_label ≡ true) ⊎ Requests rest

  -- Every label is spelled as on the allowlist.
  abbrev pub AllSpelled : List Text → Type 0
  AllSpelled [] = Unit {0}
  AllSpelled (label ∷ rest) =
      ((key : Text) × (get key p.allowed_labels ≡ some label)) × AllSpelled rest

  AllSpelled-append :
      (labels : List Text) (key label : Text)
      → AllSpelled labels
      → get key p.allowed_labels ≡ some label
      → AllSpelled (labels ++ (label ∷ []))
  AllSpelled-append [] key label s e = ((key, e), tt)
  AllSpelled-append (l ∷ labels) key label s e = (s.0, AllSpelled-append labels key label s.1 e)

  AllSpelled-if :
      (b : Bool) (labels : List Text) (key label : Text)
      → AllSpelled labels
      → get key p.allowed_labels ≡ some label
      → AllSpelled (if b then labels else labels ++ (label ∷ []))
  AllSpelled-if true labels key label s e = s
  AllSpelled-if false labels key label s e = AllSpelled-append labels key label s e

  Requests-or :
      (raw : Text) (rest : List Text) (seen_required : Bool)
      → ((text_eq (label_key raw) p.required_label || seen_required) ≡ true) ⊎ Requests rest
      → (seen_required ≡ true) ⊎ Requests (raw ∷ rest)
  Requests-or raw rest seen_required (inl e) = ground arith
  Requests-or raw rest seen_required (inr more) = inr (inr more)

  loop-accepts :
      (requested : List Text) (seen_required : Bool) (result seen labels : List Text)
      → validate_loop p requested seen_required result seen ≡ accepted labels
      → AllSpelled result
      → AllAllowed requested × ((seen_required ≡ true) ⊎ Requests requested) × AllSpelled labels
  unfolding validate_loop
  loop-accepts [] true result seen labels h s = (tt, inl refl, subst AllSpelled (cc) s)
  loop-accepts [] false result seen labels h s = cc
  loop-accepts (raw ∷ rest) seen_required result seen labels h s =
      elim (Option-cases (get (label_key raw) p.allowed_labels)) [
        | inl missing ↦ let impossible = rw (missing, validate_loop) at h in cc
        | inr (label, found) ↦
            let (allowed, required, spelled) =
              loop-accepts rest (text_eq (label_key raw) p.required_label || seen_required)
                (if mem (label_key raw) seen then result else result ++ (label ∷ []))
                (label_key raw ∷ seen) labels (rw (found, validate_loop) at h)
                (AllSpelled-if (mem (label_key raw) seen) result (label_key raw) label s found) in
            ((λ none_found. cc, allowed), Requests-or raw rest seen_required required, spelled)
      ]

  Requests-pass :
      (raw : Text) (rest : List Text) (seen_required : Bool)
      → (seen_required ≡ true) ⊎ Requests (raw ∷ rest)
      → ((text_eq (label_key raw) p.required_label || seen_required) ≡ true) ⊎ Requests rest
  Requests-pass raw rest seen_required (inl e) = inl (ground arith)
  Requests-pass raw rest seen_required (inr (inl e)) = inl (ground arith)
  Requests-pass raw rest seen_required (inr (inr more)) = inr more

  loop_complete :
      (requested : List Text) (seen_required : Bool) (result seen : List Text)
      → AllAllowed requested
      → (seen_required ≡ true) ⊎ Requests requested
      → (labels : List Text) × (validate_loop p requested seen_required result seen
          ≡ accepted labels)
  unfolding validate_loop
  loop_complete [] true result seen a r = (result, refl)
  loop_complete [] false result seen a r = absurd (ground arith)
  loop_complete (raw ∷ rest) seen_required result seen a r =
      elim (Option-cases (get (label_key raw) p.allowed_labels)) [
        | inl missing ↦ absurd (a.0 missing)
        | inr (label, found) ↦
            rw (found, validate_loop)
              (loop_complete rest (text_eq (label_key raw) p.required_label || seen_required)
                (if mem (label_key raw) seen then result else result ++ (label ∷ []))
                (label_key raw ∷ seen) a.1 (Requests-pass raw rest seen_required r))
      ]

  required : (requested : List Text) → (false ≡ true) ⊎ Requests requested → Requests requested
  required requested (inl e) = cc
  required requested (inr r) = r

  -- `validateLabels` accepts a set of labels exactly if each is on the allowlist, up to case and
  -- space, and the required one is among them; the labels that it then hands out are spelled as on
  -- the allowlist.
  pub validate_labels-accepts :
      (requested : List Text)
      → (((labels : List Text) × (validate_labels p requested ≡ accepted labels))
          ↔ (AllAllowed requested × Requests requested))
        × ((labels : List Text) → validate_labels p requested ≡ accepted labels → AllSpelled labels)
  unfolding validate_labels
  validate_labels-accepts requested = (
    (
      λ (labels, h).
          let (allowed, asks, spelled) = loop-accepts requested false [] [] labels h tt in
          (allowed, required requested asks),
      λ (allowed, asks). loop_complete requested false [] [] allowed (inr asks),
    ),
    λ labels h. (loop-accepts requested false [] [] labels h tt).2,
  )

  -- Labels that `authorizeLabels` accepts for this service.
  pub record IsSelection (requested labels : List Text) : Type 0 where
    pub all_allowed : AllAllowed requested
    pub required_label : Requests requested
    pub spelled : AllSpelled labels

  pub authorize_labels-IsSelection :
      (requested labels : List Text)
      → authorize_labels p requested ≡ (accepted labels, true)
      → IsSelection requested labels
  unfolding authorize_labels
  authorize_labels-IsSelection requested labels h =
      let valid : validate_labels p requested ≡ accepted labels = ground arith in
      let (accepts, spelled) = validate_labels-accepts requested in
      let (allowed, asks) = accepts.0 (labels, valid) in
      record { all_allowed = allowed; required_label = asks; spelled = spelled labels valid }
