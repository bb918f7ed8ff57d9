-- ===== src/Webhook/Labels.antt =====
-- internal/webhook/handler.go: which labels of a job the handler serves.
pub mod Allowlist
use github_runners_infra.Prelude.{
  Bool, true, false, ◌||◌, none, some, List, [], ◌∷◌, ◌++◌, Text, text_eq, is_empty, to_lower,
  equal_fold, codes, mem, if◌then◌else◌,
}
use github_runners_infra.Dict.{Dict, get, put}
use github_runners_infra.Webhook.{
  Checked, accepted, refused, invalid_label, required_not_allowed, not_allowlisted,
  required_missing,
}
use github_runners_infra.Webhook.Names.{trim_space, is_safe_name}

-- The settings of the handler about labels. The map takes a label in lower case to its spelling.
pub record LabelPolicy : Type 0 where
  pub required_label : Text
  pub allowed_labels : Dict Text

-- strings.ToLower(strings.TrimSpace(raw))
unfoldable pub label_key : Text → Text
label_key raw = to_lower (trim_space raw)

allow_labels : List Text → Dict Text → Checked (Dict Text)
allow_labels [] allowed = accepted allowed
allow_labels (raw ∷ rest) allowed =
    let later = allow_labels rest (put (label_key raw) (trim_space raw) allowed) in
    if is_safe_name (trim_space raw) then later else refused (invalid_label raw)

default_label : Text → Text
default_label label = if is_empty label then codes "self-hosted" else label

require_label : Text → Checked (Dict Text) → Checked LabelPolicy
require_label required (accepted allowed) = elim (get required allowed) [
  | none ↦ refused (required_not_allowed required)
  | some _ ↦ accepted (record { required_label = required; allowed_labels = allowed })
]
require_label required (refused e) = refused e

-- `normalizeAllowedLabels`
unfoldable pub normalize_allowed_labels : Text → List Text → Checked LabelPolicy
unfolding allow_labels default_label require_label label_key
normalize_allowed_labels required raw_labels =
    require_label (default_label (label_key required)) (allow_labels raw_labels [])

module _ (p : LabelPolicy) where
  -- The end of `validateLabels`.
  finish_labels : Bool → List Text → Checked (List Text)
  finish_labels seen_required result =
      if seen_required then accepted result else refused (required_missing p.required_label)

  -- The loop of `validateLabels`, with `seenRequired`, `result` and the keys in `seen`. A label that
  -- is not in the map ends it.
  unfoldable pub validate_loop : List Text → Bool → List Text → List Text → Checked (List Text)
  unfolding finish_labels label_key
  validate_loop [] seen_required result seen = finish_labels seen_required result
  validate_loop (raw ∷ rest) seen_required result seen =
      elim (get (label_key raw) p.allowed_labels) [
        | none ↦ refused (not_allowlisted raw)
        | some canonical ↦
            validate_loop rest (text_eq (label_key raw) p.required_label || seen_required)
              (if mem (label_key raw) seen then result else result ++ (canonical ∷ []))
              (label_key raw ∷ seen)
      ]

  -- `validateLabels`
  unfoldable pub validate_labels : List Text → Checked (List Text)
  validate_labels requested = validate_loop requested false [] []

  -- Some label asks for a runner of this service.
  unfoldable pub asks_for_us : List Text → Bool
  asks_for_us [] = false
  asks_for_us (raw ∷ rest) = equal_fold (trim_space raw) p.required_label || asks_for_us rest

  -- `authorizeLabels`: the labels or an error, and whether the job is for this service.
  unfoldable pub authorize_labels : List Text → Checked (List Text) × Bool
  authorize_labels requested =
      let labels = validate_labels requested in
      if asks_for_us requested then (labels, true) else (accepted [], false)
