-- ===== src/Store/Journal/Replay.antt =====
-- What a replay of the journal leaves at each key: the last change of the key, or what the snapshot
-- holds. So a replay over its own result changes nothing.
use github_runners_infra.Prelude.{
  ℕ, Option, none, some, List, [], ◌∷◌, ◌++◌, Text, text_eq, ◌≡◌, refl, arith, if◌then◌else◌,
}
use github_runners_infra.Dict.{Dict, get, SameMap}
use github_runners_infra.Dict.Laws.{get-put, get-delete}
use github_runners_infra.Dict.Last.{last, later}
use github_runners_infra.Record.{Record}
use github_runners_infra.Store.{Entry, Line, blank, entry, corrupt}
use github_runners_infra.Store.Journal.{apply_change, apply_entry}

-- The records after the lines, `none` if a line does not decode: the loop of `loadJournal`.
unfoldable pub replay : List Line → Dict Record → Option (Dict Record)
replay [] d = some d
replay (blank n ∷ ls) d = replay ls d
replay (entry e n ∷ ls) d = replay ls (apply_entry e d)
replay (corrupt n ∷ ls) d = none

-- A change on top of an old value.
abbrev pub resolve {ℓ} : {A : Type ℓ} → Option (Option A) → Option A → Option A
resolve none old = old
resolve (some c) old = c

unfoldable pub lines_change : Text → List Line → Option (Option Record)
lines_change k [] = none
lines_change k (blank n ∷ ls) = lines_change k ls
lines_change k (entry e n ∷ ls) = later (lines_change k ls) (last k e)
lines_change k (corrupt n ∷ ls) = none

get-apply_change :
    (k j : Text) (c : Option Record) (d : Dict Record)
    → get j (apply_change k c d) ≡ (if text_eq k j then c else get j d)
unfolding apply_change
get-apply_change k j none d = get-delete k j d
get-apply_change k j (some r) d = get-put k j r d

pub get-apply_entry :
    (k : Text) (e : Entry) (d : Dict Record)
    → get k (apply_entry e d) ≡ resolve (last k e) (get k d)
unfolding apply_entry last
get-apply_entry k [] d = refl
get-apply_entry k ((j, c) ∷ e) d =
    ground (arith, get-apply_entry k e (apply_change j c d), get-apply_change j k c d)

pub get-replay :
    (k : Text) (ls : List Line) (d : Dict Record) {r : Dict Record}
    → replay ls d ≡ some r
    → get k r ≡ resolve (lines_change k ls) (get k d)
unfolding replay lines_change
get-replay k [] d h = ground arith
get-replay k (blank n ∷ ls) d h = get-replay k ls d h
get-replay k (entry e n ∷ ls) d h =
    ground (arith, get-replay k ls (apply_entry e d) h, get-apply_entry k e d)
get-replay k (corrupt n ∷ ls) d h = cc

-- Whether lines decode does not depend on the records before them.
pub replay_total :
    (ls : List Line) (d d' : Dict Record) {r : Dict Record}
    → replay ls d ≡ some r
    → (r' : Dict Record) × (replay ls d' ≡ some r')
unfolding replay
replay_total [] d d' h = (d', refl)
replay_total (blank n ∷ ls) d d' h = replay_total ls d d' h
replay_total (entry e n ∷ ls) d d' h = replay_total ls (apply_entry e d) (apply_entry e d') h
replay_total (corrupt n ∷ ls) d d' h = cc

-- Replaying a journal over the records that it led to leads to them again.
pub replay_again :
    (ls : List Line) (d d' : Dict Record) {r r' : Dict Record}
    → replay ls d ≡ some r
    → SameMap d' r
    → replay ls d' ≡ some r'
    → SameMap r' r
replay_again ls d d' {r} {r'} h same h' = record {
  at = λ k. ground (arith, get-replay k ls d h, get-replay k ls d' h', same.at k);
}

pub replay-append :
    (ls : List Line) (e : Entry) (n : ℕ) (d : Dict Record) {r : Dict Record}
    → replay ls d ≡ some r
    → replay (ls ++ entry e n ∷ []) d ≡ some (apply_entry e r)
unfolding replay
replay-append [] e n d h = ground arith
replay-append (blank m ∷ ls) e n d h = replay-append ls e n d h
replay-append (entry f m ∷ ls) e n d h = replay-append ls e n (apply_entry f d) h
replay-append (corrupt m ∷ ls) e n d h = cc
