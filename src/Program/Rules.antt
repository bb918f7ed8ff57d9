-- ===== src/Program/Rules.antt =====
-- Rules for programs over calls: what holds before every call and at the end, whatever the answers.
use github_runners_infra.Prelude.{[], ◌∷◌, Bool, true, false, ◌≡◌, refl, if◌then◌else◌}
use github_runners_infra.Program.{Prog, done, ask, ◌>>=◌, History, Environment, run}

-- What holds in both branches.
pub if_intro :
    {A : Type 0} (Q : A → Type 0) (b : Bool) (x y : A)
    → (b ≡ true → Q x)
    → (b ≡ false → Q y)
    → Q (if b then x else y)
if_intro Q true x y p q = p refl
if_intro Q false x y p q = q refl

module _ {C : Type 0} {R : C → Type 0} where
  -- Each call fits the events before it, and the end fits the whole history.
  abbrev pub Ensures :
      {A : Type 0}
      → (History R → C → Type 0)
      → (History R → A → Type 0)
      → History R
      → Prog R A
      → Type 0
  Ensures P Q h (done a) = Q h a
  Ensures P Q h (ask c k) =
      P h c × ((r : R c) → Ensures P Q (record { asked = c; answered = r } ∷ h) (k r))

  -- Every call of a history fits the events before it.
  abbrev pub EveryCall : (History R → C → Type 0) → History R → Type 0
  EveryCall P [] = Unit {0}
  EveryCall P (e ∷ h) = P h e.asked × EveryCall P h

  -- What is ensured holds of a run in every environment.
  pub Ensures-run :
      {A : Type 0} (P : History R → C → Type 0) (Q : History R → A → Type 0) (env : Environment R)
      (h : History R) (m : Prog R A)
      → Ensures P Q h m
      → EveryCall P h
      → EveryCall P (run env h m).0 × Q (run env h m).0 (run env h m).1
  unfolding run
  Ensures-run P Q env h (done a) e past = (past, e)
  Ensures-run P Q env h (ask c k) e past =
      Ensures-run P Q env (record { asked = c; answered = env h c } ∷ h) (k (env h c))
        (e.1 (env h c)) (e.0, past)

  pub Ensures-bind :
      {A B : Type 0} (P : History R → C → Type 0) (Q : History R → A → Type 0)
      (S : History R → B → Type 0) (h : History R) (m : Prog R A) (f : A → Prog R B)
      → Ensures P Q h m
      → ((h' : History R) (a : A) → Q h' a → Ensures P S h' (f a))
      → Ensures P S h (m >>= f)
  Ensures-bind P Q S h (done a) f e next = next h a e
  Ensures-bind P Q S h (ask c k) f e next =
      (e.0, λ r. Ensures-bind P Q S (record { asked = c; answered = r } ∷ h) (k r) f (e.1 r) next)

  pub Ensures-if :
      {A : Type 0} (P : History R → C → Type 0) (Q : History R → A → Type 0) (h : History R)
      (b : Bool) (m n : Prog R A)
      → (b ≡ true → Ensures P Q h m)
      → (b ≡ false → Ensures P Q h n)
      → Ensures P Q h (if b then m else n)
  Ensures-if P Q h true m n e e' = e refl
  Ensures-if P Q h false m n e e' = e' refl

  pub Ensures-weaken :
      {A : Type 0} (P P' : History R → C → Type 0) (Q Q' : History R → A → Type 0) (h : History R)
      (m : Prog R A)
      → ((h : History R) (c : C) → P h c → P' h c)
      → ((h : History R) (a : A) → Q h a → Q' h a)
      → Ensures P Q h m
      → Ensures P' Q' h m
  Ensures-weaken P P' Q Q' h (done a) p q e = q h a e
  Ensures-weaken P P' Q Q' h (ask c k) p q e = (
    p h c e.0,
    λ r. Ensures-weaken P P' Q Q' (record { asked = c; answered = r } ∷ h) (k r) p q (e.1 r),
  )
