-- ===== src/Program.antt =====
-- Go code as a program over its calls: a tree that makes a call and goes on with the answer. An
-- interface is a type of calls and the type of each call's answer. An environment answers each call,
-- and may look at all that came before, so that a statement about every environment covers all that
-- other goroutines and services do, whose effects show in the answers.
pub mod Rules
use github_runners_infra.Prelude.{List, ◌∷◌}

pub data Prog {C : Type 0} (R : C → Type 0) (A : Type 0) : Type 0 where
  done : A → Prog R A
  ask : (c : C) → (R c → Prog R A) → Prog R A

-- A call and its answer.
pub record Event {C : Type 0} (R : C → Type 0) : Type 0 where
  pub asked : C
  pub answered : R asked

-- The events so far, the latest first.
abbrev pub History : {C : Type 0} → (C → Type 0) → Type 0
History R = List (Event R)

abbrev pub Environment : {C : Type 0} → (C → Type 0) → Type 0
Environment {C} R = History R → (c : C) → R c

module _ {C : Type 0} {R : C → Type 0} where
  infixl 5 ◌>>=◌ ◌>>◌
  abbrev pub ◌>>=◌ : {A B : Type 0} → Prog R A → (A → Prog R B) → Prog R B
  done a >>= f = f a
  ask c k >>= f = ask c (λ r. k r >>= f)

  abbrev pub ◌>>◌ : {A B : Type 0} → Prog R A → Prog R B → Prog R B
  m >> n = m >>= λ _. n

  -- The events of a run, after those of `h`, and its result.
  unfoldable pub run : {A : Type 0} → Environment R → History R → Prog R A → History R × A
  run env h (done a) = (h, a)
  run env h (ask c k) = run env (record { asked = c; answered = env h c } ∷ h) (k (env h c))
