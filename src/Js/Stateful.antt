-- ===== src/Js/Stateful.antt =====
-- Computations on a state that may throw: one that throws keeps the changes that it made before.
use postgresql_cluster.Js.Error.{Result, ok, thrown}

abbrev pub Stateful : Type 0 → Type 0 → Type 0
Stateful S A = S → S × Result A

module _ {S : Type 0} where
  abbrev pub pure : {A : Type 0} → A → Stateful S A
  pure a s = (s, ok a)

  abbrev pub after : {A B : Type 0} → (A → Stateful S B) → S × Result A → S × Result B
  after f (s, ok a) = f a s
  after f (s, thrown) = (s, thrown)

  infixl 5 ◌>>=◌
  abbrev pub ◌>>=◌ : {A B : Type 0} → Stateful S A → (A → Stateful S B) → Stateful S B
  (m >>= f) s = after f (m s)

  infixl 5 ◌>>◌
  abbrev pub ◌>>◌ : {A B : Type 0} → Stateful S A → Stateful S B → Stateful S B
  (m >> n) s = after (λ a. n) (m s)

  -- A computation that uses nothing of the state.
  abbrev pub lift : {A : Type 0} → Result A → Stateful S A
  lift r s = (s, r)

  abbrev pub recovered : Stateful S (Unit {0}) → S × Result (Unit {0}) → S × Result (Unit {0})
  recovered handler (s, ok a) = (s, ok a)
  recovered handler (s, thrown) = handler s

  -- `try { ... } catch { ... }`
  abbrev pub try_catch : Stateful S (Unit {0}) → Stateful S (Unit {0}) → Stateful S (Unit {0})
  try_catch body handler s = recovered handler (body s)
