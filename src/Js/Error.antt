-- ===== src/Js/Error.antt =====
-- Computations that may throw. No code modelled here looks at the exception, beyond that there
-- is one, so its value is not kept.
use postgresql_cluster.Js.Value.{Js, undefined, null}
use postgresql_cluster.Js.Object.{chain}
use postgresql_cluster.Common.{
  String, Bool, true, false, if◌then◌else◌, ◌≡◌, sym, subst, ◌⊎◌, inl, inr, refl, arith,
}

pub data Result {ℓ} (A : Type ℓ) : Type ℓ where
  ok : A → Result A
  thrown : Result A

infixl 5 ◌>>=◌
abbrev pub ◌>>=◌ {ℓ κ} : {A : Type ℓ} {B : Type κ} → Result A → (A → Result B) → Result B
thrown >>= next = thrown
ok value >>= next = next value

-- `v.k`
abbrev pub member : Js → String → Result Js
member undefined k = thrown
member null k = thrown
member v k = ok (chain v k)

-- Where a sequence returns, its first part did, and what followed did.
module _ {ℓ κ} {A : Type ℓ} {B : Type κ} where
  pub bind-eq-ok :
      (first : Result A) (next : A → Result B) {result : B}
      → (first >>= next) ≡ ok result
      → (value : A) × (first ≡ ok value) × (next value ≡ ok result)
  bind-eq-ok thrown next returned = cc
  bind-eq-ok (ok value) next returned = (value, refl, returned)

-- A computation either returns or throws.
pub Result-cases {ℓ} : {A : Type ℓ} (r : Result A) → ((a : A) × (r ≡ ok a)) ⊎ (r ≡ thrown)
Result-cases (ok a) = inl (a, refl)
Result-cases thrown = inr refl

-- A computation returns: it does not throw.
abbrev pub Returns {ℓ} : {A : Type ℓ} → Result A → Type 0
Returns (ok a) = Unit
Returns thrown = ⊥

pub returned {ℓ} : {A : Type ℓ} (r : Result A) → Returns r → (a : A) × (r ≡ ok a)
returned (ok a) h = (a, refl)
returned thrown h = absurd h

-- What a computation returns has a property, if it returns.
abbrev pub Ensures {ℓ} : {A : Type ℓ} → (A → Type 0) → Result A → Type 0
Ensures P (ok a) = P a
Ensures P thrown = Unit

pub Ensures-bind {ℓ κ} :
    {A : Type ℓ} {B : Type κ} (Q : A → Type 0) (P : B → Type 0) (m : Result A) (f : A → Result B)
    → Ensures Q m
    → ((a : A) → Q a → Ensures P (f a))
    → Ensures P (m >>= f)
Ensures-bind Q P (ok a) f h k = k a h
Ensures-bind Q P thrown f h k = tt

-- A bind whose first part matters in nothing.
pub Ensures-any {ℓ κ} :
    {A : Type ℓ} {B : Type κ} (P : B → Type 0) (m : Result A) (f : A → Result B)
    → ((a : A) → Ensures P (f a))
    → Ensures P (m >>= f)
Ensures-any P (ok a) f k = k a
Ensures-any P thrown f k = tt

pub ok-injective {ℓ} : {A : Type ℓ} (x y : A) → ok x ≡ ok y → x ≡ y
ok-injective x y p = cc

ok-ne-thrown {ℓ} : {A : Type ℓ} (x : A) → ok x ≡ thrown → ⊥
ok-ne-thrown x p = cc

pub Ensures-ok {ℓ} :
    {A : Type ℓ} (P : A → Type 0) (m : Result A) (a : A) → Ensures P m → m ≡ ok a → P a
Ensures-ok P (ok b) a h e = subst P (ok-injective b a e) h
Ensures-ok P thrown a h e = absurd (ok-ne-thrown a (sym e))

-- A part that is computed only on a condition, with `d` otherwise.
pub Ensures-if {ℓ κ} :
    {A : Type ℓ} {B : Type κ} (P : B → Type 0) (b : Bool) (m : Result A) (f : A → B) (d : B)
    → ((a : A) → P (f a))
    → P d
    → Ensures P (if b then (m >>= λ a. ok (f a)) else ok d)
Ensures-if P true (ok a) f d h k = h a
Ensures-if P true thrown f d h k = tt
Ensures-if P false m f d h k = k

-- A property that could be read is what optional chaining gives.
pub member-eq-chain : (v : Js) (k : String) (w : Js) → member v k ≡ ok w → w ≡ chain v k
member-eq-chain v k w e = ground arith
