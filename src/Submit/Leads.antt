-- ===== src/Submit/Leads.antt =====
-- What computations on the session lead to, where they end and where they throw.
use postgresql_cluster.Common.{Bool, true, false, if◌then◌else◌, ◌≡◌, refl}
use postgresql_cluster.Js.{Result, ok, thrown}
use postgresql_cluster.Submit.Session.{Session, Io, after, ◌>>=◌, ◌>>◌, lift, try_catch, recovered}

-- What holds after a computation that ended, and after one that threw.
abbrev pub Ends : {A : Type 0} → (T Q : Session → Type 0) → Session × Result A → Type 0
Ends T Q (s, ok a) = Q s
Ends T Q (s, thrown) = T s

abbrev pub Leads : {A : Type 0} → (P T Q : Session → Type 0) → Io A → Type 0
Leads P T Q m = (s : Session) → P s → Ends T Q (m s)

module _ {A B : Type 0} (P T Q R : Session → Type 0) where
  Ends-after :
      (f : A → Io B) (r : Session × Result A)
      → ((a : A) → Leads Q T R (f a))
      → Ends T Q r
      → Ends T R (after f r)
  Ends-after f (s, ok a) k h = k a s h
  Ends-after f (s, thrown) k h = h

  pub Leads-bind :
      (m : Io A) (f : A → Io B)
      → Leads P T Q m
      → ((a : A) → Leads Q T R (f a))
      → Leads P T R (m >>= f)
  Leads-bind m f h k s p = Ends-after f (m s) k (h s p)

  pub Leads-seq : (m : Io A) (n : Io B) → Leads P T Q m → Leads Q T R n → Leads P T R (m >> n)
  Leads-seq m n h k s p = Ends-after (λ a. n) (m s) (λ a. k) (h s p)

module _ (P T Q : Session → Type 0) where
  pub Leads-if :
      (b : Bool) (m n : Io Unit) → Leads P T Q m → Leads P T Q n → Leads P T Q (if b then m else n)
  Leads-if true m n h k = h
  Leads-if false m n h k = k

  pub Leads-lift : {A : Type 0} (r : Result A) → Leads P P P (lift r)
  Leads-lift (ok a) s p = p
  Leads-lift thrown s p = p

  Ends-recovered :
      (handler : Io Unit) (r : Session × Result (Unit {0}))
      → Leads T T Q handler
      → Ends T Q r
      → Ends T Q (recovered handler r)
  Ends-recovered handler (s, ok a) k h = h
  Ends-recovered handler (s, thrown) k h = k s h

  pub Leads-try : (m n : Io Unit) → Leads P T Q m → Leads T T Q n → Leads P T Q (try_catch m n)
  Leads-try m n h k s p = Ends-recovered n (m s) k (h s p)

-- A computation that uses a result.
pub Leads-result :
    {A : Type 0} (P T R : Session → Type 0) (r : Result A) (f : A → Io Unit)
    → ((s : Session) → P s → T s)
    → ((a : A) → r ≡ ok a → Leads P T R (f a))
    → Leads P T R (lift r >>= f)
Leads-result P T R (ok a) f weaker h s p = h a refl s p
Leads-result P T R thrown f weaker h s p = weaker s p
