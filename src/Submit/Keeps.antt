-- ===== src/Submit/Keeps.antt =====
-- What computations keep true of the session.
use postgresql_cluster.Common.{[], ◌∷◌, Bool, true, false, List, if◌then◌else◌, All, ◌∷◌}
use postgresql_cluster.Js.{Result, ok, thrown}
use postgresql_cluster.Submit.Session.{
  Session, Io, after, ◌>>=◌, ◌>>◌, try_catch, recovered, run_all,
}

-- A computation leads from sessions with a property to sessions with it, whether it throws or
-- not.
abbrev pub Keeps : {A : Type 0} → (Session → Type 0) → Io A → Type 0
Keeps P m = (s : Session) → P s → P (m s).0

module _ {A B : Type 0} (P : Session → Type 0) where
  Keeps-after :
      (f : A → Io B) (r : Session × Result A) → ((a : A) → Keeps P (f a)) → P r.0 → P (after f r).0
  Keeps-after f (s, ok a) k h = k a s h
  Keeps-after f (s, thrown) k h = h

  pub Keeps-bind :
      (m : Io A) (f : A → Io B) → Keeps P m → ((a : A) → Keeps P (f a)) → Keeps P (m >>= f)
  Keeps-bind m f h k s p = Keeps-after f (m s) k (h s p)

  pub Keeps-seq : (m : Io A) (n : Io B) → Keeps P m → Keeps P n → Keeps P (m >> n)
  Keeps-seq m n h k s p = Keeps-after (λ a. n) (m s) (λ a. k) (h s p)

module _ (P : Session → Type 0) where
  pub Keeps-if : (b : Bool) (m n : Io Unit) → Keeps P m → Keeps P n → Keeps P (if b then m else n)
  Keeps-if true m n h k = h
  Keeps-if false m n h k = k

  Keeps-recovered :
      (handler : Io Unit) (r : Session × Result (Unit {0}))
      → Keeps P handler
      → P r.0
      → P (recovered handler r).0
  Keeps-recovered handler (s, ok a) k h = h
  Keeps-recovered handler (s, thrown) k h = k s h

  pub Keeps-try : (m n : Io Unit) → Keeps P m → Keeps P n → Keeps P (try_catch m n)
  Keeps-try m n h k s p = Keeps-recovered n (m s) k (h s p)

  pub Keeps-all : (ms : List (Io Unit)) → All (Keeps P) ms → (s : Session) → P s → P (run_all ms s)
  Keeps-all [] _ s p = p
  Keeps-all (m ∷ ms) (h, hs) s p = Keeps-all ms hs (m s).0 (h s p)
