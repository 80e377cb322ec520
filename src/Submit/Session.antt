-- ===== src/Submit/Session.antt =====
-- What lives as long as a component, and computations on it. A computation that throws keeps
-- the changes that it made before.
use postgresql_cluster.Common.{List, [], ◌∷◌, String}
pub use postgresql_cluster.Js.Stateful.{pure, after, ◌>>=◌, ◌>>◌, lift, recovered, try_catch}
use postgresql_cluster.Js.Stateful.{Stateful}
use postgresql_cluster.Js.{Js, null, Result, ok}

-- What an attempt does outside of the component; the two requests with the server's reply.
pub data Effect : Type 0 where
  secret_posted : Js → Result Js → Effect
  cluster_posted : Js → Result Js → Effect
  toasted : String → Js → Effect
  navigated : Effect
  error_caught : Effect
  modal_closed : Effect

-- `created` is `createSecretResultRef.current`, `custom` the object of the YAML editor, and
-- `done` what was done, the latest first.
pub record Session : Type 0 where
  pub created : Js
  pub custom : Js
  pub done : List Effect

abbrev pub initial_session : Js → Session
initial_session custom = record { created = null; custom = custom; done = [] }

abbrev pub Io : Type 0 → Type 0
Io A = Stateful Session A

abbrev pub get_created : Io Js
get_created s = (s, ok s.created)

abbrev pub set_created : Js → Io Unit
set_created v s = (record { created = v; custom = s.custom; done = s.done }, ok tt)

abbrev pub get_custom : Io Js
get_custom s = (s, ok s.custom)

abbrev pub set_custom : Js → Io Unit
set_custom v s = (record { created = s.created; custom = v; done = s.done }, ok tt)

abbrev pub tell : Effect → Io Unit
tell e s = (record { created = s.created; custom = s.custom; done = e ∷ s.done }, ok tt)

-- The replies of the server to the requests of one attempt.
pub record Replies : Type 0 where
  pub secret : Result Js
  pub cluster : Result Js

-- Attempts one after the other.
abbrev pub run_all : List (Io Unit) → Session → Session
run_all [] s = s
run_all (m ∷ ms) s = run_all ms (m s).0
