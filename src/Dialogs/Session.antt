-- ===== src/Dialogs/Session.antt =====
-- The state of a dialog or a menu, and what its handlers do.
use postgresql_cluster.Common.{String, Bool, true, List, [], ◌∷◌}
use postgresql_cluster.Js.{obj, end, ◌≔◌, Js, Props, Result, ok, thrown}
use postgresql_cluster.Js.Stateful.{Stateful, pure, ◌>>◌, lift}
use postgresql_cluster.Api.{Endpoint, ApiRequest}

pub data Effect : Type 0 where
  sent : ApiRequest → Effect
  succeeded : String → Js → Effect
  warned : String → Js → Js → Effect
  form_reset : Effect
  caught : Effect
  menu_closed : Effect

-- Whether the dialog is open, and what was done, the latest first.
pub record Dialog : Type 0 where
  pub is_open : Bool
  pub done : List Effect

abbrev pub opened : Dialog
opened = record { is_open = true; done = [] }

abbrev pub Io : Type 0 → Type 0
Io A = Stateful Dialog A

abbrev pub tell : Effect → Io (Unit {0})
tell e d = (record { is_open = d.is_open; done = e ∷ d.done }, ok tt)

abbrev pub set_open : Bool → Io (Unit {0})
set_open b d = (record { is_open = b; done = d.done }, ok tt)

-- `await trigger(arg).unwrap()`, which throws if the service refuses.
abbrev pub send : Endpoint → Props → Result Js → Io Js
send endpoint arg reply = tell (sent (endpoint.request arg)) >> lift reply

abbrev settled : Result Js → Js
settled (ok v) = obj ("data" ≔ v)
settled thrown = obj ("error" ≔ obj end)

-- `await trigger(arg)`, which gives the error back as a value.
abbrev pub send_settled : Endpoint → Props → Result Js → Io Js
send_settled endpoint arg reply = tell (sent (endpoint.request arg)) >> pure (settled reply)
