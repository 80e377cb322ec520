-- ===== src/Tables/Polling.antt =====
-- The log of an operation: `useQueryPolling` with the option `stop`, and `OperationLog`.
use postgresql_cluster.Common.{Bool, false, not, List, [], ◌∷◌, if◌then◌else◌}
use postgresql_cluster.Js.{Js, undefined, chain, truthy}

-- The last answer, `isStopRequest`, and whether an interval is set.
pub record Poll : Type 0 where
  pub answer : Js
  pub stop : Bool
  pub is_set : Bool

-- The effect of the hook, which runs after each render, since the options are a new object each
-- time: the interval is set anew, and cleared at once if the polling is to stop.
abbrev pub set_interval : Poll → Poll
set_interval p = record { answer = p.answer; stop = p.stop; is_set = not p.stop }

abbrev pub is_complete : Poll → Bool
is_complete p = truthy (chain p.answer "isComplete")

-- The effect of the page.
abbrev pub request_stop : Poll → Poll
request_stop p = record { answer = p.answer; stop = is_complete p; is_set = p.is_set }

-- The effects after a render, and those after the render that the second effect leads to.
unfoldable pub rendered : Poll → Poll
rendered p = set_interval (request_stop (set_interval p))

-- The page when it is opened.
unfoldable pub open_log : Poll
unfolding rendered
open_log = rendered (record { answer = undefined; stop = false; is_set = false })

-- An answer of the service.
unfoldable pub receive : Js → Poll → Poll
unfolding rendered
receive answer p = rendered (record { answer = answer; stop = p.stop; is_set = p.is_set })

-- A tick of the interval, if it is set: the log is fetched again.
unfoldable pub tick : Js → Poll → Poll
unfolding receive
tick answer p = if p.is_set then receive answer p else p

-- The ticks with the answers that the service would give, in their order.
unfoldable pub ticks : List Js → Poll → Poll
unfolding tick
ticks [] p = p
ticks (answer ∷ answers) p = ticks answers (tick answer p)
