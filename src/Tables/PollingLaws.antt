-- ===== src/Tables/PollingLaws.antt =====
-- The log is polled until it is complete.
use postgresql_cluster.Common.{
  true, false, not, ◌≡◌, refl, List, [], ◌∷◌, if◌then◌else◌, Bool-cases, inl, inr, ap, ◌∙◌,
}
use postgresql_cluster.Js.{Js}
use postgresql_cluster.Tables.Polling.{Poll, is_complete, rendered, open_log, receive, tick, ticks}

-- The pages that follow from an opened one by answers of the service, asked for by a tick or
-- otherwise.
pub data IsReachable : Poll → Type 0 where
  opened : IsReachable open_log
  received : (answer : Js) (p : Poll) → IsReachable p → IsReachable (receive answer p)

reachable-is_set : (p : Poll) → IsReachable p → p.is_set ≡ not (is_complete p)
unfolding open_log receive rendered
reachable-is_set _ opened = refl
reachable-is_set _ (received answer p r) = refl

-- The answers in their order, up to the first that is complete.
unfoldable pub until_complete : List Js → Poll → Poll
until_complete [] p = p
until_complete (answer ∷ answers) p =
    let rest = until_complete answers (receive answer p) in if is_complete p then p else rest

ticks-stopped : (answers : List Js) (p : Poll) → p.is_set ≡ false → ticks answers p ≡ p
unfolding ticks tick
ticks-stopped [] p h = refl
ticks-stopped (answer ∷ answers) p h = simp h (ticks-stopped answers p h)

-- After any answers, the ticks of the interval fetch the log again and again up to the first
-- answer that is complete, and no more after it.
pub ticks-until_complete :
    (answers : List Js) (p : Poll) → IsReachable p → ticks answers p ≡ until_complete answers p
unfolding ticks tick until_complete
ticks-until_complete [] p r = refl
ticks-until_complete (answer ∷ answers) p r = elim (Bool-cases (is_complete p)) [
  | inl complete ↦
      let stopped : p.is_set ≡ false = reachable-is_set p r ∙ ap not complete in
      simp (complete, stopped) (ticks-stopped answers p stopped)
  | inr more ↦
      let set : p.is_set ≡ true = reachable-is_set p r ∙ ap not more in
      simp (more, set) (ticks-until_complete answers (receive answer p) (received answer p r))
]
