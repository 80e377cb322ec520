-- ===== src/Access/Laws.antt =====
-- What holds of the stored entries.
use postgresql_cluster.Common.{
  String, true, false, not, ◌&&◌, ◌≡◌, ◌≢◌, refl, eq_iff, ne_test, Option, none, some, Bool-cases,
  inl, inr,
}
use postgresql_cluster.Js.{Js, nan, str, arr, nil, truthy, chain, first_of, to_string, to_number}
use postgresql_cluster.Js.Text.{◌⧺◌}
use postgresql_cluster.Access.{
  token_text, Access, initial_project, loaded_access, log_in, log_out, set_project, choose_project,
  is_token, is_private_shown, authorization,
}

-- What the actions and the effects lead to, from what the storage held when the page was loaded.
pub data IsReachable : Access → Type 0 where
  loaded : (token project : Option String) → IsReachable (loaded_access token project)
  logged_in : (token : String) (a : Access) → IsReachable a → IsReachable (log_in token a)
  logged_out : (a : Access) → IsReachable a → IsReachable (log_out a)
  project_set : (payload : Js) (a : Access) → IsReachable a → IsReachable (set_project payload a)
  project_chosen :
      (projects : Js) (a : Access) → IsReachable a → IsReachable (choose_project projects a)

-- A reload reads a project with the same text.
abbrev pub ReadsBack : Access → Type 0
ReadsBack a = to_string (initial_project a.stored_project) ≡ to_string a.current_project

set_project-ReadsBack : (payload : Js) (a : Access) → ReadsBack (set_project payload a)
unfolding set_project
set_project-ReadsBack payload a = refl

choose_project-ReadsBack :
    (projects : Js) (a : Access) → ReadsBack a → ReadsBack (choose_project projects a)
unfolding choose_project
choose_project-ReadsBack projects a h =
    elim (Bool-cases (not (truthy a.current_project) && truthy projects)) [
      | inl chosen ↦
          rw chosen (set_project-ReadsBack (str (to_string (chain (first_of projects) "id"))) a)
      | inr kept ↦ rw kept h
    ]

-- After any logins and logouts and any choices of a project, a reload of the page reads a project
-- with the text of the one that is current.
pub reachable-ReadsBack : (a : Access) → IsReachable a → ReadsBack a
unfolding log_in log_out
reachable-ReadsBack _ (loaded token none) = refl
reachable-ReadsBack _ (loaded token (some project)) = refl
reachable-ReadsBack _ (logged_in token a r) = reachable-ReadsBack a r
reachable-ReadsBack _ (logged_out a r) = reachable-ReadsBack a r
reachable-ReadsBack _ (project_set payload a r) = set_project-ReadsBack payload a
reachable-ReadsBack _ (project_chosen projects a r) =
    choose_project-ReadsBack projects a (reachable-ReadsBack a r)

is_token-eq :
    (o : Option String) (auth_token : String)
    → is_token o auth_token ≡ true
    → token_text o ≡ auth_token
is_token-eq none auth_token h = cc
is_token-eq (some token) auth_token h = (eq_iff token auth_token).0 h

-- The private pages are shown only while every request but one to log in carries the configured
-- token, and they are hidden after a logout and after a login with another token.
pub shown-authorization :
    (auth_token other endpoint : String) (a : Access)
    → is_private_shown auth_token a ≡ true
    → endpoint ≢ "login"
    → other ≢ auth_token
    → (authorization endpoint a ≡ some ("Bearer " ⧺ auth_token))
      × (is_private_shown auth_token (log_out a) ≡ false)
      × (is_private_shown auth_token (log_in other a) ≡ false)
unfolding is_private_shown authorization log_in log_out
shown-authorization auth_token other endpoint a shown e o = (
  rw (ne_test endpoint "login" e, is_token-eq a.token auth_token shown) refl,
  refl,
  ne_test other auth_token o,
)

-- If there is no current project and the service answers with an empty list of projects, then the
-- header sets the text "undefined" as the project, which is no number, and no later list of
-- projects changes it.
pub empty_projects-stick :
    (projects : Js) (a : Access)
    → truthy a.current_project ≡ false
    → ((choose_project (arr nil) a).current_project ≡ str "undefined")
      × (to_number (choose_project (arr nil) a).current_project ≡ nan)
      × (choose_project projects (choose_project (arr nil) a) ≡ choose_project (arr nil) a)
unfolding choose_project set_project to_string to_number
empty_projects-stick projects a missing = rw missing (refl, refl, refl)
