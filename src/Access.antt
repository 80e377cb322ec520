-- ===== src/Access.antt =====
-- The token and the project that the browser stores: the pages to log in and out
-- (console/ui/src/pages/login/ui/index.tsx, features/logout-button), the private routes
-- (app/router/PrivateRouterWrapper.tsx), the headers of requests (shared/api/baseApi.ts), the
-- project of console/ui/src/app/redux/slices/projectSlice/projectSlice.ts with the header of the
-- page (widgets/header/ui/index.tsx), and the store's middleware (app/redux/store/store.ts).
use postgresql_cluster.Common.{
  String, Bool, true, false, not, ◌&&◌, ◌==◌, Option, none, some, if◌then◌else◌,
}
use postgresql_cluster.Js.{Js, str, chain, truthy, first_of, member, to_string, Result, ok, ◌>>=◌}
use postgresql_cluster.Js.Text.{◌⧺◌}
mod Laws
mod Tests

-- The entries `token` and `currentProject` of the local storage, and the slice of the project.
pub record Access : Type 0 where
  pub token : Option String
  pub stored_project : Option String
  pub current_project : Js

-- `localStorage.getItem('currentProject') ?? ''`
abbrev pub initial_project : Option String → Js
initial_project none = str ""
initial_project (some s) = str s

abbrev pub loaded_access : Option String → Option String → Access
loaded_access token project = record {
  token = token;
  stored_project = project;
  current_project = initial_project project;
}

-- `onSubmit` of the login page, and `handleLogout`; both then navigate.
unfoldable pub log_in : String → Access → Access
log_in token a = record {
  token = some token;
  stored_project = a.stored_project;
  current_project = a.current_project;
}

unfoldable pub log_out : Access → Access
log_out a = record {
  token = none;
  stored_project = a.stored_project;
  current_project = a.current_project;
}

-- `setProject`; the storage keeps the text of the payload.
unfoldable pub set_project : Js → Access → Access
unfolding to_string
set_project payload a = record {
  token = a.token;
  stored_project = some (to_string payload);
  current_project = payload;
}

-- The effect of the header; `projects` is `projects.data?.data`.
unfoldable pub choose_project : Js → Access → Access
unfolding set_project
choose_project projects a =
    if not (truthy a.current_project) && truthy projects
    then set_project (str (to_string (chain (first_of projects) "id"))) a
    else a

-- Whether the private pages are shown, for the configured token; otherwise the login page is.
abbrev pub is_token : Option String → String → Bool
is_token none auth_token = false
is_token (some token) auth_token = token == auth_token

unfoldable pub is_private_shown : String → Access → Bool
is_private_shown auth_token a = is_token a.token auth_token

-- `String(localStorage.getItem('token'))`
abbrev pub token_text : Option String → String
token_text none = "null"
token_text (some token) = token

-- `prepareHeaders`: the authorization of a request.
unfoldable pub authorization : String → Access → Option String
authorization endpoint a =
    if endpoint == "login" then none else some ("Bearer " ⧺ token_text a.token)

-- What `rtkQueryErrorLogger` shows of a rejected action, from its payload.
unfoldable pub error_message : Js → Result Js
error_message payload =
    let message = chain (chain payload "data") "message" in
    if truthy message
    then ok message
    else (do found ← member payload "data"; ok (chain found "title"))
