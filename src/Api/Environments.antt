-- ===== src/Api/Environments.antt =====
-- The endpoints of console/ui/src/shared/api/api/environments.ts.
use postgresql_cluster.Common.{[], ◌∷◌, none, some}
use postgresql_cluster.Js.{undefined, field, to_string, ◌≔◌, ◌⊕◌}
use postgresql_cluster.Js.Text.{◌⧺◌}
use postgresql_cluster.Api.Kinds.{Endpoint, list_tag, list_tags}

abbrev pub get_environments : Endpoint
get_environments = record {
  request = λ arg. record {
    url = "/environments";
    method = none;
    params = some ("limit" ≔ field arg "limit" ⊕ "offset" ≔ field arg "offset");
    body = undefined;
  };
  provides = λ arg result. list_tags "Environments" result;
  invalidates = λ arg. [];
}

abbrev pub post_environments : Endpoint
post_environments = record {
  request = λ arg. record {
    url = "/environments";
    method = some "POST";
    params = none;
    body = field arg "requestEnvironment";
  };
  provides = λ arg result. [];
  invalidates = λ arg. list_tag "Environments" ∷ [];
}

abbrev pub delete_environments_by_id : Endpoint
delete_environments_by_id = record {
  request = λ arg. record {
    url = "/environments/" ⧺ to_string (field arg "id");
    method = some "DELETE";
    params = none;
    body = undefined;
  };
  provides = λ arg result. [];
  invalidates = λ arg. list_tag "Environments" ∷ [];
}
