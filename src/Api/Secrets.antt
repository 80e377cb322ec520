-- ===== src/Api/Secrets.antt =====
-- The endpoints of console/ui/src/shared/api/api/secrets.ts.
use postgresql_cluster.Common.{[], ◌∷◌, none, some}
use postgresql_cluster.Js.{undefined, field, to_string, ◌≔◌, ◌⊕◌}
use postgresql_cluster.Js.Text.{◌⧺◌}
use postgresql_cluster.Api.Kinds.{Endpoint, tag, list_tag, list_tags}

abbrev pub post_secrets : Endpoint
post_secrets = record {
  request = λ arg. record {
    url = "/secrets";
    method = some "POST";
    params = none;
    body = field arg "requestSecretCreate";
  };
  provides = λ arg result. [];
  invalidates = λ arg. list_tag "Secrets" ∷ [];
}

abbrev pub get_secrets : Endpoint
get_secrets = record {
  request = λ arg. record {
    url = "/secrets";
    method = none;
    params = some (
        "limit" ≔ field arg "limit"
        ⊕ "offset" ≔ field arg "offset"
        ⊕ "project_id" ≔ field arg "projectId"
        ⊕ "name" ≔ field arg "name"
        ⊕ "type" ≔ field arg "type"
        ⊕ "sort_by" ≔ field arg "sortBy");
    body = undefined;
  };
  provides = λ arg result. list_tags "Secrets" result;
  invalidates = λ arg. [];
}

abbrev pub patch_secrets_by_id : Endpoint
patch_secrets_by_id = record {
  request = λ arg. record {
    url = "/secrets/" ⧺ to_string (field arg "id");
    method = some "PATCH";
    params = none;
    body = field arg "requestSecretPatch";
  };
  provides = λ arg result. [];
  invalidates = λ arg. tag "Secrets" (field arg "id") ∷ [];
}

abbrev pub delete_secrets_by_id : Endpoint
delete_secrets_by_id = record {
  request = λ arg. record {
    url = "/secrets/" ⧺ to_string (field arg "id");
    method = some "DELETE";
    params = none;
    body = undefined;
  };
  provides = λ arg result. [];
  invalidates = λ arg. list_tag "Secrets" ∷ [];
}
