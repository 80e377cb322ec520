-- ===== src/Api/Projects.antt =====
-- The endpoints of console/ui/src/shared/api/api/projects.ts.
use postgresql_cluster.Common.{[], ◌∷◌, none, some}
use postgresql_cluster.Js.{undefined, field, to_string, ◌≔◌, ◌⊕◌}
use postgresql_cluster.Js.Text.{◌⧺◌}
use postgresql_cluster.Api.Kinds.{Endpoint, tag, list_tag, list_tags}

abbrev pub post_projects : Endpoint
post_projects = record {
  request = λ arg. record {
    url = "/projects";
    method = some "POST";
    params = none;
    body = field arg "requestProjectCreate";
  };
  provides = λ arg result. [];
  invalidates = λ arg. list_tag "Projects" ∷ [];
}

abbrev pub get_projects : Endpoint
get_projects = record {
  request = λ arg. record {
    url = "/projects";
    method = none;
    params = some ("limit" ≔ field arg "limit" ⊕ "offset" ≔ field arg "offset");
    body = undefined;
  };
  provides = λ arg result. list_tags "Projects" result;
  invalidates = λ arg. [];
}

abbrev pub patch_projects_by_id : Endpoint
patch_projects_by_id = record {
  request = λ arg. record {
    url = "/projects/" ⧺ to_string (field arg "id");
    method = some "PATCH";
    params = none;
    body = field arg "requestProjectPatch";
  };
  provides = λ arg result. [];
  invalidates = λ arg. tag "Projects" (field arg "id") ∷ [];
}

abbrev pub delete_projects_by_id : Endpoint
delete_projects_by_id = record {
  request = λ arg. record {
    url = "/projects/" ⧺ to_string (field arg "id");
    method = some "DELETE";
    params = none;
    body = undefined;
  };
  provides = λ arg result. [];
  invalidates = λ arg. list_tag "Projects" ∷ [];
}
