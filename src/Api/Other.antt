-- ===== src/Api/Other.antt =====
-- The endpoints of console/ui/src/shared/api/api/other.ts.
use postgresql_cluster.Common.{[], none, some}
use postgresql_cluster.Js.{undefined, field, to_string, ◌≔◌, ◌⊕◌}
use postgresql_cluster.Js.Text.{◌⧺◌}
use postgresql_cluster.Api.Kinds.{Endpoint}

abbrev pub get_version : Endpoint
get_version = record {
  request = λ arg. record { url = "/version"; method = none; params = none; body = undefined };
  provides = λ arg result. [];
  invalidates = λ arg. [];
}

abbrev pub get_database_extensions : Endpoint
get_database_extensions = record {
  request = λ arg. record {
    url = "/database/extensions";
    method = none;
    params = some (
        "offset" ≔ field arg "offset"
        ⊕ "limit" ≔ field arg "limit"
        ⊕ "extension_type" ≔ field arg "extensionType"
        ⊕ "postgres_version" ≔ field arg "postgresVersion");
    body = undefined;
  };
  provides = λ arg result. [];
  invalidates = λ arg. [];
}

abbrev pub get_postgres_versions : Endpoint
get_postgres_versions = record {
  request =
      λ arg. record { url = "/postgres_versions"; method = none; params = none; body = undefined };
  provides = λ arg result. [];
  invalidates = λ arg. [];
}

abbrev pub delete_servers_by_id : Endpoint
delete_servers_by_id = record {
  request = λ arg. record {
    url = "/servers/" ⧺ to_string (field arg "id");
    method = some "DELETE";
    params = none;
    body = undefined;
  };
  provides = λ arg result. [];
  invalidates = λ arg. [];
}
