-- ===== src/Api/Clusters.antt =====
-- The endpoints of console/ui/src/shared/api/api/clusters.ts.
use postgresql_cluster.Common.{[], ◌∷◌, none, some}
use postgresql_cluster.Js.{undefined, field, to_string, ◌≔◌, ◌⊕◌}
use postgresql_cluster.Js.Text.{◌⧺◌}
use postgresql_cluster.Api.Kinds.{Endpoint, tag, list_tag, list_tags}

abbrev pub post_clusters : Endpoint
post_clusters = record {
  request = λ arg. record {
    url = "/clusters";
    method = some "POST";
    params = none;
    body = field arg "requestClusterCreate";
  };
  provides = λ arg result. [];
  invalidates = λ arg. list_tag "Clusters" ∷ [];
}

abbrev pub get_clusters : Endpoint
get_clusters = record {
  request = λ arg. record {
    url = "/clusters";
    method = none;
    params = some (
        "offset" ≔ field arg "offset"
        ⊕ "limit" ≔ field arg "limit"
        ⊕ "project_id" ≔ field arg "projectId"
        ⊕ "name" ≔ field arg "name"
        ⊕ "status" ≔ field arg "status"
        ⊕ "location" ≔ field arg "location"
        ⊕ "environment" ≔ field arg "environment"
        ⊕ "server_count" ≔ field arg "serverCount"
        ⊕ "postgres_version" ≔ field arg "postgresVersion"
        ⊕ "created_at_from" ≔ field arg "createdAtFrom"
        ⊕ "created_at_to" ≔ field arg "createdAtTo"
        ⊕ "sort_by" ≔ field arg "sortBy");
    body = undefined;
  };
  provides = λ arg result. list_tags "Clusters" result;
  invalidates = λ arg. [];
}

abbrev pub get_clusters_default_name : Endpoint
get_clusters_default_name = record {
  request = λ arg. record {
    url = "/clusters/default_name";
    method = none;
    params = none;
    body = undefined;
  };
  provides = λ arg result. [];
  invalidates = λ arg. [];
}

abbrev pub get_clusters_by_id : Endpoint
get_clusters_by_id = record {
  request = λ arg. record {
    url = "/clusters/" ⧺ to_string (field arg "id");
    method = none;
    params = none;
    body = undefined;
  };
  provides = λ arg result. tag "Clusters" (field arg "id") ∷ [];
  invalidates = λ arg. [];
}

abbrev pub delete_clusters_by_id : Endpoint
delete_clusters_by_id = record {
  request = λ arg. record {
    url = "/clusters/" ⧺ to_string (field arg "id");
    method = some "DELETE";
    params = none;
    body = undefined;
  };
  provides = λ arg result. [];
  invalidates = λ arg. list_tag "Clusters" ∷ [];
}

abbrev pub post_clusters_by_id_refresh : Endpoint
post_clusters_by_id_refresh = record {
  request = λ arg. record {
    url = "/clusters/" ⧺ to_string (field arg "id") ⧺ "/refresh";
    method = some "POST";
    params = none;
    body = undefined;
  };
  provides = λ arg result. [];
  invalidates = λ arg. tag "Clusters" (field arg "id") ∷ [];
}

abbrev pub post_clusters_by_id_reinit : Endpoint
post_clusters_by_id_reinit = record {
  request = λ arg. record {
    url = "/clusters/" ⧺ to_string (field arg "id") ⧺ "/reinit";
    method = some "POST";
    params = none;
    body = field arg "requestClusterReinit";
  };
  provides = λ arg result. [];
  invalidates = λ arg. tag "Clusters" (field arg "id") ∷ [];
}

abbrev pub post_clusters_by_id_reload : Endpoint
post_clusters_by_id_reload = record {
  request = λ arg. record {
    url = "/clusters/" ⧺ to_string (field arg "id") ⧺ "/reload";
    method = some "POST";
    params = none;
    body = field arg "requestClusterReload";
  };
  provides = λ arg result. [];
  invalidates = λ arg. tag "Clusters" (field arg "id") ∷ [];
}

abbrev pub post_clusters_by_id_restart : Endpoint
post_clusters_by_id_restart = record {
  request = λ arg. record {
    url = "/clusters/" ⧺ to_string (field arg "id") ⧺ "/restart";
    method = some "POST";
    params = none;
    body = field arg "requestClusterRestart";
  };
  provides = λ arg result. [];
  invalidates = λ arg. tag "Clusters" (field arg "id") ∷ [];
}

abbrev pub post_clusters_by_id_stop : Endpoint
post_clusters_by_id_stop = record {
  request = λ arg. record {
    url = "/clusters/" ⧺ to_string (field arg "id") ⧺ "/stop";
    method = some "POST";
    params = none;
    body = field arg "requestClusterStop";
  };
  provides = λ arg result. [];
  invalidates = λ arg. tag "Clusters" (field arg "id") ∷ [];
}

abbrev pub post_clusters_by_id_start : Endpoint
post_clusters_by_id_start = record {
  request = λ arg. record {
    url = "/clusters/" ⧺ to_string (field arg "id") ⧺ "/start";
    method = some "POST";
    params = none;
    body = field arg "requestClusterStart";
  };
  provides = λ arg result. [];
  invalidates = λ arg. tag "Clusters" (field arg "id") ∷ [];
}

abbrev pub post_clusters_by_id_remove : Endpoint
post_clusters_by_id_remove = record {
  request = λ arg. record {
    url = "/clusters/" ⧺ to_string (field arg "id") ⧺ "/remove";
    method = some "POST";
    params = none;
    body = field arg "requestClusterRemove";
  };
  provides = λ arg result. [];
  invalidates = λ arg. list_tag "Clusters" ∷ [];
}
