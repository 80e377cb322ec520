-- ===== src/Api/Tests.antt =====
-- Runs of the endpoints.
use postgresql_cluster.Common.{◌≡◌, refl, All}
use postgresql_cluster.Js.{Js, undefined, num, str, obj, arr, cons, nil, Props, end, prop, ◌≔◌, ◌⊕◌}
use postgresql_cluster.Api.Clusters.{post_clusters_by_id_refresh}
use postgresql_cluster.Api.Laws.{IsStale, list_changes, list_changes-IsStale}

abbrev cluster : Js
cluster = obj (prop "id" (num 3) end)

abbrev argument : Props
argument = prop "id" (num 3) end

url_test : (post_clusters_by_id_refresh.request argument).url ≡ "/clusters/3/refresh"
unfolding postgresql_cluster.Js.to_string postgresql_cluster.Js.field
    postgresql_cluster.Js.Text.decimal
url_test = refl

list_changes-IsStale_example :
    All (λ p. IsStale (p.0.invalidates argument) (p.1.provides end undefined)) list_changes
list_changes-IsStale_example = list_changes-IsStale argument end undefined
