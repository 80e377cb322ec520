-- ===== src/Tables/Rows.antt =====
-- The rows, from the items of an answer.
use postgresql_cluster.Common.{Bool, not, length, List, [], ◌∷◌, ◌||◌, if◌then◌else◌}
use postgresql_cluster.Js.{
  Js, undefined, str, arr, obj, nil, items, from_list, Props, end, prop, chain, member, nullish,
  truthy, is_str, to_string, map_items, ◌≔◌, ◌⊕◌, when, Result, ok, ◌>>=◌, num,
}
use postgresql_cluster.Js.Text.{◌⧺◌}

-- `data?.map(row) ?? []`
unfoldable pub table_data : (Js → Result Js) → Js → Result Js
unfolding map_items
table_data row answer = do rows ← map_items row answer; ok (nullish rows (arr nil))

-- A row of an item; reading a property of a missing item throws.
abbrev pub row_of : (Js → Props) → Js → Result Js
row_of row item = do id ← member item "id"; ok (obj (row item))

-- `String(!!v)`
abbrev truth_text : Js → Js
truth_text v = str (if truthy v then "true" else "false")

unfoldable pub secret_row : Js → Props
secret_row secret =
    "name" ≔ chain secret "name"
    ⊕ "type" ≔ chain secret "type"
    ⊕ "created" ≔ chain secret "created_at"
    ⊕ "updated" ≔ chain secret "updated_at"
    ⊕ "used" ≔ truth_text (chain secret "is_used")
    ⊕ "id" ≔ chain secret "id"
    ⊕ "usedBy" ≔ chain secret "used_by_clusters"

unfoldable pub operation_row : Js → Props
operation_row operation =
    "id" ≔ chain operation "id"
    ⊕ "cluster_name" ≔ chain operation "cluster_name"
    ⊕ "started" ≔ chain operation "started"
    ⊕ "finished" ≔ (
        if is_str (chain operation "status") "in_progress"
        then str "-"
        else nullish (chain operation "finished") (str "-"))
    ⊕ "type" ≔ chain operation "type"
    ⊕ "status" ≔ chain operation "status"
    ⊕ "environment" ≔ chain operation "environment"

-- The rows of environments and of projects.
unfoldable pub described_row : Js → Props
described_row item =
    "id" ≔ chain item "id"
    ⊕ "name" ≔ chain item "name"
    ⊕ "created_at" ≔ chain item "created_at"
    ⊕ "updated_at" ≔ chain item "updated_at"
    ⊕ "description" ≔ nullish (chain item "description") (str "-")

-- The labels of the chips for the tags.
abbrev tag_labels : Props → List Js
tag_labels end = []
tag_labels (prop k v ps) = str (k ⧺ ": " ⧺ to_string v) ∷ tag_labels ps

abbrev tag_cell : Js → Js
tag_cell (obj ps) = arr (from_list (tag_labels ps))
tag_cell v = v

-- The row of a server of a cluster. No item is missing here, since each is read with `?.`.
unfoldable pub server_row : Js → Props
unfolding to_string
server_row item =
    "name" ≔ chain item "name"
    ⊕ "host" ≔ chain item "ip"
    ⊕ "role" ≔ chain item "role"
    ⊕ "state" ≔ chain item "status"
    ⊕ "timeline" ≔ chain item "timeline"
    ⊕ "lagInMb" ≔ chain item "lag"
    ⊕ "tags" ≔ tag_cell (chain item "tags")
    ⊕ "pendingRestart" ≔ str (to_string (chain item "pending_restart"))
    ⊕ "id" ≔ chain item "id"

-- `v?.length`, for an array or nothing
abbrev item_count : Js → Js
item_count (arr xs) = num (length (items xs))
item_count v = undefined

-- The cell for the name is a link to the cluster unless this is being deployed or has failed.
unfoldable pub is_linked : Js → Bool
is_linked cluster =
    not (is_str (chain cluster "status") "deploying" || is_str (chain cluster "status") "failed")

abbrev name_cell : Js → Props
name_cell cluster =
    when (is_linked cluster) ("clusterId" ≔ chain cluster "id") ⊕ "children" ≔ chain cluster "name"

-- The row of a cluster. The cell for the status is the text beside its icon.
unfoldable pub cluster_row : Js → Props
unfolding is_linked
cluster_row cluster =
    "name" ≔ obj (name_cell cluster)
    ⊕ "status" ≔ chain cluster "status"
    ⊕ "created_at" ≔ chain cluster "creation_time"
    ⊕ "environment" ≔ chain cluster "environment"
    ⊕ "server_count" ≔ nullish (item_count (chain cluster "servers")) (str "-")
    ⊕ "postgres_version" ≔ nullish (chain cluster "postgres_version") (str "-")
    ⊕ "location" ≔ nullish (chain cluster "cluster_location") (str "-")
    ⊕ "id" ≔ chain cluster "id"
