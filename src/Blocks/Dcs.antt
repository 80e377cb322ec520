-- ===== src/Blocks/Dcs.antt =====
-- The fields that the block for the DCS shows for each server: `getCorrectFields` of
-- console/ui/src/entities/cluster/expert-mode/dcs-block/model/const.ts.
use postgresql_cluster.Common.{
  String, Bool, not, ◌&&◌, ◌||◌, false, List, [], ◌∷◌, ◌++◌, if◌then◌else◌,
}
use postgresql_cluster.Js.{Js, str, obj, Props, field, chain, is_str, truthy, ◌≔◌, ◌⊕◌}
use postgresql_cluster.Fields.Dcs
use postgresql_cluster.Constants.DcsTypes

abbrev pub shown_field : String → Js → Js
shown_field name label = obj ("fieldName" ≔ str name ⊕ "label" ≔ label)

-- `t` is the translation of a label.
unfoldable pub get_correct_fields : (String → Js) → Js → Js → Js → List Js
get_correct_fields t deploy_to_dcs_cluster deploy_to_db_servers dcs_type =
    (if not (truthy deploy_to_dcs_cluster)
      then shown_field Dcs.dcs_database_ip_address (t "ipAddress")
        ∷ (if is_str dcs_type DcsTypes.etcd
            then shown_field Dcs.dcs_database_port (t "port") ∷ []
            else [])
      else [])
    ++ (if truthy deploy_to_dcs_cluster && not (truthy deploy_to_db_servers)
        then shown_field Dcs.dcs_database_hostname (t "hostname")
          ∷ shown_field Dcs.dcs_database_ip_address (t "ipAddress")
          ∷ []
        else [])

-- The fields that the block shows, from the values that it watches.
unfoldable pub correct_fields : (String → Js) → Props → List Js
unfolding get_correct_fields
correct_fields t values =
    get_correct_fields t (field values Dcs.is_deploy_new_cluster)
      (field values Dcs.is_deploy_to_db_servers) (field values Dcs.type)

-- Whether a field of that name is among those shown.
abbrev pub is_shown : String → List Js → Bool
is_shown name [] = false
is_shown name (f ∷ fs) = is_str (chain f "fieldName") name || is_shown name fs
