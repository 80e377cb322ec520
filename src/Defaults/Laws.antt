-- ===== src/Defaults/Laws.antt =====
-- What the rest of the code makes of the default values.
use postgresql_cluster.Common.{String, Bool, true, false, ◌≡◌, refl}
use postgresql_cluster.Js.{Props, field, lookup, ◌⊕◌, Returns}
use postgresql_cluster.Defaults.{cluster_form_default_values}
use postgresql_cluster.Summary.{is_high_availability}
use postgresql_cluster.ExtraVars.{get_base_cluster_extra_vars}

-- With the default values, in both modes and whatever identifier the first database has, the
-- summary says that the cluster is highly available, and the base variables can be made without an
-- exception.
pub default_values_lem :
    (expert : Bool) (unique_id : String)
    → (is_high_availability expert (cluster_form_default_values expert unique_id) ≡ true)
      × Returns (get_base_cluster_extra_vars expert (cluster_form_default_values expert unique_id))
unfolding is_high_availability get_base_cluster_extra_vars cluster_form_default_values field lookup
    ◌⊕◌ postgresql_cluster.Js.map_items
default_values_lem true unique_id = (refl, tt)
default_values_lem false unique_id = (refl, tt)
