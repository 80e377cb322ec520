-- ===== src/Choices/Steps.antt =====
-- The changes of the form, in any order.
use postgresql_cluster.Common.{String, Bool, false, ◌||◌, ◌==◌, ◌≡◌}
use postgresql_cluster.Js.{Js, undefined, str, Props, field, chain, put, items_of, HasItem}
use postgresql_cluster.Fields.Cluster
use postgresql_cluster.Fields.Instances
use postgresql_cluster.Choices.{
  instances_of, handle_provider_change, handle_region_change, handle_region_config_change,
  handle_instance_type_change, handle_instance_config_change, set_volume_type, set_storage_amount,
  clear_backups, reset_form,
}

-- `config` is a datacenter of a region of the provider that has the code `region`.
abbrev pub IsOfRegion : Js → Js → Js → Type 0
IsOfRegion provider region config =
    (r : Js) × HasItem r (items_of (chain provider "cloud_regions"))
    × (chain r "code" ≡ region)
    × HasItem config (items_of (chain r "datacenters"))

abbrev pub at_key : Js → Js → Js
at_key v (str k) = chain v k
at_key v k = undefined

-- `config` is among the instances of that type that the block offers.
abbrev pub IsOfType : Bool → Js → Js → Js → Type 0
IsOfType expert provider type config =
    HasItem config (items_of (at_key (instances_of expert provider) type))

-- The fields that the choices set.
abbrev pub is_choice : String → Bool
is_choice k =
    k == Cluster.provider
    || k == Cluster.region
    || k == Cluster.region_config
    || k == Instances.instance_type
    || k == Cluster.instance_config

-- A change of the form: a choice among what is offered, an effect, or any other field.
pub data Step (expert : Bool) : Props → Props → Type 0 where
  provider_chosen : (v : Js) (s : Props) → Step expert s (handle_provider_change v s)
  region_chosen : (code : String) (s : Props) → Step expert s (handle_region_change code s)
  datacenter_chosen :
      (config : Js) (s : Props)
      → IsOfRegion (field s Cluster.provider) (field s Cluster.region) config
      → Step expert s (handle_region_config_change config s)
  type_chosen :
      (type : String) (s : Props) → Step expert s (handle_instance_type_change expert type s)
  instance_chosen :
      (config : Js) (s : Props)
      → IsOfType expert (field s Cluster.provider) (field s Instances.instance_type) config
      → Step expert s (handle_instance_config_change config s)
  volume_effect : (s : Props) → Step expert s (set_volume_type s)
  storage_effect : (s : Props) → Step expert s (set_storage_amount s)
  backups_effect : (s : Props) → Step expert s (clear_backups expert s)
  typed : (k : String) (v : Js) (s : Props) → is_choice k ≡ false → Step expert s (put s k v)

-- The forms that follow the one that the page resets to.
pub data IsReachable (expert : Bool) : Props → Type 0 where
  loaded :
      (providers versions environments cluster_name : Js) (s : Props)
      → field s Instances.instance_type ≡ str "small"
      → IsReachable expert (reset_form expert providers versions environments cluster_name s)
  changed : {s t : Props} → IsReachable expert s → Step expert s t → IsReachable expert t
