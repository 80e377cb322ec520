-- ===== src/Choices.antt =====
-- The choices of the cluster form that depend on one another: the provider
-- (console/ui/src/entities/cluster/providers-block/ui/index.tsx), the region and its datacenter
-- (cloud-region-block), the type and configuration of the instances (instances-block), the volume
-- (storage-block), and the values that console/ui/src/pages/add-cluster/ui/index.tsx starts from.
use postgresql_cluster.Common.{
  List, [], ◌∷◌, ℕ, String, Bool, true, false, not, ◌&&◌, ◌||◌, ltb, ◌==◌, if◌then◌else◌,
}
use postgresql_cluster.Js.{
  Js, undefined, bool, num, str, obj, Props, end, field, chain, put, is_str, truthy, nullish,
  first_of, items_of, find_item, ◌≔◌, ◌⊕◌, when,
}
use postgresql_cluster.Fields.Cluster
use postgresql_cluster.Fields.Storage
use postgresql_cluster.Fields.Backups
use postgresql_cluster.Fields.Instances
use postgresql_cluster.Constants.Providers
mod Steps
mod Laws
mod Tests

-- `volume?.is_default`
abbrev pub is_default : Js → Bool
is_default volume = truthy (chain volume "is_default")

-- `v < n`, for a number; nothing is not below a number.
abbrev is_below : Js → ℕ → Bool
is_below (num m) n = ltb m n
is_below v n = false

abbrev pub default_volume : Js → Js
default_volume provider = find_item is_default (chain provider "volumes")

-- The storage that `handleProviderChange` sets.
abbrev pub provider_storage : Js → Js
provider_storage provider =
    if is_below (chain (default_volume provider) "min_size") 100
    then num 100
    else chain (default_volume provider) "min_size"

-- `cloud_regions?.[0]`
abbrev pub first_region : Js → Js
first_region provider = first_of (chain provider "cloud_regions")

last_in : List Js → Js
last_in [] = undefined
last_in (x ∷ []) = x
last_in (x ∷ y ∷ xs) = last_in (y ∷ xs)

-- `v?.at(-1)`, for an array or nothing
unfoldable pub last_of : Js → Js
unfolding last_in
last_of v = last_in (items_of v)

-- `handleProviderChange`
unfoldable pub handle_provider_change : Js → Props → Props
unfolding find_item
handle_provider_change value values =
    values
    ⊕ Cluster.provider ≔ value
    ⊕ Cluster.region ≔ chain (first_region value) "code"
    ⊕ Cluster.region_config ≔ first_of (chain (first_region value) "datacenters")
    ⊕ Instances.instance_type ≔ str "small"
    ⊕ Cluster.instance_config ≔ first_of (chain (chain value "instance_types") "small")
    ⊕ Storage.storage_amount ≔ provider_storage value
    ⊕ Backups.is_backups_enabled ≔ bool (not (is_str (chain value "code") Providers.local))

-- The volume type that the effect of the storage block sets when the provider changes.
abbrev pub provider_volume_type : Js → Js
provider_volume_type provider =
    nullish (chain (default_volume provider) "volume_type")
      (chain (first_of (chain provider "volumes")) "volume_type")

unfoldable pub set_volume_type : Props → Props
unfolding find_item
set_volume_type values =
    put values Storage.volume_type (provider_volume_type (field values Cluster.provider))

abbrev is_undefined : Js → Bool
is_undefined undefined = true
is_undefined v = false

-- `volume?.volume_type === watchVolume`, where that is a text, and where there is none yet.
abbrev pub is_volume : String → Js → Bool
is_volume volume_type volume = is_str (chain volume "volume_type") volume_type

abbrev is_untyped : Js → Bool
is_untyped volume = is_undefined (chain volume "volume_type")

abbrev selected_volume : Props → Js → Js
selected_volume values (str s) =
    find_item (is_volume s) (chain (field values Cluster.provider) "volumes")
selected_volume values undefined =
    find_item is_untyped (chain (field values Cluster.provider) "volumes")
selected_volume values v = undefined

-- The effect of the storage block when the volume type changes.
unfoldable pub set_storage_amount : Props → Props
unfolding find_item
set_storage_amount values =
    put values Storage.storage_amount (
      nullish (chain (selected_volume values (field values Storage.volume_type)) "min_size")
        (num 1))

-- The effect of the backups block, which only the expert mode shows, when the provider changes.
unfoldable pub clear_backups : Bool → Props → Props
clear_backups expert values =
    let code = chain (field values Cluster.provider) "code" in
    if expert
      && (is_str code Providers.digital_ocean
          || is_str code Providers.hetzner
          || is_str code Providers.local)
    then put values Backups.is_backups_enabled (bool false)
    else values

-- `{ ...v }`, of an object or nothing
abbrev pub props_of : Js → Props
props_of (obj ps) = ps
props_of v = end

-- The instances that the block offers: the custom one is no array but what the block renders.
unfoldable pub instances_of : Bool → Js → Js
instances_of expert provider =
    let offered = chain provider "instance_types" in
    if expert then obj (props_of offered ⊕ "custom" ≔ obj end) else nullish offered (obj end)

-- `handleRegionChange`
unfoldable pub handle_region_change : String → Props → Props
unfolding find_item
handle_region_change value values =
    let regions = chain (field values Cluster.provider) "cloud_regions" in
    put (put values Cluster.region (str value)) Cluster.region_config (
      first_of
        (chain (find_item (λ region. is_str (chain region "code") value) regions) "datacenters"))

-- `handleRegionConfigChange`
unfoldable pub handle_region_config_change : Js → Props → Props
handle_region_config_change config values = put values Cluster.region_config config

-- `handleInstanceTypeChange`
unfoldable pub handle_instance_type_change : Bool → String → Props → Props
unfolding instances_of
handle_instance_type_change expert value values =
    put (put values Instances.instance_type (str value)) Cluster.instance_config
      (first_of (chain (instances_of expert (field values Cluster.provider)) value))

-- `handleInstanceConfigChange`
unfoldable pub handle_instance_config_change : Js → Props → Props
handle_instance_config_change config values = put values Cluster.instance_config config

-- What the page resets the form to when all four answers of the service are there; `versions.at(-1)`
-- is the last item.
unfoldable pub reset_form : Bool → Js → Js → Js → Js → Props → Props
unfolding find_item last_of
reset_form expert providers versions environments cluster_name values =
    let provider = first_of providers in
    values
    ⊕ Cluster.provider ≔ provider
    ⊕ Cluster.region ≔ chain (first_region provider) "code"
    ⊕ Cluster.region_config ≔ first_of (chain (first_region provider) "datacenters")
    ⊕ Cluster.instance_config ≔ first_of (chain (chain provider "instance_types") "small")
    ⊕ Cluster.postgres_version ≔ chain (last_of versions) "major_version"
    ⊕ Cluster.environment_id ≔ chain (first_of environments) "id"
    ⊕ Cluster.cluster_name ≔ nullish (chain cluster_name "name") (str "postgres-cluster")
    ⊕ when expert (Storage.volume_type ≔ provider_volume_type provider)
