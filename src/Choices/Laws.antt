-- ===== src/Choices/Laws.antt =====
-- The choices stay consistent.
use postgresql_cluster.Common.{
  ◌∙◌, String, Bool, true, false, ◌==◌, ◌≡◌, refl, ◌⊎◌, inl, inr, arith, eq_iff, if◌then◌else◌, ◌∙◌,
  ap,
}
use postgresql_cluster.Js.{
  null, nan, bool, num, arr, ◌⊕◌, ◌≔◌, nullish, Js, undefined, str, obj, Props, end, field, chain,
  lookup, put, field-put, object_laws, first_of, first_of-HasItem, find_item, find_item-IsFound,
  is_str, arr,
}
use postgresql_cluster.Fields.Cluster
use postgresql_cluster.Fields.Instances
use postgresql_cluster.Choices.{
  instances_of, handle_provider_change, handle_region_change, handle_region_config_change,
  handle_instance_type_change, handle_instance_config_change, set_volume_type, set_storage_amount,
  clear_backups, reset_form, first_region, nullish, props_of, bool, num,
}
use postgresql_cluster.Choices.Steps.{
  IsOfRegion, IsOfType, is_choice, Step, provider_chosen, region_chosen, datacenter_chosen,
  type_chosen, instance_chosen, volume_effect, storage_effect, backups_effect, typed, IsReachable,
  loaded, changed,
}

-- What is chosen of the region and of the instances, if something is, is offered.
abbrev pub AreOffered : Bool → Js → Js → Js → Js → Js → Type 0
AreOffered expert provider region region_config type instance_config =
    ((region_config ≡ undefined) ⊎ IsOfRegion provider region region_config)
    × ((instance_config ≡ undefined) ⊎ IsOfType expert provider type instance_config)

abbrev pub IsConsistent : Bool → Props → Type 0
IsConsistent expert s =
    AreOffered expert (field s Cluster.provider) (field s Cluster.region)
      (field s Cluster.region_config) (field s Instances.instance_type)
      (field s Cluster.instance_config)

first_region-IsOfRegion :
    (provider : Js)
    → (first_of (chain (first_region provider) "datacenters") ≡ undefined)
      ⊎ IsOfRegion provider
          (chain (first_region provider) "code")
          (first_of (chain (first_region provider) "datacenters"))
first_region-IsOfRegion provider = elim (first_of-HasItem (chain provider "cloud_regions")) [
  | inl none_there ↦ inl (rw none_there refl)
  | inr region ↦ elim (first_of-HasItem (chain (first_region provider) "datacenters")) [
    | inl empty ↦ inl empty
    | inr config ↦ inr (first_region provider, region, refl, config)
  ]
]

small_spread :
    (offered : Js) → field (props_of offered ⊕ "custom" ≔ obj end) "small" ≡ chain offered "small"
unfolding field lookup
small_spread (obj ps) = simp object_laws
small_spread v = simp object_laws

small_nullish : (offered : Js) → chain (nullish offered (obj end)) "small" ≡ chain offered "small"
unfolding field lookup
small_nullish undefined = refl
small_nullish v = refl

-- The custom instance does not hide the small ones.
small_offered :
    (expert : Bool) (offered : Js)
    → chain
        (if expert then obj (props_of offered ⊕ "custom" ≔ obj end) else nullish offered (obj end))
        "small"
      ≡ chain offered "small"
small_offered true offered = small_spread offered
small_offered false offered = small_nullish offered

small-IsOfType :
    (expert : Bool) (provider : Js)
    → (first_of (chain (chain provider "instance_types") "small") ≡ undefined)
      ⊎ IsOfType expert provider
          (str "small")
          (first_of (chain (chain provider "instance_types") "small"))
unfolding instances_of
small-IsOfType expert provider =
    rw (small_offered expert (chain provider "instance_types"))
      (first_of-HasItem (chain (chain provider "instance_types") "small"))

provider_chosen-IsConsistent :
    (expert : Bool) (v : Js) (s : Props) → IsConsistent expert (handle_provider_change v s)
unfolding handle_provider_change field lookup
provider_chosen-IsConsistent expert v s =
    simp object_laws (first_region-IsOfRegion v, small-IsOfType expert v)

-- What does not touch the choices keeps them consistent.
module _ (expert : Bool) (s t : Props)
    (provider : field t Cluster.provider ≡ field s Cluster.provider)
    (instance_type : field t Instances.instance_type ≡ field s Instances.instance_type)
    (region : field t Cluster.region ≡ field s Cluster.region)
    (region_config : field t Cluster.region_config ≡ field s Cluster.region_config)
    (instance_config : field t Cluster.instance_config ≡ field s Cluster.instance_config) where
  kept-IsConsistent : IsConsistent expert s → IsConsistent expert t
  kept-IsConsistent h = rw (provider, region, region_config, instance_type, instance_config) h

put-IsConsistent :
    (expert : Bool) (s : Props) (k : String) (v : Js)
    → is_choice k ≡ false
    → IsConsistent expert s
    → IsConsistent expert (put s k v)
put-IsConsistent expert s k v other h =
    kept-IsConsistent expert s (put s k v) (kept Cluster.provider (ground arith))
      (kept Instances.instance_type (ground arith)) (kept Cluster.region (ground arith))
      (kept Cluster.region_config (ground arith)) (kept Cluster.instance_config (ground arith)) h
  where
    kept : (j : String) → (k == j) ≡ false → field (put s k v) j ≡ field s j
    kept j e = field-put s k j v ∙ rw e refl

is_str-eq : (v : Js) (t : String) → is_str v t ≡ true → v ≡ str t
is_str-eq (str s) t h = ap str ((eq_iff s t).0 h)
is_str-eq undefined t h = cc
is_str-eq null t h = cc
is_str-eq nan t h = cc
is_str-eq (bool b) t h = cc
is_str-eq (num n) t h = cc
is_str-eq (arr xs) t h = cc
is_str-eq (obj ps) t h = cc

-- The region with that code.
abbrev region_of : Js → String → Js
region_of provider code =
    find_item (λ region. is_str (chain region "code") code) (chain provider "cloud_regions")

found_region-IsOfRegion :
    (provider : Js) (code : String)
    → (first_of (chain (region_of provider code) "datacenters") ≡ undefined)
      ⊎ IsOfRegion provider (str code) (first_of (chain (region_of provider code) "datacenters"))
found_region-IsOfRegion provider code =
    elim (find_item-IsFound (λ region. is_str (chain region "code") code)
      (chain provider "cloud_regions")) [
        | inl nowhere ↦ inl (rw nowhere refl)
        | inr (has, holds) ↦
            elim (first_of-HasItem (chain (region_of provider code) "datacenters")) [
              | inl empty ↦ inl empty
              | inr config ↦ inr (
                region_of provider code,
                has,
                is_str-eq (chain (region_of provider code) "code") code holds,
                config,
              )
            ]
      ]

region_chosen-IsConsistent :
    (expert : Bool) (code : String) (s : Props)
    → IsConsistent expert s
    → IsConsistent expert (handle_region_change code s)
unfolding handle_region_change
region_chosen-IsConsistent expert code s (region, instance) =
    simp field-put (found_region-IsOfRegion (field s Cluster.provider) code, instance)

type_chosen-IsConsistent :
    (expert : Bool) (type : String) (s : Props)
    → IsConsistent expert s
    → IsConsistent expert (handle_instance_type_change expert type s)
unfolding handle_instance_type_change
type_chosen-IsConsistent expert type s (region, instance) =
    simp field-put
      (region, first_of-HasItem (chain (instances_of expert (field s Cluster.provider)) type))

branch-IsConsistent :
    (expert b : Bool) (s t : Props)
    → IsConsistent expert s
    → IsConsistent expert t
    → IsConsistent expert (if b then s else t)
branch-IsConsistent expert true s t h k = h
branch-IsConsistent expert false s t h k = k

Step-IsConsistent :
    (expert : Bool) {s t : Props} → Step expert s t → IsConsistent expert s → IsConsistent expert t
unfolding handle_region_config_change handle_instance_config_change set_volume_type
    set_storage_amount clear_backups
Step-IsConsistent expert (provider_chosen v s) h = provider_chosen-IsConsistent expert v s
Step-IsConsistent expert (region_chosen code s) h = region_chosen-IsConsistent expert code s h
Step-IsConsistent expert (datacenter_chosen config s offered) (region, instance) =
    simp field-put (inr offered, instance)
Step-IsConsistent expert (type_chosen type s) h = type_chosen-IsConsistent expert type s h
Step-IsConsistent expert (instance_chosen config s offered) (region, instance) =
    simp field-put (region, inr offered)
Step-IsConsistent expert (volume_effect s) h = put-IsConsistent expert s _ _ refl h
Step-IsConsistent expert (storage_effect s) h = put-IsConsistent expert s _ _ refl h
Step-IsConsistent expert (backups_effect s) h =
    branch-IsConsistent expert _ _ _ (put-IsConsistent expert s _ _ refl h) h
Step-IsConsistent expert (typed k v s other) h = put-IsConsistent expert s k v other h

loaded-IsConsistent :
    (expert : Bool) (providers versions environments cluster_name : Js) (s : Props)
    → field s Instances.instance_type ≡ str "small"
    → IsConsistent expert (reset_form expert providers versions environments cluster_name s)
unfolding reset_form field lookup
loaded-IsConsistent true providers versions environments cluster_name s small = simp object_laws (
    rw small
      (first_region-IsOfRegion (first_of providers), small-IsOfType true (first_of providers)))
loaded-IsConsistent false providers versions environments cluster_name s small = simp object_laws (
    rw small
      (first_region-IsOfRegion (first_of providers), small-IsOfType false (first_of providers)))

-- Whatever is chosen in the form after it was loaded, and in whatever order the effects run: the
-- datacenter, if there is one, is of a region of the chosen provider with the chosen code, and the
-- instance, if there is one, is among those of the chosen type that the provider offers.
pub choices-IsConsistent :
    (expert : Bool) (s : Props) → IsReachable expert s → IsConsistent expert s
choices-IsConsistent expert _ (loaded providers versions environments cluster_name s small) =
    loaded-IsConsistent expert providers versions environments cluster_name s small
choices-IsConsistent expert t (changed {s} before step) =
    Step-IsConsistent expert step (choices-IsConsistent expert s before)
