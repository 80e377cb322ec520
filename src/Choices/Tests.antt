-- ===== src/Choices/Tests.antt =====
-- Runs of the choices.
use postgresql_cluster.Common.{String, true, ◌≡◌, refl}
use postgresql_cluster.Js.{Js, undefined, str, num, arr, obj, nil, cons, Props, end, prop, field}
use postgresql_cluster.Fields.Cluster
use postgresql_cluster.Fields.Instances
use postgresql_cluster.Choices.{reset_form, handle_instance_type_change, handle_region_change}
use postgresql_cluster.Choices.Steps.{loaded, changed, type_chosen, region_chosen}
use postgresql_cluster.Choices.Laws.{IsConsistent, choices-IsConsistent}

abbrev coded : String → Js
coded code = obj (prop "code" (str code) end)

abbrev sample_region : String → String → Js
sample_region code datacenter =
    obj (prop "code" (str code) (prop "datacenters" (arr (cons (coded datacenter) nil)) end))

abbrev sample_provider : Js
sample_provider = obj (
    prop "code" (str "aws") (
      prop "cloud_regions"
        (arr (cons (sample_region "eu" "eu-1") (cons (sample_region "us" "us-1") nil)))
        (prop "instance_types"
          (obj (
            prop "small" (arr (cons (coded "t3") nil))
              (prop "medium" (arr (cons (coded "m6") nil)) end)))
          end)))

abbrev empty_values : Props
empty_values = prop Instances.instance_type (str "small") end

abbrev loaded_values : Props
loaded_values =
    reset_form true (arr (cons sample_provider nil)) undefined undefined undefined empty_values

abbrev chosen_values : Props
chosen_values = handle_region_change "us" (handle_instance_type_change true "medium" loaded_values)

chosen_test : field chosen_values Cluster.instance_config ≡ coded "m6"
unfolding reset_form field handle_region_change postgresql_cluster.Js.put
    handle_instance_type_change postgresql_cluster.Js.◌⊕◌
chosen_test = refl

choices-IsConsistent_example : IsConsistent true chosen_values
unfolding field
choices-IsConsistent_example = choices-IsConsistent true chosen_values (
    changed
      (changed
        (loaded (arr (cons sample_provider nil)) undefined undefined undefined empty_values refl)
        (type_chosen "medium" loaded_values))
      (region_chosen "us" (handle_instance_type_change true "medium" loaded_values)))

-- An answer of the service that comes after another type was chosen leaves the type, and sets an
-- instance of the small one.
late_answer :
    (field
        (reset_form true
          (arr (cons sample_provider nil))
          undefined
          undefined
          undefined
          chosen_values)
        Instances.instance_type
      ≡ str "medium")
    × (field
          (reset_form true
            (arr (cons sample_provider nil))
            undefined
            undefined
            undefined
            chosen_values)
          Cluster.instance_config
        ≡ coded "t3")
unfolding reset_form field postgresql_cluster.Js.◌⊕◌ handle_region_change postgresql_cluster.Js.put
    handle_instance_type_change
late_answer = (refl, refl)
