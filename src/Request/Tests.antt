-- ===== src/Request/Tests.antt =====
-- Runs of the mapping.
use postgresql_cluster.Common.{map, ◌∷◌, false, ◌≡◌, refl, some, [], ◌↔◌, List, String}
use postgresql_cluster.Js.{
  put, Js, undefined, bool, num, str, obj, Props, end, prop, field, chain, lookup, ◌≔◌, ok, truthy,
  entries, Result, arr, from_list,
}
use postgresql_cluster.Fields.Secret
use postgresql_cluster.Samples.{
  sample_platform, sample-IsLodash, sample-IsBase64, result_or, local_values, yaml_values,
  custom_vars,
}
use postgresql_cluster.ExtraVars.{get_local_machine_extra_vars}
use postgresql_cluster.Inventory.{get_local_machine_envs}
use postgresql_cluster.Request.Fields.{map_form_values_to_request_fields, is_yaml, texts}
use postgresql_cluster.Request.CustomLaws.{resubmitted-environment}
use postgresql_cluster.Request.EnvLaws.{Carries, request-Carries}
use postgresql_cluster.Request.SecrecyLaws.{inventory-ansible_ssh_pass}
use postgresql_cluster.Request.IgnoreLaws.{saved_secret-hides}

-- The mapping of the form, and of the editor with its custom variables.
form_result : Props × Js
unfolding map_form_values_to_request_fields
form_result =
    result_or (end, undefined)
      (map_form_values_to_request_fields sample_platform false local_values (num 7) (num 1)
        undefined undefined)

yaml_result : Js → Props × Js
unfolding map_form_values_to_request_fields
yaml_result custom =
    result_or (end, undefined)
      (map_form_values_to_request_fields sample_platform false yaml_values (num 7) (num 1) undefined
        custom)

resubmitted-environment_example :
    (lookup (yaml_result (obj custom_vars)).0 "environment_id" ≡ some (num 1))
    × (lookup (yaml_result (yaml_result (obj custom_vars)).1).0 "environment_id" ≡ some undefined)
unfolding yaml_result field lookup is_yaml postgresql_cluster.Js.delete postgresql_cluster.Js.◌⊕◌
resubmitted-environment_example =
    resubmitted-environment sample_platform false yaml_values (num 7) (num 1) undefined custom_vars
      (yaml_result (obj custom_vars)).0 (yaml_result (yaml_result (obj custom_vars)).1).0
      (yaml_result (obj custom_vars)).1 (yaml_result (yaml_result (obj custom_vars)).1).1
      sample-IsLodash refl refl refl

request-Carries_example :
    (object : Props) × (carried : List String) × (get_local_machine_envs false local_values (num 7)
      ≡ ok object)
    × (lookup form_result.0 "envs" ≡ some (arr (from_list (texts carried))))
    × Carries (λ s. ok s) (entries object) carried
unfolding form_result field lookup postgresql_cluster.Js.◌⊕◌
request-Carries_example =
    request-Carries sample_platform (λ s. ok s) false local_values (num 7) (num 1) undefined
      undefined form_result.0 form_result.1 sample-IsBase64 refl refl

-- A form of secrets of which one field is filled in.
abbrev secrets : Props
secrets =
    prop "type" (str "aws")
      (prop Secret.aws_access_key_id (str "id") (prop Secret.do_api_token (str "") end))

-- The environment with a saved secret.
abbrev secret_object : Props
secret_object = result_or end (get_local_machine_envs false local_values (num 7))

saved_secret-hides_example :
    (get_local_machine_extra_vars false (put local_values Secret.ssh_private_key (str "k")) (num 7)
      ≡ get_local_machine_extra_vars false local_values (num 7))
    × (get_local_machine_extra_vars false (put local_values Secret.username (str "k")) (num 7)
        ≡ get_local_machine_extra_vars false local_values (num 7))
    × (get_local_machine_extra_vars false (put local_values Secret.password (str "k")) (num 7)
        ≡ get_local_machine_extra_vars false local_values (num 7))
    × (map (λ p. p.0) (entries secret_object) ≡ "ANSIBLE_INVENTORY_JSON" ∷ [])
    × (chain
          (chain (chain (field secret_object "ANSIBLE_INVENTORY_JSON") "all") "vars")
          "ansible_sudo_pass"
        ≡ str "pw")
unfolding get_local_machine_envs field
saved_secret-hides_example =
    saved_secret-hides false local_values (num 7) (str "k") secret_object refl refl

abbrev typed_object : Props
typed_object = result_or end (get_local_machine_envs false local_values undefined)

abbrev typed_vars : Props
typed_vars = result_or end (get_local_machine_extra_vars false local_values undefined)

inventory-ansible_ssh_pass_example :
    (chain
        (chain (chain (field typed_object "ANSIBLE_INVENTORY_JSON") "all") "vars")
        "ansible_ssh_pass"
      ≡ field typed_vars "ansible_ssh_pass")
    ↔ (str "root" ≡ str "pw")
unfolding get_local_machine_envs get_local_machine_extra_vars field
inventory-ansible_ssh_pass_example =
    inventory-ansible_ssh_pass false local_values undefined typed_object typed_vars refl refl refl
