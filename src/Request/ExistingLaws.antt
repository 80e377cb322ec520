-- ===== src/Request/ExistingLaws.antt =====
-- Which requests say whether the cluster exists.
use postgresql_cluster.Common.{
  Bool, ◌≡◌, refl, none, some, Bool-cases, inl, inr, if◌then◌else◌, arith,
}
use postgresql_cluster.Js.{
  bool, chain, Js, Props, truthy, lookup, object_laws, ok, Ensures, Ensures-ok, Result-cases, bool,
  chain, field,
}
use postgresql_cluster.Request.Imports.{Platform}
use postgresql_cluster.Inventory.{get_local_machine_envs}
use postgresql_cluster.Request.Envs.{convert_object_value_to_base64_format}
use postgresql_cluster.Fields.DatabaseServers
use postgresql_cluster.Request.FieldLaws.{request_parts}
use postgresql_cluster.Request.Fields.{
  says_existing, left_of, base_object, is_cloud_request, identity_fields, is_yaml, custom_or,
  cloud_extra_vars, local_extra_vars, cloud_envs, get_request_cloud_params,
  get_request_local_machine_params, map_form_values_to_request_fields, left_of, says_existing,
}

-- What a request says of an existing cluster.
abbrev pub existing : Props → Js → Bool
existing values custom =
    if is_yaml values
    then says_existing (chain custom "existing_cluster")
    else truthy (field values DatabaseServers.is_cluster_exists)

cloud-existing :
    (platform : Platform) (expert : Bool) (values : Props) (secrets_info custom : Js)
    → Ensures
        (λ r. lookup r "existing_cluster" ≡ none)
        (get_request_cloud_params platform expert values secrets_info custom)
unfolding get_request_cloud_params
cloud-existing platform expert values secrets_info custom =
    elim (Result-cases (cloud_envs platform values secrets_info)) [
      | inl (envs, e) ↦ elim (Result-cases (custom_or custom (cloud_extra_vars expert values))) [
        | inl (vars, f) ↦ rw (e, f) (simp object_laws (unfold lookup in refl))
        | inr f ↦ rw (e, f) tt
      ]
      | inr e ↦ rw e tt
    ]

local-existing :
    (platform : Platform) (expert : Bool) (values : Props) (secret_id custom : Js)
    → Ensures
        (λ r. lookup r "existing_cluster" ≡ some (bool (existing values custom)))
        (get_request_local_machine_params platform expert values secret_id custom)
unfolding get_request_local_machine_params
local-existing platform expert values secret_id custom =
    elim (Result-cases (get_local_machine_envs expert values secret_id)) [
      | inl (object, d) ↦
          elim (Result-cases (convert_object_value_to_base64_format platform object)) [
            | inl (envs, e) ↦
                elim (Result-cases (custom_or custom (local_extra_vars expert values secret_id))) [
                  | inl (vars, f) ↦ rw (d, e, f) (simp object_laws (unfold lookup in refl))
                  | inr f ↦ rw (d, e, f) tt
                ]
            | inr e ↦ rw (d, e) tt
          ]
      | inr d ↦ rw d tt
    ]

params-existing :
    (platform : Platform) (expert : Bool) (values : Props) (secret_id secrets_info custom : Js)
    → Ensures
        (λ r.
          lookup r "existing_cluster"
          ≡ (if is_cloud_request values custom then none else some (bool (existing values custom))))
        (if is_cloud_request values custom
          then get_request_cloud_params platform expert values secrets_info custom
          else get_request_local_machine_params platform expert values secret_id custom)
params-existing platform expert values secret_id secrets_info custom =
    elim (Bool-cases (is_cloud_request values custom)) [
      | inl cloud ↦ rw cloud (cloud-existing platform expert values secrets_info custom)
      | inr local ↦ rw local (local-existing platform expert values secret_id custom)
    ]

identity-existing :
    (values : Props) (custom : Js)
    → lookup (identity_fields values custom) "existing_cluster" ≡ none
unfolding identity_fields
identity-existing values custom = elim (Bool-cases (is_yaml values)) [
  | inl yaml ↦ rw yaml (simp object_laws (unfold lookup in refl))
  | inr form ↦ rw form (simp object_laws (unfold lookup in refl))
]

-- Only a request for servers of one's own says whether the cluster exists: with the YAML
-- editor as the text of its variable says, and otherwise as the form says.
pub request-existing_cluster :
    (platform : Platform) (expert : Bool) (values : Props)
    (secret_id project_id secrets_info custom : Js) (request : Props) (left : Js)
    → map_form_values_to_request_fields platform expert values secret_id project_id secrets_info
        custom
      ≡ ok (request, left)
    → lookup request "existing_cluster"
      ≡ (if is_cloud_request values left then none else some (bool (existing values left)))
unfolding base_object
request-existing_cluster platform expert values secret_id project_id secrets_info custom request
      left e =
    let p =
      request_parts platform expert values secret_id project_id secrets_info custom request left
        e in
    let own =
      Ensures-ok _ _ _
        (params-existing platform expert values secret_id secrets_info (left_of platform custom))
        p.from_params in
    rw (p.left_eq, ← p.request_eq)
      (simp (object_laws, own, identity-existing values custom) (unfold lookup in ground arith))
