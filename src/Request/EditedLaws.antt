-- ===== src/Request/EditedLaws.antt =====
-- The extra vars of a request that the YAML editor makes.
use postgresql_cluster.Common.{Bool, ◌≡◌, refl, some, Bool-cases, inl, inr, if◌then◌else◌}
use postgresql_cluster.Js.{
  Js, obj, Props, delete, lookup, object_laws, ok, Ensures, Ensures-ok, Result-cases,
}
use postgresql_cluster.Request.Imports.{Platform, IsLodash}
use postgresql_cluster.Inventory.{get_local_machine_envs}
use postgresql_cluster.Request.Envs.{convert_object_value_to_base64_format}
use postgresql_cluster.Request.Fields.{
  is_cloud_request, cloud_envs, get_request_cloud_params, get_request_local_machine_params,
  map_form_values_to_request_fields,
}
use postgresql_cluster.Request.FieldLaws.{request_parts}
use postgresql_cluster.Request.CustomLaws.{left_of-obj}

abbrev HasVars : Props → Props → Type 0
HasVars vars r = lookup r "extra_vars" ≡ some (obj vars)

module _ (platform : Platform) (expert : Bool) (values vars : Props) where
  cloud-HasVars :
      (secrets_info : Js)
      → Ensures
          (HasVars vars)
          (get_request_cloud_params platform expert values secrets_info (obj vars))
  unfolding get_request_cloud_params
  cloud-HasVars secrets_info = elim (Result-cases (cloud_envs platform values secrets_info)) [
    | inl (envs, e) ↦ rw e (simp object_laws (unfold lookup in refl))
    | inr e ↦ rw e tt
  ]

  local-HasVars :
      (secret_id : Js)
      → Ensures
          (HasVars vars)
          (get_request_local_machine_params platform expert values secret_id (obj vars))
  unfolding get_request_local_machine_params
  local-HasVars secret_id = elim (Result-cases (get_local_machine_envs expert values secret_id)) [
    | inl (object, d) ↦
        elim (Result-cases (convert_object_value_to_base64_format platform object)) [
          | inl (envs, e) ↦ rw (d, e) (simp object_laws (unfold lookup in refl))
          | inr e ↦ rw (d, e) tt
        ]
    | inr d ↦ rw d tt
  ]

  params-HasVars :
      (secret_id secrets_info : Js)
      → Ensures (HasVars vars) (
          if is_cloud_request values (obj vars)
          then get_request_cloud_params platform expert values secrets_info (obj vars)
          else get_request_local_machine_params platform expert values secret_id (obj vars))
  params-HasVars secret_id secrets_info = elim (Bool-cases (is_cloud_request values (obj vars))) [
    | inl cloud ↦ rw cloud (cloud-HasVars secrets_info)
    | inr local ↦ rw local (local-HasVars secret_id)
  ]

-- The extra vars are the custom ones, less the environment and the description.
pub request-extra_vars :
    (platform : Platform) (expert : Bool) (values : Props) (secret_id project_id secrets_info : Js)
    (ps request : Props) (left : Js)
    → IsLodash platform.is_empty
    → map_form_values_to_request_fields platform expert values secret_id project_id secrets_info
        (obj ps)
      ≡ ok (request, left)
    → lookup request "extra_vars" ≡ some (obj (delete (delete ps "environment_id") "description"))
request-extra_vars platform expert values secret_id project_id secrets_info ps request left laws e =
    let p =
      request_parts platform expert values secret_id project_id secrets_info (obj ps) request left
        e in
    let from = rw (left_of-obj platform ps laws) at p.from_params in
    let vars =
      Ensures-ok _ _ _
        (params-HasVars platform expert values (delete (delete ps "environment_id") "description")
          secret_id secrets_info)
        from in
    rw (← p.request_eq) (simp (object_laws, vars) refl)
