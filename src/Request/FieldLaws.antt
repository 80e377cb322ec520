-- ===== src/Request/FieldLaws.antt =====
-- The fields of a request that do not depend on how the cluster is deployed.
use postgresql_cluster.Common.{
  Bool, false, String, ◌≡◌, refl, none, some, Bool-cases, inl, inr, if◌then◌else◌, ◌==◌, sym, ap,
  arith,
}
use postgresql_cluster.Js.{
  Js, Props, obj, truthy, lookup, object_laws, ◌≔◌, ◌⊕◌, ok, bind-eq-ok, Ensures, Ensures-ok,
  ok-injective, Result-cases,
}
use postgresql_cluster.Request.Imports.{Platform}
use postgresql_cluster.Inventory.{get_local_machine_envs}
use postgresql_cluster.Request.Envs.{convert_object_value_to_base64_format}
use postgresql_cluster.Request.Fields.{
  base_object, is_cloud_request, identity_fields, is_yaml, custom_or, cloud_extra_vars,
  local_extra_vars, cloud_envs, get_request_cloud_params, get_request_local_machine_params,
  map_form_values_to_request_fields, left_of,
}

-- What the mapping returns: the fields that every request has, the parameters, and what is left
-- of the custom variables.
pub record RequestParts (platform : Platform) (expert : Bool) (values : Props)
    (secret_id project_id secrets_info custom : Js) (request : Props) (left : Js) : Type 0 where
  pub params : Props
  pub from_params :
      (if is_cloud_request values (left_of platform custom)
        then get_request_cloud_params platform expert values secrets_info (left_of platform custom)
        else get_request_local_machine_params platform expert values secret_id
            (left_of platform custom))
      ≡ ok params
  pub left_eq : left ≡ left_of platform custom
  pub request_eq : base_object platform values secret_id project_id custom ⊕ params ≡ request

module _ (platform : Platform) (expert : Bool) (values : Props)
    (secret_id project_id secrets_info custom : Js) (request : Props) (left : Js) where
  pub request_parts :
      map_form_values_to_request_fields platform expert values secret_id project_id secrets_info
          custom
        ≡ ok (request, left)
      → RequestParts platform expert values secret_id project_id secrets_info custom request left
  unfolding map_form_values_to_request_fields
  request_parts e =
      let kept = left_of platform custom in
      let (params, here, e1) =
        bind-eq-ok
          (if is_cloud_request values kept
            then get_request_cloud_params platform expert values secrets_info kept
            else get_request_local_machine_params platform expert values secret_id kept)
          _ e in
      record {
        params = params;
        from_params = here;
        left_eq = sym (ap (λ p. p.1) (ok-injective _ _ e1));
        request_eq = ap (λ p. p.0) (ok-injective _ _ e1);
      }

-- The parameters have neither of the fields of every request.
pub record IsOwn (k : String) : Type 0 where
  pub envs : ("envs" == k) ≡ false
  pub extra_vars : ("extra_vars" == k) ≡ false
  pub existing_cluster : ("existing_cluster" == k) ≡ false

module _ (platform : Platform) (expert : Bool) (values : Props) (k : String) (own : IsOwn k) where
  cloud-own :
      (secrets_info custom : Js)
      → Ensures
          (λ r. lookup r k ≡ none)
          (get_request_cloud_params platform expert values secrets_info custom)
  unfolding get_request_cloud_params
  cloud-own secrets_info custom = elim (Result-cases (cloud_envs platform values secrets_info)) [
    | inl (envs, e) ↦ elim (Result-cases (custom_or custom (cloud_extra_vars expert values))) [
      | inl (vars, f) ↦
          rw (e, f) (simp object_laws (unfold lookup in rw (own.envs, own.extra_vars) refl))
      | inr f ↦ rw (e, f) tt
    ]
    | inr e ↦ rw e tt
  ]

  local-own :
      (secret_id custom : Js)
      → Ensures
          (λ r. lookup r k ≡ none)
          (get_request_local_machine_params platform expert values secret_id custom)
  unfolding get_request_local_machine_params
  local-own secret_id custom =
      elim (Result-cases (get_local_machine_envs expert values secret_id)) [
        | inl (object, d) ↦
            elim (Result-cases (convert_object_value_to_base64_format platform object)) [
              | inl (envs, e) ↦
                  elim (Result-cases
                    (custom_or custom (local_extra_vars expert values secret_id))) [
                      | inl (vars, f) ↦
                          rw (d, e, f)
                            (simp object_laws (
                              unfold lookup in
                              rw (own.envs, own.extra_vars, own.existing_cluster) refl))
                      | inr f ↦ rw (d, e, f) tt
                    ]
              | inr e ↦ rw (d, e) tt
            ]
        | inr d ↦ rw d tt
      ]

  pub params-own :
      (secret_id secrets_info custom : Js)
      → Ensures
          (λ r. lookup r k ≡ none)
          (if is_cloud_request values custom
            then get_request_cloud_params platform expert values secrets_info custom
            else get_request_local_machine_params platform expert values secret_id custom)
  params-own secret_id secrets_info custom = elim (Bool-cases (is_cloud_request values custom)) [
    | inl cloud ↦ rw cloud (cloud-own secrets_info custom)
    | inr local ↦ rw local (local-own secret_id custom)
  ]

identity-auth_info :
    (values : Props) (custom : Js) → lookup (identity_fields values custom) "auth_info" ≡ none
unfolding identity_fields
identity-auth_info values custom = elim (Bool-cases (is_yaml values)) [
  | inl yaml ↦ rw yaml (simp object_laws (unfold lookup in refl))
  | inr form ↦ rw form (simp object_laws (unfold lookup in refl))
]

-- A request names the secret to connect with exactly if there is one.
pub request-auth_info :
    (platform : Platform) (expert : Bool) (values : Props)
    (secret_id project_id secrets_info custom : Js) (request : Props) (left : Js)
    → map_form_values_to_request_fields platform expert values secret_id project_id secrets_info
        custom
      ≡ ok (request, left)
    → lookup request "auth_info"
      ≡ (if truthy secret_id then some (obj ("secret_id" ≔ secret_id)) else none)
unfolding base_object
request-auth_info platform expert values secret_id project_id secrets_info custom request left e =
    let p =
      request_parts platform expert values secret_id project_id secrets_info custom request left
        e in
    let free =
      Ensures-ok _ _ _
        (params-own platform expert values "auth_info"
          (record { envs = refl; extra_vars = refl; existing_cluster = refl }) secret_id
          secrets_info (left_of platform custom))
        p.from_params in
    rw (← p.request_eq)
      (simp (object_laws, free, identity-auth_info values custom) (unfold lookup in ground arith))
