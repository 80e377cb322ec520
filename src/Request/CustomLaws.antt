-- ===== src/Request/CustomLaws.antt =====
-- What the mapping does to the object of custom variables that it is given.
use postgresql_cluster.Common.{
  Bool, true, String, ◌≡◌, refl, ap, ◌∙◌, some, arith, ◌==◌, ◌||◌, if◌then◌else◌,
}
use postgresql_cluster.Js.{
  Js, undefined, obj, Props, end, prop, field, chain, lookup, lookup-delete, delete, object_laws,
  ok, Ensures-ok,
}
use postgresql_cluster.Request.Imports.{Platform, IsLodash}
use postgresql_cluster.Request.Fields.{
  base_object, delete_field, left_of, is_yaml, identity_fields, map_form_values_to_request_fields,
}
use postgresql_cluster.Request.FieldLaws.{request_parts, params-own}

delete_field-obj :
    (platform : Platform) (k : String) (ps : Props)
    → IsLodash platform.is_empty
    → delete_field platform k (obj ps) ≡ obj (delete ps k)
unfolding delete_field delete
delete_field-obj platform k end laws = rw laws.at_end refl
delete_field-obj platform k (prop j v ps) laws = rw (laws.at_prop j v ps) refl

pub left_of-obj :
    (platform : Platform) (ps : Props)
    → IsLodash platform.is_empty
    → left_of platform (obj ps) ≡ obj (delete (delete ps "environment_id") "description")
unfolding left_of
left_of-obj platform ps laws =
    ap (delete_field platform "description") (delete_field-obj platform "environment_id" ps laws)
    ∙ delete_field-obj platform "description" (delete ps "environment_id") laws

-- The object that the mapping was given has lost its environment and its description, and
-- nothing else.
pub custom-kept :
    (platform : Platform) (expert : Bool) (values : Props) (secret_id project_id secrets_info : Js)
    (ps request : Props) (left : Js) (k : String)
    → IsLodash platform.is_empty
    → map_form_values_to_request_fields platform expert values secret_id project_id secrets_info
        (obj ps)
      ≡ ok (request, left)
    → chain left k ≡ (if "environment_id" == k || "description" == k then undefined else field ps k)
unfolding field
custom-kept platform expert values secret_id project_id secrets_info ps request left k laws e =
    let p =
      request_parts platform expert values secret_id project_id secrets_info (obj ps) request left
        e in
    rw (p.left_eq, left_of-obj platform ps laws)
      (ground (
        arith,
        lookup-delete (delete ps "environment_id") "description" k,
        lookup-delete ps "environment_id" k,
      ))

yaml-environment :
    (values : Props) (custom : Js)
    → is_yaml values ≡ true
    → lookup (identity_fields values custom) "environment_id" ≡ some (chain custom "environment_id")
unfolding identity_fields
yaml-environment values custom yaml = rw yaml (simp object_laws (unfold lookup in refl))

yaml-name :
    (values : Props) (custom : Js)
    → is_yaml values ≡ true
    → lookup (identity_fields values custom) "name" ≡ some (chain custom "patroni_cluster_name")
unfolding identity_fields
yaml-name values custom yaml = rw yaml (simp object_laws (unfold lookup in refl))

-- The environment of a request that the YAML editor makes is that of its object.
pub request-environment :
    (platform : Platform) (expert : Bool) (values : Props)
    (secret_id project_id secrets_info custom : Js) (request : Props) (left : Js)
    → is_yaml values ≡ true
    → map_form_values_to_request_fields platform expert values secret_id project_id secrets_info
        custom
      ≡ ok (request, left)
    → lookup request "environment_id" ≡ some (chain custom "environment_id")
unfolding base_object
request-environment platform expert values secret_id project_id secrets_info custom request left
      yaml e =
    let p =
      request_parts platform expert values secret_id project_id secrets_info custom request left
        e in
    let free =
      Ensures-ok _ _ _
        (params-own platform expert values "environment_id"
          (record { envs = refl; extra_vars = refl; existing_cluster = refl }) secret_id
          secrets_info (left_of platform custom))
        p.from_params in
    rw (← p.request_eq) (
      simp (object_laws, free, yaml-environment values custom yaml) (unfold lookup in ground arith))

-- Its name is the name that its object gives the cluster.
pub request-name :
    (platform : Platform) (expert : Bool) (values : Props)
    (secret_id project_id secrets_info custom : Js) (request : Props) (left : Js)
    → is_yaml values ≡ true
    → map_form_values_to_request_fields platform expert values secret_id project_id secrets_info
        custom
      ≡ ok (request, left)
    → lookup request "name" ≡ some (chain custom "patroni_cluster_name")
unfolding base_object
request-name platform expert values secret_id project_id secrets_info custom request left yaml e =
    let p =
      request_parts platform expert values secret_id project_id secrets_info custom request left
        e in
    let free =
      Ensures-ok _ _ _
        (params-own platform expert values "name"
          (record { envs = refl; extra_vars = refl; existing_cluster = refl }) secret_id
          secrets_info (left_of platform custom))
        p.from_params in
    rw (← p.request_eq)
      (simp (object_laws, free, yaml-name values custom yaml) (unfold lookup in ground arith))

-- If the YAML editor submits its object a second time, after the mapping has seen it once, then
-- the first request has the environment of the object, and the second has none.
pub resubmitted-environment :
    (platform : Platform) (expert : Bool) (values : Props) (secret_id project_id secrets_info : Js)
    (ps first second : Props) (left last : Js)
    → IsLodash platform.is_empty
    → is_yaml values ≡ true
    → map_form_values_to_request_fields platform expert values secret_id project_id secrets_info
        (obj ps)
      ≡ ok (first, left)
    → map_form_values_to_request_fields platform expert values secret_id project_id secrets_info
        left
      ≡ ok (second, last)
    → (lookup first "environment_id" ≡ some (field ps "environment_id"))
      × (lookup second "environment_id" ≡ some undefined)
resubmitted-environment platform expert values secret_id project_id secrets_info ps first second
      left last laws yaml e f =
    (
      request-environment platform expert values secret_id project_id secrets_info (obj ps) first
          left yaml e,
      request-environment platform expert values secret_id project_id secrets_info left second last
            yaml f
          ∙ ap some (
              custom-kept platform expert values secret_id project_id secrets_info ps first left
                "environment_id" laws e),
    )
