-- ===== src/Submit/Actions.antt =====
-- The steps that the submissions share.
use postgresql_cluster.Common.{Bool, not, ◌&&◌, if◌then◌else◌}
use postgresql_cluster.Js.{
  Js, undefined, obj, Props, field, chain, truthy, ◌≔◌, ◌⊕◌, Result, ok, thrown,
}
use postgresql_cluster.Fields.Secret
use postgresql_cluster.Fields.DatabaseServers
use postgresql_cluster.Secret.{get_secret_body_from_values}
use postgresql_cluster.Request.{Platform, left_of, map_form_values_to_request_fields}
use postgresql_cluster.Submit.Session.{
  Io, pure, ◌>>=◌, ◌>>◌, lift, get_created, set_created, get_custom, set_custom, tell, Replies,
  secret_posted, cluster_posted, toasted, navigated,
}

-- The body of a request for a secret.
unfoldable pub secret_request : Js → Js → Js → Props → Js
unfolding get_secret_body_from_values
secret_request project type name values = obj (
    "project_id" ≔ project
    ⊕ "type" ≔ type
    ⊕ "name" ≔ name
    ⊕ "value" ≔ get_secret_body_from_values (values ⊕ Secret.secret_type ≔ type))

-- `createSecretResultRef.current = await addSecretTrigger(...).unwrap()` and the toast.
unfoldable pub create_secret : Replies → Js → Js → Js → Props → Io Unit
unfolding secret_request
create_secret replies project type name values = do
  tell (secret_posted (secret_request project type name values) replies.secret)
  response ← lift replies.secret
  set_created response
  tell (toasted "secretSuccessfullyCreated" name)

-- `if (isSave && !createSecretResultRef?.current) ...`
unfoldable pub save_secret : Replies → Bool → Js → Js → Js → Props → Io Unit
unfolding create_secret
save_secret replies is_save project type name values = do
  created ← get_created
  (if is_save && not (truthy created)
      then create_secret replies project type name values
      else pure tt)

abbrev pub created_id : Js → Js
created_id created = chain created "id"

-- The object of the request, of which the mapping also returns what it left of the custom
-- variables.
abbrev pub request_of : Result (Props × Js) → Result Js
request_of (ok (request, custom)) = ok (obj request)
request_of thrown = thrown

module _ (platform : Platform) (expert : Bool) where
  -- `...(!isEmpty(customExtraVars) ? { customExtraVars } : {})`
  abbrev pub passed : Js → Js
  passed custom = if platform.is_empty custom then undefined else custom

  -- `await addClusterTrigger({ requestClusterCreate: mapFormValuesToRequestFields(...) }).unwrap()`:
  -- the mapping deletes from the editor's object before anything in it can throw.
  unfoldable pub create_cluster : Replies → Props → Js → Js → Js → Io Unit
  unfolding map_form_values_to_request_fields left_of
  create_cluster replies values secret_id project secrets_info = do
    custom ← get_custom
    set_custom (left_of platform custom)
    request ← lift (
        request_of (
          map_form_values_to_request_fields platform expert values secret_id project secrets_info
            (passed custom)))
    tell (cluster_posted request replies.cluster)
    response ← lift replies.cluster
    pure tt

-- The toast at the end and the way back to the table.
unfoldable pub finish : Props → Js → Io Unit
finish values name = do
  tell (
      toasted
        (if truthy (field values DatabaseServers.is_cluster_exists)
          then "clusterSuccessfullyImported"
          else "clusterSuccessfullyCreated")
        name)
  tell navigated
