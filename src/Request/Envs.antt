-- ===== src/Request/Envs.antt =====
-- The `envs` of a request, as texts `key=value`.
use postgresql_cluster.Common.{
  String, Bool, true, false, ◌&&◌, List, [], ◌∷◌, none, some, if◌then◌else◌,
}
use postgresql_cluster.Js.{
  Js, str, Props, end, prop, entries, truthy, Result, ok, ◌>>=◌, to_string, stringify, lookup,
}
use postgresql_cluster.Js.Text.{◌⧺◌}
use postgresql_cluster.Fields.Secret
use postgresql_cluster.Request.Imports.{Platform}

-- The text that is encoded: a text as it is, and any other value as JSON.
unfoldable pub raw_value : Js → String
unfolding stringify
raw_value (str s) = s
raw_value v = elim (stringify v) [ none ↦ "" | some text ↦ text ]

abbrev pub env : String → String → String
env key value = key ⧺ "=" ⧺ value

module _ (platform : Platform) where
  unfoldable pub convert_entries : List (String × Js) → Result (List String)
  unfolding raw_value
  convert_entries [] = ok []
  convert_entries ((key, value) ∷ rest) = do
    encoded ← platform.btoa (raw_value value)
    later ← convert_entries rest
    ok (env key encoded ∷ later)

  unfoldable pub convert_object_value_to_base64_format : Props → Result (List String)
  unfolding convert_entries
  convert_object_value_to_base64_format object = convert_entries (entries object)

-- The names of `SECRET_MODAL_CONTENT_BODY_FORM_FIELDS`, all of them their own values.
abbrev pub body_form_fields : Props
body_form_fields = prop Secret.aws_access_key_id (str Secret.aws_access_key_id) (
    prop Secret.aws_secret_access_key (str Secret.aws_secret_access_key) (
      prop Secret.gcp_service_account_contents (str Secret.gcp_service_account_contents) (
        prop Secret.do_api_token (str Secret.do_api_token) (
          prop Secret.azure_subscription_id (str Secret.azure_subscription_id) (
            prop Secret.azure_client_id (str Secret.azure_client_id) (
              prop Secret.azure_secret (str Secret.azure_secret) (
                prop Secret.azure_tenant (str Secret.azure_tenant) (
                  prop Secret.hcloud_api_token (str Secret.hcloud_api_token) (
                    prop Secret.ssh_private_key (str Secret.ssh_private_key) (
                      prop Secret.username (str Secret.username)
                        (prop Secret.password (str Secret.password) end)))))))))))

unfoldable pub is_secret_field : String → Bool
unfolding lookup
is_secret_field key = elim (lookup body_form_fields key) [ none ↦ false | some _ ↦ true ]

-- `Object.fromEntries(Object.entries(...).filter(...))`
unfoldable pub filter_secrets : Props → Props
unfolding is_secret_field
filter_secrets end = end
filter_secrets (prop key value ps) =
    let rest = filter_secrets ps in
    if is_secret_field key && truthy value then prop key value rest else rest

unfoldable pub plain_envs : List (String × Js) → List String
unfolding to_string
plain_envs [] = []
plain_envs ((key, value) ∷ rest) = env key (to_string value) ∷ plain_envs rest
