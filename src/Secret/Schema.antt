-- ===== src/Secret/Schema.antt =====
-- `AddSecretFormSchema`.
use postgresql_cluster.Schemas.{Yup}
use postgresql_cluster.Common.{Bool, true, ◌&&◌, String, List, [], ◌∷◌, if◌then◌else◌}
use postgresql_cluster.Js.{Js, Props, field, is_str}
use postgresql_cluster.Fields.Secret
use postgresql_cluster.Constants.Providers

-- The fields that `requiredField` is used for, with the type that requires each.
abbrev pub required_fields : List (String × String)
required_fields =
    (Secret.aws_access_key_id, Providers.aws)
    ∷ (Secret.aws_secret_access_key, Providers.aws)
    ∷ (Secret.gcp_service_account_contents, Providers.gcp)
    ∷ (Secret.azure_subscription_id, Providers.azure)
    ∷ (Secret.azure_client_id, Providers.azure)
    ∷ (Secret.azure_secret, Providers.azure)
    ∷ (Secret.azure_tenant, Providers.azure)
    ∷ (Secret.do_api_token, Providers.digital_ocean)
    ∷ (Secret.hcloud_api_token, Providers.hetzner)
    ∷ (Secret.ssh_private_key, "ssh_key")
    ∷ (Secret.username, "password")
    ∷ (Secret.password, "password")
    ∷ []

module _ (yup : Yup) where
  -- `requiredField`
  unfoldable pub required_field : String → Js → Js → Bool
  required_field value_to_be_required secret_type v =
      if is_str secret_type value_to_be_required
      then yup.required_string v
      else yup.optional_mixed v

  unfoldable pub check_fields : Props → List (String × String) → Bool
  unfolding required_field
  check_fields values [] = true
  check_fields values ((key, type) ∷ rest) =
      required_field type (field values Secret.secret_type) (field values key)
      && check_fields values rest

  unfoldable pub add_secret_form_schema : Props → Bool
  unfolding check_fields
  add_secret_form_schema values =
      yup.required_string (field values Secret.secret_type)
      && yup.required_string (field values Secret.secret_name)
      && check_fields values required_fields
