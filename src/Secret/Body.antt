-- ===== src/Secret/Body.antt =====
-- The body of a secret and the form that asks for it, by the type of the secret.
use postgresql_cluster.Common.{String, Option, some, none, List, [], ◌∷◌, if◌then◌else◌}
use postgresql_cluster.Js.{Js, undefined, obj, Props, end, prop, field, is_str, ◌≔◌, str}
use postgresql_cluster.Fields.Secret
use postgresql_cluster.Constants.Providers
use postgresql_cluster.Constants.Authentication

-- `{ [key]: values[key], ... }`
unfoldable pub pick : Props → List String → Props
unfolding field
pick values [] = end
pick values (key ∷ keys) = prop key (field values key) (pick values keys)

-- The cases of a `switch`, in their order.
abbrev pub select {ℓ} : {A : Type ℓ} → Js → List (String × A) → Option A
select v [] = none
select v ((key, a) ∷ rest) = if is_str v key then some a else select v rest

-- The fields of a secret of each type, in the order of the cases of `getSecretBodyFromValues`.
abbrev pub body_fields : List (String × List String)
body_fields =
    (Providers.aws, Secret.aws_access_key_id ∷ Secret.aws_secret_access_key ∷ [])
    ∷ (Providers.gcp, Secret.gcp_service_account_contents ∷ [])
    ∷ (Providers.digital_ocean, Secret.do_api_token ∷ [])
    ∷ (
      Providers.azure,
      Secret.azure_subscription_id ∷ Secret.azure_client_id ∷ Secret.azure_secret
          ∷ Secret.azure_tenant ∷ [],
    )
    ∷ (Providers.hetzner, Secret.hcloud_api_token ∷ [])
    ∷ (Authentication.ssh, Secret.ssh_private_key ∷ [])
    ∷ (Authentication.password, Secret.username ∷ Secret.password ∷ [])
    ∷ []

abbrev wrap : Props → Js → Option (List String) → Js
wrap values type none = undefined
wrap values (str type) (some keys) = obj (type ≔ obj (pick values keys))
wrap values _ (some keys) = undefined

-- `getSecretBodyFromValues`: the property is named by the constant of the case that was taken,
-- which is the type; without a case, the function returns `undefined`.
unfoldable pub get_secret_body_from_values : Props → Js
unfolding pick
get_secret_body_from_values values =
    let type = field values Secret.secret_type in wrap values type (select type body_fields)

-- The components that ask for the fields of a secret.
pub data FormComponent : Type 0 where
  aws gcp azure digital_ocean hetzner ssh_key password : FormComponent

pub record FormContent : Type 0 where
  pub translation_key : String
  pub link : Option String
  pub form_component : FormComponent

abbrev content : String → Option String → FormComponent → FormContent
content key link component = record {
  translation_key = key;
  link = link;
  form_component = component;
}

abbrev pub form_contents : List (String × FormContent)
form_contents =
    (
      Providers.aws,
      content "settingsAwsSecretInfo"
          (some "https://docs.aws.amazon.com/IAM/latest/UserGuide/id_credentials_access-keys.html")
          aws,
    )
    ∷ (
      Providers.gcp,
      content "settingsGcpSecretInfo" (some "https://cloud.google.com/iam/docs/keys-create-delete")
          gcp,
    )
    ∷ (
      Providers.azure,
      content "settingsAzureSecretInfo"
          (some
            "https://learn.microsoft.com/en-us/azure/developer/ansible/create-ansible-service-principal?tabs=azure-cli")
          azure,
    )
    ∷ (
      Providers.digital_ocean,
      content "settingsDoSecretInfo"
          (some "https://docs.digitalocean.com/reference/api/create-personal-access-token/")
          digital_ocean,
    )
    ∷ (
      Providers.hetzner,
      content "settingsHetznerSecretInfo"
          (some "https://docs.hetzner.com/cloud/api/getting-started/generating-api-token/") hetzner,
    )
    ∷ (Authentication.ssh, content "settingsSshKeySecretInfo" none ssh_key)
    ∷ []

abbrev or_content : Option FormContent → FormContent
or_content none = content "settingsPasswordSecretInfo" none password
or_content (some found) = found

unfoldable pub get_add_secret_form_content_by_type : Js → FormContent
get_add_secret_form_content_by_type type = or_content (select type form_contents)
