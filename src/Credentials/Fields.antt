-- ===== src/Credentials/Fields.antt =====
-- The fields that the block shows, from the number of saved secrets, which is not known at first,
-- and the values of the form.
use postgresql_cluster.Common.{
  ℕ, Bool, false, not, ◌&&◌, ◌||◌, nat_eq, String, Option, none, some, List, [], ◌∷◌, ◌++◌,
  if◌then◌else◌,
}
use postgresql_cluster.Js.{Props, field, is_str, truthy}
use postgresql_cluster.Fields.Cluster
use postgresql_cluster.Fields.Secret
use postgresql_cluster.Constants.Authentication
use postgresql_cluster.Validation.{uses_defined}

-- `secrets.data?.data?.length`, as a condition
abbrev pub has_secrets : Option ℕ → Bool
has_secrets none = false
has_secrets (some n) = not (nat_eq n 0)

abbrev pub is_ssh : Props → Bool
is_ssh values = is_str (field values Cluster.authentication_method) Authentication.ssh

abbrev pub saves_to_console : Props → Bool
saves_to_console values = truthy (field values Cluster.authentication_is_save_to_console)

-- `SshMethodFormPart` or `PasswordMethodFormPart`
abbrev pub method_field : Props → String
method_field values = if is_ssh values then Secret.ssh_private_key else Secret.password

-- `AuthenticationFormPart`
abbrev pub own_fields : Props → List String
own_fields values = Secret.username ∷ method_field values ∷ []

-- What is shown for a defined secret.
abbrev pub defined_fields : Props → List String
defined_fields values =
    (if is_ssh values then Secret.username ∷ [] else []) ++ Cluster.secret_id ∷ []

-- What is shown to save a secret.
abbrev pub saving_fields : Props → List String
saving_fields values =
    (if saves_to_console values then Cluster.secret_key_name ∷ [] else [])
    ++ Cluster.authentication_is_save_to_console ∷ []

abbrev pub secret_fields : Bool → Props → List String
secret_fields has values =
    if has
    then Cluster.is_use_defined_secret
      ∷ (if uses_defined values then defined_fields values else own_fields values)
    else own_fields values

-- The names of the controls, in the order in which they are shown.
unfoldable pub shown_fields : Option ℕ → Props → List String
shown_fields secrets values =
    Cluster.authentication_method
    ∷ (secret_fields (has_secrets secrets) values
        ++ (if has_secrets secrets && not (uses_defined values) || not (has_secrets secrets)
            then saving_fields values
            else []))
