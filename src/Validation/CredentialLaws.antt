-- ===== src/Validation/CredentialLaws.antt =====
-- What an accepted form says of the credentials that are typed into it.
use postgresql_cluster.Common.{Bool, true, false, ◌≡◌, ◌⊎◌, inl, inr, and-true, String, eq_refl}
use postgresql_cluster.Js.{Js, str, Props, field, truthy, lookup, object_laws, ◌≔◌, ◌⊕◌}
use postgresql_cluster.Schemas.{Yup, IsYup}
use postgresql_cluster.Fields.Cluster
use postgresql_cluster.Fields.Secret
use postgresql_cluster.Constants.Authentication
use postgresql_cluster.Secret.{get_secret_body_from_values, pick}
use postgresql_cluster.Secret.Laws.{IsComplete}
use postgresql_cluster.Validation.Cloud.{is_local}
use postgresql_cluster.Validation.Local.{credential_test, local_fields_schema, uses_defined}
use postgresql_cluster.Validation.Form.{local_form_schema, cluster_form_schema}
use postgresql_cluster.Validation.ServerLaws.{accepted-local}

-- What the schema accepts of the credentials.
record CredentialTests (yup : Yup) (values : Props) : Type 0 where
  key : credential_test yup values Authentication.ssh (field values Secret.ssh_private_key) ≡ true
  username :
      credential_test yup values Authentication.password (field values Secret.username) ≡ true
  password :
      credential_test yup values Authentication.password (field values Secret.password) ≡ true

credential_tests :
    (yup : Yup) (expert : Bool) (values : Props)
    → cluster_form_schema yup expert values ≡ true
    → CredentialTests yup values
unfolding local_form_schema local_fields_schema
credential_tests yup expert values accepted =
    let (with_balancers, dcs) = and-true _ _ (accepted-local yup expert values accepted) in
    let (with_servers, balancers) = and-true _ _ with_balancers in
    let (fields, servers) = and-true _ _ with_servers in
    let (to_defined, secret_id) = and-true _ _ fields in
    let (to_vip, defined) = and-true _ _ to_defined in
    let (to_name, vip) = and-true _ _ to_vip in
    let (to_save, name) = and-true _ _ to_name in
    let (to_password, save) = and-true _ _ to_save in
    let (to_username, password) = and-true _ _ to_password in
    let (to_key, username) = and-true _ _ to_username in
    record { key = (and-true _ _ to_key).1; username = username; password = password }

module _ (yup : Yup) (values : Props) (method : String) (laws : IsYup yup)
    (local : is_local values ≡ true)
    (typed : field values Cluster.authentication_method ≡ str method)
    (own : uses_defined values ≡ false) where
  credential-truthy : (v : Js) → credential_test yup values method v ≡ true → truthy v ≡ true
  credential-truthy v h = laws.required v (rw (local, typed, own, eq_refl method) at h)

-- The body of the secret that the submission saves for the method that is chosen.
abbrev pub saved_body : Props → String → Js
saved_body values method = get_secret_body_from_values (values ⊕ Secret.secret_type ≔ str method)

-- If the schema accepts a form for servers of one's own, with one of the two methods and without a
-- defined secret, then the secret that can be saved of it is complete: no value of its body is
-- missing or empty.
pub accepted-IsComplete :
    (yup : Yup) (expert : Bool) (values : Props) (method : String)
    → IsYup yup
    → cluster_form_schema yup expert values ≡ true
    → is_local values ≡ true
    → field values Cluster.authentication_method ≡ str method
    → uses_defined values ≡ false
    → (method ≡ Authentication.ssh) ⊎ (method ≡ Authentication.password)
    → IsComplete (saved_body values method)
unfolding get_secret_body_from_values pick field
accepted-IsComplete yup expert values method laws accepted local typed own (inl ssh) =
    let tests = credential_tests yup expert values accepted in
    let typed_ssh = rw ssh at typed in
    let key =
      credential-truthy yup values Authentication.ssh laws local typed_ssh own
        (field values Secret.ssh_private_key) tests.key in
    rw ssh (simp object_laws (unfold lookup in (key, tt)))
accepted-IsComplete yup expert values method laws accepted local typed own (inr password) =
    let tests = credential_tests yup expert values accepted in
    let typed_password = rw password at typed in
    let username =
      credential-truthy yup values Authentication.password laws local typed_password own
        (field values Secret.username) tests.username in
    let secret =
      credential-truthy yup values Authentication.password laws local typed_password own
        (field values Secret.password) tests.password in
    rw password (simp object_laws (unfold lookup in (username, (secret, tt))))
