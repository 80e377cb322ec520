-- ===== src/Request/IgnoreLaws.antt =====
-- What a request holds of the typed credentials where a saved secret is used.
use postgresql_cluster.Common.{
  Bool, true, ◌≡◌, refl, if◌then◌else◌, [], ◌∷◌, map, Bool-cases, inl, inr,
}
use postgresql_cluster.Js.{
  Js, undefined, Props, field, put, field-put, truthy, ok, chain, is_str, entries, bind-eq-ok,
  ok-injective, lookup, ◌⊕◌,
}
use postgresql_cluster.Fields.Cluster
use postgresql_cluster.Fields.Secret
use postgresql_cluster.Constants.Authentication
use postgresql_cluster.ExtraVars.{get_local_machine_extra_vars}
use postgresql_cluster.Inventory.{inventory_children, connection_vars, get_local_machine_envs}
use postgresql_cluster.Request.SecrecyLaws.{typed_key-false}

module _ (expert : Bool) (values : Props) (secret_id v : Js) (used : truthy secret_id ≡ true) where
  key-ignored :
      get_local_machine_extra_vars expert (put values Secret.ssh_private_key v) secret_id
      ≡ get_local_machine_extra_vars expert values secret_id
  unfolding get_local_machine_extra_vars
  key-ignored = simp field-put refl

  username-ignored :
      get_local_machine_extra_vars expert (put values Secret.username v) secret_id
      ≡ get_local_machine_extra_vars expert values secret_id
  unfolding get_local_machine_extra_vars
  username-ignored = simp (field-put, used) refl

  password-ignored :
      get_local_machine_extra_vars expert (put values Secret.password v) secret_id
      ≡ get_local_machine_extra_vars expert values secret_id
  unfolding get_local_machine_extra_vars
  password-ignored = simp (field-put, used) refl

sudo_password :
    (values : Props)
    → field (connection_vars values) "ansible_sudo_pass" ≡ (
        if is_str (field values Cluster.authentication_method) Authentication.password
        then field values Secret.password
        else undefined)
unfolding connection_vars field ◌⊕◌ lookup
sudo_password values =
    elim (Bool-cases
      (is_str (field values Cluster.authentication_method) Authentication.password)) [
        | inl typed ↦ rw typed refl
        | inr other ↦ rw other refl
      ]

-- If a saved secret is used, then the extra vars that the form gives do not depend on the user
-- name, the password and the private key that are typed, and the environment has no other variable
-- than the inventory. That still holds the typed password as the one for sudo, where the method is
-- password.
pub saved_secret-hides :
    (expert : Bool) (values : Props) (secret_id v : Js) (object : Props)
    → truthy secret_id ≡ true
    → get_local_machine_envs expert values secret_id ≡ ok object
    → (get_local_machine_extra_vars expert (put values Secret.ssh_private_key v) secret_id
        ≡ get_local_machine_extra_vars expert values secret_id)
      × (get_local_machine_extra_vars expert (put values Secret.username v) secret_id
          ≡ get_local_machine_extra_vars expert values secret_id)
      × (get_local_machine_extra_vars expert (put values Secret.password v) secret_id
          ≡ get_local_machine_extra_vars expert values secret_id)
      × (map (λ p. p.0) (entries object) ≡ "ANSIBLE_INVENTORY_JSON" ∷ [])
      × (chain
            (chain (chain (field object "ANSIBLE_INVENTORY_JSON") "all") "vars")
            "ansible_sudo_pass"
          ≡ (if is_str (field values Cluster.authentication_method) Authentication.password
              then field values Secret.password
              else undefined))
unfolding get_local_machine_envs ◌⊕◌ field lookup
saved_secret-hides expert values secret_id v object used e =
    let (children, here, e1) = bind-eq-ok (inventory_children expert values) _ e in
    let typed = typed_key-false values secret_id used in
    (
      key-ignored expert values secret_id v used,
      username-ignored expert values secret_id v used,
      password-ignored expert values secret_id v used,
      rw (← ok-injective _ object e1) (rw typed refl),
      rw (← ok-injective _ object e1) (rw typed (sudo_password values)),
    )
