-- ===== src/Request/SecrecyLaws.antt =====
-- Which credentials typed into the form a request carries.
use postgresql_cluster.Common.{
  if-same, or_else-none, Bool, true, false, ◌≡◌, refl, ap, ◌∙◌, none, some, arith, if◌then◌else◌,
  Bool-cases, inl, inr, ◌↔◌, sym,
}
use postgresql_cluster.Js.{
  Js, Props, end, field, chain, truthy, is_str, lookup, object_laws, ◌⊕◌, ok, bind-eq-ok,
  ok-injective, Result-cases, Ensures, Ensures-ok, map_items, member, or_undefined,
}
use postgresql_cluster.Fields.Cluster
use postgresql_cluster.Fields.Secret
use postgresql_cluster.Fields.Dcs
use postgresql_cluster.Constants.Authentication
use postgresql_cluster.Constants.DcsTypes
use postgresql_cluster.ExtraVars.{
  get_local_machine_extra_vars, expert_local_extra_vars, existing_dcs, etcd_host,
  uses_typed_password,
}
use postgresql_cluster.Inventory.{
  get_local_machine_envs, inventory_children, connection_vars, uses_typed_key,
}

abbrev LacksPassword : Props → Type 0
LacksPassword r = lookup r "ansible_ssh_pass" ≡ none

existing_dcs-LacksPassword : (values : Props) → Ensures LacksPassword (existing_dcs values)
unfolding existing_dcs lookup ◌⊕◌
existing_dcs-LacksPassword values =
    elim (Bool-cases (is_str (field values Dcs.type) DcsTypes.etcd)) [
      | inl etcd ↦ elim (Result-cases (map_items etcd_host (field values Dcs.dcs_databases))) [
        | inl (hosts, e) ↦ rw (etcd, e) refl
        | inr e ↦ rw (etcd, e) tt
      ]
      | inr consul ↦
          elim (Result-cases (
            map_items (λ database. member database Dcs.dcs_database_ip_address)
              (field values Dcs.dcs_databases))) [
                | inl (hosts, e) ↦ rw (consul, e) refl
                | inr e ↦ rw (consul, e) tt
              ]
    ]

expert-LacksPassword : (values : Props) → Ensures LacksPassword (expert_local_extra_vars values)
unfolding expert_local_extra_vars
expert-LacksPassword values = elim (Bool-cases (truthy (field values Dcs.is_deploy_new_cluster))) [
  | inl new ↦ rw new (simp object_laws (unfold lookup in refl))
  | inr old ↦ elim (Result-cases (existing_dcs values)) [
    | inl (hosts, e) ↦
        let free =
          Ensures-ok LacksPassword (existing_dcs values) hosts (existing_dcs-LacksPassword values)
            e in
        rw (old, e) (simp (object_laws, free) (unfold lookup in refl))
    | inr e ↦ rw (old, e) tt
  ]
]

for_expert-LacksPassword :
    (expert : Bool) (values : Props)
    → Ensures LacksPassword (if expert then expert_local_extra_vars values else ok end)
unfolding lookup
for_expert-LacksPassword true values = expert-LacksPassword values
for_expert-LacksPassword false values = refl

-- The variables hold the typed password exactly if no secret is used and the method is password.
local-password :
    (expert : Bool) (values : Props) (secret_id : Js) (r : Props)
    → get_local_machine_extra_vars expert values secret_id ≡ ok r
    → lookup r "ansible_ssh_pass"
      ≡ (if uses_typed_password values secret_id then some (field values Secret.password) else none)
unfolding get_local_machine_extra_vars
local-password expert values secret_id r e =
    let (more, here, e1) =
      bind-eq-ok (if expert then expert_local_extra_vars values else ok end) _ e in
    let free = Ensures-ok LacksPassword _ more (for_expert-LacksPassword expert values) here in
    rw (← ok-injective _ r e1)
      (simp (object_laws, free) (unfold lookup in simp (if-same, or_else-none)))

-- The environment holds the typed key exactly if no secret is used and the method is a key.
local-key :
    (expert : Bool) (values : Props) (secret_id : Js) (object : Props)
    → get_local_machine_envs expert values secret_id ≡ ok object
    → lookup object "SSH_PRIVATE_KEY_CONTENT" ≡ (
        if uses_typed_key values secret_id
        then some (field values Secret.ssh_private_key)
        else none)
unfolding get_local_machine_envs
local-key expert values secret_id object e =
    let (children, here, e1) = bind-eq-ok (inventory_children expert values) _ e in
    rw (← ok-injective _ object e1) (simp object_laws (unfold lookup in refl))

pub typed_key-false :
    (values : Props) (secret_id : Js)
    → truthy secret_id ≡ true
    → uses_typed_key values secret_id ≡ false
unfolding uses_typed_key
typed_key-false values secret_id used = ground (arith, used)

pub typed_password-false :
    (values : Props) (secret_id : Js)
    → truthy secret_id ≡ true
    → uses_typed_password values secret_id ≡ false
unfolding uses_typed_password
typed_password-false values secret_id used = rw used refl

-- If a saved secret is used, neither the typed private key is in the environment of the request
-- nor the typed password in its variables.
saved_secret-lacks :
    (expert : Bool) (values : Props) (secret_id : Js) (object r : Props)
    → truthy secret_id ≡ true
    → get_local_machine_envs expert values secret_id ≡ ok object
    → get_local_machine_extra_vars expert values secret_id ≡ ok r
    → (lookup object "SSH_PRIVATE_KEY_CONTENT" ≡ none) × (lookup r "ansible_ssh_pass" ≡ none)
saved_secret-lacks expert values secret_id object r used e f = (
  local-key expert values secret_id object e
      ∙ ap (λ (b : Bool). if b then some (field values Secret.ssh_private_key) else none)
          (typed_key-false values secret_id used),
  local-password expert values secret_id r f
      ∙ ap (λ (b : Bool). if b then some (field values Secret.password) else none)
          (typed_password-false values secret_id used),
)

-- Where the method is password, the variables of the inventory hold the user name as the password
-- for SSH.
inventory-username :
    (expert : Bool) (values : Props) (secret_id : Js) (object : Props)
    → is_str (field values Cluster.authentication_method) Authentication.password ≡ true
    → get_local_machine_envs expert values secret_id ≡ ok object
    → chain (chain (chain (field object "ANSIBLE_INVENTORY_JSON") "all") "vars") "ansible_ssh_pass"
      ≡ field values Secret.username
unfolding get_local_machine_envs field
inventory-username expert values secret_id object method e =
    let (children, here, e1) = bind-eq-ok (inventory_children expert values) _ e in
    rw (← ok-injective _ object e1)
      (simp object_laws (unfold lookup in unfold connection_vars in rw method refl))

typed_password-method :
    (values : Props) (secret_id : Js)
    → uses_typed_password values secret_id ≡ true
    → is_str (field values Cluster.authentication_method) Authentication.password ≡ true
unfolding uses_typed_password
typed_password-method values secret_id typed = ground (arith, typed)

-- Where a request connects with the user name and the password of the form, its inventory and its
-- extra vars agree on the password for SSH exactly if the password is the user name.
pub inventory-ansible_ssh_pass :
    (expert : Bool) (values : Props) (secret_id : Js) (object r : Props)
    → uses_typed_password values secret_id ≡ true
    → get_local_machine_envs expert values secret_id ≡ ok object
    → get_local_machine_extra_vars expert values secret_id ≡ ok r
    → (chain (chain (chain (field object "ANSIBLE_INVENTORY_JSON") "all") "vars") "ansible_ssh_pass"
        ≡ field r "ansible_ssh_pass")
      ↔ (field values Secret.username ≡ field values Secret.password)
inventory-ansible_ssh_pass expert values secret_id object r typed e f =
    let inventory =
      inventory-username expert values secret_id object
        (typed_password-method values secret_id typed) e in
    let vars : field r "ansible_ssh_pass" ≡ field values Secret.password =
      unfold field in ap or_undefined (rw typed at (local-password expert values secret_id r f)) in
    (λ same. sym inventory ∙ same ∙ vars, λ same. inventory ∙ same ∙ sym vars)
