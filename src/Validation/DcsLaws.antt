-- ===== src/Validation/DcsLaws.antt =====
-- The fields that the block for the DCS shows, and those that the schema asks for.
use postgresql_cluster.Common.{
  arith, String, Bool, true, not, ◌&&◌, ◌||◌, ◌≡◌, ◌⊎◌, inl, inr, Bool-cases, and-true, eq_iff, All,
  refl, sym, List, ◌∷◌, ◌==◌, [],
}
use postgresql_cluster.Js.{Js, Props, field, chain, is_str, truthy, items, arr, Items, lookup, ◌⊕◌}
use postgresql_cluster.Fields.Dcs
use postgresql_cluster.Constants.DcsTypes
use postgresql_cluster.Schemas.{Yup, IsYup}
use postgresql_cluster.Validation.Cloud.{on, is_local}
use postgresql_cluster.Validation.Servers.{
  port_test, hostname_test, address_test, dcs_server_test, needs_dcs_servers, dcs_block_schema,
}
use postgresql_cluster.Validation.Form.{local_form_schema, cluster_form_schema}
use postgresql_cluster.Validation.ServerLaws.{accepted-local, array-All}
use postgresql_cluster.Blocks.Dcs.{get_correct_fields, correct_fields, is_shown, shown_field}

-- The three reasons why a field is shown.
abbrev IsReason : String → Bool → Bool → Bool → Type 0
IsReason name new shared etcd =
    (Dcs.dcs_database_ip_address ≡ name) × ((not new || not shared) ≡ true)
    ⊎ (Dcs.dcs_database_port ≡ name) × ((not new && etcd) ≡ true)
    ⊎ (Dcs.dcs_database_hostname ≡ name) × ((new && not shared) ≡ true)

shown-cons :
    (name other : String) (label : Js) (fields : List Js)
    → is_shown name (shown_field other label ∷ fields) ≡ true
    → (other ≡ name) ⊎ (is_shown name fields ≡ true)
unfolding lookup field ◌⊕◌
shown-cons name other label fields shown = elim (Bool-cases (other == name)) [
  | inl same ↦ inl ((eq_iff other name).0 same)
  | inr different ↦ inr (rw different at shown)
]

shown-last :
    (name other : String) (label : Js)
    → is_shown name (shown_field other label ∷ []) ≡ true
    → other ≡ name
shown-last name other label shown = elim (shown-cons name other label [] shown) [
  | inl same ↦ same
  | inr none_shown ↦ cc
]

shown-IsReason :
    (t : String → Js) (values : Props) (name : String)
    → is_shown name (correct_fields t values) ≡ true
    → IsReason name
        (truthy (field values Dcs.is_deploy_new_cluster))
        (truthy (field values Dcs.is_deploy_to_db_servers))
        (is_str (field values Dcs.type) DcsTypes.etcd)
unfolding get_correct_fields correct_fields
shown-IsReason t values name shown =
    elim (Bool-cases (truthy (field values Dcs.is_deploy_new_cluster))) [
      | inl new ↦ elim (Bool-cases (truthy (field values Dcs.is_deploy_to_db_servers))) [
        | inl shared ↦ let none_shown = rw (new, shared) at shown in cc
        | inr own ↦
            rw (new, own)
              (elim (shown-cons name Dcs.dcs_database_hostname (t "hostname")
                (shown_field Dcs.dcs_database_ip_address (t "ipAddress") ∷ [])
                (rw (new, own) at shown)) [
                  | inl hostname ↦ inr (inr (hostname, refl))
                  | inr rest ↦
                      inl (shown-last name Dcs.dcs_database_ip_address (t "ipAddress") rest, refl)
                ])
      ]
      | inr old ↦ elim (Bool-cases (is_str (field values Dcs.type) DcsTypes.etcd)) [
        | inl etcd ↦
            rw (old, etcd)
              (elim (shown-cons name Dcs.dcs_database_ip_address (t "ipAddress")
                (shown_field Dcs.dcs_database_port (t "port") ∷ []) (rw (old, etcd) at shown)) [
                  | inl address ↦ inl (address, refl)
                  | inr rest ↦
                      inr (inl (shown-last name Dcs.dcs_database_port (t "port") rest, refl))
                ])
        | inr consul ↦
            rw (old, consul)
              (inl (
                shown-last name Dcs.dcs_database_ip_address (t "ipAddress")
                    (rw (old, consul) at shown),
                refl,
              ))
      ]
    ]

module _ (yup : Yup) (values : Props) where
  -- What is asked of a server is filled in.
  server-IsFilled :
      (name : String) (server : Js)
      → IsYup yup
      → IsReason name
          (truthy (field values Dcs.is_deploy_new_cluster))
          (truthy (field values Dcs.is_deploy_to_db_servers))
          (is_str (field values Dcs.type) DcsTypes.etcd)
      → dcs_server_test yup values server ≡ true
      → truthy (chain server name) ≡ true
  server-IsFilled name server laws reason tested =
      let (to_port, hostname) =
        and-true _ (hostname_test yup values (chain server Dcs.dcs_database_hostname)) tested in
      let (to_address, port) =
        and-true _ (port_test yup values (chain server Dcs.dcs_database_port)) to_port in
      let (is_object, address) =
        and-true (yup.object server) (address_test yup (chain server Dcs.dcs_database_ip_address))
          to_address in
      elim reason [
        | inl (same, _) ↦
            rw (sym same)
              (laws.required (chain server Dcs.dcs_database_ip_address) (and-true _ _ address).0)
        | inr (inl (same, asked)) ↦
            rw (sym same) (
              laws.required (chain server Dcs.dcs_database_port)
                (and-true _ _ (rw asked at port)).0)
        | inr (inr (same, asked)) ↦
            rw (sym same)
              (laws.required (chain server Dcs.dcs_database_hostname) (rw asked at hostname))
      ]

  reason-needs_dcs_servers :
      (name : String)
      → is_local values ≡ true
      → IsReason name
          (truthy (field values Dcs.is_deploy_new_cluster))
          (truthy (field values Dcs.is_deploy_to_db_servers))
          (is_str (field values Dcs.type) DcsTypes.etcd)
      → needs_dcs_servers yup true values ≡ true
  reason-needs_dcs_servers name local reason = ground arith

-- In the expert mode, if the schema accepts a form for servers of one's own, then every server
-- that it lists for the DCS has a value, which is not empty, in each field that the block shows.
pub shown-AllFilled :
    (yup : Yup) (t : String → Js) (values : Props) (servers : Items) (name : String)
    → IsYup yup
    → cluster_form_schema yup true values ≡ true
    → is_local values ≡ true
    → field values Dcs.dcs_databases ≡ arr servers
    → is_shown name (correct_fields t values) ≡ true
    → All (λ server. truthy (chain server name) ≡ true) (items servers)
unfolding local_form_schema dcs_block_schema
shown-AllFilled yup t values servers name laws accepted local given shown =
    let reason = shown-IsReason t values name shown in
    let block =
      (and-true _ (dcs_block_schema yup true values) (accepted-local yup true values accepted)).1 in
    let listed =
      (and-true _
        (on yup (needs_dcs_servers yup true values) (yup.array (dcs_server_test yup values))
          (field values Dcs.dcs_databases))
        block).1 in
    let tested : yup.array (dcs_server_test yup values) (arr servers) ≡ true =
      rw (reason-needs_dcs_servers yup values name local reason, given) at listed in
    array-All yup (dcs_server_test yup values) servers laws tested
      (λ server. server-IsFilled yup values name server laws reason)
