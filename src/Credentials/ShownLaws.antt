-- ===== src/Credentials/ShownLaws.antt =====
-- What the block shows is what the validation asks for.
use postgresql_cluster.Common.{
  ℕ, Bool, true, false, not, ◌&&◌, ◌||◌, ◌==◌, and-true, eq_iff, ◌≢◌, ◌≡◌, refl, arith, Bool-cases,
  inl, inr, String, Option, List, [], ◌∷◌, ◌++◌, All, if◌then◌else◌,
}
use postgresql_cluster.Js.{Js, bool, str, Props, field, is_str, truthy}
use postgresql_cluster.Fields.Cluster
use postgresql_cluster.Fields.Secret
use postgresql_cluster.Constants.Authentication
use postgresql_cluster.Schemas.{Yup, IsYup}
use postgresql_cluster.Validation.{
  is_local, uses_defined, uses_method, on, vip_test, credential_test, local_fields_schema,
}
use postgresql_cluster.Credentials.Fields.{
  has_secrets, saves_to_console, shown_fields, is_ssh, own_fields, saving_fields,
}
use postgresql_cluster.Credentials.Steps.{Block, IsReachable}
use postgresql_cluster.Credentials.Laws.{reachable-IsBacked}

-- The documented behaviour: what is not required may be anything, and a Boolean is one.
pub record IsLenient (yup : Yup) : Type 0 where
  pub optional : (v : Js) → yup.optional_mixed v ≡ true
  pub of_bool : (b : Bool) → yup.boolean (bool b) ≡ true

-- A menu or a box holds a Boolean, and any other field a text that is not empty.
abbrev pub is_filled : Yup → Props → String → Bool
is_filled yup values k =
    if k == Cluster.is_use_defined_secret || k == Cluster.authentication_is_save_to_console
    then yup.boolean (field values k)
    else yup.required_string (field values k)

abbrev pub AreFilled : Yup → Block → Type 0
AreFilled yup b = All (λ k. is_filled yup b.values k ≡ true) (shown_fields b.secrets b.values)

-- Whatever the service answered, these fields are shown if no defined secret is used.
own-filled :
    (yup : Yup) (b : Block)
    → uses_defined b.values ≡ false
    → AreFilled yup b
    → (is_filled yup b.values Cluster.authentication_method ≡ true)
      × All (λ k. is_filled yup b.values k ≡ true) (own_fields b.values ++ saving_fields b.values)
unfolding shown_fields
own-filled yup b own filled = elim (Bool-cases (has_secrets b.secrets)) [
  | inl there ↦ let f = rw (there, own) at filled in (f.0, f.1.1)
  | inr empty ↦ rw empty at filled
]

-- The credentials that the validation may ask for, if no defined secret is used.
record AreTyped (yup : Yup) (values : Props) : Type 0 where
  username : yup.required_string (field values Secret.username) ≡ true
  secret :
      (if is_ssh values
        then yup.required_string (field values Secret.ssh_private_key)
        else yup.required_string (field values Secret.password))
      ≡ true
  name :
      (if saves_to_console values
        then yup.required_string (field values Cluster.secret_key_name)
        else true)
      ≡ true
  saved : yup.boolean (field values Cluster.authentication_is_save_to_console) ≡ true

own-AreTyped :
    (yup : Yup) (values : Props)
    → All (λ k. is_filled yup values k ≡ true) (own_fields values ++ saving_fields values)
    → AreTyped yup values
own-AreTyped yup values filled = elim (Bool-cases (is_ssh values)) [
  | inl ssh ↦ elim (Bool-cases (saves_to_console values)) [
    | inl saves ↦
        let f = rw (ssh, saves) at filled in
        record { username = f.0; secret = rw ssh f.1.0; name = rw saves f.1.1.0; saved = f.1.1.1.0 }
    | inr not_saved ↦
        let f = rw (ssh, not_saved) at filled in
        record { username = f.0; secret = rw ssh f.1.0; name = rw not_saved refl; saved = f.1.1.0 }
  ]
  | inr typed ↦ elim (Bool-cases (saves_to_console values)) [
    | inl saves ↦
        let f = rw (typed, saves) at filled in
        record {
          username = f.0;
          secret = rw typed f.1.0;
          name = rw saves f.1.1.0;
          saved = f.1.1.1.0;
        }
    | inr not_saved ↦
        let f = rw (typed, not_saved) at filled in
        record {
          username = f.0;
          secret = rw typed f.1.0;
          name = rw not_saved refl;
          saved = f.1.1.0;
        }
  ]
]

defined-filled :
    (yup : Yup) (b : Block)
    → uses_defined b.values ≡ true
    → has_secrets b.secrets ≡ true
    → AreFilled yup b
    → (yup.required_string (field b.values Cluster.authentication_method) ≡ true)
      × (yup.required_string (field b.values Cluster.secret_id) ≡ true)
unfolding shown_fields
defined-filled yup b used there filled = elim (Bool-cases (is_ssh b.values)) [
  | inl ssh ↦ let f = rw (there, used, ssh) at filled in (f.0, f.1.1.1.0)
  | inr typed ↦ let f = rw (there, used, typed) at filled in (f.0, f.1.1.0)
]

on-if :
    (yup : Yup) (laws : IsLenient yup) (b : Bool) (test : Js → Bool) (v : Js)
    → (b ≡ true → test v ≡ true)
    → on yup b test v ≡ true
on-if yup laws true test v h = h refl
on-if yup laws false test v h = laws.optional v

and_intro : {a b : Bool} → a ≡ true → b ≡ true → (a && b) ≡ true
and_intro h k = rw (h, k) refl

password-ssh :
    (v : Js) → is_str v Authentication.password ≡ true → is_str v Authentication.ssh ≡ false
password-ssh (str s) h = rw ((eq_iff s Authentication.password).0 h) refl
password-ssh v h = refl

not-false : (b : Bool) → not b ≡ true → b ≡ false
not-false b h = ground arith

not-used : (u s : Bool) → (u && s) ≡ false → s ≡ true → u ≡ false
not-used u s h k = ground arith

module _ (yup : Yup) (laws : IsLenient yup) (values : Props) where
  credential-accepted :
      (method : String) (v : Js)
      → (is_str (field values Cluster.authentication_method) method ≡ true
          → uses_defined values ≡ false
          → yup.required_string v ≡ true)
      → credential_test yup values method v ≡ true
  credential-accepted method v h =
      on-if yup laws (uses_method method values)
        (on yup (not (uses_defined values)) yup.required_string) v
        (λ used.
          on-if yup laws (not (uses_defined values)) yup.required_string v
            (λ own. h ((and-true _ _ used).1) (ground arith)))

  -- The fields that the schema tests on a condition of the form.
  fields-accepted :
      (method : on yup
          (is_local values)
          yup.required_string
          (field values Cluster.authentication_method)
        ≡ true)
      → (uses_defined values ≡ false → AreTyped yup values)
      → (uses_defined values ≡ true → yup.required_string (field values Cluster.secret_id) ≡ true)
      → (uses_defined values && saves_to_console values) ≡ false
      → yup.boolean (field values Cluster.is_use_defined_secret) ≡ true
      → vip_test yup (field values Cluster.cluster_vip_address) ≡ true
      → local_fields_schema yup values ≡ true
  unfolding local_fields_schema
  fields-accepted method own defined together use_test vip =
      let key =
        credential-accepted Authentication.ssh (field values Secret.ssh_private_key)
          (λ ssh o. rw ssh at (own o).secret) in
      let username =
        credential-accepted Authentication.password (field values Secret.username)
          (λ p o. (own o).username) in
      let password =
        credential-accepted Authentication.password (field values Secret.password) (λ p o.
          rw (password-ssh (field values Cluster.authentication_method) p) at (own o).secret) in
      let saved =
        on-if yup laws (is_local values && not (uses_defined values)) yup.boolean
          (field values Cluster.authentication_is_save_to_console)
          (λ h. (own (not-false _ (and-true _ _ h).1)).saved) in
      let name =
        on-if yup laws (is_local values && saves_to_console values) yup.required_string
          (field values Cluster.secret_key_name)
          (λ h.
            let saves = (and-true _ _ h).1 in
            rw saves at (own (not-used _ _ together saves)).name) in
      let address =
        on-if yup laws (is_local values) (vip_test yup) (field values Cluster.cluster_vip_address)
          (λ h. vip) in
      let used =
        on-if yup laws (is_local values) yup.boolean (field values Cluster.is_use_defined_secret)
          (λ h. use_test) in
      let id =
        on-if yup laws (is_local values && uses_defined values) yup.required_string
          (field values Cluster.secret_id) (λ h. defined (and-true _ _ h).1) in
      and_intro
        (and_intro
          (and_intro
            (and_intro
              (and_intro (and_intro (and_intro (and_intro method key) username) password) saved)
              name)
            address)
          used)
        id

bool-true : (v : Js) (flag : Bool) → v ≡ bool flag → truthy v ≡ true → flag ≡ true
bool-true v flag now used = rw now at used

-- After any choices and answers, a form passes the validation of its credentials if the fields that
-- the block shows are filled and the virtual address is one or empty, unless it uses a defined
-- secret and still says that the typed one is to be saved.
pub shown-accepted :
    (yup : Yup) (b : Block)
    → IsLenient yup
    → IsReachable b
    → vip_test yup (field b.values Cluster.cluster_vip_address) ≡ true
    → (uses_defined b.values && saves_to_console b.values) ≡ false
    → AreFilled yup b
    → local_fields_schema yup b.values ≡ true
unfolding shown_fields
shown-accepted yup b laws r vip together filled =
    let (flag, now, backed) = reachable-IsBacked b r in
    let v = field b.values Cluster.is_use_defined_secret in
    fields-accepted yup laws b.values
      (on-if yup laws (is_local b.values) yup.required_string
        (field b.values Cluster.authentication_method) (λ h. filled.0))
      (λ own. own-AreTyped yup b.values (own-filled yup b own filled).1)
      (λ used. (defined-filled yup b used (backed (bool-true v flag now used)) filled).1) together
      (rw now (laws.of_bool flag)) vip

false-true : false ≢ true
false-true h = cc

abbrev pub is_among : String → List String → Bool
is_among k [] = false
is_among k (j ∷ js) = k == j || is_among k js

-- A form for servers of one's own that uses a defined secret, still says that the typed one is to
-- be saved, and has no name for it, does not pass the validation; and the block does not show the
-- field of that name.
pub hidden-refused :
    (yup : Yup) (secrets : Option ℕ) (values : Props)
    → IsYup yup
    → is_local values ≡ true
    → has_secrets secrets ≡ true
    → uses_defined values ≡ true
    → saves_to_console values ≡ true
    → field values Cluster.secret_key_name ≡ str ""
    → (local_fields_schema yup values ≡ false)
      × (is_among Cluster.secret_key_name (shown_fields secrets values) ≡ false)
unfolding local_fields_schema shown_fields
hidden-refused yup secrets values laws local there used saves empty = (
  elim (Bool-cases (local_fields_schema yup values)) [
    | inl accepted ↦
        let (to_defined, id) = and-true _ _ accepted in
        let (to_vip, defined) = and-true _ _ to_defined in
        let (to_name, vip) = and-true _ _ to_vip in
        let name : on yup (is_local values && saves_to_console values) yup.required_string
              (field values Cluster.secret_key_name)
            ≡ true =
          (and-true _ _ to_name).1 in
        let required = rw (local, saves) at name in
        let filled = laws.required (field values Cluster.secret_key_name) required in
        absurd (false-true (rw empty at filled))
    | inr refused ↦ refused
  ],
  elim (Bool-cases (is_ssh values)) [
    | inl ssh ↦ rw (there, used, ssh) refl
    | inr typed ↦ rw (there, used, typed) refl
  ],
)
