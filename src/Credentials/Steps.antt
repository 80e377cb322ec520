-- ===== src/Credentials/Steps.antt =====
-- The changes of the block: choices, answers of the service, and the effects that follow them.
use postgresql_cluster.Common.{
  ℕ, Bool, true, false, not, nat_eq, ◌==◌, ◌≡◌, String, Option, none, some, if◌then◌else◌,
}
use postgresql_cluster.Js.{Js, bool, str, Props, field, put, is_str}
use postgresql_cluster.Fields.Cluster
use postgresql_cluster.Credentials.Fields.{has_secrets}

-- The number of the secrets that the service answered with last, and the values of the form. The
-- secret's identifier that `resetField` sets is the form's default value.
pub record Block : Type 0 where
  pub secrets : Option ℕ
  pub values : Props
  pub default_id : Js

abbrev pub with_value : String → Js → Block → Block
with_value k v b = record {
  secrets = b.secrets;
  values = put b.values k v;
  default_id = b.default_id;
}

-- The effect on a change of the method or of the use of a defined secret.
unfoldable pub reset_secret_id : Block → Block
reset_secret_id b = with_value Cluster.secret_id b.default_id b

abbrev pub is_bool : Js → Bool → Bool
is_bool (bool true) b = b
is_bool (bool false) b = not b
is_bool v b = false

-- The choice whether to use a defined secret; nothing changes if it was chosen already.
unfoldable pub set_use_defined : Bool → Block → Block
unfolding reset_secret_id
set_use_defined flag b =
    if is_bool (field b.values Cluster.is_use_defined_secret) flag
    then b
    else reset_secret_id (with_value Cluster.is_use_defined_secret (bool flag) b)

-- The choice of a method.
unfoldable pub choose_method : String → Block → Block
unfolding reset_secret_id
choose_method id b =
    if is_str (field b.values Cluster.authentication_method) id
    then b
    else reset_secret_id (with_value Cluster.authentication_method (str id) b)

abbrev pub is_same_length : Option ℕ → Option ℕ → Bool
is_same_length none none = true
is_same_length (some m) (some n) = nat_eq m n
is_same_length m n = false

-- The block with the number of secrets that is known now.
abbrev pub with_secrets : Option ℕ → Block → Block
with_secrets n b = record { secrets = n; values = b.values; default_id = b.default_id }

-- An answer of the service, with the effect on a change of the number.
unfoldable pub receive_secrets : Option ℕ → Block → Block
unfolding set_use_defined
receive_secrets n b =
    if is_same_length b.secrets n then b else set_use_defined (has_secrets n) (with_secrets n b)

-- The block when it is first shown: both effects run.
unfoldable pub mounted : Option ℕ → Js → Props → Block
unfolding reset_secret_id
mounted n default_id values = reset_secret_id (
    with_value Cluster.is_use_defined_secret (bool (has_secrets n))
      (record { secrets = n; values = values; default_id = default_id }))

-- What the choices and answers lead to. A choice about the defined secrets is only offered if
-- there are some. The other fields change in any way.
pub data IsReachable : Block → Type 0 where
  shown :
      (n : Option ℕ) (default_id : Js) (values : Props) → IsReachable (mounted n default_id values)
  method_chosen : (id : String) (b : Block) → IsReachable b → IsReachable (choose_method id b)
  use_chosen :
      (flag : Bool) (b : Block)
      → has_secrets b.secrets ≡ true
      → IsReachable b
      → IsReachable (set_use_defined flag b)
  received : (n : Option ℕ) (b : Block) → IsReachable b → IsReachable (receive_secrets n b)
  typed :
      (k : String) (v : Js) (b : Block)
      → (k == Cluster.is_use_defined_secret) ≡ false
      → IsReachable b
      → IsReachable (with_value k v b)
