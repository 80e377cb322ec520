-- ===== src/Credentials/Laws.antt =====
-- What the block shows is what the validation asks for.
use postgresql_cluster.Common.{
  ℕ, Bool, true, false, ◌==◌, ◌≡◌, refl, Bool-cases, inl, inr, String, Option,
}
use postgresql_cluster.Js.{Js, bool, str, field, put, field-put, is_str}
use postgresql_cluster.Fields.Cluster
use postgresql_cluster.Credentials.Fields.{has_secrets}
use postgresql_cluster.Credentials.Steps.{
  Block, with_value, reset_secret_id, is_bool, set_use_defined, choose_method, is_same_length,
  with_secrets, receive_secrets, mounted, IsReachable, shown, method_chosen, use_chosen, received,
  typed,
}

-- The field says whether a defined secret is used, and it is only if there are secrets.
abbrev pub IsBacked : Block → Type 0
IsBacked b =
    (flag : Bool) × (field b.values Cluster.is_use_defined_secret ≡ bool flag)
    × (flag ≡ true → has_secrets b.secrets ≡ true)

is_bool-eq : (v : Js) (flag : Bool) → is_bool v flag ≡ true → v ≡ bool flag
is_bool-eq (bool true) true h = refl
is_bool-eq (bool false) false h = refl
is_bool-eq v flag h = cc

set_use_defined-IsBacked :
    (flag : Bool) (b : Block)
    → (flag ≡ true → has_secrets b.secrets ≡ true)
    → IsBacked (set_use_defined flag b)
unfolding set_use_defined reset_secret_id
set_use_defined-IsBacked flag b h =
    elim (Bool-cases (is_bool (field b.values Cluster.is_use_defined_secret) flag)) [
      | inl same ↦
          rw same (flag, is_bool-eq (field b.values Cluster.is_use_defined_secret) flag same, h)
      | inr other ↦ rw other (
        flag,
        rw
            (
              field-put (put b.values Cluster.is_use_defined_secret (bool flag)) Cluster.secret_id
                  Cluster.is_use_defined_secret b.default_id,
              field-put b.values Cluster.is_use_defined_secret Cluster.is_use_defined_secret
                  (bool flag),
            )
            refl,
        h,
      )
    ]

with_value-IsBacked :
    (k : String) (v : Js) (b : Block)
    → (k == Cluster.is_use_defined_secret) ≡ false
    → IsBacked b
    → IsBacked (with_value k v b)
with_value-IsBacked k v b other (flag, now, backed) =
    (flag, rw (field-put b.values k Cluster.is_use_defined_secret v, other) now, backed)

choose_method-IsBacked : (id : String) (b : Block) → IsBacked b → IsBacked (choose_method id b)
unfolding choose_method reset_secret_id
choose_method-IsBacked id b h =
    elim (Bool-cases (is_str (field b.values Cluster.authentication_method) id)) [
      | inl same ↦ rw same h
      | inr other ↦
          let chosen = with_value-IsBacked Cluster.authentication_method (str id) b refl h in
          rw other (
            with_value-IsBacked Cluster.secret_id b.default_id
              (with_value Cluster.authentication_method (str id) b) refl chosen)
    ]

receive_secrets-IsBacked : (n : Option ℕ) (b : Block) → IsBacked b → IsBacked (receive_secrets n b)
unfolding receive_secrets
receive_secrets-IsBacked n b h = elim (Bool-cases (is_same_length b.secrets n)) [
  | inl same ↦ rw same h
  | inr other ↦ rw other (set_use_defined-IsBacked (has_secrets n) (with_secrets n b) (λ h. h))
]

-- After any choices and answers, the form says that a defined secret is used only if the service
-- has answered that there are secrets.
pub reachable-IsBacked : (b : Block) → IsReachable b → IsBacked b
unfolding mounted reset_secret_id
reachable-IsBacked _ (shown n default_id values) =
    with_value-IsBacked Cluster.secret_id default_id
      (with_value Cluster.is_use_defined_secret (bool (has_secrets n))
        (record { secrets = n; values = values; default_id = default_id }))
      refl
      (
        has_secrets n,
        rw
            (field-put values Cluster.is_use_defined_secret Cluster.is_use_defined_secret
              (bool (has_secrets n)))
            refl,
        λ h. h,
      )
reachable-IsBacked _ (method_chosen id b r) = choose_method-IsBacked id b (reachable-IsBacked b r)
reachable-IsBacked _ (use_chosen flag b there r) = set_use_defined-IsBacked flag b (λ h. there)
reachable-IsBacked _ (received n b r) = receive_secrets-IsBacked n b (reachable-IsBacked b r)
reachable-IsBacked _ (typed k v b other r) =
    with_value-IsBacked k v b other (reachable-IsBacked b r)
