-- ===== src/Tables/SecretLaws.antt =====
-- The rows of secrets, with the button that removes one.
use postgresql_cluster.Common.{
  false, not, ◌&&◌, ◌≡◌, refl, ap, ◌∙◌, Bool-cases, inl, inr, if◌then◌else◌, List, [], ◌∷◌,
}
use postgresql_cluster.Js.{
  Js, str, Props, field, lookup, chain, truthy, Result, ok, thrown, object_laws, ◌≔◌,
}
use postgresql_cluster.Api.{ApiRequest}
use postgresql_cluster.Api.Secrets.{delete_secrets_by_id}
use postgresql_cluster.Dialogs.{Effect, sent, remove_secret}
use postgresql_cluster.Dialogs.Laws.{says_success, replied, after_run}
use postgresql_cluster.Tables.Rows.{secret_row}

-- The requests that were sent, the latest first.
abbrev pub requests : List Effect → List ApiRequest
requests [] = []
requests (sent request ∷ done) = request ∷ requests done
requests (e ∷ done) = requests done

row-used :
    (secret : Js)
    → field (secret_row secret) "used"
      ≡ str (if truthy (chain secret "is_used") then "true" else "false")
unfolding secret_row field lookup
row-used secret = simp object_laws refl

row-id : (secret : Js) → field (secret_row secret) "id" ≡ chain secret "id"
unfolding secret_row field lookup
row-id secret = simp object_laws refl

unused-row :
    (reply : Result Js) (row : Props)
    → field row "used" ≡ str "false"
    → (requests (after_run (remove_secret reply row)).done
        ≡ delete_secrets_by_id.request ("id" ≔ field row "id") ∷ [])
      × (says_success (after_run (remove_secret reply row)).done ≡ replied reply)
unfolding remove_secret
unused-row (ok response) row unused = rw unused (refl, refl)
unused-row thrown row unused = rw unused (refl, refl)

used-row :
    (reply : Result Js) (row : Props)
    → field row "used" ≡ str "true"
    → (requests (after_run (remove_secret reply row)).done ≡ [])
      × (says_success (after_run (remove_secret reply row)).done ≡ false)
unfolding remove_secret
used-row reply row used = rw used (refl, refl)

-- The button of the row of a secret sends the request to remove this secret exactly if no cluster
-- uses it, and nothing otherwise; and it says that it was removed exactly if the request was sent
-- and accepted.
pub remove-unused :
    (reply : Result Js) (secret : Js)
    → (requests (after_run (remove_secret reply (secret_row secret))).done ≡ (
        if truthy (chain secret "is_used")
        then []
        else delete_secrets_by_id.request ("id" ≔ chain secret "id") ∷ []))
      × (says_success (after_run (remove_secret reply (secret_row secret))).done
          ≡ (not (truthy (chain secret "is_used")) && replied reply))
remove-unused reply secret = elim (Bool-cases (truthy (chain secret "is_used"))) [
  | inl used ↦
      let text = row-used secret ∙ ap (λ b. str (if b then "true" else "false")) used in
      let (nothing, silent) = used-row reply (secret_row secret) text in rw used (nothing, silent)
  | inr unused ↦
      let text = row-used secret ∙ ap (λ b. str (if b then "true" else "false")) unused in
      let (request, said) = unused-row reply (secret_row secret) text in
      rw unused
        (request ∙ ap (λ v. delete_secrets_by_id.request ("id" ≔ v) ∷ []) (row-id secret), said)
]
