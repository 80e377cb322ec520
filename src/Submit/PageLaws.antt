-- ===== src/Submit/PageLaws.antt =====
-- What the form's own submission does for a cluster in a cloud.
use mathlib.Core.Option.{some-injective}
use postgresql_cluster.Common.{
  Bool, true, false, ◌≡◌, refl, sym, ap, subst, arith, List, [], ◌∷◌, ◌∙◌, some, inl, inr,
  Bool-cases, if◌then◌else◌,
}
use postgresql_cluster.Js.{
  Js, undefined, obj, Props, field, chain, truthy, is_str, member, to_number, Result, ok, thrown,
  Result-cases, lookup, ◌≔◌, member-eq-chain,
}
use postgresql_cluster.Fields.Cluster
use postgresql_cluster.Constants.Providers
use postgresql_cluster.Request.{Platform, left_of, map_form_values_to_request_fields}
use postgresql_cluster.Request.FieldLaws.{request-auth_info}
use postgresql_cluster.Submit.Session.{
  Effect, Io, Session, ◌>>=◌, ◌>>◌, lift, tell, Replies, secret_posted, cluster_posted,
  error_caught, initial_session,
}
use postgresql_cluster.Submit.Actions.{create_cluster, finish, passed}
use postgresql_cluster.Submit.Form.{
  first_secret_id, submit_local_cluster, submit_cloud_cluster, on_submit,
}
use postgresql_cluster.Submit.Page.{has_one_secret, form_buttons, default_buttons, form_handler}
use postgresql_cluster.Submit.Keeps.{Keeps, Keeps-seq, Keeps-try}
use postgresql_cluster.Submit.SecretLaws.{request_props}

-- No secret was posted, and each request for a cluster that was posted names the secret with
-- this identifier.
abbrev pub PostsWith : Js → List Effect → Type 0
PostsWith id [] = Unit
PostsWith id (secret_posted _ _ ∷ done) = ⊥
PostsWith id (cluster_posted request _ ∷ done) =
    (lookup (request_props request) "auth_info" ≡ some (obj ("secret_id" ≔ id))) × PostsWith id done
PostsWith id (effect ∷ done) = PostsWith id done

abbrev SessionPostsWith : Js → Session → Type 0
SessionPostsWith id s = PostsWith id s.done

create_cluster-PostsWith :
    (platform : Platform) (expert : Bool) (replies : Replies) (values : Props)
    (id project secrets_info : Js)
    → truthy id ≡ true
    → Keeps
        (SessionPostsWith id)
        (create_cluster platform expert replies values id project secrets_info)
unfolding create_cluster
create_cluster-PostsWith platform expert replies values id project secrets_info has s p =
    elim (Result-cases (
      map_form_values_to_request_fields platform expert values id project secrets_info
        (passed platform expert s.custom))) [
          | inl ((request, left), e) ↦
              let named =
                request-auth_info platform expert values id project secrets_info
                  (passed platform expert s.custom) request left e in
              let next : SessionPostsWith id (record {
                created = s.created;
                custom = left_of platform s.custom;
                done = cluster_posted (obj request) replies.cluster ∷ s.done;
              }) =
                (rw has at named, p) in
              elim (Result-cases replies.cluster) [
                | inl (response, f) ↦ rw e (rw f next)
                | inr f ↦ rw e (rw f next)
              ]
          | inr e ↦ rw e p
        ]

-- A provider of a cloud takes the second branch.
cloud-Keeps :
    (P : Session → Type 0) (local cloud last : Io Unit)
    → Keeps P cloud
    → Keeps P last
    → (r : Result Js) → ((code : Js) → r ≡ ok code → is_str code Providers.local ≡ false)
    → Keeps P (lift r >>= λ code. (if is_str code Providers.local then local else cloud) >> last)
cloud-Keeps P local cloud last h k (ok code) other s p =
    subst (λ (b : Bool). Keeps P ((if b then local else cloud) >> last)) (sym (other code refl))
      (Keeps-seq P cloud last h k) s p
cloud-Keeps P local cloud last h k thrown other s p = p

module _ (platform : Platform) (expert : Bool) (current_project secrets : Js) where
  submit-PostsWith :
      (replies : Replies) (values : Props)
      → is_str (chain (field values Cluster.provider) "code") Providers.local ≡ false
      → truthy (first_secret_id secrets) ≡ true
      → Keeps
          (SessionPostsWith (first_secret_id secrets))
          (on_submit platform expert current_project secrets replies values)
  unfolding on_submit submit_cloud_cluster finish
  submit-PostsWith replies values cloud has =
      let P = SessionPostsWith (first_secret_id secrets) in
      let last = finish values (field values Cluster.cluster_name) in
      Keeps-try P
        (lift (member (field values Cluster.provider) "code") >>= λ code.
          (if is_str code Providers.local
            then submit_local_cluster platform expert current_project replies values
            else submit_cloud_cluster platform expert current_project secrets replies values)
          >> last)
        (tell error_caught)
        (cloud-Keeps P (submit_local_cluster platform expert current_project replies values)
          (submit_cloud_cluster platform expert current_project secrets replies values) last
          (create_cluster-PostsWith platform expert replies values (first_secret_id secrets)
            (to_number current_project) undefined has)
          (λ s p. p) (member (field values Cluster.provider) "code")
          (λ code e.
            ap (λ (c : Js). is_str c Providers.local)
              (member-eq-chain (field values Cluster.provider) "code" code e)
            ∙ cloud))
        (λ s p. p)

-- Where the form of a cluster in a cloud has a submit handler of its own, the provider has
-- exactly one secret and the form has its own buttons; and where that secret has an identifier,
-- the first submission posts no secret, and any request for a cluster that it posts names that
-- secret, whatever the server replies.
pub cloud-PostsWith :
    (platform : Platform) (expert : Bool) (current_project secrets : Js)
    (handler : Replies → Props → Io Unit) (replies : Replies) (values : Props)
    → form_handler platform expert current_project (field values Cluster.provider) secrets
      ≡ some handler
    → is_str (chain (field values Cluster.provider) "code") Providers.local ≡ false
    → truthy (first_secret_id secrets) ≡ true
    → (has_one_secret secrets ≡ true)
      × (form_buttons (field values Cluster.provider) secrets ≡ default_buttons)
      × PostsWith
          (first_secret_id secrets)
          (handler replies values (initial_session undefined)).0.done
unfolding form_handler form_buttons
cloud-PostsWith platform expert current_project secrets handler replies values e cloud has =
    elim (Bool-cases (has_one_secret secrets)) [
      | inl one ↦
          let same : some (on_submit platform expert current_project secrets) ≡ some handler =
            rw (cloud, one) at e in
          (
            one,
            rw (cloud, one) refl,
            subst
                (λ (h : Replies → Props → Io Unit).
                  PostsWith (first_secret_id secrets)
                    (h replies values (initial_session undefined)).0.done)
                (some-injective (on_submit platform expert current_project secrets) handler same)
                (submit-PostsWith platform expert current_project secrets replies values cloud has
                  (initial_session undefined) tt),
          )
      | inr other ↦ ground (arith, e, cloud, other)
    ]
