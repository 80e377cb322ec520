-- ===== src/Submit/SecretLaws.antt =====
-- A component saves at most one secret, and then uses it.
use postgresql_cluster.Common.{
  refl, ap, sym, ◌∙◌, not, ◌&&◌, arith, Bool, true, false, List, [], ◌∷◌, ◌≡◌, Bool-cases, some,
  inl, inr,
}
use postgresql_cluster.Js.{Js, ok, Props, truthy, obj, end, Result-cases, lookup, null, ◌≔◌}
use postgresql_cluster.Submit.Session.{Session, Effect, Replies, secret_posted, cluster_posted}
use postgresql_cluster.Submit.Actions.{
  create_secret, save_secret, created_id, create_cluster, passed,
}
use postgresql_cluster.Submit.Keeps.{Keeps}
use postgresql_cluster.Request.{Platform, left_of, map_form_values_to_request_fields}
use postgresql_cluster.Request.FieldLaws.{request-auth_info}

-- The secret that the component has saved, by what it did.
abbrev pub created_by : List Effect → Js
created_by [] = null
created_by (secret_posted _ (ok response) ∷ done) = response
created_by (effect ∷ done) = created_by done

abbrev pub request_props : Js → Props
request_props (obj ps) = ps
request_props _ = end

-- A request for a cluster names the secret that was saved, if one was and has an identifier.
abbrev pub NamesSecret : Js → Js → Type 0
NamesSecret created request =
    truthy (created_id created) ≡ true
    → lookup (request_props request) "auth_info" ≡ some (obj ("secret_id" ≔ created_id created))

-- No secret is posted once one is saved, and the requests for clusters name it.
abbrev pub IsOrderly : List Effect → Type 0
IsOrderly [] = Unit
IsOrderly (secret_posted _ _ ∷ done) = (truthy (created_by done) ≡ false) × IsOrderly done
IsOrderly (cluster_posted request _ ∷ done) = NamesSecret (created_by done) request × IsOrderly done
IsOrderly (effect ∷ done) = IsOrderly done

-- The reference holds what was done.
pub record IsTracked (s : Session) : Type 0 where
  pub tracked : s.created ≡ created_by s.done
  pub orderly : IsOrderly s.done

-- A secret is posted only while none is saved.
create_secret-IsTracked :
    (replies : Replies) (project type name : Js) (values : Props) (s : Session)
    → truthy s.created ≡ false
    → IsTracked s
    → IsTracked (create_secret replies project type name values s).0
unfolding create_secret
create_secret-IsTracked replies project type name values s fresh t =
    elim (Result-cases replies.secret) [
      | inl (response, e) ↦
          rw e (record {
            tracked = rw e refl;
            orderly = (ap truthy (sym t.tracked) ∙ fresh, t.orderly);
          })
      | inr e ↦ rw e (record {
        tracked = rw e t.tracked;
        orderly = (ap truthy (sym t.tracked) ∙ fresh, t.orderly);
      })
    ]

pub save_secret-IsTracked :
    (replies : Replies) (is_save : Bool) (project type name : Js) (values : Props)
    → Keeps IsTracked (save_secret replies is_save project type name values)
unfolding save_secret
save_secret-IsTracked replies is_save project type name values s t =
    elim (Bool-cases (is_save && not (truthy s.created))) [
      | inl saves ↦
          rw saves
            (create_secret-IsTracked replies project type name values s (ground (arith, saves)) t)
      | inr skips ↦ rw skips t
    ]

-- An identifier for the request that is the saved secret's, if that has one.
abbrev pub Agrees : Js → Js → Type 0
Agrees created id = truthy (created_id created) ≡ true → id ≡ created_id created

module _ (platform : Platform) (expert : Bool) where
  pub create_cluster-IsTracked :
      (replies : Replies) (values : Props) (id project secrets_info : Js) (s : Session)
      → Agrees s.created id
      → IsTracked s
      → IsTracked (create_cluster platform expert replies values id project secrets_info s).0
  unfolding create_cluster
  create_cluster-IsTracked replies values id project secrets_info s agrees t =
      elim (Result-cases (
        map_form_values_to_request_fields platform expert values id project secrets_info
          (passed platform expert s.custom))) [
            | inl ((request, left), e) ↦
                let named =
                  request-auth_info platform expert values id project secrets_info
                    (passed platform expert s.custom) request left e in
                let next : IsTracked (record {
                  created = s.created;
                  custom = left_of platform s.custom;
                  done = cluster_posted (obj request) replies.cluster ∷ s.done;
                }) =
                  record {
                    tracked = t.tracked;
                    orderly = (
                      λ has.
                          (let same = ap created_id t.tracked in
                            let id_eq = agrees (ap truthy same ∙ has) ∙ same in
                            rw has at (rw id_eq at named)),
                      t.orderly,
                    );
                  } in
                elim (Result-cases replies.cluster) [
                  | inl (response, f) ↦ rw e (rw f next)
                  | inr f ↦ rw e (rw f next)
                ]
            | inr e ↦ rw e (record { tracked = t.tracked; orderly = t.orderly })
          ]
