-- ===== src/Editor/PageSteps.antt =====
-- What the steps of a submission post of an object of the editor.
use postgresql_cluster.Common.{
  subst, Bool, true, false, not, ◌&&◌, ◌≡◌, refl, sym, ap, ◌∙◌, List, [], ◌∷◌, some, if◌then◌else◌,
}
use postgresql_cluster.Js.{
  Js, undefined, obj, Props, field, lookup, delete, chain, truthy, Result, ok, thrown,
}
use postgresql_cluster.Fields.Cluster
use postgresql_cluster.Request.{
  Platform, IsLodash, is_yaml, left_of, map_form_values_to_request_fields,
}
use postgresql_cluster.Request.CustomLaws.{request-name, request-environment}
use postgresql_cluster.Request.EditedLaws.{request-extra_vars}
use postgresql_cluster.Submit.Session.{
  Session, Effect, Replies, ◌>>=◌, ◌>>◌, lift, set_created, get_custom, pure, tell, secret_posted,
  cluster_posted, toasted,
}
use postgresql_cluster.Submit.{
  secret_request, create_secret, save_secret, create_cluster, finish, passed, request_of,
}
use postgresql_cluster.Submit.SecretLaws.{request_props}
use postgresql_cluster.Submit.Leads.{Leads, Leads-if, Leads-result}

-- A request has the name and the environment of an object, and as its extra vars the object less
-- the environment and the description.
abbrev pub IsOf : Props → Js → Type 0
IsOf ps request =
    (lookup (request_props request) "name" ≡ some (field ps "patroni_cluster_name"))
    × (lookup (request_props request) "environment_id" ≡ some (field ps "environment_id"))
    × (lookup (request_props request) "extra_vars"
        ≡ some (obj (delete (delete ps "environment_id") "description")))

-- Each request for a cluster that was posted is of the object.
abbrev pub PostsOf : Props → List Effect → Type 0
PostsOf ps [] = Unit
PostsOf ps (cluster_posted request _ ∷ done) = IsOf ps request × PostsOf ps done
PostsOf ps (effect ∷ done) = PostsOf ps done

abbrev pub HasPosted : Props → Session → Type 0
HasPosted ps s = PostsOf ps s.done

-- The editor's object is still the one of the text.
abbrev pub IsReady : Props → Session → Type 0
IsReady ps s = (s.custom ≡ obj ps) × PostsOf ps s.done

pub weaker : (ps : Props) (s : Session) → IsReady ps s → HasPosted ps s
weaker ps s (_, posted) = posted

request_of-ok :
    (r : Result (Props × Js)) (v : Js)
    → request_of r ≡ ok v
    → (p : Props × Js) × (r ≡ ok p) × (v ≡ obj p.0)
request_of-ok (ok p) v e = (p, refl, cc)
request_of-ok thrown v e = cc

module _ (ps : Props) where
  create_secret-IsReady :
      (replies : Replies) (project type name : Js) (values : Props)
      → Leads
          (IsReady ps)
          (HasPosted ps)
          (IsReady ps)
          (create_secret replies project type name values)
  unfolding create_secret
  create_secret-IsReady replies project type name values s p =
      Leads-result (IsReady ps) (HasPosted ps) (IsReady ps) replies.secret
        (λ response. set_created response >> tell (toasted "secretSuccessfullyCreated" name))
        (weaker ps) (λ response e s p. p)
        (record {
          created = s.created;
          custom = s.custom;
          done = secret_posted (secret_request project type name values) replies.secret ∷ s.done;
        })
        p

  pub save_secret-IsReady :
      (replies : Replies) (is_save : Bool) (project type name : Js) (values : Props)
      → Leads
          (IsReady ps)
          (HasPosted ps)
          (IsReady ps)
          (save_secret replies is_save project type name values)
  unfolding save_secret
  save_secret-IsReady replies is_save project type name values s p =
      Leads-if (IsReady ps) (HasPosted ps) (IsReady ps) (is_save && not (truthy s.created))
        (create_secret replies project type name values) (pure tt)
        (create_secret-IsReady replies project type name values) (λ s p. p) s p

  finish-HasPosted :
      (values : Props) (name : Js)
      → Leads (HasPosted ps) (HasPosted ps) (HasPosted ps) (finish values name)
  unfolding finish
  finish-HasPosted values name s p = p

  post-HasPosted :
      (request : Js) (reply : Result Js)
      → IsOf ps request
      → Leads
          (HasPosted ps)
          (HasPosted ps)
          (HasPosted ps)
          (tell (cluster_posted request reply) >> (lift reply >>= λ response. pure tt))
  post-HasPosted request (ok response) h s p = (h, p)
  post-HasPosted request thrown h s p = (h, p)

  pub named_finish-HasPosted :
      (values : Props)
      → Leads (HasPosted ps) (HasPosted ps) (HasPosted ps) (
          get_custom >>= λ left. finish values (
            if is_yaml values
            then chain left "patroni_cluster_name"
            else field values Cluster.cluster_name))
  named_finish-HasPosted values s p = finish-HasPosted values _ s p

module _ (platform : Platform) (expert : Bool) (ps : Props) (laws : IsLodash platform.is_empty)
    (full : platform.is_empty (obj ps) ≡ false) where
  passed-full : (custom : Js) → custom ≡ obj ps → passed platform expert custom ≡ obj ps
  passed-full custom same =
      ap (passed platform expert) same ∙ ap (λ (b : Bool). if b then undefined else obj ps) full

  request-IsOf :
      (values : Props) (id project secrets_info custom : Js) (request : Props) (left : Js)
      → is_yaml values ≡ true
      → custom ≡ obj ps
      → map_form_values_to_request_fields platform expert values id project secrets_info custom
        ≡ ok (request, left)
      → IsOf ps (obj request)
  request-IsOf values id project secrets_info custom request left yaml same mapped =
      let m =
        sym (
          ap (map_form_values_to_request_fields platform expert values id project secrets_info)
            same)
        ∙ mapped in
      (
        request-name platform expert values id project secrets_info (obj ps) request left yaml m,
        request-environment platform expert values id project secrets_info (obj ps) request left
            yaml m,
        request-extra_vars platform expert values id project secrets_info ps request left laws m,
      )

  pub create_cluster-HasPosted :
      (replies : Replies) (values : Props) (id project secrets_info : Js)
      → is_yaml values ≡ true
      → Leads
          (IsReady ps)
          (HasPosted ps)
          (HasPosted ps)
          (create_cluster platform expert replies values id project secrets_info)
  unfolding create_cluster
  create_cluster-HasPosted replies values id project secrets_info yaml s (same, posted) =
      Leads-result (HasPosted ps) (HasPosted ps) (HasPosted ps)
        (request_of (
          map_form_values_to_request_fields platform expert values id project secrets_info
            (passed platform expert s.custom)))
        (λ request.
          tell (cluster_posted request replies.cluster)
          >> (lift replies.cluster >>= λ response. pure tt))
        (λ s p. p)
        (λ request e.
          (let (answer, mapped, is_obj) = request_of-ok _ request e in
            post-HasPosted ps request replies.cluster (
              subst (IsOf ps) (sym is_obj) (
                request-IsOf values id project secrets_info (passed platform expert s.custom)
                  answer.0 answer.1 yaml (passed-full s.custom same) mapped))))
        (record { created = s.created; custom = left_of platform s.custom; done = s.done }) posted
