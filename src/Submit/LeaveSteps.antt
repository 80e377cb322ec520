-- ===== src/Submit/LeaveSteps.antt =====
-- The steps of the submissions between a created cluster and the way back to the table.
use postgresql_cluster.Common.{
  Bool, true, not, ◌&&◌, ◌≡◌, ap, List, [], ◌∷◌, ℕ, suc, if◌then◌else◌, Bool-cases, inl, inr,
}
use postgresql_cluster.Js.{
  Js, undefined, Props, field, chain, truthy, to_number, Result, ok, thrown,
}
use postgresql_cluster.Fields.Cluster
use postgresql_cluster.Fields.Modal
use postgresql_cluster.Fields.Secret
use postgresql_cluster.Request.{Platform, is_yaml, left_of, map_form_values_to_request_fields}
use postgresql_cluster.Submit.Session.{
  Effect, Session, ◌>>=◌, ◌>>◌, lift, get_created, set_created, get_custom, pure, tell, Replies,
  secret_posted, cluster_posted, navigated, toasted, error_caught,
}
use postgresql_cluster.Submit.Actions.{
  secret_request, create_secret, save_secret, create_cluster, finish, passed, request_of,
}
use postgresql_cluster.Submit.Form.{
  first_secret_id, local_secret_id, submit_local_cluster, submit_cloud_cluster,
}
use postgresql_cluster.Submit.Editor.{edited_local_cluster, edited_cloud_cluster}
use postgresql_cluster.Submit.Modal.{modal_secret_type, save_modal_secret}
use postgresql_cluster.Submit.Leads.{Leads, Leads-bind, Leads-seq, Leads-if, Leads-lift}

-- How often the page was left, and how many clusters the server created.
abbrev pub navigations : List Effect → ℕ
navigations [] = 0
navigations (navigated ∷ done) = suc (navigations done)
navigations (effect ∷ done) = navigations done

abbrev pub created_clusters : List Effect → ℕ
created_clusters [] = 0
created_clusters (cluster_posted _ (ok _) ∷ done) = suc (created_clusters done)
created_clusters (effect ∷ done) = created_clusters done

abbrev pub IsBalanced : Session → Type 0
IsBalanced s = navigations s.done ≡ created_clusters s.done

-- A cluster was created and the page is still there.
abbrev pub IsAhead : Session → Type 0
IsAhead s = suc (navigations s.done) ≡ created_clusters s.done

create_secret-IsBalanced :
    (replies : Replies) (project type name : Js) (values : Props)
    → Leads IsBalanced IsBalanced IsBalanced (create_secret replies project type name values)
unfolding create_secret
create_secret-IsBalanced replies project type name values =
    Leads-seq IsBalanced IsBalanced IsBalanced IsBalanced
      (tell (secret_posted (secret_request project type name values) replies.secret))
      (lift replies.secret >>= λ response.
        set_created response >> tell (toasted "secretSuccessfullyCreated" name))
      (λ s p. p)
      (Leads-bind IsBalanced IsBalanced IsBalanced IsBalanced (lift replies.secret)
        (λ response. set_created response >> tell (toasted "secretSuccessfullyCreated" name))
        (Leads-lift IsBalanced IsBalanced IsBalanced replies.secret) (λ response s p. p))

save_secret-IsBalanced :
    (replies : Replies) (is_save : Bool) (project type name : Js) (values : Props)
    → Leads IsBalanced IsBalanced IsBalanced (save_secret replies is_save project type name values)
unfolding save_secret
save_secret-IsBalanced replies is_save project type name values s p =
    elim (Bool-cases (is_save && not (truthy s.created))) [
      | inl saves ↦ rw saves (create_secret-IsBalanced replies project type name values s p)
      | inr skips ↦ rw skips p
    ]

pub finish-IsBalanced :
    (values : Props) (name : Js) → Leads IsAhead IsBalanced IsBalanced (finish values name)
unfolding finish
finish-IsBalanced values name s p = p

pub caught-IsBalanced : Leads IsBalanced IsBalanced IsBalanced (tell error_caught)
caught-IsBalanced s p = p

-- The request for a cluster, with any reply.
post-IsAhead :
    (request : Js) (reply : Result Js)
    → Leads IsBalanced IsBalanced IsAhead
        (tell (cluster_posted request reply) >> (lift reply >>= λ response. pure tt))
post-IsAhead request (ok response) s p = ap suc p
post-IsAhead request thrown s p = p

module _ (platform : Platform) (expert : Bool) where
  create_cluster-IsAhead :
      (replies : Replies) (values : Props) (id project secrets_info : Js)
      → Leads IsBalanced IsBalanced IsAhead
          (create_cluster platform expert replies values id project secrets_info)
  unfolding create_cluster
  create_cluster-IsAhead replies values id project secrets_info s p =
      Leads-bind IsBalanced IsBalanced IsBalanced IsAhead
        (lift (
          request_of (
            map_form_values_to_request_fields platform expert values id project secrets_info
              (passed platform expert s.custom))))
        (λ request.
          tell (cluster_posted request replies.cluster)
          >> (lift replies.cluster >>= λ response. pure tt))
        (Leads-lift IsBalanced IsBalanced IsBalanced _)
        (λ request. post-IsAhead request replies.cluster)
        (record { created = s.created; custom = left_of platform s.custom; done = s.done }) p

module _ (platform : Platform) (expert : Bool) (current_project : Js) where
  pub create_with-IsAhead :
      (replies : Replies) (values : Props) (id_of : Js → Js) (secrets_info : Js)
      → Leads IsBalanced IsBalanced IsAhead (
          get_created >>= λ created.
          create_cluster platform expert replies values
            (id_of created)
            (to_number current_project)
            secrets_info)
  create_with-IsAhead replies values id_of secrets_info s p =
      create_cluster-IsAhead platform expert replies values (id_of s.created)
        (to_number current_project) secrets_info s p

  -- The two submissions for servers of one's own are the same.
  pub local-IsAhead :
      (replies : Replies) (values : Props)
      → Leads IsBalanced IsBalanced IsAhead
          (submit_local_cluster platform expert current_project replies values)
  unfolding submit_local_cluster
  local-IsAhead replies values =
      Leads-seq IsBalanced IsBalanced IsBalanced IsAhead
        (save_secret replies (truthy (field values Cluster.authentication_is_save_to_console))
          (to_number current_project) (field values Cluster.authentication_method)
          (field values Cluster.secret_key_name) values)
        (get_created >>= λ created.
          create_cluster platform expert replies values (local_secret_id values created)
            (to_number current_project) undefined)
        (save_secret-IsBalanced replies
          (truthy (field values Cluster.authentication_is_save_to_console))
          (to_number current_project) (field values Cluster.authentication_method)
          (field values Cluster.secret_key_name) values)
        (create_with-IsAhead replies values (local_secret_id values) undefined)

  pub edited_local-IsAhead :
      (replies : Replies) (values : Props)
      → Leads IsBalanced IsBalanced IsAhead
          (edited_local_cluster platform expert current_project replies values)
  unfolding edited_local_cluster submit_local_cluster
  edited_local-IsAhead replies values = local-IsAhead replies values

  pub cloud-IsAhead :
      (secrets : Js) (replies : Replies) (values : Props)
      → Leads IsBalanced IsBalanced IsAhead
          (submit_cloud_cluster platform expert current_project secrets replies values)
  unfolding submit_cloud_cluster
  cloud-IsAhead secrets replies values =
      create_cluster-IsAhead platform expert replies values (first_secret_id secrets)
        (to_number current_project) undefined

  pub edited_cloud-IsAhead :
      (secrets : Js) (replies : Replies) (values : Props)
      → Leads IsBalanced IsBalanced IsAhead
          (edited_cloud_cluster platform expert current_project secrets replies values)
  unfolding edited_cloud_cluster submit_cloud_cluster
  edited_cloud-IsAhead secrets replies values = cloud-IsAhead secrets replies values

  -- The last step of the editor and of the dialog.
  pub named_finish-IsBalanced :
      (values : Props)
      → Leads IsAhead IsBalanced IsBalanced (
          get_custom >>= λ left. finish values (
            if is_yaml values
            then chain left "patroni_cluster_name"
            else field values Cluster.cluster_name))
  named_finish-IsBalanced values s p = finish-IsBalanced values _ s p

  pub save_modal-IsBalanced :
      (replies : Replies) (values fields : Props)
      → Leads IsBalanced IsBalanced IsBalanced
          (save_modal_secret platform expert current_project replies values fields)
  unfolding save_modal_secret
  save_modal-IsBalanced replies values fields s p =
      Leads-if IsBalanced IsBalanced IsBalanced
        (truthy (field fields Modal.is_save_to_console) && not (truthy s.created))
        (lift (modal_secret_type values s.custom) >>= λ type.
          save_secret replies true (to_number current_project) type
            (field fields Secret.secret_name) fields)
        (pure tt)
        (Leads-bind IsBalanced IsBalanced IsBalanced IsBalanced
          (lift (modal_secret_type values s.custom))
          (λ type.
            save_secret replies true (to_number current_project) type
              (field fields Secret.secret_name) fields)
          (Leads-lift IsBalanced IsBalanced IsBalanced _)
          (λ type.
            save_secret-IsBalanced replies true (to_number current_project) type
              (field fields Secret.secret_name) fields))
        (λ s p. p) s p
