-- ===== src/Submit/ComponentLaws.antt =====
-- What the attempts of one component do together.
use postgresql_cluster.Common.{
  subst, sym, Bool, true, not, ◌&&◌, ◌≡◌, refl, arith, List, [], ◌∷◌, map, All, if◌then◌else◌,
  Bool-cases, inl, inr, ◌∙◌,
}
use postgresql_cluster.Js.{
  Js, undefined, str, Props, field, chain, truthy, is_str, member, to_number, Result, ok, thrown,
  Result-cases, obj, member-eq-chain,
}
use postgresql_cluster.Fields.Cluster
use postgresql_cluster.Fields.Modal
use postgresql_cluster.Fields.Secret
use postgresql_cluster.Constants.Providers
use postgresql_cluster.Request.{Platform, is_yaml}
use postgresql_cluster.Submit.Session.{
  Io, ◌>>=◌, ◌>>◌, lift, get_created, get_custom, tell, try_catch, Replies, error_caught,
  modal_closed, initial_session, run_all,
}
use postgresql_cluster.Submit.Actions.{save_secret, create_cluster, finish}
use postgresql_cluster.Submit.Form.{
  local_secret_id, submit_local_cluster, submit_cloud_cluster, on_submit,
}
use postgresql_cluster.Submit.Modal.{
  modal_secret_id, modal_secret_type, save_modal_secret, submit_modal,
}
use postgresql_cluster.Submit.Keeps.{Keeps, Keeps-seq, Keeps-try, Keeps-all}
use postgresql_cluster.Submit.SecretLaws.{
  IsTracked, IsOrderly, Agrees, save_secret-IsTracked, create_cluster-IsTracked,
}

finish-IsTracked : (values : Props) (name : Js) → Keeps IsTracked (finish values name)
unfolding finish
finish-IsTracked values name s t = record { tracked = t.tracked; orderly = t.orderly }

caught-IsTracked : Keeps IsTracked (tell error_caught)
caught-IsTracked s t = record { tracked = t.tracked; orderly = t.orderly }

local-Agrees : (values : Props) (created : Js) → Agrees created (local_secret_id values created)
local-Agrees values created has = ground (arith, has)

modal-Agrees :
    (secrets : Js) (fields : Props) (created : Js)
    → Agrees created (modal_secret_id secrets fields created)
unfolding modal_secret_id
modal-Agrees secrets fields created has = rw has (ground (arith, has))

-- A branch that is always taken.
branch-IsTracked :
    (taken other last : Io Unit)
    → Keeps IsTracked taken
    → Keeps IsTracked last
    → (r : Result Js) → ((code : Js) → r ≡ ok code → code ≡ str Providers.local)
    → Keeps IsTracked
        (lift r >>= λ code. (if is_str code Providers.local then taken else other) >> last)
branch-IsTracked taken other last h k (ok code) local s t =
    subst
      (λ (c : Js). Keeps IsTracked ((if is_str c Providers.local then taken else other) >> last))
      (sym (local code refl)) (Keeps-seq IsTracked taken last h k) s t
branch-IsTracked taken other last h k thrown local s t = t

-- An attempt of the form, and one of the dialog: what was filled in and what the server replies.
pub record FormAttempt : Type 0 where
  pub secrets : Js
  pub replies : Replies
  pub values : Props

pub record ModalAttempt : Type 0 where
  pub secrets : Js
  pub replies : Replies
  pub values : Props
  pub secrets_fields : Props

-- The attempt is for servers of one's own.
abbrev pub IsLocal : FormAttempt → Type 0
IsLocal a = chain (field a.values Cluster.provider) "code" ≡ str Providers.local

module _ (platform : Platform) (expert : Bool) (current_project : Js) where
  abbrev pub form_attempt : FormAttempt → Io Unit
  form_attempt a = on_submit platform expert current_project a.secrets a.replies a.values

  abbrev pub modal_attempt : ModalAttempt → Io Unit
  modal_attempt a =
      submit_modal platform expert current_project a.secrets a.replies a.values a.secrets_fields

  create_with : Replies → Props → (Js → Js) → Js → Io Unit
  create_with replies values id_of secrets_info = do
    created ← get_created
    create_cluster platform expert replies values (id_of created) (to_number current_project)
        secrets_info

  create_with-IsTracked :
      (replies : Replies) (values : Props) (id_of : Js → Js) (secrets_info : Js)
      → ((created : Js) → Agrees created (id_of created))
      → Keeps IsTracked (create_with replies values id_of secrets_info)
  unfolding create_with
  create_with-IsTracked replies values id_of secrets_info agrees s t =
      create_cluster-IsTracked platform expert replies values (id_of s.created)
        (to_number current_project) secrets_info s (agrees s.created) t

  local-IsTracked :
      (replies : Replies) (values : Props)
      → Keeps IsTracked (submit_local_cluster platform expert current_project replies values)
  unfolding submit_local_cluster create_with
  local-IsTracked replies values =
      Keeps-seq IsTracked
        (save_secret replies (truthy (field values Cluster.authentication_is_save_to_console))
          (to_number current_project) (field values Cluster.authentication_method)
          (field values Cluster.secret_key_name) values)
        (create_with replies values (local_secret_id values) undefined)
        (save_secret-IsTracked replies
          (truthy (field values Cluster.authentication_is_save_to_console))
          (to_number current_project) (field values Cluster.authentication_method)
          (field values Cluster.secret_key_name) values)
        (create_with-IsTracked replies values (local_secret_id values) undefined
          (local-Agrees values))

  save_modal-IsTracked :
      (replies : Replies) (values fields : Props)
      → Keeps IsTracked (save_modal_secret platform expert current_project replies values fields)
  unfolding save_modal_secret
  save_modal-IsTracked replies values fields s t =
      elim (Bool-cases (truthy (field fields Modal.is_save_to_console) && not (truthy s.created))) [
        | inl saves ↦ elim (Result-cases (modal_secret_type values s.custom)) [
          | inl (type, e) ↦
              rw (saves, e)
                (save_secret-IsTracked replies true (to_number current_project) type
                  (field fields Secret.secret_name) fields s t)
          | inr e ↦ rw (saves, e) t
        ]
        | inr skips ↦ rw skips t
      ]

  form_attempt-IsTracked : (a : FormAttempt) → IsLocal a → Keeps IsTracked (form_attempt a)
  unfolding on_submit
  form_attempt-IsTracked a local =
      Keeps-try IsTracked
        (lift (member (field a.values Cluster.provider) "code") >>= λ code.
          (if is_str code Providers.local
            then submit_local_cluster platform expert current_project a.replies a.values
            else submit_cloud_cluster platform expert current_project a.secrets a.replies a.values)
          >> finish a.values (field a.values Cluster.cluster_name))
        (tell error_caught)
        (branch-IsTracked (submit_local_cluster platform expert current_project a.replies a.values)
          (submit_cloud_cluster platform expert current_project a.secrets a.replies a.values)
          (finish a.values (field a.values Cluster.cluster_name))
          (local-IsTracked a.replies a.values)
          (finish-IsTracked a.values (field a.values Cluster.cluster_name))
          (member (field a.values Cluster.provider) "code")
          (λ code e. member-eq-chain (field a.values Cluster.provider) "code" code e ∙ local))
        caught-IsTracked

  modal_tail : (values : Props) → Io Unit
  modal_tail values = do
    left ← get_custom
    finish values (
        if is_yaml values
        then chain left "patroni_cluster_name"
        else field values Cluster.cluster_name)

  modal_tail-IsTracked : (values : Props) → Keeps IsTracked (modal_tail values)
  unfolding modal_tail finish
  modal_tail-IsTracked values s t = record { tracked = t.tracked; orderly = t.orderly }

  modal_body : ModalAttempt → Io Unit
  modal_body a = do
    save_modal_secret platform expert current_project a.replies a.values a.secrets_fields
    create_with a.replies a.values (modal_secret_id a.secrets a.secrets_fields)
        (obj a.secrets_fields)
    modal_tail a.values

  modal_body-IsTracked : (a : ModalAttempt) → Keeps IsTracked (modal_body a)
  unfolding modal_body
  modal_body-IsTracked a =
      Keeps-seq IsTracked
        (save_modal_secret platform expert current_project a.replies a.values a.secrets_fields)
        (create_with a.replies a.values (modal_secret_id a.secrets a.secrets_fields)
            (obj a.secrets_fields)
          >> modal_tail a.values)
        (save_modal-IsTracked a.replies a.values a.secrets_fields)
        (Keeps-seq IsTracked
          (create_with a.replies a.values (modal_secret_id a.secrets a.secrets_fields)
            (obj a.secrets_fields))
          (modal_tail a.values)
          (create_with-IsTracked a.replies a.values (modal_secret_id a.secrets a.secrets_fields)
            (obj a.secrets_fields) (modal-Agrees a.secrets a.secrets_fields))
          (modal_tail-IsTracked a.values))

  modal_attempt-IsTracked : (a : ModalAttempt) → Keeps IsTracked (modal_attempt a)
  unfolding submit_modal modal_body create_with modal_tail
  modal_attempt-IsTracked a s t =
      Keeps-seq IsTracked (try_catch (modal_body a) (tell error_caught)) (tell modal_closed)
        (Keeps-try IsTracked (modal_body a) (tell error_caught) (modal_body-IsTracked a)
          caught-IsTracked)
        (λ s t. record { tracked = t.tracked; orderly = t.orderly }) s t

initial-IsTracked : (custom : Js) → IsTracked (initial_session custom)
initial-IsTracked custom = record { tracked = refl; orderly = tt }

module _ (platform : Platform) (expert : Bool) (current_project : Js) where
  form_attempts-All :
      (attempts : List FormAttempt)
      → All IsLocal attempts
      → All (Keeps IsTracked) (map (form_attempt platform expert current_project) attempts)
  form_attempts-All [] _ = tt
  form_attempts-All (a ∷ attempts) (local, locals) = (
    form_attempt-IsTracked platform expert current_project a local,
    form_attempts-All attempts locals,
  )

  modal_attempts-All :
      (attempts : List ModalAttempt)
      → All (Keeps IsTracked) (map (modal_attempt platform expert current_project) attempts)
  modal_attempts-All [] = tt
  modal_attempts-All (a ∷ attempts) =
      (modal_attempt-IsTracked platform expert current_project a, modal_attempts-All attempts)

-- Over all attempts of the form, each for servers of one's own and each with any replies of the
-- server: no secret is posted once one is saved, and every request for a cluster that is posted
-- after that names the saved secret, if the server gave it an identifier.
pub form-IsOrderly :
    (platform : Platform) (expert : Bool) (current_project : Js) (attempts : List FormAttempt)
    → All IsLocal attempts
    → IsOrderly
        (run_all
          (map (form_attempt platform expert current_project) attempts)
          (initial_session undefined)).done
form-IsOrderly platform expert current_project attempts locals =
    (Keeps-all IsTracked (map (form_attempt platform expert current_project) attempts)
      (form_attempts-All platform expert current_project attempts locals)
      (initial_session undefined) (initial-IsTracked undefined)).orderly

-- The same holds over all attempts of the dialog for a secret, whatever the form and the editor
-- hold.
pub modal-IsOrderly :
    (platform : Platform) (expert : Bool) (current_project : Js) (attempts : List ModalAttempt)
    (custom : Js)
    → IsOrderly
        (run_all
          (map (modal_attempt platform expert current_project) attempts)
          (initial_session custom)).done
modal-IsOrderly platform expert current_project attempts custom =
    (Keeps-all IsTracked (map (modal_attempt platform expert current_project) attempts)
      (modal_attempts-All platform expert current_project attempts) (initial_session custom)
      (initial-IsTracked custom)).orderly
