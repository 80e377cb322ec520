-- ===== src/Submit/LeaveLaws.antt =====
-- When the page of the form is left.
use postgresql_cluster.Common.{Bool, ◌≡◌, refl, List, [], ◌∷◌, map, All, if◌then◌else◌}
use postgresql_cluster.Js.{
  Js, obj, Props, field, chain, is_str, member, to_number, Result, ok, thrown,
}
use postgresql_cluster.Fields.Cluster
use postgresql_cluster.Constants.Providers
use postgresql_cluster.Request.{Platform, is_yaml, is_cloud_request}
use postgresql_cluster.Submit.Session.{
  Io, Session, ◌>>=◌, ◌>>◌, lift, get_created, get_custom, tell, try_catch, Replies, error_caught,
  modal_closed, initial_session, run_all,
}
use postgresql_cluster.Submit.Actions.{create_cluster, finish}
use postgresql_cluster.Submit.Form.{submit_local_cluster, submit_cloud_cluster, on_submit}
use postgresql_cluster.Submit.Editor.{edited_local_cluster, edited_cloud_cluster, submit_editor}
use postgresql_cluster.Submit.Modal.{modal_secret_id, save_modal_secret, submit_modal}
use postgresql_cluster.Submit.LeaveSteps.{
  navigations, created_clusters, IsBalanced, IsAhead, finish-IsBalanced, caught-IsBalanced,
  create_with-IsAhead, local-IsAhead, edited_local-IsAhead, cloud-IsAhead, edited_cloud-IsAhead,
  named_finish-IsBalanced, save_modal-IsBalanced,
}
use postgresql_cluster.Submit.Leads.{
  Ends, Leads, Leads-bind, Leads-seq, Leads-if, Leads-lift, Leads-try,
}
use postgresql_cluster.Submit.Keeps.{Keeps, Keeps-all}

-- What was filled in and what the server replies, for the form, the YAML editor or the dialog.
pub data Attempt : Type 0 where
  by_form by_editor : Js → Replies → Props → Attempt
  by_dialog : Js → Replies → Props → Props → Attempt

module _ (platform : Platform) (expert : Bool) (current_project : Js) where
  abbrev pub submitted : Attempt → Io Unit
  submitted (by_form secrets replies values) =
      on_submit platform expert current_project secrets replies values
  submitted (by_editor secrets replies values) =
      submit_editor platform expert current_project secrets replies values
  submitted (by_dialog secrets replies values secrets_fields) =
      submit_modal platform expert current_project secrets replies values secrets_fields

  form-Leads :
      (secrets : Js) (replies : Replies) (values : Props)
      → Leads IsBalanced IsBalanced IsBalanced
          (on_submit platform expert current_project secrets replies values)
  unfolding on_submit
  form-Leads secrets replies values =
      let local = submit_local_cluster platform expert current_project replies values in
      let cloud = submit_cloud_cluster platform expert current_project secrets replies values in
      let last = finish values (field values Cluster.cluster_name) in
      Leads-try IsBalanced IsBalanced IsBalanced
        (lift (member (field values Cluster.provider) "code") >>= λ code.
          (if is_str code Providers.local then local else cloud) >> last)
        (tell error_caught)
        (Leads-bind IsBalanced IsBalanced IsBalanced IsBalanced
          (lift (member (field values Cluster.provider) "code"))
          (λ code. (if is_str code Providers.local then local else cloud) >> last)
          (Leads-lift IsBalanced IsBalanced IsBalanced _)
          (λ code.
            Leads-seq IsBalanced IsBalanced IsAhead IsBalanced
              (if is_str code Providers.local then local else cloud) last
              (Leads-if IsBalanced IsBalanced IsAhead (is_str code Providers.local) local cloud
                (local-IsAhead platform expert current_project replies values)
                (cloud-IsAhead platform expert current_project secrets replies values))
              (finish-IsBalanced values (field values Cluster.cluster_name))))
        caught-IsBalanced

  editor-Leads :
      (secrets : Js) (replies : Replies) (values : Props)
      → Leads IsBalanced IsBalanced IsBalanced
          (submit_editor platform expert current_project secrets replies values)
  unfolding submit_editor
  editor-Leads secrets replies values =
      let local = edited_local_cluster platform expert current_project replies values in
      let cloud = edited_cloud_cluster platform expert current_project secrets replies values in
      let last = get_custom >>= λ left. finish values (
        if is_yaml values
        then chain left "patroni_cluster_name"
        else field values Cluster.cluster_name) in
      Leads-try IsBalanced IsBalanced IsBalanced
        (get_custom >>= λ custom. (if is_cloud_request values custom then cloud else local) >> last)
        (tell error_caught)
        (λ s p.
          Leads-seq IsBalanced IsBalanced IsAhead IsBalanced
            (if is_cloud_request values s.custom then cloud else local) last
            (Leads-if IsBalanced IsBalanced IsAhead (is_cloud_request values s.custom) cloud local
              (edited_cloud-IsAhead platform expert current_project secrets replies values)
              (edited_local-IsAhead platform expert current_project replies values))
            (named_finish-IsBalanced platform expert current_project values) s p)
        caught-IsBalanced

  dialog-Leads :
      (secrets : Js) (replies : Replies) (values fields : Props)
      → Leads IsBalanced IsBalanced IsBalanced
          (submit_modal platform expert current_project secrets replies values fields)
  unfolding submit_modal
  dialog-Leads secrets replies values fields =
      let save = save_modal_secret platform expert current_project replies values fields in
      let create = get_created >>= λ created.
      create_cluster platform expert replies values (modal_secret_id secrets fields created)
        (to_number current_project) (obj fields) in
      let last = get_custom >>= λ left. finish values (
        if is_yaml values
        then chain left "patroni_cluster_name"
        else field values Cluster.cluster_name) in
      Leads-seq IsBalanced IsBalanced IsBalanced IsBalanced
        (try_catch (save >> (create >> last)) (tell error_caught)) (tell modal_closed)
        (Leads-try IsBalanced IsBalanced IsBalanced (save >> (create >> last)) (tell error_caught)
          (Leads-seq IsBalanced IsBalanced IsBalanced IsBalanced save (create >> last)
            (save_modal-IsBalanced platform expert current_project replies values fields)
            (Leads-seq IsBalanced IsBalanced IsAhead IsBalanced create last
              (create_with-IsAhead platform expert current_project replies values
                (modal_secret_id secrets fields) (obj fields))
              (named_finish-IsBalanced platform expert current_project values)))
          caught-IsBalanced)
        (λ s p. p)

Ends-IsBalanced : (r : Session × Result (Unit {0})) → Ends IsBalanced IsBalanced r → IsBalanced r.0
Ends-IsBalanced (s, ok a) h = h
Ends-IsBalanced (s, thrown) h = h

module _ (platform : Platform) (expert : Bool) (current_project : Js) where
  submitted-IsBalanced :
      (a : Attempt) → Keeps IsBalanced (submitted platform expert current_project a)
  submitted-IsBalanced (by_form secrets replies values) s p =
      Ends-IsBalanced (on_submit platform expert current_project secrets replies values s)
        (form-Leads platform expert current_project secrets replies values s p)
  submitted-IsBalanced (by_editor secrets replies values) s p =
      Ends-IsBalanced (submit_editor platform expert current_project secrets replies values s)
        (editor-Leads platform expert current_project secrets replies values s p)
  submitted-IsBalanced (by_dialog secrets replies values fields) s p =
      Ends-IsBalanced (submit_modal platform expert current_project secrets replies values fields s)
        (dialog-Leads platform expert current_project secrets replies values fields s p)

  submitted-All :
      (attempts : List Attempt)
      → All (Keeps IsBalanced) (map (submitted platform expert current_project) attempts)
  submitted-All [] = tt
  submitted-All (a ∷ attempts) = (submitted-IsBalanced a, submitted-All attempts)

-- Over all attempts of the form, of the YAML editor and of the dialog for a secret, in any order
-- and with any replies of the server: the page is left exactly as often as the server created a
-- cluster.
pub submitted-navigations :
    (platform : Platform) (expert : Bool) (current_project custom : Js) (attempts : List Attempt)
    → navigations
        (run_all
          (map (submitted platform expert current_project) attempts)
          (initial_session custom)).done
      ≡ created_clusters
          (run_all
            (map (submitted platform expert current_project) attempts)
            (initial_session custom)).done
submitted-navigations platform expert current_project custom attempts =
    Keeps-all IsBalanced (map (submitted platform expert current_project) attempts)
      (submitted-All platform expert current_project attempts) (initial_session custom) refl
