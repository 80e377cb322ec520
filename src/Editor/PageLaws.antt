-- ===== src/Editor/PageLaws.antt =====
-- What a submission posts of the text.
use postgresql_cluster.Common.{Bool, true, false, not, ◌&&◌, ◌≡◌, refl, [], String, if◌then◌else◌}
use postgresql_cluster.Js.{
  Js, undefined, obj, Props, field, chain, truthy, to_number, Result, ok, thrown,
}
use postgresql_cluster.Fields.Cluster
use postgresql_cluster.Fields.Modal
use postgresql_cluster.Fields.Secret
use postgresql_cluster.Request.{Platform, IsLodash, is_yaml, is_cloud_request}
use postgresql_cluster.Submit.Session.{
  Io, Session, Replies, ◌>>=◌, ◌>>◌, lift, get_created, get_custom, pure, tell, try_catch,
  error_caught, modal_closed,
}
use postgresql_cluster.Submit.{
  save_secret, create_cluster, finish, first_secret_id, local_secret_id, edited_local_cluster,
  edited_cloud_cluster, submit_editor, modal_secret_id, modal_secret_type, save_modal_secret,
  submit_modal,
}
use postgresql_cluster.Submit.Leads.{Ends, Leads, Leads-seq, Leads-if, Leads-try, Leads-result}
use postgresql_cluster.Editor.{Yaml, Editor, change_text, parse_text}
use postgresql_cluster.Editor.Page.{EditorPage, PageEvent, typed, submitted, confirmed, page_step}
use postgresql_cluster.Editor.PageSteps.{
  PostsOf, HasPosted, IsReady, weaker, save_secret-IsReady, named_finish-HasPosted,
  create_cluster-HasPosted,
}

module _ (platform : Platform) (expert : Bool) (current_project : Js) (ps : Props)
    (laws : IsLodash platform.is_empty) (full : platform.is_empty (obj ps) ≡ false) where
  create_with-HasPosted :
      (replies : Replies) (values : Props) (id_of : Js → Js) (secrets_info : Js)
      → is_yaml values ≡ true
      → Leads (IsReady ps) (HasPosted ps) (HasPosted ps) (
          get_created >>= λ created.
          create_cluster platform expert replies values
            (id_of created)
            (to_number current_project)
            secrets_info)
  create_with-HasPosted replies values id_of secrets_info yaml s p =
      create_cluster-HasPosted platform expert ps laws full replies values (id_of s.created)
        (to_number current_project) secrets_info yaml s p

  local-HasPosted :
      (replies : Replies) (values : Props)
      → is_yaml values ≡ true
      → Leads
          (IsReady ps)
          (HasPosted ps)
          (HasPosted ps)
          (edited_local_cluster platform expert current_project replies values)
  unfolding edited_local_cluster
  local-HasPosted replies values yaml =
      Leads-seq (IsReady ps) (HasPosted ps) (IsReady ps) (HasPosted ps)
        (save_secret replies (truthy (field values Cluster.authentication_is_save_to_console))
          (to_number current_project) (field values Cluster.authentication_method)
          (field values Cluster.secret_key_name) values)
        (get_created >>= λ created.
          create_cluster platform expert replies values (local_secret_id values created)
            (to_number current_project) undefined)
        (save_secret-IsReady ps replies
          (truthy (field values Cluster.authentication_is_save_to_console))
          (to_number current_project) (field values Cluster.authentication_method)
          (field values Cluster.secret_key_name) values)
        (create_with-HasPosted replies values (local_secret_id values) undefined yaml)

  cloud-HasPosted :
      (secrets : Js) (replies : Replies) (values : Props)
      → is_yaml values ≡ true
      → Leads
          (IsReady ps)
          (HasPosted ps)
          (HasPosted ps)
          (edited_cloud_cluster platform expert current_project secrets replies values)
  unfolding edited_cloud_cluster
  cloud-HasPosted secrets replies values yaml =
      create_cluster-HasPosted platform expert ps laws full replies values (first_secret_id secrets)
        (to_number current_project) undefined yaml

  editor-HasPosted :
      (secrets : Js) (replies : Replies) (values : Props)
      → is_yaml values ≡ true
      → Leads
          (IsReady ps)
          (HasPosted ps)
          (HasPosted ps)
          (submit_editor platform expert current_project secrets replies values)
  unfolding submit_editor
  editor-HasPosted secrets replies values yaml =
      let local = edited_local_cluster platform expert current_project replies values in
      let cloud = edited_cloud_cluster platform expert current_project secrets replies values in
      let last = get_custom >>= λ left. finish values (
        if is_yaml values
        then chain left "patroni_cluster_name"
        else field values Cluster.cluster_name) in
      Leads-try (IsReady ps) (HasPosted ps) (HasPosted ps)
        (get_custom >>= λ custom. (if is_cloud_request values custom then cloud else local) >> last)
        (tell error_caught)
        (λ s p.
          Leads-seq (IsReady ps) (HasPosted ps) (HasPosted ps) (HasPosted ps)
            (if is_cloud_request values s.custom then cloud else local) last
            (Leads-if (IsReady ps) (HasPosted ps) (HasPosted ps) (is_cloud_request values s.custom)
              cloud local (cloud-HasPosted secrets replies values yaml)
              (local-HasPosted replies values yaml))
            (named_finish-HasPosted ps values) s p)
        (λ s p. p)

  save_modal-IsReady :
      (replies : Replies) (values fields : Props)
      → Leads
          (IsReady ps)
          (HasPosted ps)
          (IsReady ps)
          (save_modal_secret platform expert current_project replies values fields)
  unfolding save_modal_secret
  save_modal-IsReady replies values fields s p =
      Leads-if (IsReady ps) (HasPosted ps) (IsReady ps)
        (truthy (field fields Modal.is_save_to_console) && not (truthy s.created))
        (lift (modal_secret_type values s.custom) >>= λ type.
          save_secret replies true (to_number current_project) type
            (field fields Secret.secret_name) fields)
        (pure tt)
        (Leads-result (IsReady ps) (HasPosted ps) (IsReady ps) (modal_secret_type values s.custom)
          (λ type.
            save_secret replies true (to_number current_project) type
              (field fields Secret.secret_name) fields)
          (weaker ps)
          (λ type e.
            save_secret-IsReady ps replies true (to_number current_project) type
              (field fields Secret.secret_name) fields))
        (λ s p. p) s p

  dialog-HasPosted :
      (secrets : Js) (replies : Replies) (values fields : Props)
      → is_yaml values ≡ true
      → Leads
          (IsReady ps)
          (HasPosted ps)
          (HasPosted ps)
          (submit_modal platform expert current_project secrets replies values fields)
  unfolding submit_modal
  dialog-HasPosted secrets replies values fields yaml =
      let save = save_modal_secret platform expert current_project replies values fields in
      let create = get_created >>= λ created.
      create_cluster platform expert replies values (modal_secret_id secrets fields created)
        (to_number current_project) (obj fields) in
      let last = get_custom >>= λ left. finish values (
        if is_yaml values
        then chain left "patroni_cluster_name"
        else field values Cluster.cluster_name) in
      Leads-seq (IsReady ps) (HasPosted ps) (HasPosted ps) (HasPosted ps)
        (try_catch (save >> (create >> last)) (tell error_caught)) (tell modal_closed)
        (Leads-try (IsReady ps) (HasPosted ps) (HasPosted ps) (save >> (create >> last))
          (tell error_caught)
          (Leads-seq (IsReady ps) (HasPosted ps) (IsReady ps) (HasPosted ps) save (create >> last)
            (save_modal-IsReady replies values fields)
            (Leads-seq (IsReady ps) (HasPosted ps) (HasPosted ps) (HasPosted ps) create last
              (create_with-HasPosted replies values (modal_secret_id secrets fields) (obj fields)
                yaml)
              (named_finish-HasPosted ps values)))
          (λ s p. p))
        (λ s p. p)

Ends-HasPosted :
    (ps : Props) (r : Session × Result (Unit {0}))
    → Ends (HasPosted ps) (HasPosted ps) r
    → HasPosted ps r.0
Ends-HasPosted ps (s, ok a) h = h
Ends-HasPosted ps (s, thrown) h = h

ready-HasPosted :
    (ps : Props) (m : Io Unit) (s : Session)
    → Leads (IsReady ps) (HasPosted ps) (HasPosted ps) m
    → IsReady ps s
    → HasPosted ps (m s).0
ready-HasPosted ps m s h ready = Ends-HasPosted ps (m s) (h s ready)

-- The form of the cluster says that the editor is used, where the event is a submission.
abbrev pub IsYamlEvent : PageEvent → Type 0
IsYamlEvent (typed text) = Unit
IsYamlEvent (submitted secrets replies values) = is_yaml values ≡ true
IsYamlEvent (confirmed secrets replies values fields) = is_yaml values ≡ true

change_text-parsed :
    (yaml : Yaml) (text : String) (e : Editor) (ps : Props)
    → yaml.parse text ≡ ok (obj ps)
    → (change_text yaml text e).parsed ≡ obj ps
unfolding change_text parse_text
change_text-parsed yaml text e ps parse = rw parse refl

-- From any page, earlier submissions of it included: after a text is typed that writes an object
-- that is not empty, the next submission, by the editor's buttons or by the dialog, posts only
-- requests for clusters that have the name and the environment of that object and, as their extra
-- vars, the object less the environment and the description.
pub edited-request :
    (yaml : Yaml) (platform : Platform) (expert : Bool) (current_project : Js) (page : EditorPage)
    (text : String) (ps : Props) (e : PageEvent)
    → IsLodash platform.is_empty
    → platform.is_empty (obj ps) ≡ false
    → yaml.parse text ≡ ok (obj ps)
    → IsYamlEvent e
    → PostsOf ps
        (page_step yaml platform expert current_project e
          (page_step yaml platform expert current_project (typed text) page).0).1
unfolding page_step
edited-request yaml platform expert current_project page text ps (typed again) laws full parse is =
    tt
edited-request yaml platform expert current_project page text ps (submitted secrets replies values)
      laws full parse is =
    ready-HasPosted ps (submit_editor platform expert current_project secrets replies values)
      (record {
        created = page.created;
        custom = (change_text yaml text page.editor).parsed;
        done = [];
      })
      (editor-HasPosted platform expert current_project ps laws full secrets replies values is)
      (change_text-parsed yaml text page.editor ps parse, tt)
edited-request yaml platform expert current_project page text ps
      (confirmed secrets replies values fields) laws full parse is =
    ready-HasPosted ps (submit_modal platform expert current_project secrets replies values fields)
      (record {
        created = page.dialog_created;
        custom = (change_text yaml text page.editor).parsed;
        done = [];
      })
      (dialog-HasPosted platform expert current_project ps laws full secrets replies values fields
        is)
      (change_text-parsed yaml text page.editor ps parse, tt)
