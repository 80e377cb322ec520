-- ===== src/Editor/Page.antt =====
-- The page of the YAML editor: the editor with its own buttons
-- (console/ui/src/widgets/yaml-editor-form/ui/index.tsx and lib/hooks.tsx) and the dialog for a
-- secret, to both of which it hands `parsedYamlEditorValues`.
use postgresql_cluster.Common.{String, Bool, List, []}
use postgresql_cluster.Js.{Js, Props}
use postgresql_cluster.Request.{Platform}
use postgresql_cluster.Editor.{Yaml, Editor, change_text}
use postgresql_cluster.Submit.Session.{Session, Effect, Replies}
use postgresql_cluster.Submit.{submit_editor, submit_modal}

-- Each of the two components has a reference to a secret that it saved.
pub record EditorPage : Type 0 where
  pub editor : Editor
  pub created : Js
  pub dialog_created : Js

-- A change of the text, or a submission by the buttons or by the dialog, with what the form of
-- the cluster and the query for the secrets hold and with the replies of the server.
pub data PageEvent : Type 0 where
  typed : String → PageEvent
  submitted : Js → Replies → Props → PageEvent
  confirmed : Js → Replies → Props → Props → PageEvent

abbrev session_of : Editor → Js → Session
session_of e created = record { created = created; custom = e.parsed; done = [] }

-- The object of the editor is the one that the submission has changed.
abbrev left_editor : Editor → Session → Editor
left_editor e s = record { text = e.text; parsed = s.custom }

abbrev by_buttons : EditorPage → Session → EditorPage × List Effect
by_buttons page s = (
  record {
    editor = left_editor page.editor s;
    created = s.created;
    dialog_created = page.dialog_created;
  },
  s.done,
)

abbrev by_dialog : EditorPage → Session → EditorPage × List Effect
by_dialog page s = (
  record { editor = left_editor page.editor s; created = page.created; dialog_created = s.created },
  s.done,
)

module _ (yaml : Yaml) (platform : Platform) (expert : Bool) (current_project : Js) where
  -- The page after an event, and what a submission did, the latest first.
  unfoldable pub page_step : PageEvent → EditorPage → EditorPage × List Effect
  unfolding change_text submit_editor submit_modal
  page_step (typed text) page = (
    record {
      editor = change_text yaml text page.editor;
      created = page.created;
      dialog_created = page.dialog_created;
    },
    [],
  )
  page_step (submitted secrets replies values) page =
      by_buttons page
        (submit_editor platform expert current_project secrets replies values
          (session_of page.editor page.created)).0
  page_step (confirmed secrets replies values secrets_fields) page =
      by_dialog page
        (submit_modal platform expert current_project secrets replies values secrets_fields
          (session_of page.editor page.dialog_created)).0
