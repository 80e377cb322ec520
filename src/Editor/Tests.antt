-- ===== src/Editor/Tests.antt =====
-- Runs of the editor.
use postgresql_cluster.Common.{ℕ, suc, List, [], ◌∷◌, String, false, ◌==◌, ◌≡◌, refl, if◌then◌else◌}
use postgresql_cluster.Js.{
  Js, undefined, null, num, str, obj, Props, end, prop, field, lookup, delete, ◌≔◌, Result, ok,
  thrown,
}
use postgresql_cluster.Samples.{sample_platform, sample-IsLodash, local_values, yaml_values}
use postgresql_cluster.Request.{map_form_values_to_request_fields}
use postgresql_cluster.Editor.{Yaml, Editor, open_editor, change_text}
use postgresql_cluster.Submit.Session.{Effect, Replies, cluster_posted}
use postgresql_cluster.Editor.Page.{EditorPage, PageEvent, typed, submitted, page_step}
use postgresql_cluster.Editor.PageLaws.{edited-request}
use postgresql_cluster.Editor.PageSteps.{PostsOf}
use postgresql_cluster.Editor.Laws.{IsReachable, opened, edited}

abbrev edited_vars : Props
edited_vars =
    prop "patroni_cluster_name" (str "pg")
      (prop "environment_id" (num 1) (prop "postgresql_version" (num 16) end))

-- One text that is YAML, an empty one, and texts that are none.
abbrev sample_parse : String → Result Js
sample_parse s = if s == "vars" then ok (obj edited_vars) else if s == "" then ok null else thrown

abbrev sample_yaml : Yaml
sample_yaml = record { parse = sample_parse; stringify = λ v. "vars" }

abbrev editor_or : Result Editor → Editor
editor_or (ok e) = e
editor_or thrown = record { text = ""; parsed = undefined }

abbrev opened_editor : Editor
opened_editor = editor_or (open_editor sample_yaml false local_values)

-- The text is broken, and then mended.
abbrev broken : Editor
broken = change_text sample_yaml "vars:" opened_editor

abbrev mended : Editor
mended = change_text sample_yaml "vars" broken

broken_test : broken ≡ record { text = "vars:"; parsed = obj edited_vars }
unfolding change_text open_editor field
broken_test = refl

mended-IsReachable : IsReachable sample_yaml false mended
unfolding open_editor field
mended-IsReachable =
    edited "vars" broken (edited "vars:" opened_editor (opened local_values opened_editor refl))

-- The server refuses the cluster.
abbrev refusing : Replies
refusing = record { secret = thrown; cluster = thrown }

abbrev sample_page : EditorPage
sample_page = record { editor = broken; created = undefined; dialog_created = undefined }

abbrev submission : PageEvent
submission = submitted undefined refusing yaml_values

edited-request_example :
    PostsOf edited_vars
      (page_step sample_yaml sample_platform false
        (str "1")
        submission
        (page_step sample_yaml sample_platform false (str "1") (typed "vars") sample_page).0).1
unfolding postgresql_cluster.Request.is_yaml field
edited-request_example =
    edited-request sample_yaml sample_platform false (str "1") sample_page "vars" edited_vars
      submission sample-IsLodash refl refl refl

-- The number of requests for clusters.
abbrev posted_clusters : List Effect → ℕ
posted_clusters [] = 0
posted_clusters (cluster_posted request reply ∷ done) = suc (posted_clusters done)
posted_clusters (effect ∷ done) = posted_clusters done

posted_test :
    posted_clusters
      (page_step sample_yaml sample_platform false
        (str "1")
        submission
        (page_step sample_yaml sample_platform false (str "1") (typed "vars") sample_page).0).1
    ≡ 1
unfolding page_step delete postgresql_cluster.Js.◌⊕◌
posted_test = refl
