-- ===== src/Editor.antt =====
-- The YAML editor of the cluster form: console/ui/src/widgets/yaml-editor-form/ui/index.tsx, with
-- the schema of its model/validation.ts. What it submits is in Submit.Editor.
use postgresql_cluster.Common.{String, Bool, true, false, not, ◌&&◌, ◌==◌, if◌then◌else◌}
use postgresql_cluster.Js.{
  Js, undefined, str, obj, Props, end, field, is_str, Result, ok, thrown, ◌>>=◌,
}
use postgresql_cluster.Fields.Cluster
use postgresql_cluster.Constants.CreationTypes
use postgresql_cluster.Request.{map_form_values_to_yaml_editor}
pub mod Page
mod Laws
mod PageSteps
mod PageLaws
mod Tests

-- `YAML.parse` and `YAML.stringify` with sorted entries.
pub record Yaml : Type 0 where
  pub parse : String → Result Js
  pub stringify : Js → String

-- The field of the editor's form, and `parsedYamlEditorValues`.
pub record Editor : Type 0 where
  pub text : String
  pub parsed : Js

abbrev parsed_or : Result Js → Js → Js
parsed_or (ok v) old = v
parsed_or thrown old = old

module _ (yaml : Yaml) where
  -- The effect on a change of the text, which keeps the old values if the text is no YAML.
  unfoldable pub parse_text : Editor → Editor
  parse_text e = record { text = e.text; parsed = parsed_or (yaml.parse e.text) e.parsed }

  -- A change of the text, with the effect.
  unfoldable pub change_text : String → Editor → Editor
  unfolding parse_text
  change_text text e = parse_text (record { text = text; parsed = e.parsed })

  -- The editor when it is opened: its field is empty and is parsed once before the effect that sets
  -- it to the values of the form. It throws if they cannot be mapped.
  unfoldable pub open_editor : Bool → Props → Result Editor
  unfolding parse_text change_text map_form_values_to_yaml_editor
  open_editor expert values = do
    vars ← map_form_values_to_yaml_editor expert values
    ok (
        change_text (yaml.stringify (obj vars))
          (parse_text (record { text = ""; parsed = obj end })))

  abbrev is_parsed : Result Js → Bool
  is_parsed (ok v) = true
  is_parsed thrown = false

  -- The test of the schema.
  abbrev pub should_be_correct_yaml : Js → Bool
  should_be_correct_yaml (str s) = not (s == "") && is_parsed (yaml.parse s)
  should_be_correct_yaml v = false

  -- `yamlFormSchema`; the form has no other field than the editor's, so that the type of creation
  -- is undefined.
  unfoldable pub yaml_form_schema : Props → Bool
  yaml_form_schema values =
      if not (is_str (field values Cluster.creation_type) CreationTypes.yaml)
      then should_be_correct_yaml (field values "yamlEditor")
      else true
