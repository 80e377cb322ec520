-- ===== src/Editor/Laws.antt =====
-- The editor's values are those of its text.
use postgresql_cluster.Common.{
  String, Bool, true, false, not, ◌==◌, ◌&&◌, ◌≡◌, ◌≢◌, refl, sym, subst, ap, inl, inr, ◌∙◌,
}
use postgresql_cluster.Js.{
  Js, str, obj, Props, field, lookup, ◌≔◌, ok, ok-injective, bind-eq-ok, end, Result-cases,
}
use postgresql_cluster.Request.{map_form_values_to_yaml_editor}
use postgresql_cluster.Editor.{Yaml, Editor, change_text, parse_text, open_editor, yaml_form_schema}

-- The editors that follow from an opened one by changes of the text.
pub data IsReachable (yaml : Yaml) (expert : Bool) : Editor → Type 0 where
  opened :
      (values : Props) (e : Editor)
      → open_editor yaml expert values ≡ ok e
      → IsReachable yaml expert e
  edited :
      (text : String) (e : Editor)
      → IsReachable yaml expert e
      → IsReachable yaml expert (change_text yaml text e)

-- If the text is YAML, then the values are its parse.
abbrev pub IsParsed : Yaml → Editor → Type 0
IsParsed yaml e = (v : Js) → yaml.parse e.text ≡ ok v → e.parsed ≡ v

change_text-IsParsed :
    (yaml : Yaml) (text : String) (e : Editor) → IsParsed yaml (change_text yaml text e)
unfolding change_text parse_text
change_text-IsParsed yaml text e v h = rw h refl

reachable-IsParsed :
    (yaml : Yaml) (expert : Bool) (e : Editor) → IsReachable yaml expert e → IsParsed yaml e
unfolding open_editor
reachable-IsParsed yaml expert _ (opened values e h) =
    let (vars, mapped, e1) = bind-eq-ok (map_form_values_to_yaml_editor expert values) _ h in
    subst (λ x. IsParsed yaml x) (ok-injective _ _ e1)
      (change_text-IsParsed yaml (yaml.stringify (obj vars))
        (parse_text yaml (record { text = ""; parsed = obj end })))
reachable-IsParsed yaml expert _ (edited text e r) = change_text-IsParsed yaml text e

and-false : (b : Bool) → (b && false) ≢ true
and-false true h = cc
and-false false h = cc

accepted-parse :
    (yaml : Yaml) (text : String)
    → yaml_form_schema yaml ("yamlEditor" ≔ str text) ≡ true
    → (v : Js) × (yaml.parse text ≡ ok v)
unfolding yaml_form_schema field lookup
accepted-parse yaml text accepted = elim (Result-cases (yaml.parse text)) [
  | inl (v, e) ↦ (v, e)
  | inr e ↦ let both = rw e at accepted in absurd (and-false (not (text == "")) both)
]

-- If the schema accepts the text of an editor, after any changes of it, then the values that the
-- editor holds are those that the text writes.
pub accepted-parsed :
    (yaml : Yaml) (expert : Bool) (e : Editor)
    → IsReachable yaml expert e
    → yaml_form_schema yaml ("yamlEditor" ≔ str e.text) ≡ true
    → yaml.parse e.text ≡ ok e.parsed
accepted-parsed yaml expert e r accepted =
    let (v, h) = accepted-parse yaml e.text accepted in
    h ∙ ap ok (sym (reachable-IsParsed yaml expert e r v h))
