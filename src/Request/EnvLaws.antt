-- ===== src/Request/EnvLaws.antt =====
-- The texts that carry the environment of a request.
use postgresql_cluster.Common.{
  Bool, Option, none, some, ◌⊎◌, false, and-true, true, String, ◌≡◌, refl, List, [], ◌∷◌, All,
  Bool-cases, ◌&&◌, inl, inr,
}
use postgresql_cluster.Js.{
  undefined, null, nan, bool, num, str, arr, obj, stringify, lookup, from_list, object_laws, Js,
  Props, end, prop, entries, truthy, Result, ok, bind-eq-ok, ok-injective,
}
use postgresql_cluster.Js.Text.{◌⧺◌}
use postgresql_cluster.Inventory.{get_local_machine_envs}
use postgresql_cluster.Request.FieldLaws.{request_parts}
use postgresql_cluster.Request.Fields.{
  texts, custom_or, local_extra_vars, is_cloud_request, left_of, get_request_local_machine_params,
  map_form_values_to_request_fields,
}
use postgresql_cluster.Request.Imports.{Platform, IsBase64}
use postgresql_cluster.Request.Envs.{
  raw_value, convert_entries, convert_object_value_to_base64_format, is_secret_field,
  filter_secrets,
}

-- The text that stands for a value: a text for itself, and another value for its JSON, if it has
-- any.
abbrev pub IsRaw : Js → String → Type 0
IsRaw (str s) t = t ≡ s
IsRaw v t = (stringify v ≡ some t) ⊎ ((stringify v ≡ none) × (t ≡ ""))

-- The texts, one for each property and in the same order, name the property and hold what
-- decodes to the text that stands for its value.
abbrev pub Carries : (String → Result String) → List (String × Js) → List String → Type 0
Carries atob [] [] = Unit
Carries atob ((key, value) ∷ rest) (text ∷ texts) =
    ((encoded raw : String) × (text ≡ key ⧺ "=" ⧺ encoded)
      × (atob encoded ≡ ok raw)
      × IsRaw value raw)
    × Carries atob rest texts
Carries atob _ _ = ⊥

abbrev or_empty : Option String → String
or_empty none = ""
or_empty (some text) = text

json-IsRaw : (o : Option String) → (o ≡ some (or_empty o)) ⊎ ((o ≡ none) × (or_empty o ≡ ""))
json-IsRaw none = inr (refl, refl)
json-IsRaw (some text) = inl refl

raw_value-IsRaw : (v : Js) → IsRaw v (raw_value v)
unfolding raw_value
raw_value-IsRaw (str s) = refl
raw_value-IsRaw undefined = json-IsRaw (stringify undefined)
raw_value-IsRaw null = json-IsRaw (stringify null)
raw_value-IsRaw nan = json-IsRaw (stringify nan)
raw_value-IsRaw (bool b) = json-IsRaw (stringify (bool b))
raw_value-IsRaw (num n) = json-IsRaw (stringify (num n))
raw_value-IsRaw (arr xs) = json-IsRaw (stringify (arr xs))
raw_value-IsRaw (obj ps) = json-IsRaw (stringify (obj ps))

convert_entries-Carries :
    (platform : Platform) (atob : String → Result String) (l : List (String × Js))
    (texts : List String)
    → IsBase64 platform.btoa atob
    → convert_entries platform l ≡ ok texts
    → Carries atob l texts
unfolding convert_entries
convert_entries-Carries platform atob [] texts laws e = rw (← ok-injective _ texts e) tt
convert_entries-Carries platform atob ((key, value) ∷ rest) texts laws e =
    let (encoded, here, e1) = bind-eq-ok (platform.btoa (raw_value value)) _ e in
    let (later, there, e2) = bind-eq-ok (convert_entries platform rest) _ e1 in
    rw (← ok-injective _ texts e2) (
      (
        encoded,
        raw_value value,
        refl,
        laws.atob-btoa (raw_value value) encoded here,
        raw_value-IsRaw value,
      ),
      convert_entries-Carries platform atob rest later laws there,
    )

local-envs :
    (platform : Platform) (expert : Bool) (values : Props) (secret_id custom : Js) (params : Props)
    → get_request_local_machine_params platform expert values secret_id custom ≡ ok params
    → (object : Props) × (texts_of : List String) × (get_local_machine_envs expert values secret_id
        ≡ ok object)
      × (convert_object_value_to_base64_format platform object ≡ ok texts_of)
      × (lookup params "envs" ≡ some (arr (from_list (texts texts_of))))
unfolding get_request_local_machine_params
local-envs platform expert values secret_id custom params e =
    let (object, here, e1) = bind-eq-ok (get_local_machine_envs expert values secret_id) _ e in
    let (envs, there, e2) =
      bind-eq-ok (convert_object_value_to_base64_format platform object) _ e1 in
    let (vars, _, e3) =
      bind-eq-ok (custom_or custom (local_extra_vars expert values secret_id)) _ e2 in
    (
      object,
      envs,
      here,
      there,
      rw (← ok-injective _ params e3) (simp object_laws (unfold lookup in refl)),
    )

-- If a request is for servers of one's own, its `envs` are texts, one for each variable of the
-- environment that the form gives, in the same order: the variable's name, `=`, and what `atob`
-- decodes to the variable's value, which stands for itself if it is a text and else as JSON.
pub request-Carries :
    (platform : Platform) (atob : String → Result String) (expert : Bool) (values : Props)
    (secret_id project_id secrets_info custom : Js) (request : Props) (left : Js)
    → IsBase64 platform.btoa atob
    → is_cloud_request values (left_of platform custom) ≡ false
    → map_form_values_to_request_fields platform expert values secret_id project_id secrets_info
        custom
      ≡ ok (request, left)
    → (object : Props) × (carried : List String) × (get_local_machine_envs expert values secret_id
        ≡ ok object)
      × (lookup request "envs" ≡ some (arr (from_list (texts carried))))
      × Carries atob (entries object) carried
unfolding convert_object_value_to_base64_format
request-Carries platform atob expert values secret_id project_id secrets_info custom request left
      laws local e =
    let p =
      request_parts platform expert values secret_id project_id secrets_info custom request left
        e in
    let (object, carried, made, converted, held) =
      local-envs platform expert values secret_id (left_of platform custom) p.params
        (rw local at p.from_params) in
    (
      object,
      carried,
      made,
      rw (← p.request_eq) (simp (object_laws, held) (unfold lookup in refl)),
      convert_entries-Carries platform atob (entries object) carried laws converted,
    )

-- Of the properties of the form of secrets, those that are sent have one of the names of a
-- secret's field and a value that is not empty.
pub filter_secrets-All :
    (ps : Props)
    → All (λ p. (is_secret_field p.0 ≡ true) × (truthy p.1 ≡ true)) (entries (filter_secrets ps))
unfolding filter_secrets
filter_secrets-All end = tt
filter_secrets-All (prop key value ps) = elim (Bool-cases (is_secret_field key && truthy value)) [
  | inl sent ↦ rw sent (and-true (is_secret_field key) (truthy value) sent, filter_secrets-All ps)
  | inr held ↦ rw held (filter_secrets-All ps)
]
