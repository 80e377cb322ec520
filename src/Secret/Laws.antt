-- ===== src/Secret/Laws.antt =====
-- What an accepted form says of the body that is made of it.
use postgresql_cluster.Common.{
  ◌≡◌, ◌≢◌, String, true, List, [], ◌∷◌, none, some, ◌==◌, All, Bool-cases, inl, inr, arith,
  Option-cases, subst, ◌↔◌,
}
use postgresql_cluster.Js.{end, Js, str, obj, Props, field, truthy, entries, undefined, prop}
use postgresql_cluster.Fields.Secret
use postgresql_cluster.Secret.Body.{pick, select, body_fields, get_secret_body_from_values}
use postgresql_cluster.Schemas.{Yup, IsYup}
use postgresql_cluster.Secret.Schema.{
  required_fields, required_field, check_fields, add_secret_form_schema,
}

-- A body `{ [type]: { ... } }` of which no value is missing or empty.
abbrev pub IsComplete : Js → Type 0
IsComplete (obj (prop type (obj body) end)) = All (λ p. truthy p.1 ≡ true) (entries body)
IsComplete _ = ⊥

-- What is good of the keys of every row that is taken is good of the row that `select` takes.
select-All :
    (t : String) (P : String → Type 0) (table : List (String × List String)) (keys : List String)
    → All (λ row. (t == row.0) ≡ true → All P row.1) table
    → select (str t) table ≡ some keys
    → All P keys
select-All t P [] keys rows e = absurd (ground arith)
select-All t P ((type, found) ∷ rest) keys (row, rows) e = elim (Bool-cases (t == type)) [
  | inl same ↦
      let taken : some found ≡ some keys = rw same at e in subst (All P) (ground arith) (row same)
  | inr other ↦ select-All t P rest keys rows (rw other at e)
]

module _ (yup : Yup) (laws : IsYup yup) (values : Props) (t : String)
    (typed : field values Secret.secret_type ≡ str t) where
  check_fields-All :
      (l : List (String × String))
      → check_fields yup values l ≡ true
      → All (λ p. (t == p.1) ≡ true → truthy (field values p.0) ≡ true) l
  unfolding check_fields required_field
  check_fields-All [] e = tt
  check_fields-All ((key, type) ∷ rest) e = (
    λ same. laws.required (field values key) (ground (arith, (rw (typed, same) at e))),
    check_fields-All rest (ground arith),
  )

  pick-All :
      (keys : List String)
      → All (λ key. truthy (field values key) ≡ true) keys
      → All (λ p. truthy p.1 ≡ true) (entries (pick values keys))
  unfolding pick
  pick-All [] h = tt
  pick-All (key ∷ keys) (h, hs) = (h, pick-All keys hs)

  accepted-All :
      (keys : List String)
      → add_secret_form_schema yup values ≡ true
      → select (str t) body_fields ≡ some keys
      → All (λ key. truthy (field values key) ≡ true) keys
  unfolding add_secret_form_schema
  accepted-All keys accepted e =
      let r = check_fields-All required_fields (ground arith) in
      select-All t (λ key. truthy (field values key) ≡ true) body_fields keys
        (
          λ h. (r.0 h, (r.1.0 h, tt)),
          (
            λ h. (r.1.1.0 h, tt),
            (
              λ h. (r.1.1.1.1.1.1.1.0 h, tt),
              (
                λ h. (r.1.1.1.0 h, (r.1.1.1.1.0 h, (r.1.1.1.1.1.0 h, (r.1.1.1.1.1.1.0 h, tt)))),
                (
                  λ h. (r.1.1.1.1.1.1.1.1.0 h, tt),
                  (
                    λ h. (r.1.1.1.1.1.1.1.1.1.0 h, tt),
                    (λ h. (r.1.1.1.1.1.1.1.1.1.1.0 h, (r.1.1.1.1.1.1.1.1.1.1.1.0 h, tt)), tt),
                  ),
                ),
              ),
            ),
          ),
        )
        e

-- If the schema accepts a form whose type is one of the types of a secret, then the body of the
-- secret is complete: it has its one property, and no value in it is missing or empty.
pub schema-IsComplete :
    (yup : Yup) (values : Props) (t : String)
    → IsYup yup
    → field values Secret.secret_type ≡ str t
    → select (str t) body_fields ≢ none
    → add_secret_form_schema yup values ≡ true
    → IsComplete (get_secret_body_from_values values)
unfolding get_secret_body_from_values
schema-IsComplete yup values t laws typed known accepted =
    elim (Option-cases (select (str t) body_fields)) [
      | inl missing ↦ absurd (known missing)
      | inr (keys, e) ↦ rw typed (
          rw e (
            pick-All yup laws values t typed keys
              (accepted-All yup laws values t typed keys accepted e)))
    ]

-- A secret has a body exactly if its type is one of those that the code lists.
pub secret_body_iff :
    (values : Props) (t : String)
    → field values Secret.secret_type ≡ str t
    → (get_secret_body_from_values values ≡ undefined) ↔ (select (str t) body_fields ≡ none)
unfolding get_secret_body_from_values
secret_body_iff values t typed = rw typed (ground arith)
