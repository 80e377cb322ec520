-- ===== src/Schemas.antt =====
-- What the forms' schemas use of yup and of ip-regex, as tests of a value. A schema with several
-- tests accepts what each of them accepts, and one of an object what the schemas of its fields
-- accept; those are written with `&&` where they are used.
use postgresql_cluster.Common.{Bool, true, String, ◌≡◌, All, ◌⊎◌}
use postgresql_cluster.Js.{Js, undefined, str, arr, items, truthy, Items}

pub record Yup : Type 0 where
  -- `string().required()`, `string()`, `string().optional()`
  pub required_string : Js → Bool
  pub string : Js → Bool
  -- `boolean()`
  pub boolean : Js → Bool
  -- `number()` and `number().required()`
  pub number : Js → Bool
  pub required_number : Js → Bool
  -- `object()` with and without `required()`, as a test of the value and not of its fields
  pub object : Js → Bool
  pub required_object : Js → Bool
  -- `array(s)`
  pub array : (Js → Bool) → Js → Bool
  -- `mixed().optional()` and `mixed().notRequired()`
  pub optional_mixed : Js → Bool
  -- `ipRegex.v4({ exact: true }).test(v)`
  pub is_v4 : Js → Bool

-- The documented behaviour. A text that is required has a character in it; a text is undefined
-- if it is no text; an array is one whose items are accepted, if it is an array.
pub record IsYup (yup : Yup) : Type 0 where
  pub required : (v : Js) → yup.required_string v ≡ true → truthy v ≡ true
  pub text : (v : Js) → yup.string v ≡ true → (v ≡ undefined) ⊎ ((s : String) × (v ≡ str s))
  pub each :
      (p : Js → Bool) (v : Js)
      → yup.array p v ≡ true
      → (v ≡ undefined) ⊎ ((xs : Items) × (v ≡ arr xs) × All (λ x. p x ≡ true) (items xs))
