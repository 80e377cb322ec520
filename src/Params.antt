-- ===== src/Params.antt =====
-- Parameters that a modal takes as text, one `option:value` or `option=value` to a line:
-- `convertModalParametersToArray` of console/ui/src/shared/lib/clusterValuesTransformFunctions.ts,
-- and the format that console/ui/src/shared/model/validation.ts asks of such a text.
pub mod Laws
pub mod RoundTrip
mod Tests
use Prim.Native.Char.{code}
use Prim.Native.String.{[], ◌∷◌}
use mathlib.Core.List
use postgresql_cluster.Common.{
  ℕ, String, Bool, true, false, not, ◌&&◌, ◌||◌, ◌==◌, List, nat_eq, if◌then◌else◌,
}
use postgresql_cluster.Js.{Js, str, arr, obj, cons, from_list, Result, ok, thrown, ◌>>=◌, ◌≔◌, ◌⊕◌}
use postgresql_cluster.Js.Text.{split_by, is_newline, trim}

-- `/[:=]/`
abbrev pub is_separator : ℕ → Bool
is_separator c = nat_eq c b':' || nat_eq c b'='

abbrev pub parameter : String → String → Js
parameter option value = obj ("option" ≔ str (trim option) ⊕ "value" ≔ str (trim value))

-- The object for one line, from the parts of the line. With one part, `values?.[1]` is
-- `undefined`, and its `trim` throws.
unfoldable pub row : List String → Result Js
row (List.◌∷◌ option (List.◌∷◌ value rest)) = ok (parameter option value)
row _ = thrown

unfoldable pub rows : List String → Result (List Js)
unfolding row
rows List.[] = ok List.[]
rows (List.◌∷◌ line lines) = do
  first ← row (split_by is_separator line)
  later ← rows lines
  ok (List.◌∷◌ first later)

-- A value with no `length`, or with length 0, is returned as it is; an array has no `split`.
unfoldable pub convert_modal_parameters_to_array : Js → Result Js
unfolding rows
convert_modal_parameters_to_array (str s) =
    if s == ""
    then ok (str s)
    else do found ← rows (split_by is_newline s); ok (arr (from_list found))
convert_modal_parameters_to_array (arr (cons x xs)) = thrown
convert_modal_parameters_to_array v = ok v

-- `[^:=\n\r]`
abbrev pub is_plain : ℕ → Bool
is_plain c = not (is_separator c || is_newline c)

-- Whether a text matches `^[^:=\n\r]+:[^:=\n\r]+([\n\r][^:=\n\r]+:[^:=\n\r]+)*$` from some
-- point on, with `sep` for the colon: `in_value` says whether the line's separator was read,
-- and `seen` whether a character of the present part was.
unfoldable pub config_match : ℕ → Bool → Bool → String → Bool
config_match sep in_value seen [] = in_value && seen
config_match sep in_value seen (c ∷ s) =
    let opens = not in_value && nat_eq (code c) sep in
    let ends = in_value && is_newline (code c) in
    (if opens || ends then seen else is_plain (code c))
    && config_match sep (opens || in_value && not ends) (not (opens || ends)) s

-- The test of `configValidationSchema`.
unfoldable pub config_validation : String → Bool
unfolding config_match
config_validation value =
    config_match b':' false false value || config_match b'=' false false value || value == ""
