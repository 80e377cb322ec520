-- ===== src/Params/RoundTrip.antt =====
-- Printing parameters as the text of a modal, and reading them back.
use Prim.Native.Char.{Char, code}
use Prim.Native.String.{[], ◌∷◌}
use text.Mathlib.TextLemmas.{nil-append, cons-append}
use mathlib.Core.List.{List}
use postgresql_cluster.Common.{
  ℕ, String, Bool, true, false, ◌||◌, ◌≡◌, refl, All, arith, ◌==◌, eq_iff, map, Bool-cases, inl,
  inr, ◌≢◌,
}
use postgresql_cluster.Js.{Js, str, arr, obj, from_list, ok, ◌≔◌, ◌⊕◌}
use postgresql_cluster.Js.Text.{split_by, is_newline, trim, ◌⧺◌}
use postgresql_cluster.Params.{is_separator, row, rows, convert_modal_parameters_to_array}
use postgresql_cluster.Params.Laws.{has}

-- An option, whether an equals sign follows it or a colon, and its value.
abbrev Setting : Type 0
Setting = String × Bool × String

abbrev separator : Bool → Char
separator true = "="
separator false = ":"

separator-is_separator : (b : Bool) → is_separator (code (separator b)) ≡ true
separator-is_separator true = refl
separator-is_separator false = refl

separator-no_newline : (b : Bool) → is_newline (code (separator b)) ≡ false
separator-no_newline true = refl
separator-no_newline false = refl

abbrev pub print_line : Setting → String
print_line (option, b, value) = option ⧺ (separator b ∷ value)

abbrev pub print : List Setting → String
print List.[] = ""
print (List.◌∷◌ s List.[]) = print_line s
print (List.◌∷◌ s (List.◌∷◌ t more)) = print_line s ⧺ ("\n" ∷ print (List.◌∷◌ t more))

abbrev pub entry : Setting → Js
entry (option, b, value) = obj ("option" ≔ str option ⊕ "value" ≔ str value)

-- A text that a line can hold and that `trim` leaves alone.
pub record IsField (s : String) : Type 0 where
  pub no_separator : has is_separator s ≡ false
  pub no_newline : has is_newline s ≡ false
  pub trimmed : trim s ≡ s

abbrev pub IsSetting : Setting → Type 0
IsSetting (option, b, value) = IsField option × IsField value

has-append : (p : ℕ → Bool) (a b : String) → has p (a ⧺ b) ≡ has p a || has p b
has-append p [] b = rw nil-append
has-append p (c ∷ a) b = rw (cons-append, has-append p a b) (ground arith)

split_by-append :
    (p : ℕ → Bool) (w : String) (c : Char) (rest : String)
    → has p w ≡ false
    → p (code c) ≡ true
    → split_by p (w ⧺ (c ∷ rest)) ≡ List.◌∷◌ w (split_by p rest)
unfolding split_by
split_by-append p [] c rest h e = rw (nil-append, e)
split_by-append p (d ∷ w) c rest h e =
    let past : p (code d) ≡ false = ground arith in
    rw cons-append (rw (past, split_by-append p w c rest (ground arith) e))

split_by-plain : (p : ℕ → Bool) (s : String) → has p s ≡ false → split_by p s ≡ List.◌∷◌ s List.[]
unfolding split_by
split_by-plain p [] h = refl
split_by-plain p (c ∷ s) h =
    let past : p (code c) ≡ false = ground arith in rw (past, split_by-plain p s (ground arith))

row-print_line :
    (s : Setting) → IsSetting s → row (split_by is_separator (print_line s)) ≡ ok (entry s)
unfolding row
row-print_line (option, b, value) (f, g) =
    rw
      (split_by-append is_separator option (separator b) value f.no_separator
        (separator-is_separator b))
      (rw (split_by-plain is_separator value g.no_separator) (rw (f.trimmed, g.trimmed)))

print_line-no_newline : (s : Setting) → IsSetting s → has is_newline (print_line s) ≡ false
print_line-no_newline (option, b, value) (f, g) =
    rw (has-append is_newline option (separator b ∷ value))
      (rw (f.no_newline, g.no_newline) (rw (separator-no_newline b) refl))

rows-print :
    (s : Setting) (more : List Setting)
    → IsSetting s
    → All IsSetting more
    → rows (split_by is_newline (print (List.◌∷◌ s more))) ≡ ok (map entry (List.◌∷◌ s more))
unfolding rows
rows-print s List.[] h _ =
    rw (split_by-plain is_newline (print_line s) (print_line-no_newline s h))
      (rw (row-print_line s h))
rows-print s (List.◌∷◌ t more) h (k, ks) =
    rw
      (split_by-append is_newline (print_line s) "\n" (print (List.◌∷◌ t more))
        (print_line-no_newline s h) refl)
      (rw (row-print_line s h, rows-print t more k ks))

print_ne_empty :
    (s : Setting) (more : List Setting)
    → IsSetting s
    → All IsSetting more
    → print (List.◌∷◌ s more) ≢ ""
unfolding rows split_by
print_ne_empty s more h hs e =
    let read : rows (split_by is_newline "") ≡ ok (map entry (List.◌∷◌ s more)) =
      rw e at (rows-print s more h hs) in
    cc read

-- A text of one line or more, each an option, a colon or an equals sign, and a value, is converted
-- to the array of these options and values in their order, where no option or value has a colon, an
-- equals sign, a line break or outer white space.
pub convert-print :
    (s : Setting) (more : List Setting)
    → IsSetting s
    → All IsSetting more
    → convert_modal_parameters_to_array (str (print (List.◌∷◌ s more)))
      ≡ ok (arr (from_list (map entry (List.◌∷◌ s more))))
unfolding convert_modal_parameters_to_array
convert-print s more h hs = elim (Bool-cases (print (List.◌∷◌ s more) == "")) [
  | inl empty ↦ absurd (print_ne_empty s more h hs ((eq_iff _ "").0 empty))
  | inr full ↦ rw full (rw (rows-print s more h hs))
]
