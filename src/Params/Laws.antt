-- ===== src/Params/Laws.antt =====
-- When the conversion of a text of parameters throws, and what it returns otherwise.
use Prim.Native.Char.{Char, code}
use Prim.Native.String.{[], ◌∷◌}
use postgresql_cluster.Common.{
  ne_test, ℕ, String, Bool, true, false, ◌||◌, ◌≡◌, refl, List, All, arith, ◌==◌, nat_eq,
  Bool-cases, inl, inr, length, eq_iff, ◌↔◌, ◌≢◌,
}
use postgresql_cluster.Js.{Js, str, arr, from_list, Result, ok, thrown, ◌>>=◌, bind-eq-ok}
use postgresql_cluster.Js.Text.{split_by, is_newline}
use postgresql_cluster.Params.{
  is_separator, parameter, rows, convert_modal_parameters_to_array, config_match, config_validation,
}

-- Whether a text has a character of a class.
abbrev pub has : (ℕ → Bool) → String → Bool
has p [] = false
has p (c ∷ s) = p (code c) || has p s

abbrev pub HasSeparator : String → Type 0
HasSeparator s = has is_separator s ≡ true

abbrev pub AllTail : List String → Type 0
AllTail List.[] = Unit
AllTail (List.◌∷◌ x xs) = All HasSeparator xs

-- A split leaves at least one part.
pub split_by-cons :
    (p : ℕ → Bool) (s : String) → (w : String) × (ws : List String) × (split_by p s ≡ List.◌∷◌ w ws)
unfolding split_by
split_by-cons p [] = ("", List.[], refl)
split_by-cons p (c ∷ s) = elim (Bool-cases (p (code c))) [
  | inl here ↦ ("", split_by p s, rw here)
  | inr past ↦ let (w, ws, e) = split_by-cons p s in (c ∷ w, ws, rw (past, e))
]

module _ (c : Char) (s : String) (past : is_newline (code c) ≡ false) where
  lines_here :
      is_separator (code c) ≡ true
      → AllTail (split_by is_newline s)
      → All HasSeparator (split_by is_newline (c ∷ s))
  unfolding split_by
  lines_here here h =
      let (w, ws, e) = split_by-cons is_newline s in rw (past, e) (rw here, rw e at h)

  lines_later :
      All HasSeparator (split_by is_newline s) → All HasSeparator (split_by is_newline (c ∷ s))
  unfolding split_by
  lines_later h =
      let (w, ws, e) = split_by-cons is_newline s in
      let (a, b) : HasSeparator w × All HasSeparator ws = rw e at h in
      rw (past, e) (ground (arith, a), b)

  lines_tail : AllTail (split_by is_newline s) → AllTail (split_by is_newline (c ∷ s))
  unfolding split_by
  lines_tail h = let (w, ws, e) = split_by-cons is_newline s in rw (past, e) (rw e at h)

-- Every line of a text in the format has a separator.
module _ (sep : ℕ) (h : is_separator sep ≡ true) (k : is_newline sep ≡ false) where
  config_match-lines :
      (seen : Bool) (s : String)
      → (config_match sep false seen s ≡ true → All HasSeparator (split_by is_newline s))
        × (config_match sep true seen s ≡ true → AllTail (split_by is_newline s))
  unfolding config_match split_by
  config_match-lines seen [] = (λ e. cc, λ e. tt)
  config_match-lines seen (c ∷ s) = (
    λ m. elim (Bool-cases (nat_eq (code c) sep)) [
      | inl same ↦
          lines_here c s (ground arith) (ground arith)
            ((config_match-lines false s).1 (ground arith))
      | inr other ↦ lines_later c s (ground arith) ((config_match-lines true s).0 (ground arith))
    ],
    λ m. elim (Bool-cases (is_newline (code c))) [
      | inl line_end ↦ rw line_end ((config_match-lines false s).0 (ground arith))
      | inr past ↦ lines_tail c s past ((config_match-lines true s).1 (ground arith))
    ],
  )

-- A split gives at least two parts if the text has the separator, and one part otherwise.
split_by-has :
    (p : ℕ → Bool) (s : String)
    → has p s ≡ true
    → (a : String) × (b : String) × (ws : List String) × (split_by p s ≡ List.◌∷◌ a (List.◌∷◌ b ws))
unfolding split_by
split_by-has p [] h = cc
split_by-has p (c ∷ s) h = elim (Bool-cases (p (code c))) [
  | inl here ↦ let (w, ws, e) = split_by-cons p s in ("", w, ws, rw (here, e))
  | inr past ↦ let (a, b, ws, e) = split_by-has p s (ground arith) in (c ∷ a, b, ws, rw (past, e))
]

split_by-has_not : (p : ℕ → Bool) (s : String) → has p s ≡ false → split_by p s ≡ List.◌∷◌ s List.[]
unfolding split_by
split_by-has_not p [] h = refl
split_by-has_not p (c ∷ s) h = elim (Bool-cases (p (code c))) [
  | inl here ↦ cc (here)
  | inr past ↦ rw (past, split_by-has_not p s (ground arith))
]

rows_of_HasSeparator :
    (lines : List String)
    → All HasSeparator lines
    → (found : List Js) × (rows lines ≡ ok found) × (length found ≡ length lines)
unfolding rows
rows_of_HasSeparator List.[] h = (List.[], refl, refl)
rows_of_HasSeparator (List.◌∷◌ line lines) (h, hs) =
    let (a, b, ws, e) = split_by-has is_separator line h in
    let (found, same, size) = rows_of_HasSeparator lines hs in
    (List.◌∷◌ (parameter a b) found, rw (e, same), omega (arith, size))

rows_inversion :
    {first : Js} {found : List Js} (r : Result (List Js))
    → (r >>= λ later. ok (List.◌∷◌ first later)) ≡ ok found
    → (later : List Js) × (r ≡ ok later) × (found ≡ List.◌∷◌ first later)
rows_inversion (ok later) e = (later, refl, ground (arith, e))
rows_inversion thrown e = cc

rows_separated :
    (lines : List String) (found : List Js) → rows lines ≡ ok found → All HasSeparator lines
unfolding rows
rows_separated List.[] found e = tt
rows_separated (List.◌∷◌ line lines) found e = elim (Bool-cases (has is_separator line)) [
  | inl there ↦
      let (a, b, ws, parts) = split_by-has is_separator line there in
      let (later, same, _) = rows_inversion (rows lines) (rw (parts) at e) in
      (there, rows_separated lines later same)
  | inr absent ↦ cc (e, split_by-has_not is_separator line absent)
]

-- A nonempty text is converted without an exception exactly if every line of it has a colon or
-- an equals sign.
pub convert_ok_iff :
    (s : String)
    → s ≢ ""
    → ((v : Js) × (convert_modal_parameters_to_array (str s) ≡ ok v))
      ↔ All HasSeparator (split_by is_newline s)
unfolding convert_modal_parameters_to_array
convert_ok_iff s h = elim (Bool-cases (s == "")) [
  | inl empty ↦ absurd (h ((eq_iff s "").0 empty))
  | inr full ↦ (
    λ (v, e).
        let (found, same, _) = bind-eq-ok (rows (split_by is_newline s)) _ (rw full at e) in
        rows_separated (split_by is_newline s) found same,
    λ all.
        let (found, same, _) = rows_of_HasSeparator (split_by is_newline s) all in
        (arr (from_list found), rw (full, same)),
  )
]

config_validation-lines :
    (s : String)
    → config_validation s ≡ true
    → (s == "") ≡ false
    → All HasSeparator (split_by is_newline s)
unfolding config_validation
config_validation-lines s valid full = elim (Bool-cases (config_match b':' false false s)) [
  | inl colon ↦ (config_match-lines b':' refl refl false s).0 colon
  | inr other ↦ (config_match-lines b'=' refl refl false s).0 (ground arith)
]

-- A nonempty text in the format that the validation asks for is converted without an exception,
-- to an array with one entry for each line.
pub convert-config_validation :
    (s : String)
    → config_validation s ≡ true
    → s ≢ ""
    → (found : List Js) × (convert_modal_parameters_to_array (str s) ≡ ok (arr (from_list found)))
      × (length found ≡ length (split_by is_newline s))
unfolding convert_modal_parameters_to_array
convert-config_validation s valid h =
    let full : (s == "") ≡ false = ne_test s "" h in
    let (found, same, size) =
      rows_of_HasSeparator (split_by is_newline s) (config_validation-lines s valid full) in
    (found, rw (full, same), size)
