-- ===== src/Export/KeyLaws.antt =====
-- What the exported keys look like.
use Prim.Native.Char.{code}
use Prim.Native.String.{[], ◌∷◌}
use mathlib.Core.List.{List}
use postgresql_cluster.Common.{
  ℕ, map, ap, sym, eq_iff, ◌∙◌, String, Bool, true, false, not, ◌&&◌, ◌≡◌, refl, nat_eq, All,
  Bool-cases, inl, inr, if◌then◌else◌, ◌==◌, arith,
}
use postgresql_cluster.Js.{from_list, Js, undefined, null, nan, bool, num, str, arr, obj, items}
use postgresql_cluster.Js.Text.{
  is_space, trim, solid, contains, trim-solid, trim-empty, trim-contains,
}
use postgresql_cluster.Export.Keys.{
  strip_start, strip_end, strip_quotes, collapse_after, key_line, key_lines, exported_keys,
  has_keys,
}

-- The only white space of the text is a space, and no space follows another; `after` says whether
-- the text stands after one.
pub is_one_line : Bool → String → Bool
is_one_line after [] = true
is_one_line after (c ∷ s) =
    let in_run = is_one_line true s in
    let outside = is_one_line false s in
    if is_space (code c) then nat_eq (code c) 32 && not after && in_run else outside

collapse_after-is_one_line :
    (after : Bool) (s : String) → is_one_line after (collapse_after after s) ≡ true
unfolding is_one_line collapse_after
collapse_after-is_one_line after [] = refl
collapse_after-is_one_line after (c ∷ s) = elim (Bool-cases (is_space (code c))) [
  | inl space ↦ elim (Bool-cases after) [
    | inl yes_after ↦ rw (space, yes_after) (collapse_after-is_one_line true s)
    | inr first ↦ rw (space, first) (collapse_after-is_one_line true s)
  ]
  | inr other ↦ rw (other, other) (collapse_after-is_one_line false s)
]

key_line-is_one_line : (s : String) → is_one_line false (key_line s) ≡ true
unfolding key_line
key_line-is_one_line s = collapse_after-is_one_line false (strip_quotes (trim s))

collapse_after-solid : (after : Bool) (s : String) → solid (collapse_after after s) ≡ solid s
unfolding collapse_after
collapse_after-solid after [] = refl
collapse_after-solid after (c ∷ s) = elim (Bool-cases (is_space (code c))) [
  | inl space ↦ elim (Bool-cases after) [
    | inl yes_after ↦ rw (space, yes_after) (collapse_after-solid true s)
    | inr first ↦ rw (space, first) (collapse_after-solid true s)
  ]
  | inr other ↦ rw other (rw other (ap (◌∷◌ c) (collapse_after-solid false s)))
]

-- `'`
abbrev pub is_quote : ℕ → Bool
is_quote c = nat_eq c 39

strip_end-plain : (s : String) → contains is_quote s ≡ false → strip_end s ≡ s
unfolding strip_end
strip_end-plain [] h = refl
strip_end-plain (c ∷ s) h =
    let here : nat_eq (code c) 39 ≡ false = ground (arith, h) in
    rw here (ap (◌∷◌ c) (strip_end-plain s (ground (arith, h))))

strip_start-plain : (s : String) → contains is_quote s ≡ false → strip_start s ≡ s
unfolding strip_start
strip_start-plain [] h = refl
strip_start-plain (c ∷ s) h =
    let here : nat_eq (code c) 39 ≡ false = ground (arith, h) in rw here refl

-- Without quotes, a key's line is the key but for its white space.
key_line-plain :
    (s : String) → contains is_quote s ≡ false → key_line s ≡ collapse_after false (trim s)
unfolding key_line strip_quotes
key_line-plain s h =
    let plain = trim-contains is_quote s h in
    ap (collapse_after false)
      (ap strip_end (strip_start-plain (trim s) plain) ∙ strip_end-plain (trim s) plain)

key_line-solid : (s : String) → contains is_quote s ≡ false → solid (key_line s) ≡ solid s
key_line-solid s h =
    ap solid (key_line-plain s h) ∙ collapse_after-solid false (trim s) ∙ trim-solid s

-- The line is empty exactly if the key has nothing but white space.
key_line-empty : (s : String) → contains is_quote s ≡ false → (key_line s == "") ≡ (solid s == "")
unfolding collapse_after
key_line-empty s h = elim (Bool-cases (solid s == "")) [
  | inl empty ↦
      let nothing = trim-empty s (trim-solid s ∙ (eq_iff (solid s) "").0 empty) in
      let line : key_line s ≡ "" = key_line-plain s h ∙ ap (collapse_after false) nothing in
      (eq_iff (key_line s) "").1 line ∙ sym empty
  | inr full ↦ elim (Bool-cases (key_line s == "")) [
    | inl line ↦
        let nothing : solid s ≡ "" =
          sym (key_line-solid s h) ∙ ap solid ((eq_iff (key_line s) "").0 line) in
        let empty = (eq_iff (solid s) "").1 nothing in cc
    | inr some_line ↦ some_line ∙ sym full
  ]
]

-- The texts of a list of values.
abbrev pub texts_of : List Js → List String
texts_of List.[] = List.[]
texts_of (List.◌∷◌ (str s) xs) = List.◌∷◌ s (texts_of xs)
texts_of (List.◌∷◌ x xs) = texts_of xs

-- The texts that are not only white space, each without its white space.
abbrev pub solids : List String → List String
solids List.[] = List.[]
solids (List.◌∷◌ s ss) =
    let rest = solids ss in if solid s == "" then rest else List.◌∷◌ (solid s) rest

abbrev HasNoQuotes : List String → Type 0
HasNoQuotes ss = All (λ s. contains is_quote s ≡ false) ss

-- The lines have no other white space than single spaces, and without it they are these texts.
pub record AreLines (lines expected : List String) : Type 0 where
  pub on_one_line : All (λ l. is_one_line false l ≡ true) lines
  pub same : map solid lines ≡ expected

abbrev kept_lines : List String → List String
kept_lines List.[] = List.[]
kept_lines (List.◌∷◌ s ss) =
    let rest = kept_lines ss in if key_line s == "" then rest else List.◌∷◌ (key_line s) rest

key_lines-kept : (xs : List Js) → key_lines xs ≡ map str (kept_lines (texts_of xs))
unfolding key_lines
key_lines-kept List.[] = refl
key_lines-kept (List.◌∷◌ (str s) xs) = elim (Bool-cases (key_line s == "")) [
  | inl empty ↦ rw empty (key_lines-kept xs)
  | inr full ↦ rw full (ap (List.◌∷◌ (str (key_line s))) (key_lines-kept xs))
]
key_lines-kept (List.◌∷◌ undefined xs) = key_lines-kept xs
key_lines-kept (List.◌∷◌ null xs) = key_lines-kept xs
key_lines-kept (List.◌∷◌ nan xs) = key_lines-kept xs
key_lines-kept (List.◌∷◌ (bool b) xs) = key_lines-kept xs
key_lines-kept (List.◌∷◌ (num n) xs) = key_lines-kept xs
key_lines-kept (List.◌∷◌ (arr ys) xs) = key_lines-kept xs
key_lines-kept (List.◌∷◌ (obj ps) xs) = key_lines-kept xs

kept_lines-AreLines : (ss : List String) → HasNoQuotes ss → AreLines (kept_lines ss) (solids ss)
kept_lines-AreLines List.[] h = record { on_one_line = tt; same = refl }
kept_lines-AreLines (List.◌∷◌ s ss) (here, later) =
    let rest = kept_lines-AreLines ss later in
    elim (Bool-cases (solid s == "")) [
      | inl empty ↦
          let no_line = key_line-empty s here ∙ empty in
          record { on_one_line = rw no_line rest.on_one_line; same = rw (no_line, empty) rest.same }
      | inr full ↦
          let line = key_line-empty s here ∙ full in
          record {
            on_one_line = rw line (key_line-is_one_line s, rest.on_one_line);
            same =
                rw (line, full)
                  (ap (λ x. List.◌∷◌ x (map solid (kept_lines ss))) (key_line-solid s here)
                    ∙ ap (List.◌∷◌ (solid s)) rest.same);
          }
    ]

-- The texts of the keys, and what they are without white space: a single text is kept even if
-- nothing is left of it.
abbrev pub key_texts : Js → List String
key_texts (str s) = List.◌∷◌ s List.[]
key_texts (arr xs) = texts_of (items xs)
key_texts v = List.[]

abbrev pub key_solids : Js → List String
key_solids (str s) = List.◌∷◌ (solid s) List.[]
key_solids v = solids (key_texts v)

-- Where no key has an apostrophe, keys that are a text or an array are exported as an array of
-- texts, none of which has other white space than single spaces. The exported texts and the keys
-- are, in their order, the same but for white space: a text gives one, and an array one for each of
-- its texts that is not only white space.
pub exported_keys-AreLines :
    (v : Js)
    → has_keys v ≡ true
    → All (λ s. contains is_quote s ≡ false) (key_texts v)
    → (lines : List String) × (exported_keys v ≡ arr (from_list (map str lines)))
      × AreLines lines (key_solids v)
unfolding exported_keys
exported_keys-AreLines (str s) keys (plain, _) = (
  List.◌∷◌ (key_line s) List.[],
  refl,
  record {
    on_one_line = (key_line-is_one_line s, tt);
    same = ap (λ x. List.◌∷◌ x List.[]) (key_line-solid s plain);
  },
)
exported_keys-AreLines (arr xs) keys plain = (
  kept_lines (texts_of (items xs)),
  ap (λ l. arr (from_list l)) (key_lines-kept (items xs)),
  kept_lines-AreLines (texts_of (items xs)) plain,
)
exported_keys-AreLines undefined keys plain = cc
exported_keys-AreLines null keys plain = cc
exported_keys-AreLines nan keys plain = cc
exported_keys-AreLines (bool b) keys plain = cc
exported_keys-AreLines (num n) keys plain = cc
exported_keys-AreLines (obj ps) keys plain = cc
