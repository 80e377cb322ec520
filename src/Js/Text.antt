-- ===== src/Js/Text.antt =====
-- The methods of strings that the console's code calls: `split` by a character class, `trim`,
-- and the conversion of numbers to text.
use Prim.Native.Char.{Char, code}
use Prim.Native.String
use Prim.Native.String.{[], ◌∷◌}
use mathlib.Core.List.{List}
use postgresql_cluster.Common.{
  Bool-cases, inl, inr, eq_iff, ap, sym, ◌∙◌, and-true, true, false, arith, ℕ, zero, suc, ◌/◌, ◌%◌,
  String, Bool, ◌&&◌, ◌||◌, ◌==◌, ◌≡◌, refl, nat_eq, leb, ltb, if◌then◌else◌,
}

cons_head : Char → List String → List String
cons_head c List.[] = List.◌∷◌ (c ∷ []) List.[]
cons_head c (List.◌∷◌ w ws) = List.◌∷◌ (c ∷ w) ws

-- `s.split(/[...]/)`, for the characters of a class.
unfoldable pub split_by : (ℕ → Bool) → String → List String
unfolding cons_head
split_by p [] = List.◌∷◌ "" List.[]
split_by p (c ∷ s) =
    let rest = split_by p s in if p (code c) then List.◌∷◌ "" rest else cons_head c rest

-- `/[\n\r]/`
abbrev pub is_newline : ℕ → Bool
is_newline c = nat_eq c 10 || nat_eq c 13

-- White space and line terminators, which `trim` removes.
abbrev pub is_space : ℕ → Bool
is_space c =
    (leb 9 c && leb c 13)
    || nat_eq c 32
    || nat_eq c 160
    || nat_eq c 0x1680
    || (leb 0x2000 c && leb c 0x200a)
    || nat_eq c 0x2028
    || nat_eq c 0x2029
    || nat_eq c 0x202f
    || nat_eq c 0x205f
    || nat_eq c 0x3000
    || nat_eq c 0xfeff

trim_start : String → String
trim_start [] = []
trim_start (c ∷ s) = let rest = trim_start s in if is_space (code c) then rest else c ∷ s

trim_end : String → String
trim_end [] = []
trim_end (c ∷ s) = let rest = trim_end s in if is_space (code c) && rest == "" then "" else c ∷ rest

-- `s.trim()`
unfoldable pub trim : String → String
unfolding trim_start trim_end
trim s = trim_end (trim_start s)

-- A text without its white space.
abbrev pub solid : String → String
solid [] = []
solid (c ∷ s) = let rest = solid s in if is_space (code c) then rest else c ∷ rest

abbrev pub contains : (ℕ → Bool) → String → Bool
contains p [] = false
contains p (c ∷ s) = p (code c) || contains p s

trim_start-solid : (s : String) → solid (trim_start s) ≡ solid s
unfolding trim_start
trim_start-solid [] = refl
trim_start-solid (c ∷ s) = elim (Bool-cases (is_space (code c))) [
  | inl space ↦ rw space (trim_start-solid s)
  | inr other ↦ rw other (rw other refl)
]

trim_end-solid : (s : String) → solid (trim_end s) ≡ solid s
unfolding trim_end
trim_end-solid [] = refl
trim_end-solid (c ∷ s) = elim (Bool-cases (is_space (code c))) [
  | inl space ↦ elim (Bool-cases (trim_end s == "")) [
    | inl empty ↦
        let gone : solid (trim_end s) ≡ "" = ap solid ((eq_iff (trim_end s) "").0 empty) in
        rw (space, empty) (sym gone ∙ trim_end-solid s)
    | inr more ↦ rw (space, more) (rw space (trim_end-solid s))
  ]
  | inr other ↦ rw other (rw other (ap (◌∷◌ c) (trim_end-solid s)))
]

-- Trimming removes only white space.
pub trim-solid : (s : String) → solid (trim s) ≡ solid s
unfolding trim
trim-solid s = trim_end-solid (trim_start s) ∙ trim_start-solid s

trim_end-empty : (s : String) → solid (trim_end s) ≡ "" → trim_end s ≡ ""
unfolding trim_end
trim_end-empty [] h = refl
trim_end-empty (c ∷ s) h = elim (Bool-cases (is_space (code c))) [
  | inl space ↦ elim (Bool-cases (trim_end s == "")) [
    | inl empty ↦ rw (space, empty) refl
    | inr more ↦
        let none_left : solid (trim_end s) ≡ "" = rw space at (rw (space, more) at h) in
        let same : (trim_end s == "") ≡ true =
          (eq_iff (trim_end s) "").1 (trim_end-empty s none_left) in
        cc
  ]
  | inr other ↦ let full = rw other at (rw other at h) in cc full
]

-- A trimmed text with nothing but white space is empty.
pub trim-empty : (s : String) → solid (trim s) ≡ "" → trim s ≡ ""
unfolding trim
trim-empty s h = trim_end-empty (trim_start s) h

trim_start-contains :
    (p : ℕ → Bool) (s : String) → contains p s ≡ false → contains p (trim_start s) ≡ false
unfolding trim_start
trim_start-contains p [] h = refl
trim_start-contains p (c ∷ s) h = ground (arith, h, trim_start-contains p s)

or-left : (b c : Bool) → b || c ≡ false → b ≡ false
or-left b c h = ground (arith, h)

or-right : (b c : Bool) → b || c ≡ false → c ≡ false
or-right b c h = ground (arith, h)

trim_end-contains :
    (p : ℕ → Bool) (s : String) → contains p s ≡ false → contains p (trim_end s) ≡ false
unfolding trim_end
trim_end-contains p [] h = refl
trim_end-contains p (c ∷ s) h =
    let first : p (code c) ≡ false = or-left (p (code c)) (contains p s) h in
    let later = trim_end-contains p s (or-right (p (code c)) (contains p s) h) in
    elim (Bool-cases (is_space (code c) && trim_end s == "")) [
      | inl gone ↦ rw gone refl
      | inr kept ↦ rw kept (rw (first, later) refl)
    ]

pub trim-contains : (p : ℕ → Bool) (s : String) → contains p s ≡ false → contains p (trim s) ≡ false
unfolding trim
trim-contains p s h = trim_end-contains p (trim_start s) (trim_start-contains p s h)

-- `/^\d*$/`
abbrev pub is_digits : String → Bool
is_digits [] = true
is_digits (c ∷ s) = leb 48 (code c) && leb (code c) 57 && is_digits s

digit-is_space : (n : ℕ) → (leb 48 n && leb n 57) ≡ true → is_space n ≡ false
digit-is_space n h = ground arith

trim_start-digits : (s : String) → is_digits s ≡ true → trim_start s ≡ s
unfolding trim_start
trim_start-digits [] h = refl
trim_start-digits (c ∷ s) h =
    let (first, rest) = and-true (leb 48 (code c) && leb (code c) 57) (is_digits s) h in
    rw (digit-is_space (code c) first) refl

trim_end-digits : (s : String) → is_digits s ≡ true → trim_end s ≡ s
unfolding trim_end
trim_end-digits [] h = refl
trim_end-digits (c ∷ s) h =
    let (first, rest) = and-true (leb 48 (code c) && leb (code c) 57) (is_digits s) h in
    rw (digit-is_space (code c) first, trim_end-digits s rest) refl

-- A text of digits has no space to trim.
pub trim-digits : (s : String) → is_digits s ≡ true → trim s ≡ s
unfolding trim
trim-digits s h = rw (trim_start-digits s h) (trim_end-digits s h)

infixr 65 ◌⧺◌
-- `a + b` on strings
abbrev pub ◌⧺◌ : String → String → String
a ⧺ b = String.◌++◌ a b

digit : ℕ → String
digit n =
    if nat_eq n 0
    then "0"
    else if nat_eq n 1
    then "1"
    else if nat_eq n 2
    then "2"
    else if nat_eq n 3
    then "3"
    else if nat_eq n 4
    then "4"
    else if nat_eq n 5
    then "5"
    else if nat_eq n 6
    then "6"
    else if nat_eq n 7
    then "7"
    else if nat_eq n 8
    then "8"
    else "9"

-- The digits of `n`, in front of `acc`; the fuel is above the number of digits.
decimal_from : ℕ → ℕ → String → String
decimal_from zero n acc = acc
decimal_from (suc f) n acc =
    let rest = decimal_from f (n / 10) (digit (n % 10) ⧺ acc) in
    if ltb n 10 then digit n ⧺ acc else rest

-- `String(n)`
unfoldable pub decimal : ℕ → String
unfolding digit decimal_from
decimal n = decimal_from (suc n) n ""

test_decimal : decimal 8301 ≡ "8301"
unfolding decimal
test_decimal = refl

test_split : split_by is_newline "a\nbc\n" ≡ List.◌∷◌ "a" (List.◌∷◌ "bc" (List.◌∷◌ "" List.[]))
unfolding split_by
test_split = refl

test_trim : trim "  a b\t" ≡ "a b"
unfolding trim
test_trim = refl
