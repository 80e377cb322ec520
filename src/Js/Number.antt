-- ===== src/Js/Number.antt =====
-- `Number(v)`, for texts that are empty or write a natural number in decimal digits: those are
-- the identifiers that the console converts. Any other text is NaN here.
use Prim.Native.Char.{code}
use Prim.Native.String.{[], ◌∷◌}
use postgresql_cluster.Common.{
  and-true, true, ℕ, ◌+◌, ◌*◌, ◌-◌, String, ◌&&◌, Option, none, some, leb, if◌then◌else◌, ◌≡◌, refl,
}
use postgresql_cluster.Js.Value.{Js, null, nan, bool, num, str}
use postgresql_cluster.Js.Text.{trim, is_digits, trim-digits}

-- The number that decimal digits write, after the digits of `n`.
digits : ℕ → String → Option ℕ
digits n [] = some n
digits n (c ∷ s) =
    let rest = digits (n * 10 + (code c - 48)) s in
    if leb 48 (code c) && leb (code c) 57 then rest else none

abbrev or_nan : Option ℕ → Js
or_nan none = nan
or_nan (some n) = num n

unfoldable pub to_number : Js → Js
unfolding digits trim
to_number null = num 0
to_number (bool b) = num (if b then 1 else 0)
to_number (num n) = num n
to_number (str s) = or_nan (digits 0 (trim s))
to_number _ = nan

digits-some : (n : ℕ) (s : String) → is_digits s ≡ true → (m : ℕ) × (digits n s ≡ some m)
unfolding digits
digits-some n [] h = (n, refl)
digits-some n (c ∷ s) h =
    let (first, rest) = and-true (leb 48 (code c) && leb (code c) 57) (is_digits s) h in
    rw first (digits-some (n * 10 + (code c - 48)) s rest)

-- A text of digits is a number.
pub to_number-digits : (s : String) → is_digits s ≡ true → (n : ℕ) × (to_number (str s) ≡ num n)
unfolding to_number
to_number-digits s h = let (n, e) = digits-some 0 s h in (n, rw (trim-digits s h, e) refl)

number_test : to_number (str " 42 ") ≡ num 42
unfolding to_number
number_test = refl

nan_test : to_number (str "4x") ≡ nan
unfolding to_number
nan_test = refl
