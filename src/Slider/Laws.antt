-- ===== src/Slider/Laws.antt =====
-- What the field lets through.
use postgresql_cluster.Common.{
  ℕ, ◌≤◌, true, ltb, ◌≡◌, refl, arith, String, some, Bool-cases, inl, inr, ◌<◌, ◌⊎◌,
}
use postgresql_cluster.Js.{Js, num, str, to_number, to_number-digits, chain}
use postgresql_cluster.Js.Text.{is_digits}
use postgresql_cluster.Slider.{Limits, limited, on_change, storage_limits}

abbrev both_limits : ℕ → ℕ → Limits
both_limits low high = record { min = low; max = some high; limit_min = true; limit_max = true }

-- The amount is what was typed, or the limit that this is beyond.
abbrev pub IsNearest : ℕ → ℕ → ℕ → ℕ → Type 0
IsNearest low high typed n =
    (n ≡ typed) ⊎ (((n ≡ low) × (typed < low)) ⊎ ((n ≡ high) × (high < typed)))

limited-IsNearest :
    (low high typed : ℕ)
    → low ≤ high
    → (low ≤ limited (both_limits low high) typed)
      × (limited (both_limits low high) typed ≤ high)
      × IsNearest low high typed (limited (both_limits low high) typed)
limited-IsNearest low high typed h = elim (Bool-cases (ltb typed low)) [
  | inl below ↦ rw below (omega arith, h, inr (inl (refl, ground arith)))
  | inr not_below ↦ elim (Bool-cases (ltb high typed)) [
    | inl above ↦ rw (not_below, above) (h, omega arith, inr (inr (refl, ground arith)))
    | inr inside ↦ rw (not_below, inside) (ground arith, ground arith, inl refl)
  ]
]

-- Whatever digits are typed for the storage, the amount becomes a number between the least and the
-- greatest size of the volume, which is the typed one or else the nearest of the two.
pub storage_amount-bounds :
    (storage : Js) (low high : ℕ) (value : String)
    → chain storage "min_size" ≡ num low
    → chain storage "max_size" ≡ num high
    → low ≤ high
    → is_digits value ≡ true
    → (typed n : ℕ) × (to_number (str value) ≡ num typed)
      × (on_change (storage_limits storage) value ≡ some (num n))
      × (low ≤ n)
      × (n ≤ high)
      × IsNearest low high typed n
unfolding on_change
storage_amount-bounds storage low high value least greatest h digits =
    let (typed, e) = to_number-digits value digits in
    let (from_low, to_high, nearest) = limited-IsNearest low high typed h in
    (
      typed,
      limited (both_limits low high) typed,
      e,
      rw (digits, e, least, greatest) refl,
      from_low,
      to_high,
      nearest,
    )
