-- ===== src/Slider.antt =====
-- The field of a slider box, which limits the amount that is typed:
-- console/ui/src/shared/ui/slider-box/ui/index.tsx, as the storage block
-- (console/ui/src/entities/cluster/storage-block/ui/index.tsx) and the block for the number of
-- instances (instances-amount-block) use it.
mod Laws
mod Tests
use postgresql_cluster.Common.{
  ℕ, ◌≤◌, Bool, true, false, ◌&&◌, ltb, ◌≡◌, refl, arith, ap, ◌∙◌, String, Option, none, some,
  if◌then◌else◌,
}
use postgresql_cluster.Js.{Js, num, str, chain, to_number, to_number-digits}
use postgresql_cluster.Js.Text.{is_digits}

-- The properties `min`, `max`, `limitMin` and `limitMax`, after their defaults.
pub record Limits : Type 0 where
  pub min : ℕ
  pub max : Option ℕ
  pub limit_min : Bool
  pub limit_max : Bool

-- `num > (max ?? Infinity)`
abbrev is_above : ℕ → Option ℕ → Bool
is_above n none = false
is_above n (some m) = ltb m n

abbrev or_same : ℕ → Option ℕ → ℕ
or_same n none = n
or_same n (some m) = m

abbrev pub limited : Limits → ℕ → ℕ
limited l n =
    if ltb n l.min && l.limit_min
    then l.min
    else if is_above n l.max && l.limit_max
    then or_same n l.max
    else n

abbrev changed : Limits → Js → Js
changed l (num n) = num (limited l n)
changed l v = v

-- `onChange`: what `changeAmount` is called with, if it is called.
unfoldable pub on_change : Limits → String → Option Js
unfolding to_number
on_change l value = if is_digits value then some (changed l (to_number (str value))) else none

-- The limits of the storage block, from `min_size` and `max_size` of the volume.
abbrev or_number : Js → ℕ → ℕ
or_number (num n) m = n
or_number v m = m

abbrev pub storage_limits : Js → Limits
storage_limits storage = record {
  min = or_number (chain storage "min_size") 1;
  max = some (or_number (chain storage "max_size") 100);
  limit_min = true;
  limit_max = true;
}

-- The limits of the number of instances, of which only the lower one holds for the field.
abbrev pub instances_limits : Limits
instances_limits = record { min = 1; max = some 32; limit_min = true; limit_max = false }
