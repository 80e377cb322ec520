-- ===== src/Slider/Tests.antt =====
-- Runs of the field.
use postgresql_cluster.Common.{ℕ, ◌≤◌, ◌≡◌, refl, arith, none, some}
use postgresql_cluster.Js.{Js, num, str, obj, end, prop, to_number}
use postgresql_cluster.Slider.{on_change, storage_limits, instances_limits}
use postgresql_cluster.Slider.Laws.{IsNearest, storage_amount-bounds}

abbrev volume : Js
volume = obj (prop "min_size" (num 10) (prop "max_size" (num 500) end))

storage_amount-bounds_example :
    (typed n : ℕ) × (to_number (str "7") ≡ num typed)
    × (on_change (storage_limits volume) "7" ≡ some (num n))
    × (10 ≤ n)
    × (n ≤ 500)
    × IsNearest 10 500 typed n
unfolding postgresql_cluster.Js.field
storage_amount-bounds_example = storage_amount-bounds volume 10 500 "7" refl refl (omega arith) refl

least_test : on_change (storage_limits volume) "7" ≡ some (num 10)
unfolding on_change postgresql_cluster.Js.field
least_test = refl

letters_test : on_change (storage_limits volume) "7a" ≡ none
unfolding on_change
letters_test = refl

-- The number of instances is not limited from above.
instances_test : on_change instances_limits "40" ≡ some (num 40)
unfolding on_change postgresql_cluster.Js.to_number
instances_test = refl
