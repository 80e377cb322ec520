-- ===== src/Params/Tests.antt =====
-- Runs of the conversion.
use mathlib.Core.List.{List}
use postgresql_cluster.Common.{true, ◌≡◌, refl, map}
use postgresql_cluster.Js.{str, arr, from_list, ok}
use postgresql_cluster.Js.Text.{trim}
use postgresql_cluster.Params.{convert_modal_parameters_to_array}
use postgresql_cluster.Params.RoundTrip.{entry, print, IsField, convert-print}

option-IsField : IsField "shared_buffers"
unfolding trim
option-IsField = record { no_separator = refl; no_newline = refl; trimmed = refl }

value-IsField : IsField "1 GB"
unfolding trim
value-IsField = record { no_separator = refl; no_newline = refl; trimmed = refl }

convert-print_example :
    convert_modal_parameters_to_array
      (str (print (List.◌∷◌ ("shared_buffers", true, "1 GB") List.[])))
    ≡ ok (arr (from_list (map entry (List.◌∷◌ ("shared_buffers", true, "1 GB") List.[]))))
convert-print_example =
    convert-print ("shared_buffers", true, "1 GB") List.[] (option-IsField, value-IsField) tt
