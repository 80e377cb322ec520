-- ===== src/Export/Keys.antt =====
-- The public keys of the exported variables, each as a text on one line.
use Prim.Native.Char.{code}
use Prim.Native.String.{[], ◌∷◌}
use mathlib.Core.List.{List}
use postgresql_cluster.Common.{String, Bool, true, false, ◌&&◌, ◌==◌, nat_eq, if◌then◌else◌}
use postgresql_cluster.Js.{Js, str, arr, obj, items, from_list, put, field}
use postgresql_cluster.Js.Text.{is_space, trim}

unfoldable pub strip_start : String → String
strip_start [] = []
strip_start (c ∷ s) = let rest = strip_start s in if nat_eq (code c) 39 then rest else c ∷ s

unfoldable pub strip_end : String → String
strip_end [] = []
strip_end (c ∷ s) =
    let rest = strip_end s in if nat_eq (code c) 39 && rest == "" then "" else c ∷ rest

-- `.replace(/^'+|'+$/g, '')`
unfoldable pub strip_quotes : String → String
unfolding strip_start strip_end
strip_quotes s = strip_end (strip_start s)

-- The rest of a text in which runs of white space become a space, after a space or not.
unfoldable pub collapse_after : Bool → String → String
collapse_after after [] = []
collapse_after after (c ∷ s) =
    let in_run = collapse_after true s in
    let outside = collapse_after false s in
    if is_space (code c) then (if after then in_run else " " ∷ in_run) else c ∷ outside

-- `.replace(/\s+/g, ' ')`
abbrev pub collapse_spaces : String → String
collapse_spaces = collapse_after false

-- `k.trim().replace(/^'+|'+$/g, '').replace(/\s+/g, ' ')`
unfoldable pub key_line : String → String
unfolding trim strip_quotes collapse_after
key_line s = collapse_spaces (strip_quotes (trim s))

-- The `map` and the `filter` of an array of keys.
unfoldable pub key_lines : List Js → List Js
unfolding key_line
key_lines List.[] = List.[]
key_lines (List.◌∷◌ (str s) xs) =
    let rest = key_lines xs in if key_line s == "" then rest else List.◌∷◌ (str (key_line s)) rest
key_lines (List.◌∷◌ x xs) = key_lines xs

-- `vars.ssh_public_keys` after the special handling.
unfoldable pub exported_keys : Js → Js
unfolding key_line key_lines
exported_keys (str s) = arr (from_list (List.◌∷◌ (str (key_line s)) List.[]))
exported_keys (arr xs) = arr (from_list (key_lines (items xs)))
exported_keys v = v

-- Whether there is such a handling: the keys are a text or an array.
abbrev pub has_keys : Js → Bool
has_keys (str s) = true
has_keys (arr xs) = true
has_keys v = false

-- The assignment to `vars.ssh_public_keys`. Only an object has the property.
unfoldable pub with_exported_keys : Js → Js
unfolding exported_keys
with_exported_keys (obj ps) =
    if has_keys (field ps "ssh_public_keys")
    then obj (put ps "ssh_public_keys" (exported_keys (field ps "ssh_public_keys")))
    else obj ps
with_exported_keys v = v
