-- ===== src/Blocks/Search.antt =====
-- The extensions that the block shows:
-- console/ui/src/entities/cluster/expert-mode/extensions-block/ui/index.tsx, with `filterValues` of
-- its lib/functions.ts.
use Prim.Native.Char.{code}
use Prim.Native.String.{[], ◌∷◌}
use mathlib.Core.List.{List}
use postgresql_cluster.Common.{
  String, Bool, true, false, ◌&&◌, ◌||◌, ◌==◌, nat_eq, if◌then◌else◌, not, Option, none, some,
}
use postgresql_cluster.Js.{Js, undefined, str, arr, cons, chain}

-- `s.includes(p)`
unfoldable pub starts_with : String → String → Bool
starts_with [] s = true
starts_with (c ∷ p) [] = false
starts_with (c ∷ p) (d ∷ s) = nat_eq (code c) (code d) && starts_with p s

unfoldable pub includes : String → String → Bool
unfolding starts_with
includes p [] = starts_with p []
includes p (c ∷ s) = starts_with p (c ∷ s) || includes p s

-- `list.filter(test)`
abbrev pub filtered : (Js → Bool) → List Js → List Js
filtered test List.[] = List.[]
filtered test (List.◌∷◌ x xs) =
    let rest = filtered test xs in if test x then List.◌∷◌ x rest else rest

abbrev pub text_includes : String → Js → Bool
text_includes p (str s) = includes p s
text_includes p v = false

-- `extension?.name?.includes(searchValue)`
unfoldable pub name_includes : String → Js → Bool
unfolding includes
name_includes search extension = text_includes search (chain extension "name")

-- `filterValues`
unfoldable pub filter_values : String → List Js → List Js
unfolding name_includes
filter_values search extensions =
    if search == "" then extensions else filtered (name_includes search) extensions

-- `v?.length`, for an array or nothing, as a condition
abbrev is_filled : Js → Bool
is_filled (arr (cons x xs)) = true
is_filled v = false

abbrev selection_of : Js → Js → Js
selection_of enabled (str name) = chain enabled name
selection_of enabled v = undefined

-- `watchEnabledExtensions?.[extension?.name]?.db?.length`
unfoldable pub is_enabled : Js → Js → Bool
is_enabled enabled extension =
    is_filled (chain (selection_of enabled (chain extension "name")) "db")

-- `filteredExtensions` of the effect.
unfoldable pub shown_extensions : Bool → String → Js → List Js → List Js
unfolding filter_values is_enabled
shown_extensions only_enabled search enabled extensions =
    filter_values search
      (if only_enabled then filtered (is_enabled enabled) extensions else extensions)

-- What the block holds: the searched text, the switch, the field of the form for the extensions,
-- the answer's extensions, and the list that is shown.
pub record SearchState : Type 0 where
  pub search : String
  pub only_enabled : Bool
  pub enabled : Js
  pub answer : Option (List Js)
  pub shown : List Js

pub data SearchEvent : Type 0 where
  -- `setSearchValue`, `setIsShowOnlyEnabled`, another answer, and a change of the form's field.
  searched_for : String → SearchEvent
  switched : Bool → SearchEvent
  answered : Option (List Js) → SearchEvent
  chosen : Js → SearchEvent

abbrev shown_of : SearchState → Option (List Js) → List Js
shown_of s none = s.shown
shown_of s (some extensions) = shown_extensions s.only_enabled s.search s.enabled extensions

-- The effect: it reads the form's field as it is when the effect runs.
unfoldable pub run_search : SearchState → SearchState
unfolding shown_extensions
run_search s = record {
  search = s.search;
  only_enabled = s.only_enabled;
  enabled = s.enabled;
  answer = s.answer;
  shown = shown_of s s.answer;
}

-- The state after an event, before an effect.
abbrev pub updated_search : SearchEvent → SearchState → SearchState
updated_search (searched_for text) s = record {
  search = text;
  only_enabled = s.only_enabled;
  enabled = s.enabled;
  answer = s.answer;
  shown = s.shown;
}
updated_search (switched b) s = record {
  search = s.search;
  only_enabled = b;
  enabled = s.enabled;
  answer = s.answer;
  shown = s.shown;
}
updated_search (answered extensions) s = record {
  search = s.search;
  only_enabled = s.only_enabled;
  enabled = s.enabled;
  answer = extensions;
  shown = s.shown;
}
updated_search (chosen enabled) s = record {
  search = s.search;
  only_enabled = s.only_enabled;
  enabled = enabled;
  answer = s.answer;
  shown = s.shown;
}

abbrev same_bool : Bool → Bool → Bool
same_bool true b = b
same_bool false b = not b

-- Whether the event changes one of `[searchValue, isShowOnlyEnabled, extensions.data]`, on which
-- the effect depends; the form's field is not among them.
unfoldable pub is_dependency : SearchEvent → SearchState → Bool
is_dependency (searched_for text) s = not (text == s.search)
is_dependency (switched b) s = not (same_bool b s.only_enabled)
is_dependency (answered extensions) s = true
is_dependency (chosen enabled) s = false

unfoldable pub search_step : SearchEvent → SearchState → SearchState
unfolding run_search is_dependency
search_step e s = if is_dependency e s then run_search (updated_search e s) else updated_search e s
