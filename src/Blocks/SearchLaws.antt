-- ===== src/Blocks/SearchLaws.antt =====
-- Which extensions are shown.
use Prim.Native.Char.{code}
use mathlib.Core.List.{List}
use Prim.Native.String.{[], ◌∷◌}
use text.Mathlib.TextEquality.{Char-path}
use text.Mathlib.TextLemmas
use postgresql_cluster.Common.{
  ℕ, String, Bool, true, false, ◌==◌, nat_eq, ◌≡◌, ◌↔◌, refl, sym, ap, ◌∙◌, arith, and-true,
  Bool-cases, inl, inr, ◌⊎◌, eq_iff, some,
}
use postgresql_cluster.Js.{Js, str, chain, HasItem}
use postgresql_cluster.Js.Text.{◌⧺◌}
use postgresql_cluster.Blocks.Search.{
  SearchState, SearchEvent, chosen, searched_for, switched, answered, search_step, run_search,
  is_dependency, updated_search, starts_with, includes, filtered, text_includes, name_includes,
  filter_values, is_enabled, shown_extensions,
}

starts_with-prefix : (p s : String) → starts_with p s ≡ true → (b : String) × (s ≡ p ⧺ b)
unfolding starts_with
starts_with-prefix [] s h = (s, sym (TextLemmas.nil-append s))
starts_with-prefix (c ∷ p) [] h = cc
starts_with-prefix (c ∷ p) (d ∷ s) h =
    let (same, rest) = and-true (nat_eq (code c) (code d)) (starts_with p s) h in
    let (b, e) = starts_with-prefix p s rest in
    (
      b,
      ap (λ x. x ∷ s) (sym (Char-path c d (ground arith)))
          ∙ ap (◌∷◌ c) e
          ∙ sym (TextLemmas.cons-append c p b),
    )

nat_eq_refl : (n : ℕ) → nat_eq n n ≡ true
nat_eq_refl n = ground arith

prefix-starts_with : (p b : String) → starts_with p (p ⧺ b) ≡ true
unfolding starts_with
prefix-starts_with [] b = refl
prefix-starts_with (c ∷ p) b =
    rw (TextLemmas.cons-append c p b, nat_eq_refl (code c)) (prefix-starts_with p b)

-- The first text is a part of the second.
abbrev pub IsPart : String → String → Type 0
IsPart p s = (a b : String) × (s ≡ a ⧺ p ⧺ b)

includes-IsPart : (p s : String) → includes p s ≡ true → IsPart p s
unfolding includes
includes-IsPart p [] h =
    let (b, e) = starts_with-prefix p [] h in ([], b, e ∙ sym (TextLemmas.nil-append (p ⧺ b)))
includes-IsPart p (c ∷ s) h = elim (Bool-cases (starts_with p (c ∷ s))) [
  | inl here ↦
      let (b, e) = starts_with-prefix p (c ∷ s) here in
      ([], b, e ∙ sym (TextLemmas.nil-append (p ⧺ b)))
  | inr later ↦
      let (a, b, e) = includes-IsPart p s (ground arith) in
      (c ∷ a, b, ap (◌∷◌ c) e ∙ sym (TextLemmas.cons-append c a (p ⧺ b)))
]

starts_with-includes : (p s : String) → starts_with p s ≡ true → includes p s ≡ true
unfolding includes
starts_with-includes p [] h = h
starts_with-includes p (c ∷ s) h = rw h refl

part-includes : (a p b : String) → includes p (a ⧺ p ⧺ b) ≡ true
unfolding includes
part-includes [] p b =
    rw (TextLemmas.nil-append (p ⧺ b)) (starts_with-includes p (p ⧺ b) (prefix-starts_with p b))
part-includes (c ∷ a) p b =
    rw (TextLemmas.cons-append c a (p ⧺ b)) (ground (arith, part-includes a p b))

module _ (test : Js → Bool) (x : Js) where
  filtered-passed : (xs : List Js) → HasItem x (filtered test xs) → HasItem x xs × (test x ≡ true)
  filtered-passed List.[] h = absurd h
  filtered-passed (List.◌∷◌ y ys) h = elim (Bool-cases (test y)) [
    | inl passes ↦ elim (rw passes at h) [
      | inl same ↦ (inl same, ap test same ∙ passes)
      | inr there ↦ let (found, passed) = filtered-passed ys there in (inr found, passed)
    ]
    | inr fails ↦ let (found, passed) = filtered-passed ys (rw fails at h) in (inr found, passed)
  ]

  passed-filtered : (xs : List Js) → HasItem x xs → test x ≡ true → HasItem x (filtered test xs)
  passed-filtered List.[] h passes = absurd h
  passed-filtered (List.◌∷◌ y ys) (inl same) passes =
      let here : test y ≡ true = ap test (sym same) ∙ passes in rw here (inl same)
  passed-filtered (List.◌∷◌ y ys) (inr there) passes = elim (Bool-cases (test y)) [
    | inl here ↦ rw here (inr (passed-filtered ys there passes))
    | inr fails ↦ rw fails (passed-filtered ys there passes)
  ]

-- The name of the extension has the searched text in it, if one is searched.
abbrev pub IsNamed : String → Js → Type 0
IsNamed search extension =
    (search ≡ "") ⊎ ((a b : String) × (chain extension "name" ≡ str (a ⧺ search ⧺ b)))

text-IsPart :
    (p : String) (v : Js) → text_includes p v ≡ true → (a b : String) × (v ≡ str (a ⧺ p ⧺ b))
text-IsPart p (str s) h = let (a, b, e) = includes-IsPart p s h in (a, b, ap str e)
text-IsPart p v h = cc

named-test :
    (search : String) (x : Js)
    → (search == "") ≡ false
    → IsNamed search x
    → name_includes search x ≡ true
unfolding name_includes
named-test search x other (inl empty) =
    let same : (search == "") ≡ true = (eq_iff search "").1 empty in cc
named-test search x other (inr (a, b, e)) = rw e (part-includes a search b)

searched :
    (search : String) (extensions : List Js) (x : Js)
    → HasItem x (filter_values search extensions) ↔ (HasItem x extensions × IsNamed search x)
unfolding filter_values name_includes
searched search extensions x = elim (Bool-cases (search == "")) [
  | inl empty ↦ rw empty (λ h. (h, inl ((eq_iff search "").0 empty)), λ h. h.0)
  | inr other ↦ rw other (
    λ h.
        let (found, named) = filtered-passed (name_includes search) x extensions h in
        (found, inr (text-IsPart search (chain x "name") named)),
    λ h. passed-filtered (name_includes search) x extensions h.0 (named-test search x other h.1),
  )
]

when_true : {b : Bool} → (true ≡ false) ⊎ (b ≡ true) → b ≡ true
when_true (inl h) = cc
when_true (inr h) = h

shown_extensions_iff :
    (only_enabled : Bool) (search : String) (enabled : Js) (extensions : List Js) (x : Js)
    → HasItem x (shown_extensions only_enabled search enabled extensions) ↔ (
        HasItem x extensions
        × ((only_enabled ≡ false) ⊎ (is_enabled enabled x ≡ true))
        × IsNamed search x)
unfolding shown_extensions
shown_extensions_iff true searched_text enabled extensions x =
    let (shown, back) = searched searched_text (filtered (is_enabled enabled) extensions) x in
    (
      λ h.
          let (found, named) = shown h in
          let (offered, passed) = filtered-passed (is_enabled enabled) x extensions found in
          (offered, inr passed, named),
      λ h.
          let (offered, asked, named) = h in
          back (passed-filtered (is_enabled enabled) x extensions offered (when_true asked), named),
    )
shown_extensions_iff false searched_text enabled extensions x =
    let (shown, back) = searched searched_text extensions x in
    (
      λ h. let (found, named) = shown h in (found, inl refl, named),
      λ h. let (offered, asked, named) = h in back (offered, named),
    )

-- Changes of the form's field for the extensions.
abbrev pub choose_all : List Js → SearchState → SearchState
choose_all List.[] s = s
choose_all (List.◌∷◌ enabled more) s = choose_all more (search_step (chosen enabled) s)

choose_all-shown : (later : List Js) (s : SearchState) → (choose_all later s).shown ≡ s.shown
unfolding search_step is_dependency
choose_all-shown List.[] s = refl
choose_all-shown (List.◌∷◌ enabled more) s = choose_all-shown more (search_step (chosen enabled) s)

-- An extension is listed: it is of the answer, its name has the searched text in it, or none is
-- searched, and, if only those are asked for, it is enabled for some database.
abbrev pub IsListed : Bool → String → Js → List Js → Js → Type 0
IsListed only_enabled search enabled extensions x =
    HasItem x extensions
    × ((only_enabled ≡ false) ⊎ (is_enabled enabled x ≡ true))
    × IsNamed search x

-- A dependency of the effect is no change of the form's field.
dependency-enabled :
    (e : SearchEvent) (s : SearchState)
    → is_dependency e s ≡ true
    → (updated_search e s).enabled ≡ s.enabled
unfolding is_dependency
dependency-enabled (searched_for text) s changes = refl
dependency-enabled (switched b) s changes = refl
dependency-enabled (answered extensions) s changes = refl
dependency-enabled (chosen enabled) s changes = cc

run_search-shown :
    (s : SearchState) (extensions : List Js)
    → s.answer ≡ some extensions
    → (run_search s).shown ≡ shown_extensions s.only_enabled s.search s.enabled extensions
unfolding run_search
run_search-shown s extensions answer = rw answer refl

-- If there is an answer: after a change of the searched text, of the switch or of the answer, and
-- any later changes of the form's field, the block shows an extension exactly if it is of the
-- answer, its name has the searched text in it, or none is searched, and, if only those are asked
-- for, it was enabled for some database before these later changes: they do not change what is
-- shown.
pub search_step-shown :
    (e : SearchEvent) (s : SearchState) (later : List Js) (extensions : List Js) (x : Js)
    → is_dependency e s ≡ true
    → (updated_search e s).answer ≡ some extensions
    → HasItem x (choose_all later (search_step e s)).shown
      ↔ IsListed
          (updated_search e s).only_enabled
          (updated_search e s).search
          s.enabled
          extensions
          x
unfolding search_step
search_step-shown e s later extensions x changes answer =
    let u = updated_search e s in
    rw (choose_all-shown later (search_step e s)) (
      rw changes (
        rw (run_search-shown u extensions answer) (
          rw (dependency-enabled e s changes)
            (shown_extensions_iff u.only_enabled u.search s.enabled extensions x))))
