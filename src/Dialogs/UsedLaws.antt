-- ===== src/Dialogs/UsedLaws.antt =====
-- What the warning shows of the names of the clusters.
use Prim.Native.Char.{Char}
use text.Mathlib.TextLemmas
use postgresql_cluster.Common.{
  ℕ, zero, suc, String, true, ◌≡◌, refl, ap, sym, ◌∙◌, arith, ltb, List, [], ◌∷◌, ◌++◌, length,
  ◌==◌, eq_iff, Bool-cases, inl, inr,
}
use postgresql_cluster.Js.{str}
use postgresql_cluster.Js.Text.{◌⧺◌}
use postgresql_cluster.Dialogs.Used.{begun_with, split_names, join_names, first_names, using_names}

-- The second text begins like the first, which has an item more.
abbrev pub IsBegun : String → String → Type 0
IsBegun last s = (shown rest : String) × (last ≡ shown ⧺ ", ...") × (s ≡ shown ⧺ ", " ⧺ rest)

separated_assoc : (x shown s : String) → x ⧺ ", " ⧺ shown ⧺ s ≡ (x ⧺ ", " ⧺ shown) ⧺ s
separated_assoc x shown s =
    ap (λ t. x ⧺ t) (sym (TextLemmas.append_assoc ", " shown s))
    ∙ sym (TextLemmas.append_assoc x (", " ⧺ shown) s)

prefixed-IsBegun : (x last s : String) → IsBegun last s → IsBegun (x ⧺ ", " ⧺ last) (x ⧺ ", " ⧺ s)
prefixed-IsBegun x last s (shown, rest, l, r) = (
  x ⧺ ", " ⧺ shown,
  rest,
  rw l (separated_assoc x shown ", ..."),
  rw r (separated_assoc x shown (", " ⧺ rest)),
)

join-first_names :
    (n : ℕ) (names : List String)
    → ltb (suc n) (length names) ≡ true
    → IsBegun (join_names (first_names (suc n) names ++ "..." ∷ [])) (join_names names)
unfolding join_names
join-first_names n [] h = ground arith
join-first_names n (x ∷ []) h = ground arith
join-first_names zero (x ∷ y ∷ names) h = (x, join_names (y ∷ names), refl, refl)
join-first_names (suc n) (x ∷ y ∷ names) h =
    prefixed-IsBegun x (join_names (y ∷ (first_names n names ++ "..." ∷ [])))
      (join_names (y ∷ names)) (join-first_names n (y ∷ names) (ground arith))

begun_with-cons :
    (s : String) (names : List String)
    → (n : String) × (m : List String) × (begun_with s names ≡ n ∷ m)
begun_with-cons s [] = (s, [], refl)
begun_with-cons s (x ∷ names) = (s ⧺ x, names, refl)

split_names-cons : (s : String) → (n : String) × (m : List String) × (split_names s ≡ n ∷ m)
unfolding split_names
split_names-cons String.[] = ("", [], refl)
split_names-cons (String.◌∷◌ c String.[]) = (String.◌∷◌ c "", [], refl)
split_names-cons (String.◌∷◌ c (String.◌∷◌ d s)) =
    elim (Bool-cases (String.◌∷◌ c (String.◌∷◌ d "") == ", ")) [
      | inl both ↦ rw both ("", split_names s, refl)
      | inr other ↦ rw other (begun_with-cons (String.◌∷◌ c "") (split_names (String.◌∷◌ d s)))
    ]

char-append : (c : Char) (x : String) → String.◌∷◌ c "" ⧺ x ≡ String.◌∷◌ c x
char-append c x = TextLemmas.cons-append c "" x ∙ ap (String.◌∷◌ c) (TextLemmas.nil-append x)

join-begun_with :
    (c : Char) (names : List String)
    → join_names (begun_with (String.◌∷◌ c "") names) ≡ String.◌∷◌ c (join_names names)
unfolding join_names
join-begun_with c [] = refl
join-begun_with c (x ∷ []) = char-append c x
join-begun_with c (x ∷ y ∷ names) =
    ap (λ t. t ⧺ ", " ⧺ join_names (y ∷ names)) (char-append c x)
    ∙ TextLemmas.cons-append c x (", " ⧺ join_names (y ∷ names))

join-empty :
    (names : List String)
    → ((n : String) × (m : List String) × (names ≡ n ∷ m))
    → join_names ("" ∷ names) ≡ ", " ⧺ join_names names
unfolding join_names
join-empty [] (n, m, e) = cc
join-empty (x ∷ names) h = TextLemmas.nil-append (", " ⧺ join_names (x ∷ names))

two-append :
    (c d : Char) (s : String) → String.◌∷◌ c (String.◌∷◌ d "") ⧺ s ≡ String.◌∷◌ c (String.◌∷◌ d s)
two-append c d s =
    TextLemmas.cons-append c (String.◌∷◌ d "") s ∙ ap (String.◌∷◌ c) (char-append d s)

-- Joining the names that a text is split into gives the text back.
pub join-split_names : (s : String) → join_names (split_names s) ≡ s
unfolding split_names join_names
join-split_names String.[] = refl
join-split_names (String.◌∷◌ c String.[]) = refl
join-split_names (String.◌∷◌ c (String.◌∷◌ d s)) =
    elim (Bool-cases (String.◌∷◌ c (String.◌∷◌ d "") == ", ")) [
      | inl both ↦ rw both (
          join-empty (split_names s) (split_names-cons s)
          ∙ ap (λ t. ", " ⧺ t) (join-split_names s)
          ∙ ap (λ t. t ⧺ s) (sym ((eq_iff (String.◌∷◌ c (String.◌∷◌ d "")) ", ").0 both))
          ∙ two-append c d s)
      | inr other ↦ rw other (
          rw (join-begun_with c (split_names (String.◌∷◌ d s)), join-split_names (String.◌∷◌ d s))
            refl)
    ]

-- If more than ten clusters use a secret, then the warning shows some of the text of their names,
-- which it begins with and which is followed by a separator, and three dots for the rest.
pub using_names-shortens :
    (s : String)
    → ltb 10 (length (split_names s)) ≡ true
    → (shown rest : String) × (using_names (str s) ≡ str (shown ⧺ ", ..."))
      × (s ≡ shown ⧺ ", " ⧺ rest)
unfolding using_names
using_names-shortens s many =
    let (shown, rest, l, r) = join-first_names 9 (split_names s) many in
    (shown, rest, rw many (ap str l), sym (join-split_names s) ∙ r)
