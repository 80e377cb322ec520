-- ===== src/Tables/PageLaws.antt =====
-- The pages of a table.
use native.Mathlib.Nat.{div-add-mod', mod-lt, mul-le-mul_left, mul-suc, mul_comm}
use postgresql_cluster.Common.{
  ℕ, zero, suc, ◌+◌, ◌*◌, ◌/◌, ◌≤◌, ◌<◌, ◌≡◌, refl, arith, subst, sym, ◌↔◌, leb, Bool-cases, inl,
  inr,
}
use postgresql_cluster.Js.{num, field, lookup, object_laws}
use postgresql_cluster.Tables.Queries.{Pagination, page_query}

-- The page asks for the item at that position: it is not before the offset, and less than the limit
-- after it.
abbrev pub IsAskedFor : ℕ → Pagination → Type 0
IsAskedFor i p =
    (offset limit : ℕ) × (field (page_query p) "offset" ≡ num offset)
    × (field (page_query p) "limit" ≡ num limit)
    × (offset ≤ i)
    × (i < offset + limit)

abbrev pub page_at : ℕ → ℕ → Pagination
page_at size index = record { page_index = index; page_size = size }

page-IsAskedFor : (size i : ℕ) → zero < size → IsAskedFor i (page_at size (i / size))
unfolding page_query field lookup
page-IsAskedFor size i h =
    let split = div-add-mod' i size in
    let below = mod-lt i h in
    (
      i / size * size,
      size,
      simp object_laws refl,
      simp object_laws refl,
      omega (arith, split),
      omega (arith, split, below),
    )

next-le : (size a b : ℕ) → a * size < b * size + size → a ≤ b
next-le size a b h = elim (Bool-cases (leb a b)) [
  | inl le ↦ ground arith
  | inr above ↦
      let later = mul-le-mul_left {m = suc b} {n = a} size (ground arith) in
      omega (arith, later, mul-suc size b, mul_comm size b, mul_comm size a, h)
]

quotient-eq : (size i j : ℕ) → zero < size → j * size ≤ i → i < j * size + size → j ≡ i / size
quotient-eq size i j h low high =
    let split = div-add-mod' i size in
    let below = mod-lt i h in
    let up = next-le size j (i / size) (omega (arith, split, below, low)) in
    let down = next-le size (i / size) j (omega (arith, split, high)) in omega (arith, up, down)

num-eq : (m n : ℕ) → num m ≡ num n → m ≡ n
num-eq m n h = cc

asked-eq : (size i j : ℕ) → zero < size → IsAskedFor i (page_at size j) → j ≡ i / size
unfolding page_query field lookup
asked-eq size i j h (offset, limit, from, count, low, high) =
    let at_offset : j * size ≡ offset = num-eq (j * size) offset (simp object_laws at from) in
    let at_limit : size ≡ limit = num-eq size limit (simp object_laws at count) in
    quotient-eq size i j h (omega (arith, at_offset, low))
      (omega (arith, at_offset, at_limit, high))

-- An item of a list is asked for by one page of a table, and by no other: the page whose number is
-- the position of the item divided by the size of the pages.
pub page_iff : (size i j : ℕ) → zero < size → (IsAskedFor i (page_at size j) ↔ (j ≡ i / size))
page_iff size i j h = (
  asked-eq size i j h,
  λ e. subst (λ k. IsAskedFor i (page_at size k)) (sym e) (page-IsAskedFor size i h),
)
