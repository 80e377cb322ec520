-- ===== src/Tables/Queries.antt =====
-- What the tables ask for: a page, an order, and a range of dates.
use postgresql_cluster.Common.{ℕ, ◌*◌, String, ◌==◌, List, [], ◌∷◌, if◌then◌else◌}
use postgresql_cluster.Js.{
  Js, num, str, Props, chain, truthy, first_of, to_number, to_string, ◌≔◌, ◌⊕◌, when,
}
use postgresql_cluster.Js.Text.{◌⧺◌}

-- `useState({ pageIndex, pageSize })`
pub record Pagination : Type 0 where
  pub page_index : ℕ
  pub page_size : ℕ

-- The first page, of ten rows.
abbrev pub initial_pagination : Pagination
initial_pagination = record { page_index = 0; page_size = 10 }

unfoldable pub page_query : Pagination → Props
page_query p = "offset" ≔ num (p.page_index * p.page_size) ⊕ "limit" ≔ num p.page_size

-- `manageSortingOrder`
unfoldable pub manage_sorting_order : Js → Js
unfolding to_string
manage_sorting_order sorting =
    if truthy (chain sorting "desc")
    then str ("-" ⧺ to_string (chain sorting "id"))
    else chain sorting "id"

abbrev sorting_query : Js → Props
unfolding manage_sorting_order
sorting_query sorting =
    when (truthy (first_of sorting)) ("sortBy" ≔ manage_sorting_order (first_of sorting))

unfoldable pub clusters_query : Js → Pagination → Js → Props
unfolding to_number page_query sorting_query
clusters_query current_project p sorting =
    "projectId" ≔ to_number current_project ⊕ page_query p ⊕ sorting_query sorting

unfoldable pub operations_query : Js → String → String → Pagination → Js → Props
unfolding to_number page_query sorting_query
operations_query current_project start_date end_date p sorting =
    "projectId" ≔ to_number current_project
    ⊕ "startDate" ≔ str start_date
    ⊕ "endDate" ≔ str end_date
    ⊕ page_query p
    ⊕ sorting_query sorting

unfoldable pub secrets_query : Js → Pagination → Props
unfolding to_number page_query
secrets_query current_project p = "projectId" ≔ to_number current_project ⊕ page_query p

-- `startOfDay(...).toISOString()` of the day that was so many days, months or years ago.
pub record Dates : Type 0 where
  pub days_ago : ℕ → String
  pub months_ago : ℕ → String
  pub years_ago : ℕ → String

-- The ranges that the menu offers.
abbrev pub date_ranges : List String
date_ranges =
    "lastDay" ∷ "lastWeek" ∷ "lastMonth" ∷ "lastThreeMonths" ∷ "lastSixMonths" ∷ "lastYear" ∷ []

-- The value of `getOperationsTimeNameValue(name)`
unfoldable pub operations_time_value : Dates → String → String
operations_time_value dates name =
    if name == "lastDay"
    then dates.days_ago 1
    else if name == "lastWeek"
    then dates.days_ago 7
    else if name == "lastMonth"
    then dates.months_ago 1
    else if name == "lastThreeMonths"
    then dates.months_ago 3
    else if name == "lastSixMonths"
    then dates.months_ago 6
    else if name == "lastYear"
    then dates.years_ago 1
    else ""
