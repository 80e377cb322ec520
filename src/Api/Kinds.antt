-- ===== src/Api/Kinds.antt =====
-- Requests, tags and endpoints.
use postgresql_cluster.Common.{String, Option, List, [], ◌∷◌, ◌++◌, map}
use postgresql_cluster.Js.{Js, str, arr, items, Props, chain}

-- What is sent; without a method it is a GET.
pub record ApiRequest : Type 0 where
  pub url : String
  pub method : Option String
  pub params : Option Props
  pub body : Js

-- `{ type, id }`
pub data Tag : Type 0 where
  tag : String → Js → Tag

abbrev pub list_tag : String → Tag
list_tag type = tag type (str "LIST")

abbrev pub item_tags : String → Js → List Tag
item_tags type (arr xs) = map (λ item. tag type (chain item "id")) (items xs)
item_tags type v = []

-- `result?.data ? [...result.data.map(...), LIST] : [LIST]`, for data that is an array or missing.
abbrev pub list_tags : String → Js → List Tag
list_tags type result = item_tags type (chain result "data") ++ (list_tag type ∷ [])

-- A query provides tags for its argument and its result; a mutation invalidates some.
pub record Endpoint : Type 0 where
  pub request : Props → ApiRequest
  pub provides : Props → Js → List Tag
  pub invalidates : Props → List Tag
