-- ===== src/Api/Laws.antt =====
-- Which queries a mutation makes stale.
use postgresql_cluster.Common.{
  String, ◌≡◌, refl, ap, sym, ◌∙◌, ◌⊎◌, inl, inr, List, [], ◌∷◌, ◌++◌, map, All,
}
use postgresql_cluster.Js.{Js, arr, obj, Items, items, Props, field, chain, lookup, ◌≔◌}
use postgresql_cluster.Api.Kinds.{Endpoint, Tag, tag, list_tag, item_tags, list_tags}
use postgresql_cluster.Api.Clusters.{
  post_clusters, get_clusters, get_clusters_by_id, delete_clusters_by_id,
  post_clusters_by_id_refresh, post_clusters_by_id_reinit, post_clusters_by_id_reload,
  post_clusters_by_id_restart, post_clusters_by_id_stop, post_clusters_by_id_start,
  post_clusters_by_id_remove,
}
use postgresql_cluster.Api.Secrets.{
  post_secrets, get_secrets, patch_secrets_by_id, delete_secrets_by_id,
}
use postgresql_cluster.Api.Environments.{
  get_environments, post_environments, delete_environments_by_id,
}
use postgresql_cluster.Api.Projects.{
  post_projects, get_projects, patch_projects_by_id, delete_projects_by_id,
}
use postgresql_cluster.Api.Settings.{post_settings, get_settings}

abbrev pub HasTag : Tag → List Tag → Type 0
HasTag t [] = ⊥
HasTag t (u ∷ tags) = (t ≡ u) ⊎ HasTag t tags

-- A tag is both invalidated and provided.
abbrev pub IsStale : List Tag → List Tag → Type 0
IsStale [] provided = ⊥
IsStale (t ∷ invalidated) provided = HasTag t provided ⊎ IsStale invalidated provided

HasTag-append : (t : Tag) (a b : List Tag) → HasTag t b → HasTag t (a ++ b)
HasTag-append t [] b h = h
HasTag-append t (u ∷ a) b h = inr (HasTag-append t a b h)

HasTag-of_left : (t : Tag) (a b : List Tag) → HasTag t a → HasTag t (a ++ b)
HasTag-of_left t [] b h = absurd h
HasTag-of_left t (u ∷ a) b (inl same) = inl same
HasTag-of_left t (u ∷ a) b (inr h) = inr (HasTag-of_left t a b h)

list_tags-HasTag : (type : String) (result : Js) → HasTag (list_tag type) (list_tags type result)
list_tags-HasTag type result =
    HasTag-append (list_tag type) (item_tags type (chain result "data")) (list_tag type ∷ [])
      (inl refl)

-- The mutations that create or remove an entry of a list, each with the query for the list.
abbrev pub list_changes : List (Endpoint × Endpoint)
list_changes =
    (post_clusters, get_clusters)
    ∷ (delete_clusters_by_id, get_clusters)
    ∷ (post_clusters_by_id_remove, get_clusters)
    ∷ (post_secrets, get_secrets)
    ∷ (delete_secrets_by_id, get_secrets)
    ∷ (post_environments, get_environments)
    ∷ (delete_environments_by_id, get_environments)
    ∷ (post_projects, get_projects)
    ∷ (delete_projects_by_id, get_projects)
    ∷ (post_settings, get_settings)
    ∷ []

-- Every mutation that creates or removes a cluster, a secret, an environment, a project or a
-- setting invalidates a tag that each query for the list of those provides, whatever the
-- arguments of the two are and whatever the query gave.
pub list_changes-IsStale :
    (arg other : Props) (result : Js)
    → All (λ p. IsStale (p.0.invalidates arg) (p.1.provides other result)) list_changes
list_changes-IsStale arg other result =
    let clusters = list_tags-HasTag "Clusters" result in
    let secrets = list_tags-HasTag "Secrets" result in
    let environments = list_tags-HasTag "Environments" result in
    let projects = list_tags-HasTag "Projects" result in
    let settings = list_tags-HasTag "Settings" result in
    (
      inl clusters,
      (
        inl clusters,
        (
          inl clusters,
          (
            inl secrets,
            (
              inl secrets,
              (
                inl environments,
                (inl environments, (inl projects, (inl projects, (inl settings, tt)))),
              ),
            ),
          ),
        ),
      ),
    )

-- An item of a list.
abbrev pub HasItem : Js → List Js → Type 0
HasItem item [] = ⊥
HasItem item (x ∷ xs) = (item ≡ x) ⊎ HasItem item xs

map-HasTag :
    (type : String) (id item : Js) (xs : List Js)
    → chain item "id" ≡ id
    → HasItem item xs
    → HasTag (tag type id) (map (λ x. tag type (chain x "id")) xs)
map-HasTag type id item [] same h = absurd h
map-HasTag type id item (x ∷ xs) same (inl here) =
    inl (ap (tag type) (sym same ∙ ap (λ (v : Js). chain v "id") here))
map-HasTag type id item (x ∷ xs) same (inr there) = inr (map-HasTag type id item xs same there)

shown-HasTag :
    (type : String) (id item : Js) (xs : Items)
    → HasItem item (items xs)
    → chain item "id" ≡ id
    → HasTag (tag type id) (list_tags type (obj ("data" ≔ arr xs)))
unfolding field lookup
shown-HasTag type id item xs has same =
    HasTag-of_left (tag type id) (item_tags type (arr xs)) (list_tag type ∷ [])
      (map-HasTag type id item (items xs) same has)

-- The mutations that change an entry, each with the query for the list of those.
abbrev pub item_changes : List (Endpoint × Endpoint)
item_changes =
    (post_clusters_by_id_refresh, get_clusters)
    ∷ (post_clusters_by_id_reinit, get_clusters)
    ∷ (post_clusters_by_id_reload, get_clusters)
    ∷ (post_clusters_by_id_restart, get_clusters)
    ∷ (post_clusters_by_id_stop, get_clusters)
    ∷ (post_clusters_by_id_start, get_clusters)
    ∷ (patch_secrets_by_id, get_secrets)
    ∷ (patch_projects_by_id, get_projects)
    ∷ []

-- Every mutation that changes a cluster, a secret or a project by its identifier invalidates a
-- tag of each list of those in which an item has the identifier; those of a cluster also
-- invalidate the tag of the query for the cluster.
pub item_changes-IsStale :
    (arg other : Props) (xs : Items) (item : Js)
    → HasItem item (items xs)
    → chain item "id" ≡ field arg "id"
    → All
        (λ p. IsStale (p.0.invalidates arg) (p.1.provides other (obj ("data" ≔ arr xs))))
        item_changes
      × IsStale (post_clusters_by_id_refresh.invalidates arg) (get_clusters_by_id.provides arg item)
unfolding field lookup
item_changes-IsStale arg other xs item has same =
    let clusters = shown-HasTag "Clusters" (field arg "id") item xs has same in
    let secrets = shown-HasTag "Secrets" (field arg "id") item xs has same in
    let projects = shown-HasTag "Projects" (field arg "id") item xs has same in
    (
      (
        inl clusters,
        (
          inl clusters,
          (
            inl clusters,
            (inl clusters, (inl clusters, (inl clusters, (inl secrets, (inl projects, tt))))),
          ),
        ),
      ),
      inl (inl refl),
    )
