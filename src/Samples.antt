-- ===== src/Samples.antt =====
-- Data for the witnesses and tests.
use postgresql_cluster.Common.{
  and-true, List, [], ◌∷◌, All, ◌≡◌, ◌⊎◌, inl, inr, ◌&&◌, Bool, true, false, sym, refl, String,
}
use postgresql_cluster.Schemas.{Yup, IsYup}
use postgresql_cluster.Js.{
  null, items, truthy, nan, Js, bool, str, num, arr, obj, Items, nil, cons, Props, end, prop,
  Result, ok, thrown, undefined,
}
use postgresql_cluster.Fields.Cluster
use postgresql_cluster.Fields.DatabaseServers
use postgresql_cluster.Fields.Dcs
use postgresql_cluster.Fields.Secret
use postgresql_cluster.Request.{Platform, IsBase64, IsLodash}

abbrev sample_is_empty : Js → Bool
sample_is_empty (obj (prop k v ps)) = false
sample_is_empty _ = true

-- A platform whose `btoa` leaves the text as it is.
abbrev pub sample_platform : Platform
sample_platform = record { btoa = λ s. ok s; is_empty = sample_is_empty }

pub sample-IsLodash : IsLodash sample_platform.is_empty
sample-IsLodash = record { at_undefined = refl; at_end = refl; at_prop = λ k v ps. refl }

pub sample-IsBase64 : IsBase64 sample_platform.btoa (λ s. ok s)
sample-IsBase64 = record { atob-btoa = λ s e p. sym p }

-- What a computation returned.
abbrev pub result_or {ℓ} : {A : Type ℓ} → A → Result A → A
result_or d (ok a) = a
result_or d thrown = d

abbrev pub server : String → String → Js
server name address = obj (
    prop DatabaseServers.database_hostname (str name) (
      prop DatabaseServers.database_ip_address (str address)
        (prop DatabaseServers.database_location (str "") end)))

abbrev pub three_servers : Items
three_servers =
    cons (server "a" "10.0.0.1") (cons (server "b" "10.0.0.2") (cons (server "c" "10.0.0.3") nil))

abbrev pub local_provider : Js
local_provider = obj (prop "code" (str "local") end)

-- A form for three servers of one's own, with a password.
abbrev pub local_values : Props
local_values = prop Cluster.provider local_provider (
    prop Cluster.creation_type (str "form") (
      prop Cluster.cluster_name (str "pg") (
        prop Cluster.environment_id (num 1) (
          prop Cluster.authentication_method (str "password") (
            prop Secret.username (str "root") (
              prop Secret.password (str "pw") (
                prop Dcs.is_deploy_new_cluster (bool true) (
                  prop Dcs.is_deploy_to_db_servers (bool true) (
                    prop Dcs.type (str "etcd")
                      (prop DatabaseServers.database_servers (arr three_servers) end))))))))))

-- The same cluster, with the YAML editor.
abbrev pub yaml_values : Props
yaml_values = prop Cluster.creation_type (str "yaml") local_values

abbrev pub custom_vars : Props
custom_vars =
    prop "patroni_cluster_name" (str "pg")
      (prop "environment_id" (num 1) (prop "description" (str "d") end))

abbrev sample_string : Js → Bool
sample_string undefined = true
sample_string (str s) = true
sample_string _ = false

abbrev all_of : (Js → Bool) → List Js → Bool
all_of p [] = true
all_of p (x ∷ xs) = p x && all_of p xs

abbrev sample_array : (Js → Bool) → Js → Bool
sample_array p undefined = true
sample_array p (arr xs) = all_of p (items xs)
sample_array p _ = false

-- A yup that behaves as documented.
abbrev pub sample_yup : Yup
sample_yup = record {
  required_string = λ v. sample_string v && truthy v;
  string = sample_string;
  boolean = λ v. true;
  number = λ v. true;
  required_number = truthy;
  object = λ v. true;
  required_object = truthy;
  array = sample_array;
  optional_mixed = λ v. true;
  is_v4 = truthy;
}

sample_string-text :
    (v : Js) → sample_string v ≡ true → (v ≡ undefined) ⊎ ((s : String) × (v ≡ str s))
sample_string-text undefined h = inl refl
sample_string-text (str s) h = inr (s, refl)
sample_string-text null h = cc
sample_string-text nan h = cc
sample_string-text (bool b) h = cc
sample_string-text (num n) h = cc
sample_string-text (arr xs) h = cc
sample_string-text (obj ps) h = cc

all_of-All : (p : Js → Bool) (l : List Js) → all_of p l ≡ true → All (λ x. p x ≡ true) l
all_of-All p [] h = tt
all_of-All p (x ∷ xs) h =
    let (first, rest) = and-true (p x) (all_of p xs) h in (first, all_of-All p xs rest)

sample_array-each :
    (p : Js → Bool) (v : Js)
    → sample_array p v ≡ true
    → (v ≡ undefined) ⊎ ((xs : Items) × (v ≡ arr xs) × All (λ x. p x ≡ true) (items xs))
sample_array-each p undefined h = inl refl
sample_array-each p (arr xs) h = inr (xs, refl, all_of-All p (items xs) h)
sample_array-each p null h = cc
sample_array-each p nan h = cc
sample_array-each p (bool b) h = cc
sample_array-each p (num n) h = cc
sample_array-each p (str s) h = cc
sample_array-each p (obj ps) h = cc

pub sample-IsYup : IsYup sample_yup
sample-IsYup = record {
  required = λ v h. (and-true (sample_string v) (truthy v) h).1;
  text = sample_string-text;
  each = sample_array-each;
}
