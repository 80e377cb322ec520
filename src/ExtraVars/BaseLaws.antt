-- ===== src/ExtraVars/BaseLaws.antt =====
-- What the whole of the extra vars of the expert mode says: no part of the object literal
-- overrides another.
use Prim.Native.Char.{Char, code}
use text.Mathlib.TextLemmas.{cons-append, head-eq_of_cons-eq}
use postgresql_cluster.ExtraVars.BackupLaws.{InstallsChosen, backup_extra_vars-Installs}
use postgresql_cluster.Params.{convert_modal_parameters_to_array}
use postgresql_cluster.ExtraVars.Base.{pgbouncer_pool, extension_list, sync_extra_vars, expert_head}
use postgresql_cluster.ExtraVars.Extensions.{enable_key}
use postgresql_cluster.ExtraVars.ExtensionLaws.{get_extensions-other}
use postgresql_cluster.Common.{
  or_else-none, refl, [], ◌∷◌, ne_test, sym, ◌∙◌, ap, ◌≢◌, List, true, arith,
}
use postgresql_cluster.Common.{◌≡◌, String, none, ◌==◌, false}
use postgresql_cluster.Js.{
  Js, Props, field, ok, bind-eq-ok, map_items, ok-injective, Result, Ensures, lookup, Ensures-if,
  ◌≔◌, end, bool, ◌⊕◌, obj, object_laws, Ensures-ok,
}
use postgresql_cluster.ExtraVars.Base.{
  expert_base_extra_vars, expert_object, postgresql_database, postgresql_user, pool_extra_vars,
  parameter_extra_vars, kernel_extra_vars,
}
use postgresql_cluster.ExtraVars.Backups.{backup_extra_vars}
use postgresql_cluster.ExtraVars.Extensions.{Chosen, get_extensions}
use postgresql_cluster.Fields.Databases
use postgresql_cluster.Fields.KernelParameters
use postgresql_cluster.Fields.PostgresParameters
use postgresql_cluster.Fields.Pools
use Prim.Native.String.{◌∷◌}

-- The parts of the extra vars of the expert mode.
pub record ExpertParts (values r : Props) : Type 0 where
  pub extensions : Chosen
  pub databases : Js
  pub users : Js
  pub pools : Props
  pub backups : Props
  pub parameters : Props
  pub kernel : Props
  pub from_extensions : get_extensions values ≡ ok extensions
  pub from_databases :
      map_items postgresql_database (field values Databases.databases) ≡ ok databases
  pub from_users : map_items postgresql_user (field values Databases.databases) ≡ ok users
  pub from_pools : pool_extra_vars values ≡ ok pools
  pub from_backups : backup_extra_vars values ≡ ok backups
  pub from_parameters : parameter_extra_vars values ≡ ok parameters
  pub from_kernel : kernel_extra_vars values ≡ ok kernel
  pub result : expert_object values extensions databases users pools backups parameters kernel ≡ r

pub expert_parts : (values r : Props) → expert_base_extra_vars values ≡ ok r → ExpertParts values r
unfolding expert_base_extra_vars
expert_parts values r e =
    let (extensions, from_extensions, e1) = bind-eq-ok (get_extensions values) _ e in
    let (databases, from_databases, e2) =
      bind-eq-ok (map_items postgresql_database (field values Databases.databases)) _ e1 in
    let (users, from_users, e3) =
      bind-eq-ok (map_items postgresql_user (field values Databases.databases)) _ e2 in
    let (pools, from_pools, e4) = bind-eq-ok (pool_extra_vars values) _ e3 in
    let (backups, from_backups, e5) = bind-eq-ok (backup_extra_vars values) _ e4 in
    let (parameters, from_parameters, e6) = bind-eq-ok (parameter_extra_vars values) _ e5 in
    let (kernel, from_kernel, e7) = bind-eq-ok (kernel_extra_vars values) _ e6 in
    record {
      extensions = extensions;
      databases = databases;
      users = users;
      pools = pools;
      backups = backups;
      parameters = parameters;
      kernel = kernel;
      from_extensions = from_extensions;
      from_databases = from_databases;
      from_users = from_users;
      from_pools = from_pools;
      from_backups = from_backups;
      from_parameters = from_parameters;
      from_kernel = from_kernel;
      result = ok-injective _ r e7;
    }

-- The part of an object literal that a computation gives has nothing at a key.
abbrev Lacks : String → Result Props → Type 0
Lacks k m = Ensures (λ r. lookup r k ≡ none) m

-- Only texts that begin like it are the name of a variable that enables an extension.
enable_key-ne :
    (c : Char) (k key : String) → code c ≢ b'e' → (enable_key key == String.◌∷◌ c k) ≡ false
enable_key-ne c k key h =
    ne_test _ _
      (λ p. h (sym (ap code (head-eq_of_cons-eq (sym (cons-append "e" "nable_" key) ∙ p)))))

module _ (values : Props) (k : String) where
  pool-Lacks : ("pgbouncer_pools" == k) ≡ false → Lacks k (pool_extra_vars values)
  unfolding pool_extra_vars lookup
  pool-Lacks h =
      Ensures-if (λ r. lookup r k ≡ none) _ (map_items pgbouncer_pool (field values Pools.pools))
        (λ pools. "pgbouncer_pools" ≔ pools) end (λ pools. rw h) refl

  parameter-Lacks :
      ("local_postgresql_parameters" == k) ≡ false → Lacks k (parameter_extra_vars values)
  unfolding parameter_extra_vars lookup
  parameter-Lacks h =
      Ensures-if (λ r. lookup r k ≡ none) _
        (convert_modal_parameters_to_array (field values PostgresParameters.postgres_parameters))
        (λ found. "local_postgresql_parameters" ≔ found) end (λ found. rw h) refl

  kernel-Lacks :
      ("sysctl_set" == k) ≡ false
      → ("sysctl_conf" == k) ≡ false
      → Lacks k (kernel_extra_vars values)
  unfolding kernel_extra_vars lookup
  kernel-Lacks h g =
      Ensures-if (λ r. lookup r k ≡ none) _
        (convert_modal_parameters_to_array (field values KernelParameters.kernel_parameters))
        (λ found. "sysctl_set" ≔ bool true ⊕ "sysctl_conf" ≔ obj ("postgres_cluster" ≔ found)) end
        (λ found. simp object_laws (unfold lookup in rw (h, g))) refl

extension_list-lookup :
    (db : List Js) (k : String)
    → ("postgresql_extensions" == k) ≡ false
    → lookup (extension_list db) k ≡ none
unfolding lookup
extension_list-lookup [] k h = refl
extension_list-lookup (x ∷ xs) k h = rw h

sync-lookup :
    (values : Props) (k : String)
    → ("synchronous_mode" == k) ≡ false
    → ("synchronous_node_count" == k) ≡ false
    → ("synchronous_mode_strict" == k) ≡ false
    → lookup (sync_extra_vars values) k ≡ none
unfolding sync_extra_vars
sync-lookup values k h g f = simp object_laws (unfold lookup in rw (h, g, f) (ground arith))

-- A name that the parts other than the backups and the extensions do not set.
record IsAside (k : String) : Type 0 where
  environment_id : ("environment_id" == k) ≡ false
  description : ("description" == k) ≡ false
  postgresql_databases : ("postgresql_databases" == k) ≡ false
  postgresql_users : ("postgresql_users" == k) ≡ false
  pgbouncer_install : ("pgbouncer_install" == k) ≡ false
  netdata_install : ("netdata_install" == k) ≡ false
  pgbouncer_pools : ("pgbouncer_pools" == k) ≡ false
  postgresql_extensions : ("postgresql_extensions" == k) ≡ false
  local_postgresql_parameters : ("local_postgresql_parameters" == k) ≡ false
  sysctl_set : ("sysctl_set" == k) ≡ false
  sysctl_conf : ("sysctl_conf" == k) ≡ false
  synchronous_mode : ("synchronous_mode" == k) ≡ false
  synchronous_node_count : ("synchronous_node_count" == k) ≡ false
  synchronous_mode_strict : ("synchronous_mode_strict" == k) ≡ false

head-lookup :
    (values : Props) (databases users : Js) (k : String)
    → IsAside k
    → lookup (expert_head values databases users) k ≡ none
unfolding expert_head lookup
head-lookup values databases users k aside = simp object_laws (
    rw (
      aside.environment_id, aside.description, aside.postgresql_databases, aside.postgresql_users,
      aside.pgbouncer_install, aside.netdata_install,
    ))

module _ {values r : Props} (p : ExpertParts values r) (k : String) (aside : IsAside k)
    (plain : (key : String) → (enable_key key == k) ≡ false) where
  -- Such a variable is what the backups say.
  at_backups : lookup r k ≡ lookup p.backups k
  at_backups =
      let pools =
        Ensures-ok (λ r. lookup r k ≡ none) (pool_extra_vars values) p.pools
          (pool-Lacks values k aside.pgbouncer_pools) p.from_pools in
      let parameters =
        Ensures-ok (λ r. lookup r k ≡ none) (parameter_extra_vars values) p.parameters
          (parameter-Lacks values k aside.local_postgresql_parameters) p.from_parameters in
      let kernel =
        Ensures-ok (λ r. lookup r k ≡ none) (kernel_extra_vars values) p.kernel
          (kernel-Lacks values k aside.sysctl_set aside.sysctl_conf) p.from_kernel in
      let extensions = get_extensions-other values p.extensions k plain p.from_extensions in
      let list = extension_list-lookup p.extensions.db k aside.postgresql_extensions in
      let sync =
        sync-lookup values k aside.synchronous_mode aside.synchronous_node_count
          aside.synchronous_mode_strict in
      let head = head-lookup values p.databases p.users k aside in
      rw (← p.result)
        (simp (object_laws, head, pools, list, extensions, parameters, kernel, sync, or_else-none))

-- In the expert mode the variables that install a backup tool are exactly those of the method
-- that the form chose: no extension and no other part of the form overrides them.
pub expert_base-Installs :
    (values r : Props) → expert_base_extra_vars values ≡ ok r → InstallsChosen values r
expert_base-Installs values r e =
    let p = expert_parts values r e in
    let own =
      Ensures-ok (InstallsChosen values) (backup_extra_vars values) p.backups
        (backup_extra_vars-Installs values) p.from_backups in
    let pgbackrest =
      at_backups p "pgbackrest_install"
        (record {
          environment_id = refl;
          description = refl;
          postgresql_databases = refl;
          postgresql_users = refl;
          pgbouncer_install = refl;
          netdata_install = refl;
          pgbouncer_pools = refl;
          postgresql_extensions = refl;
          local_postgresql_parameters = refl;
          sysctl_set = refl;
          sysctl_conf = refl;
          synchronous_mode = refl;
          synchronous_node_count = refl;
          synchronous_mode_strict = refl;
        })
        (λ key. enable_key-ne "p" "gbackrest_install" key (omega arith)) in
    let wal_g =
      at_backups p "wal_g_install"
        (record {
          environment_id = refl;
          description = refl;
          postgresql_databases = refl;
          postgresql_users = refl;
          pgbouncer_install = refl;
          netdata_install = refl;
          pgbouncer_pools = refl;
          postgresql_extensions = refl;
          local_postgresql_parameters = refl;
          sysctl_set = refl;
          sysctl_conf = refl;
          synchronous_mode = refl;
          synchronous_node_count = refl;
          synchronous_mode_strict = refl;
        })
        (λ key. enable_key-ne "w" "al_g_install" key (omega arith)) in
    ground (arith, own, pgbackrest, wal_g)
