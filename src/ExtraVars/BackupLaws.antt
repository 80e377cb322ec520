-- ===== src/ExtraVars/BackupLaws.antt =====
-- What the extra vars say about backups.
use postgresql_cluster.Common.{
  String, Bool, true, false, ◌≡◌, refl, Bool-cases, inl, inr, some, none, arith, if◌then◌else◌,
  Option,
}
use postgresql_cluster.Js.{
  Js, bool, Props, end, truthy, is_str, field, lookup, object_laws, Ensures, Result-cases,
  Ensures-ok,
}
use postgresql_cluster.Fields.Backups
use postgresql_cluster.Constants.BackupMethods
use postgresql_cluster.ExtraVars.Backups.{
  backups_enabled, backup_extra_vars, pgbackrest_extra_vars, wal_g_extra_vars, with_config,
  pgbackrest_config, wal_g_config,
}
use postgresql_cluster.Params.{convert_modal_parameters_to_array}

-- Whether pgBackRest is the method that was chosen.
abbrev pub chose_pgbackrest : Props → Bool
chose_pgbackrest values = is_str (field values Backups.backup_method) BackupMethods.pg_back_rest

-- The extra vars hold `v` at the key `k`.
abbrev pub Holds : String → Option Js → Props → Type 0
Holds k v r = lookup r k ≡ v

with_config-Ensures :
    (P : Props → Type 0) (values : Props) (vars : Js → Props)
    → P end
    → ((rows : Js) → P (vars rows))
    → Ensures P (with_config values vars)
unfolding with_config
with_config-Ensures P values vars h k = elim (Bool-cases (truthy (field values Backups.config))) [
  | inl given ↦
      elim (Result-cases (convert_modal_parameters_to_array (field values Backups.config))) [
        | inl (rows, e) ↦ rw (given, e) (k rows)
        | inr e ↦ rw (given, e) tt
      ]
  | inr empty ↦ rw empty h
]

-- What is installed.
abbrev Installs : Option Js → Option Js → Props → Type 0
Installs pgbackrest wal_g r =
    Holds "pgbackrest_install" pgbackrest r × Holds "wal_g_install" wal_g r

pgbackrest-Installs :
    (values : Props) → Ensures (Installs (some (bool true)) none) (pgbackrest_extra_vars values)
unfolding pgbackrest_extra_vars lookup
pgbackrest-Installs values =
    let plain =
      with_config-Ensures (Installs none none) values pgbackrest_config
        (unfold lookup in (refl, refl))
        (λ rows. simp object_laws (unfold lookup in (refl, refl))) in
    elim (Result-cases (with_config values pgbackrest_config)) [
      | inl (config, e) ↦
          let clear =
            Ensures-ok (Installs none none) (with_config values pgbackrest_config) config plain e in
          rw e (simp object_laws (ground arith))
      | inr e ↦ rw e tt
    ]

wal_g-Installs :
    (values : Props) → Ensures (Installs none (some (bool true))) (wal_g_extra_vars values)
unfolding wal_g_extra_vars lookup
wal_g-Installs values =
    let plain =
      with_config-Ensures (Installs none none) values wal_g_config (unfold lookup in (refl, refl))
        (λ rows. simp object_laws (unfold lookup in (refl, refl))) in
    elim (Result-cases (with_config values wal_g_config)) [
      | inl (config, e) ↦
          let clear =
            Ensures-ok (Installs none none) (with_config values wal_g_config) config plain e in
          rw e (simp object_laws (ground arith))
      | inr e ↦ rw e tt
    ]

-- What the form asks to install.
abbrev pub InstallsChosen : Props → Props → Type 0
InstallsChosen values =
    if backups_enabled values
    then (if chose_pgbackrest values
        then Installs (some (bool true)) none
        else Installs none (some (bool true)))
    else Installs (some (bool false)) none

-- The variables of the backups that are returned install the tool that the form chose, and no
-- other; without backups, pgBackRest is ruled out and nothing is said of WAL-G.
pub backup_extra_vars-Installs :
    (values : Props) → Ensures (InstallsChosen values) (backup_extra_vars values)
unfolding backup_extra_vars lookup
backup_extra_vars-Installs values = elim (Bool-cases (backups_enabled values)) [
  | inl enabled ↦ elim (Bool-cases (chose_pgbackrest values)) [
    | inl first ↦ rw (enabled, first) (pgbackrest-Installs values)
    | inr second ↦ rw (enabled, second) (wal_g-Installs values)
  ]
  | inr disabled ↦ rw disabled (simp object_laws (refl, refl))
]
