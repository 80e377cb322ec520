-- ===== src/Settings/Laws.antt =====
-- What the submission of the settings saves.
use postgresql_cluster.Common.{
  ◌∷◌, String, Bool, true, false, ◌≡◌, none, some, List, refl, Option, ◌∷◌, [],
}
use postgresql_cluster.Js.{ok, Js, bool, Props, field, lookup, Result, to_string, obj, ok, chain}
use postgresql_cluster.Fields.Settings
use postgresql_cluster.Settings.{
  Storage, submit_settings, saved_modes, read_mode, modes_changed, SettingsEffect, patched, posted,
}

read_mode-to_string : (b : Bool) → read_mode (some (to_string (bool b))) ≡ b
unfolding to_string
read_mode-to_string true = refl
read_mode-to_string false = refl

-- After a submission in which one of the two modes was changed, both modes are read back from the
-- storage as the form held them, whatever the server replies.
pub submit_settings-read_mode :
    (dirty values : Props) (is_dirty : Bool) (settings : List Js) (reply : Result Js) (s : Storage)
    (expert yaml : Bool)
    → field values Settings.is_expert_mode_enabled ≡ bool expert
    → field values Settings.is_yaml_enabled ≡ bool yaml
    → modes_changed dirty ≡ true
    → (read_mode (submit_settings dirty is_dirty settings reply values s).0.is_expert_mode ≡ expert)
      × (read_mode (submit_settings dirty is_dirty settings reply values s).0.is_yaml_enabled
          ≡ yaml)
unfolding submit_settings saved_modes
submit_settings-read_mode dirty values is_dirty settings reply s expert yaml e y changed =
    rw (changed, e, y) (read_mode-to_string expert, read_mode-to_string yaml)

-- The values of the setting for which requests were made.
abbrev pub requested : List SettingsEffect → List Js
requested [] = []
requested (patched request ∷ effects) =
    chain (chain request "requestChangeSetting") "value" ∷ requested effects
requested (posted request ∷ effects) =
    chain (chain request "requestCreateSetting") "value" ∷ requested effects
requested (effect ∷ effects) = requested effects

-- What a setting holds under a name.
abbrev pub saved_under : String → Js → Option Js
saved_under k (obj ps) = lookup ps k
saved_under k v = none
