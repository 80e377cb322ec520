-- ===== src/Settings.antt =====
-- The submission of the settings: `onSubmit` of console/ui/src/widgets/settings-form/ui/index.tsx,
-- and the modes as console/ui/src/shared/model/constants.ts reads them from the local storage.
use postgresql_cluster.Common.{
  String, Bool, false, not, ◌==◌, ◌&&◌, ◌||◌, Option, none, some, List, [], ◌∷◌, ◌++◌,
  if◌then◌else◌,
}
use postgresql_cluster.Js.{
  Js, undefined, str, obj, Props, end, prop, field, chain, is_str, truthy, to_string, ◌≔◌, ◌⊕◌,
  Result, ok, thrown,
}
use postgresql_cluster.Fields.Settings
mod Laws
mod Tests

-- The entries `isExpertMode` and `isYamlEnabled` of the local storage.
pub record Storage : Type 0 where
  pub is_expert_mode : Option String
  pub is_yaml_enabled : Option String

-- What a submission does outside of the storage.
pub data SettingsEffect : Type 0 where
  dispatched : SettingsEffect
  patched : Js → SettingsEffect
  posted : Js → SettingsEffect
  toasted : SettingsEffect
  reset : Props → SettingsEffect
  caught : SettingsEffect

-- `localStorage.getItem(...)?.toString() === 'true'`
abbrev pub read_mode : Option String → Bool
read_mode none = false
read_mode (some s) = s == "true"

-- `settings.data?.data?.find((value) => value?.name === 'proxy_env')?.value`
unfoldable pub proxy_value : List Js → Js
proxy_value [] = undefined
proxy_value (setting ∷ settings) =
    let rest = proxy_value settings in
    if is_str (chain setting "name") "proxy_env" then chain setting "value" else rest

-- `filledFormValues`
unfoldable pub filled_form_values : Props → Props
filled_form_values end = end
filled_form_values (prop k v ps) =
    let rest = filled_form_values ps in
    if not (is_str v "") && not (k == Settings.is_expert_mode_enabled) then prop k v rest else rest

abbrev pub modes_changed : Props → Bool
modes_changed dirty =
    truthy (field dirty Settings.is_expert_mode_enabled)
    || truthy (field dirty Settings.is_yaml_enabled)

abbrev pub proxies_changed : Props → Bool
proxies_changed dirty =
    truthy (field dirty Settings.http_proxy) || truthy (field dirty Settings.https_proxy)

unfoldable pub saved_modes : Props → Props → Storage → Storage
unfolding to_string
saved_modes dirty values s =
    if modes_changed dirty
    then record {
      is_expert_mode = some (to_string (field values Settings.is_expert_mode_enabled));
      is_yaml_enabled = some (to_string (field values Settings.is_yaml_enabled));
    }
    else s

-- The request for the setting `proxy_env`.
unfoldable pub proxy_request : Bool → List Js → Props → SettingsEffect
unfolding proxy_value filled_form_values
proxy_request is_dirty settings values =
    if truthy (proxy_value settings) && is_dirty
    then patched (
        obj (
          "name" ≔ str "proxy_env"
          ⊕ "requestChangeSetting" ≔ obj ("value" ≔ obj (filled_form_values values))))
    else posted (
        obj (
          "requestCreateSetting"
          ≔ obj ("name" ≔ str "proxy_env" ⊕ "value" ≔ obj (filled_form_values values))))

-- What follows the reply.
abbrev pub after_reply : Props → Result Js → List SettingsEffect
after_reply values (ok response) = toasted ∷ reset values ∷ []
after_reply values thrown = caught ∷ []

-- `onSubmit`, with the reply of the server: the storage after it, and its effects in their order.
unfoldable pub submit_settings :
    Props → Bool → List Js → Result Js → Props → Storage → Storage × List SettingsEffect
unfolding saved_modes proxy_request
submit_settings dirty is_dirty settings reply values s = (
  saved_modes dirty values s,
  (if modes_changed dirty then dispatched ∷ [] else [])
      ++ (if proxies_changed dirty
          then proxy_request is_dirty settings values ∷ after_reply values reply
          else reset values ∷ []),
)
