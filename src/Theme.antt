-- ===== src/Theme.antt =====
-- The theme of the interface: console/ui/src/app/redux/slices/themeSlice/themeSlice.ts.
use postgresql_cluster.Common.{
  String, Bool, true, false, ◌==◌, Option, none, some, if◌then◌else◌, ◌≡◌, refl,
}
mod Laws
mod Tests

pub data ThemeMode : Type 0 where
  light dark system : ThemeMode

pub data ActualTheme : Type 0 where
  light_theme dark_theme : ActualTheme

-- What the browser says of the system: `matchMedia` may be missing or throw.
pub data Preference : Type 0 where
  prefers_dark prefers_light unavailable : Preference

-- The mode is one of three strings.
abbrev pub mode_text : ThemeMode → String
mode_text light = "light"
mode_text dark = "dark"
mode_text system = "system"

-- The state of the slice, and the entry `themeMode` of the local storage.
pub record ThemeState : Type 0 where
  pub mode : ThemeMode
  pub actual_theme : ActualTheme
  pub stored : Option String

unfoldable pub get_system_theme : Preference → ActualTheme
get_system_theme prefers_dark = dark_theme
get_system_theme prefers_light = light_theme
get_system_theme unavailable = light_theme

unfoldable pub resolve_actual_theme : ThemeMode → Preference → ActualTheme
unfolding get_system_theme
resolve_actual_theme system preference = get_system_theme preference
resolve_actual_theme light preference = light_theme
resolve_actual_theme dark preference = dark_theme

unfoldable pub get_initial_mode : Option String → ThemeMode
get_initial_mode none = system
get_initial_mode (some saved) =
    if saved == "light" then light else if saved == "dark" then dark else system

unfoldable pub initial_theme : Option String → Preference → ThemeState
unfolding get_initial_mode resolve_actual_theme
initial_theme stored preference = record {
  mode = get_initial_mode stored;
  actual_theme = resolve_actual_theme (get_initial_mode stored) preference;
  stored = stored;
}

unfoldable pub set_theme_mode : ThemeMode → Preference → ThemeState → ThemeState
unfolding resolve_actual_theme
set_theme_mode payload preference s = record {
  mode = payload;
  actual_theme = resolve_actual_theme payload preference;
  stored = some (mode_text payload);
}

abbrev pub updated : ThemeMode → Preference → ThemeState → ThemeState
updated system preference s = record {
  mode = s.mode;
  actual_theme = get_system_theme preference;
  stored = s.stored;
}
updated light preference s = s
updated dark preference s = s

unfoldable pub update_system_theme : Preference → ThemeState → ThemeState
unfolding get_system_theme
update_system_theme preference s = updated s.mode preference s
