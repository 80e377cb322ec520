-- ===== src/Theme/Laws.antt =====
-- What holds of the theme after any actions.
use postgresql_cluster.Common.{String, Option, some, ◌≡◌, refl}
use postgresql_cluster.Theme.{
  ThemeMode, light, dark, system, ActualTheme, light_theme, dark_theme, Preference, ThemeState,
  mode_text, resolve_actual_theme, get_initial_mode, initial_theme, set_theme_mode,
  update_system_theme, updated,
}

-- The states that the actions lead to, from what the storage held at the start.
pub data IsReachable : ThemeState → Type 0 where
  start :
      (stored : Option String) (preference : Preference)
      → IsReachable (initial_theme stored preference)
  set :
      (payload : ThemeMode) (preference : Preference) (s : ThemeState)
      → IsReachable s
      → IsReachable (set_theme_mode payload preference s)
  update :
      (preference : Preference) (s : ThemeState)
      → IsReachable s
      → IsReachable (update_system_theme preference s)

-- A mode that names a theme is that theme.
abbrev Fits : ThemeMode → ActualTheme → Type 0
Fits light t = t ≡ light_theme
Fits dark t = t ≡ dark_theme
Fits system t = Unit

-- The theme that is shown fits the mode, and the stored entry is read as the mode.
pub record IsConsistent (s : ThemeState) : Type 0 where
  pub shown : Fits s.mode s.actual_theme
  pub saved : get_initial_mode s.stored ≡ s.mode

resolve-Fits :
    (mode : ThemeMode) (preference : Preference) → Fits mode (resolve_actual_theme mode preference)
unfolding resolve_actual_theme
resolve-Fits light preference = refl
resolve-Fits dark preference = refl
resolve-Fits system preference = tt

initial_mode-text : (mode : ThemeMode) → get_initial_mode (some (mode_text mode)) ≡ mode
unfolding get_initial_mode
initial_mode-text light = refl
initial_mode-text dark = refl
initial_mode-text system = refl

updated-IsConsistent :
    (mode : ThemeMode) (preference : Preference) (s : ThemeState)
    → s.mode ≡ mode
    → IsConsistent s
    → IsConsistent (updated mode preference s)
updated-IsConsistent light preference s e c = c
updated-IsConsistent dark preference s e c = c
updated-IsConsistent system preference s e c = record { shown = rw e tt; saved = c.saved }

-- After any actions and changes of the system's preference, a mode other than that of the system
-- is the theme that is shown, and a reload of the page reads the mode back from the storage.
pub reachable-IsConsistent : (s : ThemeState) → IsReachable s → IsConsistent s
unfolding initial_theme set_theme_mode update_system_theme
reachable-IsConsistent _ (start stored preference) = record {
  shown = resolve-Fits (get_initial_mode stored) preference;
  saved = refl;
}
reachable-IsConsistent _ (set payload preference s r) = record {
  shown = resolve-Fits payload preference;
  saved = initial_mode-text payload;
}
reachable-IsConsistent _ (update preference s r) =
    updated-IsConsistent s.mode preference s refl (reachable-IsConsistent s r)
