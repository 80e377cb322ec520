-- ===== src/Theme/Tests.antt =====
-- Runs of the theme.
use postgresql_cluster.Common.{none, ◌≡◌, refl}
use postgresql_cluster.Theme.{
  dark, prefers_light, prefers_dark, light_theme, dark_theme, initial_theme, set_theme_mode,
  update_system_theme,
}

-- The system's preference is followed until a mode is chosen.
followed_test :
    (update_system_theme prefers_light (initial_theme none prefers_dark)).actual_theme ≡ light_theme
unfolding update_system_theme initial_theme
followed_test = refl

chosen_test :
    (update_system_theme prefers_light
      (set_theme_mode dark prefers_light (initial_theme none prefers_dark))).actual_theme
    ≡ dark_theme
unfolding update_system_theme set_theme_mode
chosen_test = refl
