-- ===== src/Settings/Theme.antt =====
-- apps/web/src/lib/theme-preference.ts: the visual preferences on the page and in the browser's
-- storage. `JSON.parse`, which may throw, and `JSON.stringify` are arguments. The script that runs
-- before the page is shown is a text of the source and is left out.
use bighead.Common.{
  String, Bool, true, false, ◌≡◌, refl, ◌∙◌, Option, none, some, List, if◌then◌else◌, or_empty,
  ◌==◌, truthy, truthy?, map_get, map_set, map_get-map_set,
}
use bighead.Json.{Json, null, as_string, str, obj, field, end, get}

pub data BigHeadTheme : Type 0 where
  aurora_light radar_dark : BigHeadTheme

pub data BigHeadDensity : Type 0 where
  comfortable compact : BigHeadDensity

pub data BigHeadMotion : Type 0 where
  full reduced : BigHeadMotion

pub record VisualPreferences : Type 0 where
  pub theme : BigHeadTheme
  pub density : BigHeadDensity
  pub motion : BigHeadMotion

-- `documentElement.dataset`
pub record Dataset : Type 0 where
  pub theme : Option String
  pub density : Option String
  pub motion : Option String

abbrev pub theme_name : BigHeadTheme → String
theme_name aurora_light = "aurora-light"
theme_name radar_dark = "radar-dark"

abbrev pub density_name : BigHeadDensity → String
density_name comfortable = "comfortable"
density_name compact = "compact"

abbrev pub motion_name : BigHeadMotion → String
motion_name full = "full"
motion_name reduced = "reduced"

abbrev pub theme_storage_key : String
theme_storage_key = "bighead-theme"

abbrev pub preferences_storage_key : String
preferences_storage_key = "bighead-visual-preferences"

abbrev pub default_visual_preferences : VisualPreferences
default_visual_preferences = record { theme = aurora_light; density = comfortable; motion = full }

abbrev is_text : Option String → String → Bool
is_text none value = false
is_text (some s) value = s == value

-- `storedTheme`, and the same test of the theme elsewhere
unfoldable pub stored_theme : Option String → BigHeadTheme
stored_theme value = if is_text value "radar-dark" then radar_dark else aurora_light

unfoldable pub density_in : Option String → BigHeadDensity
density_in value = if is_text value "compact" then compact else comfortable

unfoldable pub motion_in : Option String → BigHeadMotion
motion_in value = if is_text value "reduced" then reduced else full

abbrev text_in : Json → String → Option String
text_in v key = as_string (get v key)

abbrev is_nothing : Json → Bool
is_nothing null = true
is_nothing _ = false

-- What `JSON.parse` gives; `null` has no fields, so that reading them throws.
unfoldable pub preferences_in : Option Json → VisualPreferences
unfolding stored_theme density_in motion_in
preferences_in none = default_visual_preferences
preferences_in (some v) = if is_nothing v then default_visual_preferences else record {
  theme = stored_theme (text_in v "theme");
  density = density_in (text_in v "density");
  motion = motion_in (text_in v "motion");
}

unfoldable pub stored_visual_preferences :
    (String → Option Json) → Option String → VisualPreferences
unfolding preferences_in
stored_visual_preferences parse value =
    if truthy? value then preferences_in (parse (or_empty value)) else default_visual_preferences

unfoldable pub current_visual_preferences : Dataset → VisualPreferences
unfolding stored_theme density_in motion_in
current_visual_preferences element = record {
  theme = stored_theme element.theme;
  density = density_in element.density;
  motion = motion_in element.motion;
}

abbrev pub preferences_json : VisualPreferences → Json
preferences_json preferences = obj (
    field "theme" (str (theme_name preferences.theme)) (
      field "density" (str (density_name preferences.density))
        (field "motion" (str (motion_name preferences.motion)) end)))

module _ (stringify : Json → String) where
  unfoldable pub persist_visual_preferences :
      VisualPreferences → Dataset → List (String × String) → Dataset × List (String × String)
  unfolding map_set
  persist_visual_preferences preferences element storage = (
    record {
      theme = some (theme_name preferences.theme);
      density = some (density_name preferences.density);
      motion = some (motion_name preferences.motion);
    },
    map_set theme_storage_key (theme_name preferences.theme)
        (map_set preferences_storage_key (stringify (preferences_json preferences)) storage),
  )

  unfoldable pub persist_theme :
      BigHeadTheme → Dataset → List (String × String) → Dataset × List (String × String)
  unfolding persist_visual_preferences current_visual_preferences
  persist_theme theme element storage =
      persist_visual_preferences (record (current_visual_preferences element) { theme = theme })
        element storage

stored_theme-theme_name : (t : BigHeadTheme) → stored_theme (some (theme_name t)) ≡ t
unfolding stored_theme
stored_theme-theme_name aurora_light = refl
stored_theme-theme_name radar_dark = refl

density_in-density_name : (d : BigHeadDensity) → density_in (some (density_name d)) ≡ d
unfolding density_in
density_in-density_name comfortable = refl
density_in-density_name compact = refl

motion_in-motion_name : (m : BigHeadMotion) → motion_in (some (motion_name m)) ≡ m
unfolding motion_in
motion_in-motion_name full = refl
motion_in-motion_name reduced = refl

read_back :
    (t : BigHeadTheme) (d : BigHeadDensity) (m : BigHeadMotion)
    → current_visual_preferences (record {
      theme = some (theme_name t);
      density = some (density_name d);
      motion = some (motion_name m);
    })
      ≡ record { theme = t; density = d; motion = m }
unfolding current_visual_preferences
read_back t d m =
    rw (stored_theme-theme_name t)
      (rw (density_in-density_name d) (rw (motion_in-motion_name m) refl))

stored_back : (p : VisualPreferences) → preferences_in (some (preferences_json p)) ≡ p
unfolding preferences_in
stored_back p =
    rw (stored_theme-theme_name p.theme)
      (rw (density_in-density_name p.density) (rw (motion_in-motion_name p.motion) refl))

stored_at :
    (parse : String → Option Json) (text : String) (v : Json)
    → parse text ≡ some v
    → truthy text ≡ true
    → stored_visual_preferences parse (some text) ≡ preferences_in (some v)
unfolding stored_visual_preferences
stored_at parse text v e h = rw h (rw e refl)

-- The page shows the preferences that were persisted, and a person who chooses a theme keeps the
-- density and the motion that the page showed.
pub current-persist_theme :
    (stringify : Json → String) (theme : BigHeadTheme) (element : Dataset)
    (storage : List (String × String))
    → current_visual_preferences ((persist_theme stringify theme element storage).0)
      ≡ record (current_visual_preferences element) { theme = theme }
unfolding persist_theme persist_visual_preferences current_visual_preferences
current-persist_theme stringify theme element storage =
    read_back theme (density_in element.density) (motion_in element.motion)

-- The next visit starts with the preferences that were persisted, if the parser reads back what the
-- printer wrote of them, which is no empty text.
pub stored-persist :
    (parse : String → Option Json) (stringify : Json → String) (preferences : VisualPreferences)
    (element : Dataset) (storage : List (String × String))
    → parse (stringify (preferences_json preferences)) ≡ some (preferences_json preferences)
    → truthy (stringify (preferences_json preferences)) ≡ true
    → stored_visual_preferences parse (
        map_get preferences_storage_key
          ((persist_visual_preferences stringify preferences element storage).1))
      ≡ preferences
unfolding stored_visual_preferences persist_visual_preferences
stored-persist parse stringify preferences element storage reads full_text =
    rw
      (map_get-map_set theme_storage_key preferences_storage_key (theme_name preferences.theme)
        (map_set preferences_storage_key (stringify (preferences_json preferences)) storage))
      (rw
        (map_get-map_set preferences_storage_key preferences_storage_key
          (stringify (preferences_json preferences)) storage)
        (stored_at parse (stringify (preferences_json preferences)) (preferences_json preferences)
            reads full_text
          ∙ stored_back preferences))
