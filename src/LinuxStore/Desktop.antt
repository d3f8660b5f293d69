-- ===== src/LinuxStore/Desktop.antt =====
-- src/platform/linux/cinnamon-interface.c. GSettings is a parameter.
use system_settings.Prelude.{
  Bool, false, ◌&&◌, ◌||◌, not, Option, none, some, Bytes, codes, is_some, if◌then◌else◌, ◌==◌, ℤ,
  pos, negsuc,
}

-- "org.cinnamon.desktop.interface" and "org.gnome.desktop.interface"
pub data Schema : Type 0 where
  cinnamon gnome : Schema

-- a `GVariant`, by the types that the code asks for
pub data Value : Type 0 where
  boolean : Bool → Value
  int32 : ℤ → Value
  other_type : Value

pub record Desktop (W : Type 0) : Type 0 where
  -- `g_settings_schema_source_get_default () != NULL`, `g_settings_schema_source_lookup`,
  -- `g_settings_schema_has_key`
  pub has_source : Bool
  pub has_schema : Schema → Bool
  pub schema_has_key : Schema → Bytes → Bool
  -- `g_settings_get_value`, `none` for NULL; `g_settings_get_boolean`
  pub get_value : Bytes → W → Option Value
  pub get_flag : Bytes → W → Bool
  -- on the Cinnamon settings
  pub set_flag : Bytes → Bool → W → W × Bool
  pub set_int : Bytes → ℤ → W → W × Bool
  -- on the GNOME settings
  pub set_string : Bytes → Bytes → W → W × Bool
  pub sync : W → W

abbrev pub use_24h_key : Bytes
use_24h_key = codes "clock-use-24h"

abbrev pub show_seconds_key : Bytes
show_seconds_key = codes "clock-show-seconds"

abbrev pub first_day_key : Bytes
first_day_key = codes "first-day-of-week"

module _ {W : Type 0} (d : Desktop W) where
  -- whether there are settings, or NULL
  unfoldable pub settings_new : Bool
  settings_new =
      d.has_source
      && d.has_schema cinnamon
      && d.schema_has_key cinnamon use_24h_key
      && d.schema_has_key cinnamon show_seconds_key

  -- `lookup_interface_schema`
  abbrev pub has_interface_schema : Bool
  has_interface_schema = d.has_source && d.has_schema cinnamon

  unfoldable pub has_key : Option Bytes → Bool
  has_key none = false
  has_key (some key) = has_interface_schema && d.schema_has_key cinnamon key

  -- `settings` is whether the pointer is not NULL; `none` is false.
  unfoldable pub get_boolean : Bool → Option Bytes → W → Option Bool
  unfolding has_key
  get_boolean settings none w = none
  get_boolean settings (some key) w =
      let value : Option Bool = elim (d.get_value key w) [ some (boolean b) ↦ some b | _ ↦ none ] in
      if not settings || not (has_key (some key)) then none else value

  unfoldable pub set_boolean : Bool → Option Bytes → Bool → W → W × Bool
  unfolding get_boolean
  set_boolean settings none value w = (w, false)
  set_boolean settings (some key) value w =
      if not (is_some (get_boolean settings (some key) w))
      then (w, false)
      else d.set_flag key value w

  unfoldable pub get_first_day : Bool → W → Option ℤ
  unfolding has_key
  get_first_day settings w =
      let value : Option ℤ = elim (d.get_value first_day_key w) [
        | some (int32 n) ↦ some n
        | _ ↦ none
      ] in
      if not settings || not (has_key (some first_day_key)) then none else value

  -- `value == 7 || value == 0 || value == 1`
  abbrev pub is_first_day : ℤ → Bool
  is_first_day (pos n) = n == 7 || n == 0 || n == 1
  is_first_day (negsuc n) = false

  unfoldable pub set_first_day : Bool → ℤ → W → W × Bool
  unfolding get_first_day
  set_first_day settings value w =
      if not (is_first_day value) || not (is_some (get_first_day settings w))
      then (w, false)
      else d.set_int first_day_key value w

  unfoldable pub set_clock_use_24h : Bool → Bool → W → W × Bool
  unfolding set_boolean
  set_clock_use_24h settings use_24h w =
      let (w1, ok) = set_boolean settings (some use_24h_key) use_24h w in
      if not d.has_source || not (d.has_schema gnome)
      then (w1, ok)
      else if not (d.schema_has_key gnome (codes "clock-format"))
      then (d.sync w1, ok)
      else let (w2, done) =
          d.set_string (codes "clock-format") (if use_24h then codes "24h" else codes "12h") w1 in
        (d.sync w2, done && ok)
