-- ===== src/SystemTimeService/Reading.antt =====
-- The proxy of timedated, and the snapshot that is read from the properties it caches.
use system_settings.SystemTimeService.Results.{
  SystemTimeResult, ok, invalid_argument, unavailable, protocol_error,
}
use system_settings.Prelude.{
  ℕ, Bool, false, true, ◌||◌, not, Option, none, some, Bytes, codes, [], is_empty, length, ltb,
  if◌then◌else◌,
}

-- a `GVariant`, by the types that the code asks for
pub data Variant : Type 0 where
  boolean : Bool → Variant
  string : Bytes → Variant
  other_type : Variant

-- a `GDBusProxy`: the owner of the name, and the cached properties at this moment
pub record Proxy : Type 0 where
  pub owner : Option Bytes
  pub property : Bytes → Option Variant

abbrev pub timezone_capacity : ℕ
timezone_capacity = 128

-- `SsSystemTimeState`: the text in front of the first NUL of `timezone`
pub record SystemTimeState : Type 0 where
  pub timezone : Bytes
  pub available : Bool
  pub can_ntp : Bool
  pub ntp_enabled : Bool

-- `memset (state, 0, sizeof (*state))`
abbrev pub cleared : SystemTimeState
cleared = record { timezone = []; available = false; can_ntp = false; ntp_enabled = false }

unfoldable pub variant_boolean : Option Proxy → Option Bytes → Bool → Bool
variant_boolean none name fallback = fallback
variant_boolean (some proxy) none fallback = fallback
variant_boolean (some proxy) (some name) fallback = elim (proxy.property name) [
  | some (boolean value) ↦ value
  | _ ↦ fallback
]

-- behind the checks of the service and the owner
unfoldable pub read_properties : Proxy → SystemTimeState × SystemTimeResult
unfolding variant_boolean
read_properties proxy = elim (proxy.property (codes "NTP")) [
  | some (boolean ntp) ↦ elim (proxy.property (codes "Timezone")) [
    | some (string text) ↦
        if is_empty text || not (ltb (length text) timezone_capacity)
        then (cleared, protocol_error)
        else (
          record {
            timezone = text;
            available = true;
            can_ntp = variant_boolean (some proxy) (some (codes "CanNTP")) false;
            ntp_enabled = variant_boolean (some proxy) (some (codes "NTP")) false;
          },
          ok,
        )
    | _ ↦ (cleared, protocol_error)
  ]
  | _ ↦ (cleared, protocol_error)
]

-- `proxy` is `service->proxy`, or `none` if the service or its proxy is NULL; `state` what the caller's
-- structure holds, or `none` for NULL.
unfoldable pub read :
    Option Proxy → Option SystemTimeState → Option SystemTimeState × SystemTimeResult
unfolding read_properties
read proxy none = (none, invalid_argument)
read none (some state) = (some cleared, unavailable)
read (some proxy) (some state) = elim proxy.owner [
  | none ↦ (some cleared, unavailable)
  | some owner ↦ let (after, result) = read_properties proxy in (some after, result)
]
