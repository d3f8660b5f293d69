-- ===== src/SystemTimeService/Lifetime.antt =====
-- The service object, its observer, and the calls under way. One service is modelled: its memory is a
-- cell, `none` once freed, and an operation that reads freed memory has no result.
use system_settings.Prelude.{
  ℕ, ◌+◌, ◌-◌, ◌%◌, Bool, false, true, ◌&&◌, not, Option, none, some, List, [], ◌∷◌, Bytes, is_some,
  if◌then◌else◌, ◌==◌, ℤ,
}
use system_settings.SystemTimeService.Reading.{Proxy, SystemTimeState, cleared, read}
use system_settings.SystemTimeService.Results.{
  SystemTimeResult, ok, protocol_error, GError, result_from_error, result_message,
}

-- `SsSystemTimeService`; its proxy, where there is one, is the `bus` of the world.
pub record Service : Type 0 where
  pub references : ℕ
  pub has_proxy : Bool
  pub properties_changed_id : ℕ
  pub owner_changed_id : ℕ
  pub changed_callback : Bool
  pub changed_user_data : ℕ

-- the `GVariant` of a method's parameters
pub data Parameters : Type 0 where
  timezone_interactive : Bytes → Bool → Parameters
  ntp_interactive : Bool → Bool → Parameters
  time_relative_interactive : ℤ → Bool → Bool → Parameters

-- `SsSystemTimeCall`, with the request that was sent
pub record Call : Type 0 where
  pub method : Bytes
  pub parameters : Parameters
  pub callback : Bool
  pub user_data : ℕ

-- the callbacks that were run
pub data Event : Type 0 where
  completed : ℕ → SystemTimeResult → Option Bytes → Event
  changed : ℕ → SystemTimeState → Event

pub record World : Type 0 where
  pub cell : Option Service
  pub bus : Proxy
  -- the handlers of the proxy that have the service as their data
  pub properties_connected : Bool
  pub owner_connected : Bool
  -- the calls that GDBus has not finished, and those inside their callback
  pub calls : List Call
  pub returning : List Call
  pub log : List Event

-- a `SsSystemTimeService *`
pub data Pointer : Type 0 where
  null to_cell : Pointer

-- `unsigned int` has 32 bits.
abbrev pub unsigned_size : ℕ
unsigned_size = 4294967296

abbrev pub proxy_of : Service → World → Option Proxy
proxy_of s w = if s.has_proxy then some w.bus else none

-- `none` is NULL; the identifiers are those of the two `g_signal_connect`.
unfoldable pub service_from_proxy : Option Proxy → ℕ → ℕ → Option World
service_from_proxy none properties_id owner_id = none
service_from_proxy (some proxy) properties_id owner_id = some (record {
  cell = some (record {
    references = 1;
    has_proxy = true;
    properties_changed_id = properties_id;
    owner_changed_id = owner_id;
    changed_callback = false;
    changed_user_data = 0;
  });
  bus = proxy;
  properties_connected = true;
  owner_connected = true;
  calls = [];
  returning = [];
  log = [];
})

unfoldable pub emit_changed : Pointer → World → Option World
emit_changed null w = some w
emit_changed to_cell w = elim w.cell [
  | none ↦ none
  | some s ↦
      let state : SystemTimeState = elim (read (proxy_of s w) (some cleared)).0 [
        | none ↦ cleared
        | some t ↦ t
      ] in
      if not s.changed_callback
      then some w
      else some (record w { log = changed s.changed_user_data state ∷ w.log })
]

-- The last reference disconnects the handlers and frees the service.
unfoldable pub service_unref : Pointer → World → Option World
service_unref null w = some w
service_unref to_cell w = elim w.cell [
  | none ↦ none
  | some s ↦
      let references = (s.references + (unsigned_size - 1)) % unsigned_size in
      if not (references == 0)
      then some (record w { cell = some (record s { references = references }) })
      else some (record w {
        cell = none;
        properties_connected =
            if s.has_proxy && not (s.properties_changed_id == 0)
            then false
            else w.properties_connected;
        owner_connected = if not (s.owner_changed_id == 0) then false else w.owner_connected;
      })
]

unfoldable pub set_changed_callback : Pointer → Bool → ℕ → World → Option World
set_changed_callback null callback user_data w = some w
set_changed_callback to_cell callback user_data w = elim w.cell [
  | none ↦ none
  | some s ↦ some (record w {
    cell = some (record s { changed_callback = callback; changed_user_data = user_data });
  })
]

unfoldable pub service_free : Pointer → World → Option World
unfolding service_unref set_changed_callback
service_free null w = some w
service_free to_cell w = elim (set_changed_callback to_cell false 0 w) [
  | none ↦ none
  | some w1 ↦ service_unref to_cell w1
]

-- What the callback is given, if there is one; without one the service is freed.
unfoldable pub new_proxy_finished :
    Option Proxy
    → Option GError
    → Bool
    → ℕ
    → ℕ
    → Option (Option World × Option (SystemTimeResult × Option Bytes))
unfolding service_from_proxy service_free
new_proxy_finished proxy error callback properties_id owner_id =
    let service = service_from_proxy proxy properties_id owner_id in
    let outcome : SystemTimeResult = elim error [
      | some e ↦ result_from_error (some e)
      | none ↦ if is_some service then ok else protocol_error
    ] in
    if callback
    then some (service, some (outcome, result_message outcome error))
    else elim service [
      | none ↦ some (none, none)
      | some w ↦ elim (service_free to_cell w) [ none ↦ none | some w1 ↦ some (some w1, none) ]
    ]
