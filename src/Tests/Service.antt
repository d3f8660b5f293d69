-- ===== src/Tests/Service.antt =====
-- A service that is freed with a call under way.
use system_settings.Prelude.{
  true, false, none, some, [], ◌∷◌, codes, if◌then◌else◌, ◌≡◌, ◌≢◌, ◌↔◌, inl, refl, arith, equal,
}
use system_settings.SystemTimeService.Lifetime.{
  Service, World, Call, to_cell, ntp_interactive, completed, service_from_proxy, service_free,
  set_changed_callback, service_unref,
}
use system_settings.SystemTimeService.Requests.{
  ntp, send, set_ntp, begin_call, deliver, take_call, call_returned,
}
use system_settings.SystemTimeService.Reading.{
  boolean, string, Proxy, cleared, read, read_properties, variant_boolean,
}
use system_settings.SystemTimeService.Results.{
  ok, cancelled, GError, io_cancelled, default_message, result_from_error, result_message,
}
use system_settings.SystemTimeService.Safety.{Attempt-never_faults, Reachable-freed_iff}
use system_settings.SystemTimeService.Snapshot.{Snapped, read-Snapped}
use system_settings.SystemTimeService.Steps.{
  with_owner, holders, freed, sent, returned, Reachable, opened, then_step,
}

-- The properties that timedated announces.
abbrev timedated : Proxy
timedated = record {
  owner = some (codes ":1.7");
  property = λ name.
      if equal name (codes "NTP")
      then some (boolean true)
      else if equal name (codes "Timezone")
      then some (string (codes "Europe/Paris"))
      else none;
}

reads : read (some timedated) (some cleared) ≡ (
  some (record {
    timezone = codes "Europe/Paris";
    available = true;
    can_ntp = false;
    ntp_enabled = true;
  }),
  ok,
)
unfolding read read_properties variant_boolean equal
reads = refl

abbrev new_service : Service
new_service = record {
  references = 1;
  has_proxy = true;
  properties_changed_id = 4;
  owner_changed_id = 5;
  changed_callback = false;
  changed_user_data = 0;
}

abbrev start : World
start = record {
  cell = some new_service;
  bus = timedated;
  properties_connected = true;
  owner_connected = true;
  calls = [];
  returning = [];
  log = [];
}

abbrev no_ntp : Call
no_ntp = record {
  method = codes "SetNTP";
  parameters = ntp_interactive false true;
  callback = true;
  user_data = 9;
}

abbrev busy : World
busy = record start { cell = some (record new_service { references = 2 }); calls = no_ntp ∷ [] }

abbrev abandoned : World
abandoned = record busy { cell = some new_service }

abbrev ended : World
ended = record {
  cell = none;
  bus = timedated;
  properties_connected = false;
  owner_connected = false;
  calls = [];
  returning = no_ntp ∷ [];
  log =
      completed 9 cancelled (some (codes "The operating-system date/time request was cancelled."))
      ∷ [];
}

abbrev stop : GError
stop = record { code = io_cancelled; message = none; remote = none }

busy-sent : send (ntp false) to_cell true 9 start ≡ some busy
unfolding send set_ntp begin_call
busy-sent = refl

abandoned-freed : service_free to_cell busy ≡ some abandoned
unfolding service_free set_changed_callback service_unref
abandoned-freed = refl

-- The callback still runs, and the last reference goes with the call.
ended-returned :
    call_returned (deliver 0 false (some stop) abandoned) ≡ some (record ended { returning = [] })
unfolding call_returned deliver take_call service_unref result_from_error result_message
    default_message
ended-returned = refl

start-Reachable : Reachable (record { world = start; owned = true })
unfolding service_from_proxy
start-Reachable = opened timedated 4 5 start (omega arith) (omega arith) refl

busy-Reachable : Reachable (record { world = busy; owned = true })
unfolding send set_ntp begin_call
busy-Reachable = then_step start-Reachable (sent (ntp false) true 9 (inl refl) (omega arith))

abandoned-Reachable : Reachable (record { world = abandoned; owned = false })
unfolding service_free set_changed_callback service_unref
abandoned-Reachable = then_step busy-Reachable (freed refl)

Attempt-never_faults_example : with_owner false (call_returned abandoned) ≢ none
Attempt-never_faults_example =
    Attempt-never_faults (record { world = abandoned; owned = false })
      (with_owner false (call_returned abandoned)) abandoned-Reachable returned

Reachable-freed_iff_example :
    (abandoned.cell ≡ none) ↔ (holders (record { world = abandoned; owned = false }) ≡ 0)
Reachable-freed_iff_example =
    Reachable-freed_iff (record { world = abandoned; owned = false }) abandoned-Reachable

read-Snapped_example : Snapped (some timedated) (read (some timedated) (some cleared))
read-Snapped_example = read-Snapped (some timedated) cleared
