-- ===== src/SystemTimeService/Steps.antt =====
-- What can happen to a service: its owner's calls, the completions of GDBus, and signals.
use system_settings.Prelude.{
  ℕ, ◌+◌, ◌<◌, Bool, false, true, Option, none, some, length, if◌then◌else◌, ◌≡◌, ◌⊎◌,
}
use system_settings.SystemTimeService.Lifetime.{
  World, to_cell, unsigned_size, service_from_proxy, service_free, set_changed_callback,
  emit_changed,
}
use system_settings.SystemTimeService.Requests.{Request, send, deliver, call_returned}
use system_settings.SystemTimeService.Reading.{Proxy}
use system_settings.SystemTimeService.Results.{GError}

-- A world, and whether the client that was given the service still owns it.
pub record Owned : Type 0 where
  pub world : World
  pub owned : Bool

abbrev pub with_owner : Bool → Option World → Option Owned
with_owner owned w = elim w [ none ↦ none | some w' ↦ some (record { world = w'; owned = owned }) ]

-- how many references there ought to be
abbrev pub holders : Owned → ℕ
holders o = (if o.owned then 1 else 0) + length o.world.calls + length o.world.returning

-- What may be tried, with its result: the owner frees the service once and uses it before that, a
-- completion callback uses the service it borrows, GDBus finishes any call and signals as long as a
-- handler is connected. There are fewer calls than an `unsigned int` counts.
pub data Attempt (o : Owned) : Option Owned → Type 0 where
  freed : o.owned ≡ true → Attempt o (with_owner false (service_free to_cell o.world))
  observed :
      (callback : Bool) (user_data : ℕ)
      → o.owned ≡ true
      → Attempt o (with_owner o.owned (set_changed_callback to_cell callback user_data o.world))
  sent :
      (request : Request) (callback : Bool) (user_data : ℕ)
      → (o.owned ≡ true) ⊎ (0 < length o.world.returning)
      → holders o + 1 < unsigned_size
      → Attempt o (with_owner o.owned (send request to_cell callback user_data o.world))
  delivered :
      (i : ℕ) (reply : Bool) (error : Option GError)
      → Attempt o (with_owner o.owned (some (deliver i reply error o.world)))
  returned : Attempt o (with_owner o.owned (call_returned o.world))
  signalled :
      (o.world.properties_connected ≡ true) ⊎ (o.world.owner_connected ≡ true)
      → Attempt o (with_owner o.owned (emit_changed to_cell o.world))
  cached : (bus : Proxy) → Attempt o (some (record o { world = record o.world { bus = bus } }))

-- Everything that can follow the construction of a service.
pub data Reachable : Owned → Type 0 where
  opened :
      (proxy : Proxy) (properties_id owner_id : ℕ) (w : World)
      → 0 < properties_id
      → 0 < owner_id
      → service_from_proxy (some proxy) properties_id owner_id ≡ some w
      → Reachable (record { world = w; owned = true })
  then_step : {o o' : Owned} → Reachable o → Attempt o (some o') → Reachable o'
