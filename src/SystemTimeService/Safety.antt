-- ===== src/SystemTimeService/Safety.antt =====
-- The reference count, and that no operation reads a freed service.
use mathlib.Core.Option.{some-injective}
use mathlib.Core.Path.{subst}
use system_settings.Prelude.{
  ℕ, ◌+◌, ◌-◌, ◌<◌, Bool, false, true, Option, none, some, List, [], ◌∷◌, length, ◌==◌, ◌≡◌, ◌≢◌,
  ◌⊎◌, ◌↔◌, inl, inr, refl, sym, arith, Bool-cases, Option-cases,
}
use system_settings.SystemTimeService.Lifetime.{
  changed, proxy_of, Service, World, Call, to_cell, unsigned_size, service_from_proxy,
  service_unref, service_free, set_changed_callback, emit_changed,
}
use system_settings.SystemTimeService.Reading.{SystemTimeState, read, cleared}
use system_settings.SystemTimeService.References.{
  Safe, alive, gone, Goes, to_next, alike-Safe, unref-Goes, complete-Goes, begin-Goes,
}
use system_settings.SystemTimeService.Requests.{
  Request, timezone, ntp, time, set_timezone, set_ntp, set_time, send, take_call, deliver,
  call_returned,
}
use system_settings.SystemTimeService.Results.{GError}
use system_settings.SystemTimeService.Steps.{
  Owned, with_owner, holders, Attempt, freed, observed, sent, delivered, returned, signalled,
  cached, Reachable, opened, then_step,
}

service_free-unref :
    (w : World) (s : Service)
    → w.cell ≡ some s
    → service_free to_cell w
      ≡ service_unref to_cell
          (record w { cell = some (record s { changed_callback = false; changed_user_data = 0 }) })
unfolding service_free set_changed_callback
service_free-unref w s e = rw (e, service_free, set_changed_callback) refl

send-Goes :
    (request : Request) (callback : Bool) (user_data : ℕ) (o : Owned) (s : Service)
    → Safe o
    → o.world.cell ≡ some s
    → s.references ≡ holders o
    → s.has_proxy ≡ true
    → 0 < s.properties_changed_id
    → 0 < s.owner_changed_id
    → (o.owned ≡ true) ⊎ (s.changed_callback ≡ false)
    → holders o + 1 < unsigned_size
    → Goes (with_owner o.owned (send request to_cell callback user_data o.world))
unfolding send set_timezone set_ntp set_time
send-Goes (timezone none) callback user_data o s safe e n p i j c fits =
    complete-Goes o o.world callback _ safe
send-Goes (timezone (some [])) callback user_data o s safe e n p i j c fits =
    complete-Goes o o.world callback _ safe
send-Goes (timezone (some (x ∷ xs))) callback user_data o s safe e n p i j c fits =
    begin-Goes o s _ _ callback user_data e n p i j c fits
send-Goes (ntp value) callback user_data o s safe e n p i j c fits =
    begin-Goes o s _ _ callback user_data e n p i j c fits
send-Goes (time value) callback user_data o s safe e n p i j c fits =
    begin-Goes o s _ _ callback user_data e n p i j c fits

length-take_call :
    (i : ℕ) (calls : List Call) (c : Call) (others : List Call)
    → take_call i calls ≡ some (c, others)
    → length calls ≡ length others + 1
unfolding take_call
length-take_call i [] c others e = absurd (ground arith)
length-take_call i (d ∷ calls) c others e = elim (Bool-cases (i == 0)) [
  | inl first ↦ ground arith
  | inr later ↦ elim (Option-cases (take_call (i - 1) calls)) [
    | inl nothing ↦ absurd (ground arith)
    | inr ((c', others'), rest) ↦ ground (arith, length-take_call (i - 1) calls c' others' rest)
  ]
]

-- The call moves from the calls under way to those inside their callback.
deliver-Goes :
    (o : Owned) (i : ℕ) (reply : Bool) (error : Option GError)
    → Safe o
    → Goes (with_owner o.owned (some (deliver i reply error o.world)))
unfolding deliver
deliver-Goes o i reply error safe = elim (Option-cases (take_call i o.world.calls)) [
  | inl nothing ↦ to_next o (ground arith) safe
  | inr ((call, others), taken) ↦
      rw (taken, deliver)
        (to_next _ refl (
          alike-Safe o _ refl (omega (arith, length-take_call i o.world.calls call others taken))
            refl refl safe))
]

returned-Goes :
    (o : Owned) (s : Service) (waiting : List Call)
    → o.world.returning ≡ waiting
    → Safe o
    → o.world.cell ≡ some s
    → s.references ≡ holders o
    → s.references < unsigned_size
    → s.has_proxy ≡ true
    → 0 < s.properties_changed_id
    → 0 < s.owner_changed_id
    → (o.owned ≡ true) ⊎ (s.changed_callback ≡ false)
    → Goes (with_owner o.owned (call_returned o.world))
unfolding call_returned
returned-Goes o s [] w safe e n hi p i j c = to_next o (ground arith) safe
returned-Goes o s (call ∷ others) w safe e n hi p i j c =
    rw (w, call_returned)
      (unref-Goes (record o.world { returning = others }) o.owned s e (ground arith) hi p i j c)

unreturned-Goes :
    (o : Owned) (waiting : List Call)
    → o.world.returning ≡ waiting
    → holders o ≡ 0
    → Safe o
    → Goes (with_owner o.owned (call_returned o.world))
unfolding call_returned
unreturned-Goes o [] w n safe = to_next o (ground arith) safe
unreturned-Goes o (call ∷ others) w n safe = absurd (ground arith)

emit-Goes :
    (o : Owned) (s : Service)
    → Safe o
    → o.world.cell ≡ some s
    → Goes (with_owner o.owned (emit_changed to_cell o.world))
unfolding emit_changed
emit-Goes o s safe e = elim (Bool-cases s.changed_callback) [
  | inl on ↦
      let state : SystemTimeState = elim (read (proxy_of s o.world) (some cleared)).0 [
        | none ↦ cleared
        | some t ↦ t
      ] in
      to_next
        (record o {
          world = record o.world { log = changed s.changed_user_data state ∷ o.world.log };
        })
        (ground arith) (alike-Safe o _ refl refl refl refl safe)
  | inr off ↦ to_next o (ground arith) safe
]

pub Attempt-Goes : (o : Owned) (r : Option Owned) → Safe o → Attempt o r → Goes r
unfolding set_changed_callback call_returned
Attempt-Goes o r (alive s e n lo hi p i j c) (freed own) =
    let s' : Service = record s { changed_callback = false; changed_user_data = 0 } in
    rw (service_free-unref o.world s e) (
      unref-Goes (record o.world { cell = some s' }) false s' refl (ground arith) hi p i j
        (inr refl))
Attempt-Goes o r (alive s e n lo hi p i j c) (observed callback user_data own) =
    let s' : Service = record s { changed_callback = callback; changed_user_data = user_data } in
    to_next (record o { world = record o.world { cell = some s' } }) (ground arith)
      (alive s' refl n lo hi p i j (inl own))
Attempt-Goes o r (alive s e n lo hi p i j c) (sent request callback user_data who fits) =
    send-Goes request callback user_data o s (alive s e n lo hi p i j c) e n p i j c fits
Attempt-Goes o r (alive s e n lo hi p i j c) returned =
    returned-Goes o s _ refl (alive s e n lo hi p i j c) e n hi p i j c
Attempt-Goes o r (alive s e n lo hi p i j c) (signalled on) =
    emit-Goes o s (alive s e n lo hi p i j c) e
Attempt-Goes o r (gone e n p q) (freed own) = absurd (ground arith)
Attempt-Goes o r (gone e n p q) (observed callback user_data own) = absurd (ground arith)
Attempt-Goes o r (gone e n p q) (sent request callback user_data who fits) = absurd (ground arith)
Attempt-Goes o r (gone e n p q) returned = unreturned-Goes o _ refl n (gone e n p q)
Attempt-Goes o r (gone e n p q) (signalled on) = absurd (ground arith)
Attempt-Goes o r safe (delivered i reply error) = deliver-Goes o i reply error safe
Attempt-Goes o r safe (cached bus) = to_next _ refl (alike-Safe o _ refl refl refl refl safe)

pub Reachable-Safe : (o : Owned) → Reachable o → Safe o
unfolding service_from_proxy
Reachable-Safe _ (opened proxy properties_id owner_id w i j e) =
    subst (λ v. Safe (record { world = v; owned = true })) (some-injective _ w e)
      (alive _ refl refl (omega arith) (omega arith) refl i j (inl refl))
Reachable-Safe _ (then_step {o} {o'} before attempt) =
    let g = Attempt-Goes o (some o') (Reachable-Safe o before) attempt in
    subst Safe (sym (some-injective o' g.next g.result)) g.safe

Safe-cell_iff : (o : Owned) → Safe o → (o.world.cell ≡ none) ↔ (holders o ≡ 0)
Safe-cell_iff o (alive s e n lo hi p i j c) =
    (λ f. absurd (ground arith), λ h. absurd (omega arith))
Safe-cell_iff o (gone e n p q) = (λ f. n, λ h. e)

-- From the construction of a service on, every operation of its owner, every completion and every
-- signal finds the service's memory alive, in any order and whatever the replies are: none of them has
-- no result.
pub Attempt-never_faults : (o : Owned) (r : Option Owned) → Reachable o → Attempt o r → r ≢ none
Attempt-never_faults o r reached attempt faults =
    let g = Attempt-Goes o r (Reachable-Safe o reached) attempt in cc (faults, g.result)

-- At any time the memory of a service is freed exactly if its owner has freed the service and no call
-- is left, be it under way or inside its callback.
pub Reachable-freed_iff : (o : Owned) → Reachable o → (o.world.cell ≡ none) ↔ (holders o ≡ 0)
Reachable-freed_iff o reached = Safe-cell_iff o (Reachable-Safe o reached)
