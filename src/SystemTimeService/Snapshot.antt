-- ===== src/SystemTimeService/Snapshot.antt =====
-- What a snapshot tells.
use system_settings.Prelude.{
  ◌<◌, Bool, false, true, ◌||◌, not, Option, none, some, Bytes, codes, is_empty, length, ltb, ◌≡◌,
  ◌≢◌, ◌⊎◌, inl, inr, refl, arith, Bool-cases, Option-cases,
}
use system_settings.SystemTimeService.Reading.{
  Variant, boolean, string, other_type, Proxy, timezone_capacity, SystemTimeState, cleared,
  variant_boolean, read_properties, read,
}
use system_settings.SystemTimeService.Results.{SystemTimeResult, ok, unavailable, protocol_error}

-- What a read into a structure leaves there.
pub data Snapshot (proxy : Option Proxy) : SystemTimeState → SystemTimeResult → Type 0 where
  populated :
      (p : Proxy) (owner text : Bytes) (ntp : Bool) (s : SystemTimeState)
      → proxy ≡ some p
      → p.owner ≡ some owner
      → p.property (codes "NTP") ≡ some (boolean ntp)
      → p.property (codes "Timezone") ≡ some (string text)
      → is_empty text ≡ false
      → length text < timezone_capacity
      → s.timezone ≡ text
      → s.available ≡ true
      → s.ntp_enabled ≡ ntp
      → Snapshot proxy s ok
  failed : (r : SystemTimeResult) → r ≢ ok → Snapshot proxy cleared r

-- `state` and `result` are what a read of `proxy` gives
pub record Snapped (proxy : Option Proxy) (r : Option SystemTimeState × SystemTimeResult)
    : Type 0 where
  pub state : SystemTimeState
  pub written : r.0 ≡ some state
  pub snapshot : Snapshot proxy state r.1

Option_Variant-cases :
    (v : Option Variant)
    → ((b : Bool) × (v ≡ some (boolean b)))
      ⊎ ((t : Bytes) × (v ≡ some (string t)))
      ⊎ (v ≡ some other_type)
      ⊎ (v ≡ none)
Option_Variant-cases none = ground arith
Option_Variant-cases (some (boolean b)) = inl (b, refl)
Option_Variant-cases (some (string t)) = inr (inl (t, refl))
Option_Variant-cases (some other_type) = ground arith

equal-Snapshot :
    (proxy : Option Proxy) (r : SystemTimeState × SystemTimeResult) (s : SystemTimeState)
    (result : SystemTimeResult)
    → r ≡ (s, result)
    → Snapshot proxy s result
    → Snapshot proxy r.0 r.1
equal-Snapshot proxy r s result e snapshot = rw e snapshot

Option-cleared :
    (proxy : Option Proxy) (r : SystemTimeState × SystemTimeResult)
    → r ≡ (cleared, protocol_error)
    → Snapshot proxy r.0 r.1
Option-cleared proxy r e = equal-Snapshot proxy r _ _ e (failed protocol_error (λ x. ground arith))

equal-Snapped :
    {proxy : Option Proxy} (r : Option SystemTimeState × SystemTimeResult) (s : SystemTimeState)
    (result : SystemTimeResult)
    → r ≡ (some s, result)
    → Snapshot proxy s result
    → Snapped proxy r
equal-Snapped r s result e snapshot =
    rw e (record { state = s; written = refl; snapshot = snapshot })

read_properties-Snapshot :
    (p : Proxy) (owner : Bytes)
    → p.owner ≡ some owner
    → Snapshot (some p) (read_properties p).0 (read_properties p).1
unfolding read_properties variant_boolean
read_properties-Snapshot p owner o = elim (Option_Variant-cases (p.property (codes "NTP"))) [
  | inl (ntp, n) ↦ elim (Option_Variant-cases (p.property (codes "Timezone"))) [
    | inr (inl (text, t)) ↦
        elim (Bool-cases (is_empty text || not (ltb (length text) timezone_capacity))) [
          | inl unfit ↦ Option-cleared (some p) _ (ground arith)
          | inr fit ↦
              let s : SystemTimeState = record {
                timezone = text;
                available = true;
                can_ntp = variant_boolean (some p) (some (codes "CanNTP")) false;
                ntp_enabled = ntp;
              } in
              equal-Snapshot (some p) _ s ok (ground arith) (
                populated p owner text ntp s refl o n t (ground arith) (ground arith) refl refl
                  refl)
        ]
    | inl (b, t) ↦ Option-cleared (some p) _ (ground arith)
    | inr (inr (inl t)) ↦ Option-cleared (some p) _ (ground arith)
    | inr (inr (inr t)) ↦ Option-cleared (some p) _ (ground arith)
  ]
  | inr (inl (b, t)) ↦ Option-cleared (some p) _ (ground arith)
  | inr (inr (inl t)) ↦ Option-cleared (some p) _ (ground arith)
  | inr (inr (inr t)) ↦ Option-cleared (some p) _ (ground arith)
]

-- Whatever the structure held, a read leaves it cleared with a result other than OK, or succeeds with
-- an owner on the bus, a Boolean NTP and a Timezone that is not empty and fits: those are then in it.
pub read-Snapped :
    (proxy : Option Proxy) (before : SystemTimeState) → Snapped proxy (read proxy (some before))
unfolding read
read-Snapped none before = record {
  state = cleared;
  written = refl;
  snapshot = failed unavailable (λ e. ground arith);
}
read-Snapped (some p) before = elim (Option-cases p.owner) [
  | inl lost ↦
      equal-Snapped _ cleared unavailable (ground arith) (failed unavailable (λ e. ground arith))
  | inr (owner, o) ↦ equal-Snapped _ _ _ (ground arith) (read_properties-Snapshot p owner o)
]
