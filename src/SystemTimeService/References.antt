-- ===== src/SystemTimeService/References.antt =====
-- The invariant of the reference count, and the operations that change the count.
use system_settings.Prelude.{
  ℕ, ◌+◌, ◌-◌, ◌%◌, ◌<◌, Bool, false, true, Option, none, some, ◌∷◌, Bytes, if◌then◌else◌, ◌==◌,
  ◌≡◌, ◌⊎◌, inl, inr, refl, sym, ◌∙◌, arith, Bool-cases,
}
use system_settings.SystemTimeService.Lifetime.{
  Event, Service, World, Parameters, to_cell, unsigned_size, service_unref,
}
use system_settings.SystemTimeService.Requests.{begin_call}
use system_settings.SystemTimeService.Steps.{Owned, with_owner, holders}

-- The service is alive with one reference for its owner and one for each call, or it is freed with
-- nobody left that could use it.
pub data Safe (o : Owned) : Type 0 where
  alive :
      (s : Service)
      → o.world.cell ≡ some s
      → s.references ≡ holders o
      → 0 < s.references
      → s.references < unsigned_size
      → s.has_proxy ≡ true
      → 0 < s.properties_changed_id
      → 0 < s.owner_changed_id
      → (o.owned ≡ true) ⊎ (s.changed_callback ≡ false)
      → Safe o
  gone :
      o.world.cell ≡ none
      → holders o ≡ 0
      → o.world.properties_connected ≡ false
      → o.world.owner_connected ≡ false
      → Safe o

-- The attempt has a result, and it is safe.
pub record Goes (r : Option Owned) : Type 0 where
  pub next : Owned
  pub result : r ≡ some next
  pub safe : Safe next

pub to_next : {r : Option Owned} (o : Owned) → r ≡ some o → Safe o → Goes r
to_next o e s = record { next = o; result = e; safe = s }

-- Only the cell, the number of holders and the handlers matter.
pub alike-Safe :
    (o : Owned) (w : World)
    → w.cell ≡ o.world.cell
    → holders (record { world = w; owned = o.owned }) ≡ holders o
    → w.properties_connected ≡ o.world.properties_connected
    → w.owner_connected ≡ o.world.owner_connected
    → Safe o
    → Safe (record { world = w; owned = o.owned })
alike-Safe o w e h p q (alive s e' n lo hi x i j cb) = alive s (e ∙ e') (n ∙ sym h) lo hi x i j cb
alike-Safe o w e h p q (gone e' n x y) = gone (e ∙ e') (h ∙ n) (p ∙ x) (q ∙ y)

pub less_one :
    (n : ℕ) → 0 < n → n < unsigned_size → (n + (unsigned_size - 1)) % unsigned_size ≡ n - 1
less_one n lo hi = omega arith

pub one_more : (n : ℕ) → n + 1 < unsigned_size → (n + 1) % unsigned_size ≡ n + 1
one_more n hi = omega arith

-- Dropping one reference, where the holders become one fewer.
pub unref-Goes :
    (w : World) (owned : Bool) (s : Service)
    → w.cell ≡ some s
    → s.references ≡ holders (record { world = w; owned = owned }) + 1
    → s.references < unsigned_size
    → s.has_proxy ≡ true
    → 0 < s.properties_changed_id
    → 0 < s.owner_changed_id
    → (owned ≡ true) ⊎ (s.changed_callback ≡ false)
    → Goes (with_owner owned (service_unref to_cell w))
unfolding service_unref
unref-Goes w owned s e r m p i j c =
    let one = less_one s.references (omega arith) m in
    elim (Bool-cases (s.references - 1 == 0)) [
      | inl last ↦
          to_next
            (record {
              world = record w {
                cell = none;
                properties_connected = false;
                owner_connected = false;
              };
              owned = owned;
            })
            (ground (arith, one)) (gone refl (ground arith) refl refl)
      | inr more ↦
          to_next
            (record {
              world = record w { cell = some (record s { references = s.references - 1 }) };
              owned = owned;
            })
            (ground (arith, one))
            (alive (record s { references = s.references - 1 }) refl (omega arith) (ground arith)
              (omega arith) p i j c)
    ]

pub complete-Goes :
    (o : Owned) (w : World) (callback : Bool) (e : Event)
    → Safe o
    → Goes (
        with_owner o.owned
          (some (if callback then record o.world { log = e ∷ o.world.log } else o.world)))
complete-Goes o w true e safe = to_next _ refl (alike-Safe o _ refl refl refl refl safe)
complete-Goes o w false e safe = to_next o refl safe

pub begin-Goes :
    (o : Owned) (s : Service) (method : Bytes) (parameters : Parameters) (callback : Bool)
    (user_data : ℕ)
    → o.world.cell ≡ some s
    → s.references ≡ holders o
    → s.has_proxy ≡ true
    → 0 < s.properties_changed_id
    → 0 < s.owner_changed_id
    → (o.owned ≡ true) ⊎ (s.changed_callback ≡ false)
    → holders o + 1 < unsigned_size
    → Goes (
        with_owner o.owned
          (begin_call to_cell (some method) (some parameters) callback user_data o.world))
unfolding begin_call
begin-Goes o s method parameters callback user_data e r p i j c fits =
    let one = one_more s.references (omega arith) in
    let more : Service = record s { references = s.references + 1 } in
    to_next
      (record o {
        world = record o.world {
          cell = some more;
          calls =
              record {
                method = method;
                parameters = parameters;
                callback = callback;
                user_data = user_data;
              }
              ∷ o.world.calls;
        };
      })
      (ground (arith, one)) (alive more refl (omega arith) (omega arith) (omega arith) p i j c)
