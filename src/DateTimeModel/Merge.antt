-- ===== src/DateTimeModel/Merge.antt =====
-- Setters against the document that a lawful store holds: each one refines a change of the document,
-- and those of several processes merge.
use system_settings.DateTimeModel.Backend.{Backend, Uses}
use system_settings.DateTimeModel.Defs.{Private, Model}
use system_settings.DateTimeModel.Edits.{Edit, set_edit, edit_change}
use system_settings.Policy.{Policy, Common}
use system_settings.Prelude.{Bool, false, true, Option, none, some, List, [], ◌∷◌, Double, ◌≡◌}

-- A document: a policy and whether it was saved explicitly, or `none` if it cannot be read.
abbrev pub Document : Type 0 → Type 0
Document D = Option (Policy D × Bool)

-- What a request may do to the document.
pub data Refines {D : Type 0} (request : Option (Policy D → Policy D)) (before after : Document D)
    : Bool → Type 0 where
  kept : after ≡ before → Refines request before after false
  made :
      (change : Policy D → Policy D) (p : Policy D) (found : Bool)
      → request ≡ some change
      → before ≡ some (p, found)
      → after ≡ some (change p, true)
      → Refines request before after true

-- A requested change, if it was made.
abbrev pub make : {D : Type 0} → Option (Policy D → Policy D) → Bool → Policy D → Policy D
make none done p = p
make (some change) true p = change p
make (some change) false p = p

module _ {D W : Type 0} (c : Common D) (f : Double D) where
  -- Requests of any processes in the order in which they take the lock, each with the model that its
  -- process holds, and which of them succeeded.
  pub edit_all : List (Model D W × Edit D) → W → W × List Bool
  edit_all [] w = (w, [])
  edit_all ((m, e) ∷ rs) w =
      let step = set_edit c f e m w in let (w', done) = edit_all rs step.1 in (w', step.2 ∷ done)

  -- The requests that succeeded, made one after the other on one policy.
  pub replay : List (Model D W × Edit D) → List Bool → Policy D → Policy D
  replay ((m, e) ∷ rs) (done ∷ ds) p = replay rs ds (make (edit_change c f e) done p)
  replay _ _ p = p

module _ {D W : Type 0} (b : Backend D W) where
  -- Each model is open on the store and not inside an update.
  abbrev pub AllReady : List (Model D W × Edit D) → Type 0
  AllReady [] = Unit
  AllReady ((m, e) ∷ rs) =
      ((s : Private D W) × (m.private ≡ some s) × Uses b s × (s.saving ≡ false)) × AllReady rs
