-- ===== src/LocationPanel/Placing.antt =====
-- How a change of place ends: the policy, the records, and what the panel knows.
use system_settings.DateTimeModel.Backend.{Backend, Lawful, Uses}
use system_settings.DateTimeModel.Defs.{Private, Model}
use system_settings.LocationMetadata.Defs.{Metadata, MetadataSystem}
use system_settings.LocationMetadata.Files.{LawfulFiles}
use system_settings.LocationMetadata.Untouched.{Apart, LawfulLocks}
use system_settings.LocationPanel.{Panel, with_known}
use system_settings.Policy.{Common}
use system_settings.Prelude.{false, Option, none, some, Double, ◌≡◌}
use system_settings.LocationPanel.Placed.{Placed, Prior}

module _ {D W : Type 0} (c : Common D) (f : Double D) (sys : MetadataSystem D W) (b : Backend D W)
    (l : LawfulFiles sys b.read) (lb : Lawful b) (apart : Apart sys b)
    (locks : LawfulLocks sys b) where
  -- The model is attached to the store, and no update of it is open.
  pub record IsIdle (m : Model D W) : Type 0 where
    pub state : Private D W
    pub has_state : m.private ≡ some state
    pub uses : Uses b state
    pub not_saving : state.saving ≡ false

  -- What the reading of the committed record tells.
  data Read (w : W) : Option (Option (Metadata D)) → Type 0 where
    unreadable : Read w none
    readable :
        (previous : Option (Metadata D))
        → Prior c f sys b l lb apart locks previous w
        → Read w (some previous)

  pub known-IsIdle :
      (previous : Option (Metadata D)) (p : Panel D W)
      → IsIdle p.model
      → IsIdle (with_known f previous p).model
  known-IsIdle none p i = i
  known-IsIdle (some v) p i = i
