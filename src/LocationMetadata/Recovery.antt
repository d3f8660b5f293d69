-- ===== src/LocationMetadata/Recovery.antt =====
-- The recovery of an interrupted transaction.
use system_settings.LocationMetadata.Defs.{
  MetadataSystem, ok, missing, invalid, io_error, pending, metadata_load, clear, discard_staged,
  finish_staged,
}
use system_settings.Policy.{Policy}
use system_settings.Prelude.{
  Bool, false, true, ◌&&◌, not, Option, none, some, Double, if◌then◌else◌,
}

-- `ss_linux_date_time_location_coordinate_close`, and the same comparison in the recovery
unfoldable pub coordinate_close : {D : Type 0} → Double D → D → D → Bool
coordinate_close f left right =
    let difference = f.sub left right in
    f.lt (if f.lt difference f.nought then f.negate difference else difference) f.micro

module _ {D W : Type 0} (f : Double D) (sys : MetadataSystem D W) where
  -- the journal goes, and the committed record with it if no location is configured
  unfoldable pub discard_and_clear : Bool → W → W × Bool
  discard_and_clear configured w =
      let (w1, discarded) = discard_staged f sys w in
      if not discarded then (w1, false) else if not configured then clear f sys w1 else (w1, true)

  -- behind the lock and the read of the policy
  unfoldable pub recover_with : Policy D → W → W × Bool
  unfolding discard_and_clear
  recover_with p w = elim (metadata_load f sys pending w) [
    | missing ↦ if not p.location_configured then clear f sys w else (w, true)
    | io_error ↦ (w, false)
    | invalid ↦ discard_and_clear p.location_configured w
    | ok staged ↦
        if p.location_configured
          && coordinate_close f staged.latitude p.latitude
          && coordinate_close f staged.longitude p.longitude
        then finish_staged f sys w
        else discard_and_clear p.location_configured w
  ]

  -- `load` is the function of the platform's policy store, or NULL.
  unfoldable pub recover : Option (W → Option (Policy D × Bool)) → W → W × Bool
  unfolding recover_with
  recover load w =
      let (w1, locked) = sys.lock w in
      if not locked
      then (w1, false)
      else let authority : Option (Policy D × Bool) = elim load [
        | none ↦ none
        | some read ↦ read w1
      ] in
        elim authority [
          | none ↦ (sys.unlock w1, false)
          | some (p, found) ↦ let (w2, recovered) = recover_with p w1 in (sys.unlock w2, recovered)
        ]
