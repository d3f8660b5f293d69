-- ===== src/LocationPanel/Commit.antt =====
-- The change of place: a result that was activated, or coordinates that were typed.
use system_settings.DateTimeModel.Updates.{
  LocationUpdate, begin_location_update, finish_location_update, rollback_location_update, reload,
}
use system_settings.LocationMetadata.Defs.{
  Metadata, MetadataSystem, display_name_size, country_code_size, timezone_id_size, stage,
  discard_staged, finish_staged,
}
use system_settings.LocationPanel.{Panel, strlcpy, with_known, load_authoritative}
use system_settings.LocationSearch.{SearchResult}
use system_settings.Policy.{Common}
use system_settings.Prelude.{
  Bool, false, true, not, Option, none, some, [], Bytes, codes, Double, if◌then◌else◌,
}

-- how a change ends, as the status line tells
pub data CommitStatus : Type 0 where
  skipped lock_unavailable metadata_unreadable unstaged unsaved restored reloaded stranded
        unfinished saved :
      CommitStatus

module _ {D W : Type 0} (c : Common D) (f : Double D) (sys : MetadataSystem D W) where
  -- `SS_DATE_TIME_LOCATION_UPDATE_INIT`
  abbrev pub fresh_update : LocationUpdate D
  fresh_update = record {
    model = none;
    previous_policy = record {
      clock_mode = [];
      calendar = [];
      show_seconds = false;
      location_configured = false;
      latitude = f.nought;
      longitude = f.nought;
    };
    previous_persisted_policy_present = false;
    active = false;
  }

  -- The record that is journalled; `timezone` is that of the system, if it can be read.
  abbrev pub candidate : Bytes → Bytes → Option Bytes → D → D → Metadata D
  candidate name country timezone latitude longitude = record {
    display_name = strlcpy display_name_size name;
    country_code = strlcpy country_code_size country;
    timezone_id = elim timezone [ none ↦ [] | some t ↦ strlcpy timezone_id_size t ];
    latitude = latitude;
    longitude = longitude;
  }

  -- the record could not be published
  unfoldable pub undo_place :
      Option (Metadata D) → Panel D W → LocationUpdate D → W → Panel D W × W × CommitStatus
  undo_place previous p u w =
      let (m1, u1, w1, was_restored) = rollback_location_update u p.model w in
      let (m2, was_reloaded) = reload c m1 w1 in
      if was_restored
      then (with_known f previous (record p { model = m1 }), (discard_staged f sys w1).0, restored)
      else if was_reloaded
      then (with_known f previous (record p { model = m2 }), w1, reloaded)
      else (with_known f previous (record p { model = m2 }), w1, stranded)

  -- behind the write of the policy; `began` says whether it was written
  unfoldable pub publish_begun :
      Option (Metadata D) → Panel D W → LocationUpdate D → Bool → W → Panel D W × W × CommitStatus
  unfolding undo_place
  publish_begun previous p u began w =
      let (w1, published) = finish_staged f sys w in
      let undone = undo_place previous p u w1 in
      let (m, u1, w2, finished) = finish_location_update u p.model w1 in
      let located = record p {
        model = m;
        location = record (p.location) { metadata_present = true };
      } in
      if not began
      then (with_known f previous p, (discard_staged f sys w).0, unsaved)
      else if not published
      then undone
      else if not finished
      then (located, w2, unfinished)
      else (
        record located {
          location = record (located.location) { follows_timezone_reference = false };
        },
        w2,
        saved,
      )

  -- behind the journal
  unfoldable pub publish_place :
      D → D → Option (Metadata D) → Panel D W → W → Panel D W × W × CommitStatus
  unfolding publish_begun
  publish_place latitude longitude previous p w =
      let (m, u, w1, began) =
        begin_location_update f true latitude longitude fresh_update p.model w in
      publish_begun previous (record p { model = m }) u began w1

  -- the whole change, under the lock of the records
  unfoldable pub commit_place :
      Bytes → Bytes → Option Bytes → D → D → Panel D W → W → Panel D W × W × CommitStatus
  unfolding publish_place
  commit_place name country timezone latitude longitude p w =
      let (w1, locked) = sys.lock w in
      let v = candidate name country timezone latitude longitude in
      let (w2, journalled) = stage f sys v w1 in
      if not locked then (p, w1, lock_unavailable) else elim (load_authoritative f sys w1) [
        | none ↦ (p, sys.unlock w1, metadata_unreadable)
        | some previous ↦
            let known = with_known f previous p in
            let p1 = record known { location = record (known.location) { metadata = v } } in
            let (p2, w3, status) = publish_place latitude longitude previous p1 w2 in
            if not journalled then (known, sys.unlock w2, unstaged) else (p2, sys.unlock w3, status)
      ]

  -- `on_location_result_activated`
  unfoldable pub on_location_result_activated :
      SearchResult D → Option Bytes → Panel D W → W → Panel D W × W × CommitStatus
  unfolding commit_place
  on_location_result_activated r timezone p w =
      commit_place r.display_name r.country_code timezone r.latitude r.longitude p w

  -- `commit_location_coordinates`, with the values of the two buttons
  unfoldable pub commit_location_coordinates :
      D → D → Option Bytes → Panel D W → W → Panel D W × W × CommitStatus
  unfolding commit_place
  commit_location_coordinates latitude longitude timezone p w =
      let p1 = record p { location = record (p.location) { commit_pending = false } } in
      if p.location.updating_controls
      then (p1, w, skipped)
      else commit_place (codes "Custom coordinates") [] timezone latitude longitude p1 w
