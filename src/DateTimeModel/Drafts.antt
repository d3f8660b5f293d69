-- ===== src/DateTimeModel/Drafts.antt =====
-- Drafts validate as the setters do, requests for different fields commute, and coordinates stay in
-- range.
use system_settings.DateTimeModel.Backend.{Backend}
use system_settings.DateTimeModel.Edits.{
  Edit, clock, calendar, seconds, location, Draft, draft_assign, draft_set_clock_mode,
  draft_set_calendar, draft_set_show_seconds, draft_set_location, draft_edit, edit_change,
  assign_clock_mode, assign_calendar, assign_show_seconds, assign_location, valid_location,
}
use system_settings.Policy.{Policy, Common}
use system_settings.Prelude.{ℕ, false, true, none, some, Double, ◌≡◌, ◌≢◌, refl, arith}

module _ {D : Type 0} (c : Common D) (f : Double D) where
  pub draft_edit-change :
      (e : Edit D) (draft : Draft D)
      → draft_edit c f e draft ≡ elim (edit_change c f e) [
        | none ↦ (draft, false)
        | some change ↦ draft_assign change draft
      ]
  unfolding draft_edit draft_set_clock_mode draft_set_calendar draft_set_show_seconds
      draft_set_location edit_change
  draft_edit-change (clock mode) draft = ground arith
  draft_edit-change _ draft = ground arith

  -- The field of the policy that a request is about.
  abbrev pub field_of : Edit D → ℕ
  field_of (clock mode) = 0
  field_of (calendar id) = 1
  field_of (seconds show) = 2
  field_of (location configured latitude longitude) = 3

  -- Requests for different fields have the same result in either order.
  pub edit_change-commute :
      (e e' : Edit D) (change change' : Policy D → Policy D) (p : Policy D)
      → field_of e ≢ field_of e'
      → edit_change c f e ≡ some change
      → edit_change c f e' ≡ some change'
      → change (change' p) ≡ change' (change p)
  unfolding edit_change assign_clock_mode assign_calendar assign_show_seconds assign_location
  edit_change-commute (clock mode) (clock mode') change change' p ne h h' = absurd (ne refl)
  edit_change-commute _ _ change change' p ne h h' = ground arith

  -- A request that is valid keeps the coordinates finite and in range.
  pub edit_change-valid_location :
      (e : Edit D) (change : Policy D → Policy D) (p : Policy D)
      → edit_change c f e ≡ some change
      → valid_location f p.latitude p.longitude ≡ true
      → valid_location f (change p).latitude (change p).longitude ≡ true
  unfolding edit_change assign_clock_mode assign_calendar assign_show_seconds assign_location
  edit_change-valid_location (clock mode) change p h v = ground arith
  edit_change-valid_location _ change p h v = ground arith
