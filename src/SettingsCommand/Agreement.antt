-- ===== src/SettingsCommand/Agreement.antt =====
-- What the options ask of the journal agrees with what they ask of the policy.
use mathlib.Core.Option.{some-injective}
use mathlib.Core.Path.{subst}
use system_settings.DateTimeModel.Edits.{
  valid_clock_mode, valid_calendar, valid_location, assign_clock_mode, assign_calendar,
  assign_show_seconds, assign_location, draft_set_clock_mode, draft_set_calendar,
  draft_set_show_seconds, draft_set_location, draft_assign,
}
use system_settings.LocationMetadata.Defs.{Metadata}
use system_settings.Policy.{Policy, Common}
use system_settings.Prelude.{
  Bool, false, true, Option, none, some, List, [], ◌∷◌, Bytes, codes, equal, Double, if◌then◌else◌,
  equal_iff, ◌≡◌, ◌⊎◌, inl, inr, refl, ◌∙◌, arith, Bool-cases, Option-cases,
}
use system_settings.SettingsCommand.Options.{
  Staged, accepted, seconds_option, value_option, location_option, flag_option, options,
  takes_value,
}

-- The two policies are about the same place, or both about none.
abbrev pub SamePlace : {D : Type 0} → Policy D → Policy D → Type 0
SamePlace p q =
    (p.location_configured ≡ q.location_configured)
    × (p.latitude ≡ q.latitude)
    × (p.longitude ≡ q.longitude)

-- What is asked of the location.
pub data Request (D : Type 0) : Type 0 where
  no_request : Request D
  a_place : D → D → Request D
  a_removal : Request D

-- What is asked by two lists of options, one behind the other: the last request counts.
abbrev pub after : {D : Type 0} → Request D → Request D → Request D
after q no_request = q
after q (a_place latitude longitude) = a_place latitude longitude
after q a_removal = a_removal

after_assoc : {D : Type 0} (p q r : Request D) → after (after p q) r ≡ after p (after q r)
after_assoc p q no_request = refl
after_assoc p q (a_place latitude longitude) = refl
after_assoc p q a_removal = refl

pub after-no_request : {D : Type 0} (r : Request D) → after no_request r ≡ r
after-no_request no_request = refl
after-no_request (a_place latitude longitude) = refl
after-no_request a_removal = refl

-- What arguments ask of the location: an account of them that does not mention what is staged.
pub data Asks {D : Type 0} (f : Double D) (parse_double_range : Bytes → D → D → Option D)
    : List Bytes → Request D → Type 0 where
  no_options : Asks f parse_double_range [] no_request
  with_value :
      {name value : Bytes} {rest : List Bytes} {r : Request D}
      → (name ≡ codes "--clock") ⊎ ((name ≡ codes "--calendar") ⊎ (name ≡ codes "--seconds"))
      → Asks f parse_double_range rest r
      → Asks f parse_double_range (name ∷ value ∷ rest) r
  location :
      {name north east : Bytes} {rest : List Bytes} {r : Request D} (latitude longitude : D)
      → name ≡ codes "--location"
      → parse_double_range north f.minus_90 f.plus_90 ≡ some latitude
      → parse_double_range east f.minus_180 f.plus_180 ≡ some longitude
      → Asks f parse_double_range rest r
      → Asks f parse_double_range
          (name ∷ north ∷ east ∷ rest)
          (after (a_place latitude longitude) r)
  clear_location :
      {name : Bytes} {rest : List Bytes} {r : Request D}
      → name ≡ codes "--clear-location"
      → Asks f parse_double_range rest r
      → Asks f parse_double_range (name ∷ rest) (after a_removal r)

-- What is staged for a request, over the policy `base` that the draft was made from.
pub data Agrees {D : Type 0} (base : Policy D) (s : Staged D) : Request D → Type 0 where
  untouched :
      (p : Policy D)
      → s.draft ≡ some p
      → s.change_requested ≡ false
      → SamePlace p base
      → Agrees base s no_request
  placed :
      {latitude longitude : D} (p : Policy D) (v : Metadata D)
      → s.draft ≡ some p
      → s.change_requested ≡ true
      → s.clear_requested ≡ false
      → s.candidate ≡ some v
      → p.location_configured ≡ true
      → (p.latitude ≡ latitude) × (v.latitude ≡ latitude)
      → (p.longitude ≡ longitude) × (v.longitude ≡ longitude)
      → Agrees base s (a_place latitude longitude)
  removed :
      (p : Policy D)
      → s.draft ≡ some p
      → s.change_requested ≡ true
      → s.clear_requested ≡ true
      → p.location_configured ≡ false
      → Agrees base s a_removal

module _ {D : Type 0} (c : Common D) (f : Double D) (parse_double_range : Bytes → D → D → Option D)
    (base : Policy D) where
  drafted-Agrees :
      {q : Request D} (s : Staged D) (change : Policy D → Policy D)
      → ((p : Policy D) → SamePlace (change p) p)
      → Agrees base s q
      → (t : Staged D) → accepted s (draft_assign change s.draft) ≡ some t
      → Agrees base t q
  unfolding draft_assign
  drafted-Agrees s change same (untouched p d r (x, y, z)) t e =
      let (x', y', z') = same p in
      let is_t : (record s { draft = some (change p) } ≡ t) =
        some-injective _ t (ground (arith, e, d)) in
      subst (λ y. Agrees base y no_request) is_t
        (untouched (change p) refl r (x' ∙ x, y' ∙ y, z' ∙ z))
  drafted-Agrees s change same (placed {latitude = north} {longitude = east} p v d r k w x y z) t
        e =
      let (x', y', z') = same p in
      let is_t : (record s { draft = some (change p) } ≡ t) =
        some-injective _ t (ground (arith, e, d)) in
      subst (λ y. Agrees base y (a_place north east)) is_t
        (placed (change p) v refl r k w (x' ∙ x) (y' ∙ y.0, y.1) (z' ∙ z.0, z.1))
  drafted-Agrees s change same (removed p d r k x) t e =
      let (x', y', z') = same p in
      let is_t : (record s { draft = some (change p) } ≡ t) =
        some-injective _ t (ground (arith, e, d)) in
      subst (λ y. Agrees base y a_removal) is_t (removed (change p) refl r k (x' ∙ x))

  clock-Agrees :
      {q : Request D} (s : Staged D) (mode : Option Bytes) (t : Staged D)
      → Agrees base s q
      → accepted s (draft_set_clock_mode c f mode s.draft) ≡ some t
      → Agrees base t q
  unfolding draft_set_clock_mode assign_clock_mode
  clock-Agrees s mode t a e = elim (Option-cases (valid_clock_mode c mode)) [
    | inl invalid ↦ absurd (ground arith)
    | inr (id, valid) ↦
        drafted-Agrees s (assign_clock_mode c id) (λ p. (refl, refl, refl)) a t (ground arith)
  ]

  calendar-Agrees :
      {q : Request D} (s : Staged D) (id : Option Bytes) (t : Staged D)
      → Agrees base s q
      → accepted s (draft_set_calendar c f id s.draft) ≡ some t
      → Agrees base t q
  unfolding draft_set_calendar assign_calendar
  calendar-Agrees s id t a e = elim (Bool-cases (valid_calendar c id)) [
    | inr invalid ↦ absurd (ground arith)
    | inl valid ↦
        drafted-Agrees s (assign_calendar c id) (λ p. (refl, refl, refl)) a t (ground arith)
  ]

  seconds-Agrees :
      {q : Request D} (s : Staged D) (show : Bool) (t : Staged D)
      → Agrees base s q
      → accepted s (draft_set_show_seconds c f show s.draft) ≡ some t
      → Agrees base t q
  unfolding draft_set_show_seconds assign_show_seconds
  seconds-Agrees s show t a e =
      drafted-Agrees s (assign_show_seconds show) (λ p. (refl, refl, refl)) a t e

  -- A result of one of two branches, and one that goes on from another.
  either :
      {G : Type 0} (test : Bool) (x y : Option (Staged D)) (t : Staged D)
      → (test ≡ true → x ≡ some t → G)
      → (test ≡ false → y ≡ some t → G)
      → (if test then x else y) ≡ some t
      → G
  either true x y t yes_case no_case e = yes_case refl e
  either false x y t yes_case no_case e = no_case refl e

  branch :
      {G : Type 0} (test : Bool) (x y : Option (Staged D)) (t : Staged D)
      → (x ≡ some t → G)
      → (y ≡ some t → G)
      → (if test then x else y) ≡ some t
      → G
  branch test x y t yes_case no_case = either test x y t (λ k. yes_case) (λ k. no_case)

  going_on :
      {G : Type 0} (o : Option (Staged D)) (next : Staged D → Option (Staged D)) (t : Staged D)
      → ((u : Staged D) → o ≡ some u → next u ≡ some t → G)
      → (elim o as (λ x. Option (Staged D)) [ none ↦ none | some u ↦ next u ]) ≡ some t
      → G
  going_on none next t go e = absurd (ground arith)
  going_on (some u) next t go e = go u refl e

  value_option-Agrees :
      {q : Request D} (s : Staged D) (name value : Bytes) (t : Staged D)
      → Agrees base s q
      → value_option c f parse_double_range s name value ≡ some t
      → Agrees base t q
  unfolding value_option seconds_option
  value_option-Agrees s name value t a = branch _ _ _ t (clock-Agrees s (some value) t a) (
      branch _ _ _ t (calendar-Agrees s (some value) t a) (
        branch _ _ _ t (seconds-Agrees s true t a)
          (branch _ _ none t (seconds-Agrees s false t a) (λ e. absurd (ground arith)))))

  pub drafted :
      {q : Request D} {s : Staged D} → Agrees base s q → (p : Policy D) × (s.draft ≡ some p)
  drafted (untouched p d r x) = (p, d)
  drafted (placed p v d r k w x y z) = (p, d)
  drafted (removed p d r k x) = (p, d)

  -- The coordinates that the two texts give, and what is staged for them.
  record Located (north east : Bytes) (t : Staged D) : Type 0 where
    latitude : D
    longitude : D
    north-latitude : parse_double_range north f.minus_90 f.plus_90 ≡ some latitude
    east-longitude : parse_double_range east f.minus_180 f.plus_180 ≡ some longitude
    agrees : Agrees base t (a_place latitude longitude)

  location_option-Located :
      {q : Request D} (s : Staged D) (north_text east_text : Bytes) (t : Staged D)
      → Agrees base s q
      → location_option c f parse_double_range s north_text east_text ≡ some t
      → Located north_text east_text t
  unfolding location_option draft_set_location draft_assign assign_location
  location_option-Located s north_text east_text t a e =
      elim (Option-cases (parse_double_range north_text f.minus_90 f.plus_90)) [
        | inl none_read ↦ absurd (ground arith)
        | inr (latitude, north) ↦
            elim (Option-cases (parse_double_range east_text f.minus_180 f.plus_180)) [
              | inl none_read ↦ absurd (ground arith)
              | inr (longitude, east) ↦ elim (Bool-cases (valid_location f latitude longitude)) [
                | inr invalid ↦ absurd (ground arith)
                | inl valid ↦
                    let (p, d) = drafted a in
                    let v : Metadata D = record {
                      display_name = codes "Custom coordinates";
                      country_code = [];
                      timezone_id = [];
                      latitude = latitude;
                      longitude = longitude;
                    } in
                    let u : Staged D = record {
                      draft = some (assign_location true latitude longitude p);
                      change_requested = true;
                      clear_requested = false;
                      candidate = some v;
                    } in
                    let is_t : (u ≡ t) = some-injective u t (ground arith) in
                    record {
                      latitude = latitude;
                      longitude = longitude;
                      north-latitude = north;
                      east-longitude = east;
                      agrees =
                          subst (λ y. Agrees base y (a_place latitude longitude)) is_t
                            (placed _ v refl refl refl refl refl (refl, refl) (refl, refl));
                    }
              ]
            ]
      ]

  flag_option-Agrees :
      (s : Staged D) (name : Bytes) (t : Staged D)
      → flag_option c f parse_double_range s name ≡ some t
      → (name ≡ codes "--clear-location") × Agrees base t a_removal
  unfolding flag_option draft_set_location draft_assign assign_location
  flag_option-Agrees s name t e = elim (Option-cases s.draft) [
    | inl null ↦ absurd (ground arith)
    | inr (p, d) ↦ elim (Bool-cases (equal name (codes "--clear-location"))) [
      | inr other ↦ absurd (ground arith)
      | inl named ↦ elim (Bool-cases (valid_location f p.latitude p.longitude)) [
        | inr invalid ↦ absurd (ground arith)
        | inl valid ↦
            let u : Staged D = record {
              draft = some (assign_location false p.latitude p.longitude p);
              change_requested = true;
              clear_requested = true;
              candidate = s.candidate;
            } in
            let is_t : (u ≡ t) = some-injective u t (ground arith) in
            (
              (equal_iff name _).0 named,
              subst (λ y. Agrees base y a_removal) is_t (removed _ refl refl refl refl),
            )
      ]
    ]
  ]

  takes_value-name :
      (name : Bytes)
      → takes_value c f parse_double_range name ≡ true
      → (name ≡ codes "--clock") ⊎ ((name ≡ codes "--calendar") ⊎ (name ≡ codes "--seconds"))
  takes_value-name name y = elim (Bool-cases (equal name (codes "--clock"))) [
    | inl k ↦ inl ((equal_iff name _).0 k)
    | inr k ↦ elim (Bool-cases (equal name (codes "--calendar"))) [
      | inl m ↦ inr (inl ((equal_iff name _).0 m))
      | inr m ↦ inr (inr ((equal_iff name _).0 (ground arith)))
    ]
  ]

  -- What the arguments ask, and what is staged for it behind a request `q`.
  abbrev pub Outcome : Request D → List Bytes → Staged D → Type 0
  Outcome q arguments t =
      (r : Request D) × Asks f parse_double_range arguments r × Agrees base t (after q r)

  -- The rest of the arguments behind an option that asks for `x`.
  behind :
      {q x : Request D} {rest arguments : List Bytes} {t : Staged D}
      → ((r : Request D)
          → Asks f parse_double_range rest r
          → Asks f parse_double_range arguments (after x r))
      → Outcome (after q x) rest t
      → Outcome q arguments t
  behind {q = q} {x = x} {t = t} add (r, asks, a) =
      (after x r, add r asks, subst (Agrees base t) (after_assoc q x r) a)

  valued :
      {q : Request D} {name value : Bytes} {rest : List Bytes} {t : Staged D}
      → takes_value c f parse_double_range name ≡ true
      → Outcome q rest t
      → Outcome q (name ∷ value ∷ rest) t
  valued {name = name} y (r, asks, a) = (r, with_value (takes_value-name name y) asks, a)

  -- Whatever options are accepted, what is staged agrees with the last request for a location among the
  -- arguments, or, if there is none, with what was staged before them: for a place, the draft has its
  -- coordinates and so has the record that will be journalled; for a removal, the draft has no location;
  -- for no request, the draft is about the place of the policy that it was made from.
  pub options-Agrees :
      (q : Request D) (s : Staged D) (arguments : List Bytes) (t : Staged D)
      → Agrees base s q
      → options c f parse_double_range s arguments ≡ some t
      → Outcome q arguments t
  unfolding options
  options-Agrees q s [] t a e =
      (no_request, no_options, subst (λ y. Agrees base y q) (some-injective s t e) a)
  options-Agrees q s (x ∷ []) t a e =
      let (named, g) = flag_option-Agrees s x t e in (a_removal, clear_location named no_options, g)
  options-Agrees q s (x ∷ y ∷ []) t a e =
      either _ _ _ t (λ k h. valued k (no_request, no_options, value_option-Agrees s x y t a h))
        (λ k.
          going_on (flag_option c f parse_double_range s x)
            (λ u. options c f parse_double_range u (y ∷ [])) t
            (λ u h m.
              let (named, g) = flag_option-Agrees s x u h in
              behind {q = q} {x = a_removal} (λ r asks. clear_location named asks)
                (options-Agrees a_removal u (y ∷ []) t g m)))
        e
  options-Agrees q s (x ∷ y ∷ z ∷ rest) t a e =
      either _ _ _ t
        (λ k.
          going_on (value_option c f parse_double_range s x y)
            (λ u. options c f parse_double_range u (z ∷ rest)) t
            (λ u h m.
              valued k (options-Agrees q u (z ∷ rest) t (value_option-Agrees s x y u a h) m)))
        (λ k w.
          either _ _ _ t
            (λ named.
              going_on (location_option c f parse_double_range s y z)
                (λ u. options c f parse_double_range u rest) t
                (λ u h m.
                  let p = location_option-Located s y z u a h in
                  behind {q = q} {x = a_place p.latitude p.longitude}
                    (λ r asks.
                      location p.latitude p.longitude ((equal_iff x _).0 named) p.north-latitude
                        p.east-longitude asks)
                    (options-Agrees (a_place p.latitude p.longitude) u rest t p.agrees m)))
            (λ other.
              going_on (flag_option c f parse_double_range s x)
                (λ u. options c f parse_double_range u (y ∷ z ∷ rest)) t
                (λ u h m.
                  let (named, g) = flag_option-Agrees s x u h in
                  behind {q = q} {x = a_removal} (λ r asks. clear_location named asks)
                    (options-Agrees a_removal u (y ∷ z ∷ rest) t g m)))
            w)
        e
