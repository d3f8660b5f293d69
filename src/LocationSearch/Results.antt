-- ===== src/LocationSearch/Results.antt =====
-- The results are the first eight places that can be shown, and each fits the form.
use mathlib.Core.List.{append-nil, append_assoc}
use system_settings.LocationSearch.{GeocodePlace, SearchResult, in_range, search_item, collect}
use system_settings.Prelude.{
  ℕ, zero, suc, ◌+◌, ◌<◌, true, false, Option, none, some, List, [], ◌∷◌, ◌++◌, Double, length,
  take, ◌≡◌, inl, inr, refl, sym, ap, arith, Option-cases,
}

-- The places that can be shown, in the order of the answer.
abbrev pub showable :
    {D : Type 0} → Double D → List (Option (GeocodePlace D)) → List (SearchResult D)
showable f [] = []
showable f (place ∷ places) =
    let rest = showable f places in
    elim (search_item f place) [ none ↦ rest | some item ↦ item ∷ rest ]

length-snoc : {A : Type 0} (xs : List A) (x : A) → length (xs ++ (x ∷ [])) ≡ suc (length xs)
length-snoc [] x = refl
length-snoc (y ∷ xs) x = ap suc (length-snoc xs x)

module _ {D : Type 0} (f : Double D) where
  collect-showable :
      (room : ℕ) (results : List (SearchResult D)) (places : List (Option (GeocodePlace D)))
      → length results + room ≡ 8
      → collect f results places ≡ results ++ take room (showable f places)
  unfolding collect
  collect-showable zero results [] e = sym (append-nil results)
  collect-showable (suc room) results [] e = sym (append-nil results)
  collect-showable zero results (place ∷ places) e = rw (append-nil results) ground (arith, e)
  collect-showable (suc room) results (place ∷ places) e =
      elim (Option-cases (search_item f place)) [
        | inl skip ↦ ground (arith, collect-showable (suc room) results places e)
        | inr (item, y) ↦
            let longer = length-snoc results item in
            let placed =
              collect-showable room (results ++ (item ∷ [])) places (omega (arith, e, longer)) in
            ground (arith, placed, append_assoc results (item ∷ []) (take room (showable f places)))
      ]

  -- The results of a search are the first eight of the places that can be shown, in the order of the answer.
  pub collect-first :
      (places : List (Option (GeocodePlace D))) → collect f [] places ≡ take 8 (showable f places)
  collect-first places = collect-showable 8 [] places refl

  -- The texts leave room for the terminator in the arrays of the result, and the coordinates are in range.
  pub record Fits (item : SearchResult D) : Type 0 where
    pub name_fits : length item.display_name < 256
    pub code_fits : length item.country_code < 8
    pub latitude_finite : f.finite item.latitude ≡ true
    pub longitude_finite : f.finite item.longitude ≡ true
    pub not_below :
        (f.lt item.latitude f.minus_90 ≡ false) × (f.lt item.longitude f.minus_180 ≡ false)
    pub not_above :
        (f.lt f.plus_90 item.latitude ≡ false) × (f.lt f.plus_180 item.longitude ≡ false)

  pub data AllFit : List (SearchResult D) → Type 0 where
    none_left : AllFit []
    fits_then :
        {item : SearchResult D} {rest : List (SearchResult D)}
        → Fits item
        → AllFit rest
        → AllFit (item ∷ rest)

  search_item-Fits :
      (place : Option (GeocodePlace D)) (item : SearchResult D)
      → search_item f place ≡ some item
      → Fits item
  unfolding search_item in_range
  search_item-Fits none item e = absurd (ground arith)
  search_item-Fits (some place) item e = elim (Option-cases place.location) [
    | inl n ↦ absurd (ground arith)
    | inr (location, y) ↦ record {
      name_fits = ground arith;
      code_fits = ground arith;
      latitude_finite = ground arith;
      longitude_finite = ground arith;
      not_below = (ground arith, ground arith);
      not_above = (ground arith, ground arith);
    }
  ]

  take-AllFit :
      (room : ℕ) (places : List (Option (GeocodePlace D))) → AllFit (take room (showable f places))
  take-AllFit zero places = none_left
  take-AllFit (suc room) [] = none_left
  take-AllFit (suc room) (place ∷ places) = elim (Option-cases (search_item f place)) [
    | inl skip ↦ rw (skip, showable) (take-AllFit (suc room) places)
    | inr (item, e) ↦
        rw (e, showable, take) (fits_then (search_item-Fits place item e) (take-AllFit room places))
  ]

  -- Every result of a search has texts that leave room for the terminator in the arrays, and finite
  -- coordinates in range.
  pub collect-AllFit : (places : List (Option (GeocodePlace D))) → AllFit (collect f [] places)
  collect-AllFit places = rw (collect-first places) (take-AllFit 8 places)
