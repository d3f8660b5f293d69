-- ===== src/LocationSearch.antt =====
-- src/platform/linux/location-search.c: the search for a place by its name. geocode-glib is a parameter:
-- what it answers, and the steps with which a request is sent.
pub mod Results
pub mod Answers
use system_settings.Prelude.{
  ℕ, suc, Bool, true, false, ◌&&◌, ◌||◌, not, Option, none, some, List, [], ◌∷◌, ◌++◌, Bytes, codes,
  Double, is_empty, length, if◌then◌else◌, ltb, leb,
}

-- `GeocodePlace` and `GeocodeLocation`, as their getters tell
pub record GeocodeLocation (D : Type 0) : Type 0 where
  pub description : Option Bytes
  pub latitude : D
  pub longitude : D

pub record GeocodePlace (D : Type 0) : Type 0 where
  pub name : Option Bytes
  pub state : Option Bytes
  pub country : Option Bytes
  pub country_code : Option Bytes
  pub location : Option (GeocodeLocation D)

-- `SsLocationSearchResult`
pub record SearchResult (D : Type 0) : Type 0 where
  pub display_name : Bytes
  pub country_code : Bytes
  pub latitude : D
  pub longitude : D

abbrev pub name_capacity : ℕ
name_capacity = 256

abbrev pub country_capacity : ℕ
country_capacity = 8

abbrev pub query_max_bytes : ℕ
query_max_bytes = 512

abbrev pub answer_count : ℕ
answer_count = 8

-- `g_strdup_printf` with commas between the words
abbrev comma : Bytes
comma = codes ", "

abbrev pub place_description : Option Bytes → Option Bytes → Option Bytes → Bytes
place_description (some name) (some state) (some country) =
    name ++ (comma ++ (state ++ (comma ++ country)))
place_description (some name) none (some country) = name ++ (comma ++ country)
place_description (some name) state none = name
place_description none state country = codes "Unnamed location"

abbrev pub text_given : Option Bytes → Option Bytes
text_given none = none
text_given (some text) = if is_empty text then none else some text

unfoldable pub best_description : {D : Type 0} → GeocodePlace D → GeocodeLocation D → Bytes
best_description place location = elim (text_given location.description) [
  | none ↦ place_description place.name place.state place.country
  | some description ↦ description
]

module _ {D : Type 0} (f : Double D) where
  unfoldable pub in_range : D → D → Bool
  in_range latitude longitude = not (
      not (f.finite latitude)
      || not (f.finite longitude)
      || f.lt latitude f.minus_90
      || f.lt f.plus_90 latitude
      || f.lt longitude f.minus_180
      || f.lt f.plus_180 longitude)

  -- The body of the loop: the item that is added for a place.
  unfoldable pub search_item : Option (GeocodePlace D) → Option (SearchResult D)
  unfolding in_range best_description
  search_item none = none
  search_item (some place) = elim place.location [
    | none ↦ none
    | some location ↦
        let description = best_description place location in
        let code : Bytes = elim place.country_code [ none ↦ [] | some t ↦ t ] in
        if not (in_range location.latitude location.longitude)
        then none
        else if leb name_capacity (length description)
        then none
        else if leb country_capacity (length code)
        then none
        else some (record {
          display_name = description;
          country_code = code;
          latitude = location.latitude;
          longitude = location.longitude;
        })
  ]

  -- The loop, with the results so far.
  unfoldable pub collect :
      List (SearchResult D) → List (Option (GeocodePlace D)) → List (SearchResult D)
  unfolding search_item
  collect results [] = results
  collect results (place ∷ places) =
      let skipped = collect results places in
      if not (ltb (length results) answer_count) then results else elim (search_item place) [
        | none ↦ skipped
        | some item ↦ collect (results ++ (item ∷ [])) places
      ]

-- `SsLocationSearchCompletion` with its data: the results and the message
abbrev pub Completion : Type 0 → Type 0 → Type 0
Completion D W = List (SearchResult D) → Option Bytes → W → W

pub record Geocoder (D W : Type 0) : Type 0 where
  pub utf8_valid : Bytes → Bool
  -- `geocode_forward_new_for_string`
  pub forward_new : Bytes → W → W × Bool
  -- `geocode_forward_set_answer_count`, `geocode_forward_search_async`
  pub set_answer_count : ℕ → W → W
  pub search_async : W → W
  -- `geocode_forward_search_finish`: the places, NULL as the empty list, and the message of an error
  pub finish : W → W × List (Option (GeocodePlace D)) × Option Bytes

module _ {D W : Type 0} (f : Double D) (g : Geocoder D W) where
  abbrev pub answer : Option (Completion D W) → List (SearchResult D) → Option Bytes → W → W
  answer none results message w = w
  answer (some callback) results message w = callback results message w

  -- `search_finished`, for the callback of the request
  unfoldable pub search_finished : Option (Completion D W) → W → W
  unfolding collect
  search_finished callback w =
      let (w1, places, message) = g.finish w in answer callback (collect f [] places) message w1

  -- whether a search can begin, and what is told if not
  unfoldable pub query_refused : Option Bytes → Option Bytes
  query_refused none = some (codes "Enter a locality or place name.")
  query_refused (some query) =
      if is_empty query
      then some (codes "Enter a locality or place name.")
      else if not (g.utf8_valid query) || not (leb (length query) query_max_bytes)
      then some (codes "The locality search text is invalid or too long.")
      else none

  -- `ss_location_search_async`: a request that is under way has the callback
  unfoldable pub location_search_async : Option Bytes → Option (Completion D W) → W → W
  unfolding query_refused
  location_search_async query callback w = elim (query_refused query) [
    | some message ↦ answer callback [] (some message) w
    | none ↦ elim query [
      | none ↦ w
      | some text ↦
          let (w1, created) = g.forward_new text w in
          if created
          then g.search_async (g.set_answer_count answer_count w1)
          else answer callback [] (some (codes "Unable to initialise location search.")) w1
    ]
  ]
