-- ===== src/Tests/Search.antt =====
-- A search with three places, of which the second has no location, and the lookup of a program in a tree
-- with one.
use system_settings.LocationSearch.{
  Geocoder, GeocodePlace, SearchResult, collect, location_search_async, search_finished,
  search_item, in_range, best_description, Completion,
}
use system_settings.LocationSearch.Answers.{Between, Counted, search-answers}
use system_settings.LocationSearch.Results.{AllFit, collect-first, collect-AllFit, showable}
use system_settings.Prelude.{
  ℕ, ◌+◌, true, Option, none, some, List, [], ◌∷◌, codes, take, ◌≡◌, ◌⊎◌, refl,
}
use system_settings.Tests.Memory.{degrees}

abbrev pretoria_place : GeocodePlace ℕ
pretoria_place = record {
  name = some (codes "Pretoria");
  state = none;
  country = some (codes "South Africa");
  country_code = some (codes "ZA");
  location = some (record { description = none; latitude = 155; longitude = 208 });
}

abbrev places : List (Option (GeocodePlace ℕ))
places = some pretoria_place ∷ some (record pretoria_place { location = none }) ∷ none ∷ []

abbrev pretoria_result : SearchResult ℕ
pretoria_result = record {
  display_name = codes "Pretoria, South Africa";
  country_code = codes "ZA";
  latitude = 155;
  longitude = 208;
}

finds : collect degrees [] places ≡ pretoria_result ∷ []
unfolding collect search_item in_range best_description
finds = refl

-- A world that counts the answers and the requests.
record Calls : Type 0 where
  answered : ℕ
  requested : ℕ
  at_most : ℕ

abbrev geocoder : Geocoder ℕ Calls
geocoder = record {
  utf8_valid = λ t. true;
  forward_new = λ q w. (w, true);
  set_answer_count = λ n w. record w { at_most = n };
  search_async = λ w. record w { requested = w.requested + 1 };
  finish = λ w. (w, places, none);
}

abbrev counts_up : Completion ℕ Calls
counts_up results message w = record w { answered = w.answered + 1 }

abbrev counting : Counted geocoder counts_up
counting = record {
  answers = λ w. w.answered;
  requests = λ w. w.requested;
  limit = λ w. w.at_most;
  callback-answers = λ results message w. refl;
  callback-requests = λ results message w. refl;
  forward_new-answers = λ q w. refl;
  forward_new-requests = λ q w. refl;
  set_answer_count-answers = λ n w. refl;
  set_answer_count-requests = λ n w. refl;
  set_answer_count-limit = λ n w. refl;
  search_async-answers = λ w. refl;
  search_async-requests = λ w. refl;
  search_async-limit = λ w. refl;
  finish-answers = λ w. refl;
  finish-requests = λ w. refl;
}

abbrev calls : Calls
calls = record { answered = 5; requested = 3; at_most = 0 }

collect-first_example : collect degrees [] places ≡ take 8 (showable degrees places)
collect-first_example = collect-first degrees places

collect-AllFit_example : AllFit degrees (collect degrees [] places)
collect-AllFit_example = collect-AllFit degrees places

search-answers_example :
    (let w' =
        location_search_async degrees geocoder (some (codes "Pretoria")) (some counts_up) calls in
      (Between degrees geocoder counts_up counting calls w' 1 0
        ⊎ (Between degrees geocoder counts_up counting calls w' 0 1 × (w'.at_most ≡ 8)))
      × Between degrees geocoder counts_up counting calls
          (search_finished degrees geocoder (some counts_up) calls)
          1
          0)
search-answers_example =
    search-answers degrees geocoder counts_up counting (some (codes "Pretoria")) calls calls
