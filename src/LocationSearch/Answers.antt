-- ===== src/LocationSearch/Answers.antt =====
-- Every search is answered once, at once or through one request.
use system_settings.LocationSearch.{
  Geocoder, Completion, SearchResult, query_refused, search_finished, location_search_async,
}
use system_settings.Prelude.{
  ℕ, ◌+◌, Option, none, some, List, Bytes, Double, ◌≡◌, ◌⊎◌, inl, inr, ◌∙◌, arith, Option-cases,
  Bool-cases,
}

-- The calls of the callback, the requests that geocode-glib has taken, and the answers that the last one
-- is limited to: each operation raises or sets its own and leaves the others.
pub record Counted {D W : Type 0} (g : Geocoder D W) (callback : Completion D W) : Type 0 where
  pub answers : W → ℕ
  pub requests : W → ℕ
  pub limit : W → ℕ
  pub callback-answers :
      (results : List (SearchResult D)) (message : Option Bytes) (w : W)
      → answers (callback results message w) ≡ answers w + 1
  pub callback-requests :
      (results : List (SearchResult D)) (message : Option Bytes) (w : W)
      → requests (callback results message w) ≡ requests w
  pub forward_new-answers : (query : Bytes) (w : W) → answers (g.forward_new query w).0 ≡ answers w
  pub forward_new-requests :
      (query : Bytes) (w : W) → requests (g.forward_new query w).0 ≡ requests w
  pub set_answer_count-answers : (n : ℕ) (w : W) → answers (g.set_answer_count n w) ≡ answers w
  pub set_answer_count-requests : (n : ℕ) (w : W) → requests (g.set_answer_count n w) ≡ requests w
  pub set_answer_count-limit : (n : ℕ) (w : W) → limit (g.set_answer_count n w) ≡ n
  pub search_async-answers : (w : W) → answers (g.search_async w) ≡ answers w
  pub search_async-requests : (w : W) → requests (g.search_async w) ≡ requests w + 1
  pub search_async-limit : (w : W) → limit (g.search_async w) ≡ limit w
  pub finish-answers : (w : W) → answers (g.finish w).0 ≡ answers w
  pub finish-requests : (w : W) → requests (g.finish w).0 ≡ requests w

module _ {D W : Type 0} (f : Double D) (g : Geocoder D W) (callback : Completion D W)
    (count : Counted g callback) where
  -- How often the callback was called and a request was made between two worlds.
  abbrev pub Between : W → W → ℕ → ℕ → Type 0
  Between w w' answered requested =
      (count.answers w' ≡ count.answers w + answered)
      × (count.requests w' ≡ count.requests w + requested)

  told-Between :
      (results : List (SearchResult D)) (message : Option Bytes) (w w' : W)
      → Between w w' 0 0
      → Between w (callback results message w') 1 0
  told-Between results message w w' (a, q) = (
    omega (arith, count.callback-answers results message w', a),
    omega (arith, count.callback-requests results message w', q),
  )

  requested-Between :
      (w w' : W)
      → Between w w' 0 0
      → Between w (g.search_async (g.set_answer_count 8 w')) 0 1
        × (count.limit (g.search_async (g.set_answer_count 8 w')) ≡ 8)
  requested-Between w w' (a, q) =
      let v = g.set_answer_count 8 w' in
      (
        (
          omega (arith, count.search_async-answers v, count.set_answer_count-answers 8 w', a),
          omega (arith, count.search_async-requests v, count.set_answer_count-requests 8 w', q),
        ),
        count.search_async-limit v ∙ count.set_answer_count-limit 8 w',
      )

  ended-Between : (later : W) → Between later (search_finished f g (some callback) later) 1 0
  unfolding search_finished
  ended-Between later =
      told-Between _ _ later (g.finish later).0
        (omega (arith, count.finish-answers later), omega (arith, count.finish-requests later))

  asked-Between :
      (query : Option Bytes) (w : W)
      → (let w' = location_search_async f g query (some callback) w in
          Between w w' 1 0 ⊎ (Between w w' 0 1 × (count.limit w' ≡ 8)))
  unfolding location_search_async query_refused
  asked-Between none w = inl (told-Between _ _ w w (omega arith, omega arith))
  asked-Between (some text) w = elim (Option-cases (query_refused f g (some text))) [
    | inr (message, e) ↦
        rw (e, location_search_async) (inl (told-Between _ _ w w (omega arith, omega arith)))
    | inl e ↦
        let w1 = (g.forward_new text w).0 in
        let known : Between w w1 0 0 = (
          omega (arith, count.forward_new-answers text w),
          omega (arith, count.forward_new-requests text w),
        ) in
        elim (Bool-cases (g.forward_new text w).1) [
          | inr n ↦ rw (e, n, location_search_async) (inl (told-Between _ _ w w1 known))
          | inl y ↦ rw (e, y, location_search_async) (inr (requested-Between w w1 known))
        ]
  ]

  -- A search either calls the callback once, at once, and makes no request; or it makes one request of
  -- geocode-glib, for at most eight answers, and does not call it. Whatever a request returns, its end
  -- calls the callback once and makes no other.
  pub search-answers :
      (query : Option Bytes) (w later : W)
      → (let w' = location_search_async f g query (some callback) w in
          (Between w w' 1 0 ⊎ (Between w w' 0 1 × (count.limit w' ≡ 8)))
          × Between later (search_finished f g (some callback) later) 1 0)
  search-answers query w later = (asked-Between query w, ended-Between later)
