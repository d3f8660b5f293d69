-- ===== src/RegionalContext.antt =====
-- src/platform/linux/regional-context.c: the coordinates of zone.tab. The files, the search in them and
-- the identifiers of time zones are left out. The arithmetic of `double` is a parameter, any functions.
pub mod RoundTrip
use system_settings.Prelude.{
  ℕ, zero, suc, ◌+◌, ◌-◌, ◌*◌, Bool, false, true, ◌&&◌, ◌||◌, not, Option, none, some, [], ◌∷◌,
  Bytes, is_empty, length, take, if◌then◌else◌, ltb, leb, ◌==◌,
}

-- The operations on `double` that the conversion uses.
pub record Arithmetic (D : Type 0) : Type 0 where
  -- the `double` of an integer, and -1.0
  pub of_unsigned : ℕ → D
  pub minus_one : D
  pub add : D → D → D
  pub multiply : D → D → D
  pub divide : D → D → D

abbrev pub is_digit : ℕ → Bool
is_digit c = leb 48 c && leb c 57

abbrev pub is_sign : ℕ → Bool
is_sign c = c == 43 || c == 45

unfoldable pub all_digits : Bytes → Bool
all_digits [] = true
all_digits (c ∷ text) = if is_digit c then all_digits text else false

-- the digits read behind the number `n`
unfoldable pub number : ℕ → Bytes → ℕ
number n [] = n
number n (c ∷ text) = number (n * 10 + (c - 48)) text

abbrev drop : ℕ → Bytes → Bytes
drop zero text = text
drop (suc n) [] = []
drop (suc n) (c ∷ text) = drop n text

-- the text in front of the next sign, and from it on
unfoldable pub split_sign : Bytes → Bytes × Bytes
split_sign [] = ([], [])
split_sign (c ∷ text) =
    let (front, back) = split_sign text in if is_sign c then ([], c ∷ text) else (c ∷ front, back)

module _ {D : Type 0} (d : Arithmetic D) where
  -- `parse_component` on the text of the given length
  unfoldable pub parse_component : ℕ → ℕ → Bytes → Option D
  unfolding all_digits number
  parse_component degree_digits maximum [] = none
  parse_component degree_digits maximum (c ∷ text) =
      let degrees = number 0 (take degree_digits text) in
      let minutes = number 0 (take 2 (drop degree_digits text)) in
      let seconds = number 0 (drop (degree_digits + 2) text) in
      if not (is_sign c)
        || not (length text == degree_digits + 2 || length text == degree_digits + 4)
        || not (all_digits text)
      then none
      else if leb 60 minutes
          || leb 60 seconds
          || ltb maximum degrees
          || (degrees == maximum && (not (minutes == 0) || not (seconds == 0)))
      then none
      else some (
          d.multiply (if c == 45 then d.minus_one else d.of_unsigned 1) (
            d.add
              (d.add (d.of_unsigned degrees) (d.divide (d.of_unsigned minutes) (d.of_unsigned 60)))
              (d.divide (d.of_unsigned seconds) (d.of_unsigned 3600))))

  -- `parse_zone_coordinate`: the latitude and the longitude
  unfoldable pub parse_zone_coordinate : Bytes → Option (D × D)
  unfolding split_sign parse_component
  parse_zone_coordinate [] = none
  parse_zone_coordinate (c ∷ text) =
      let (front, back) = split_sign text in
      let longitude = parse_component 3 180 back in
      if is_empty back then none else elim (parse_component 2 90 (c ∷ front)) [
        | none ↦ none
        | some latitude ↦ elim longitude [ none ↦ none | some x ↦ some (latitude, x) ]
      ]
