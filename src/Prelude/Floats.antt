-- ===== src/Prelude/Floats.antt =====
-- The operations on `double` that the program uses, as an interface: IEEE arithmetic is not
-- modelled, and a theorem that needs a law of it takes the law as a hypothesis.
use mathlib.Core.Bool.{Bool}

pub record Double (D : Type 0) : Type 0 where
  -- `isfinite`
  pub finite : D → Bool
  -- `<=` and `<`
  pub le : D → D → Bool
  pub lt : D → D → Bool
  pub sub : D → D → D
  pub negate : D → D
  -- the literals -90.0, 90.0, -180.0, 180.0, 0.0 and 0.000001
  pub minus_90 : D
  pub plus_90 : D
  pub minus_180 : D
  pub plus_180 : D
  pub nought : D
  pub micro : D
