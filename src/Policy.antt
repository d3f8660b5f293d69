-- ===== src/Policy.antt =====
-- The temporal policy and what the program takes from Infiltrator Common (<infiltratr/temporal.h>,
-- <infiltratr/temporal_id.h>, <infiltratr/core.h>), which is another repository: the fields of
-- `InfiltratrTemporalPolicyV3` that the sources use, and Common's functions as parameters.
-- Also include/system-settings/temporal-policy-store.h: the table of functions of a store.
use system_settings.Prelude.{ℕ, Bool, Option, Bytes}

pub record Policy (D : Type 0) : Type 0 where
  pub clock_mode : Bytes
  pub calendar : Bytes
  pub show_seconds : Bool
  pub location_configured : Bool
  pub latitude : D
  pub longitude : D

pub record Common (D : Type 0) : Type 0 where
  -- `infiltratr_temporal_clock_mode_find`: the `id` of the catalogue entry
  pub clock_mode_find : Bytes → Option Bytes
  -- `infiltratr_temporal_id_valid`
  pub id_valid : Option Bytes → Bool
  -- `infiltratr_copy_string (target, size, text)`: the text that the target then holds
  pub copy_string : ℕ → Option Bytes → Bytes
  pub clock_mode_size : ℕ
  pub calendar_size : ℕ
  -- `infiltratr_temporal_policy_v3_default`
  pub policy_default : Option (Policy D)

-- `SsTemporalPolicyStore` over a world `W`: a NULL function is `none`. A function that only reads
-- leaves the world alone, and a `load` that returns false is `none`.
pub record Store (D W : Type 0) : Type 0 where
  pub load : Option (W → Option (Policy D × Bool))
  pub save : Option (Policy D → W → W × Bool)
  pub clear : Option (W → W × Bool)
  pub begin_update : Option (W → W × Bool)
  pub end_update : Option (W → W)
  pub compatibility_matches : Option (Policy D → W → Bool)
