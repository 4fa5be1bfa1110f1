-- ===== src/Market/RateMode.antt =====
-- `enum RateMode` of helpers/types.ts, with one more value for a string that is no rate mode.
use mathlib.Core.Bool.{Bool, true, false}

pub data RateMode : Type 0 where
  none stable variable improper : RateMode

-- `mode == RateMode.Stable`
abbrev pub is_stable : RateMode → Bool
is_stable stable = true
is_stable _ = false
