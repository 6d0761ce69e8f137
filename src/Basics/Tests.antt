-- ===== src/Basics/Tests.antt =====
-- Runs of the helpers of src/generic/basics.h and the theorems about them at concrete values.
use kos_hspabla.Prelude.{◌^◌, ◌≡◌, refl}
use kos_hspabla.Basics.{align_up}

round_up : align_up 100 (2 ^ 3) ≡ 104
unfolding align_up
round_up = refl
