-- ===== src/Bitmap/Tests.antt =====
-- `class Bitmap` of src/generic/Bitmap.h at two words.
use kos_hspabla.Prelude.{◌==◌, if◌then◌else◌, arith}
use kos_hspabla.Bitmanip.Round.{IsWords}
use kos_hspabla.Bitmap.{Bitmap}

abbrev sparse : Bitmap
sparse i = if i == 1 then 40 else 0

sparse-IsWords : IsWords sparse
sparse-IsWords i = ground arith
