-- ===== src/Bitmanip/Tests.antt =====
-- The scans and bit fields of src/generic/bitmanip.h at concrete words.
use kos_hspabla.Prelude.{ℕ, ◌*◌, ◌%◌, true, ◌==◌, if◌then◌else◌, ◌≡◌, arith}
use kos_hspabla.Prelude.Testbit.{zero-testbit}
use kos_hspabla.Prelude.Search.{IsFirst}
use kos_hspabla.Bitmanip.{multiscan, multiscan_rev}
use kos_hspabla.Bitmanip.Round.{IsWords, wanted}
use kos_hspabla.Bitmanip.Multiscan.{multiscan-IsFirst}
use kos_hspabla.Bitmanip.Reverse.{multiscan_rev-none}

-- Bits 67 and 69.
abbrev sparse : ℕ → ℕ
sparse i = if i == 1 then 40 else 0

sparse-IsWords : IsWords sparse
sparse-IsWords i = ground arith

abbrev blank : ℕ → ℕ
blank _ = 0

blank-IsWords : IsWords blank
blank-IsWords i = omega arith

multiscan-IsFirst_example : IsFirst (wanted true sparse) 3 (2 * 64) (multiscan 2 true sparse 3)
multiscan-IsFirst_example =
    multiscan-IsFirst 2 true sparse 3 sparse-IsWords (omega arith) (omega arith)

multiscan_rev-none_example : multiscan_rev 2 true blank ≡ 0
multiscan_rev-none_example =
    multiscan_rev-none 2 true blank blank-IsWords (omega arith) (λ j _. zero-testbit (j % 64))
