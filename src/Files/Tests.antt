-- ===== src/Files/Tests.antt =====
-- Reading a file of five bytes.
use kos_hspabla.Prelude.{ℕ, ◌-◌, ◌≡◌, refl, arith, [], ◌∷◌}
use kos_hspabla.Files.{FileAccess, copy, read, pread}
use kos_hspabla.Files.Reading.{reads, reads_lem}

abbrev bytes : ℕ → ℕ
bytes addr = addr - 100

abbrev five_bytes : FileAccess
five_bytes = record { offset = 1; rf = record { vma = 101; pma = 0; size = 5 } }

two_reads : (reads bytes five_bytes (2 ∷ 7 ∷ [])).0 ≡ 2 ∷ 3 ∷ 4 ∷ 5 ∷ []
unfolding read pread copy
two_reads = refl

reads_lem_example :
    ((reads bytes five_bytes (2 ∷ 7 ∷ [])).0 ≡ copy bytes 102 4)
    × ((reads bytes five_bytes (2 ∷ 7 ∷ [])).1 ≡ record five_bytes { offset = 5 })
reads_lem_example =
    reads_lem bytes five_bytes (2 ∷ 7 ∷ [])
      (record { inside = omega arith; positive = omega arith; in_memory = omega arith })
      (omega arith, (omega arith, record {}))
