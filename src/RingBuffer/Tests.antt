-- ===== src/RingBuffer/Tests.antt =====
-- `class RingBuffer` of src/generic/Buffers.h on three slots, with items round the end.
use kos_hspabla.Prelude.{ℕ, ◌<◌, ◌==◌, if◌then◌else◌, ◌≡◌, refl, arith, none, some, [], ◌∷◌, ◌++◌}
use kos_hspabla.RingBuffer.{RingBuffer, push}
use kos_hspabla.RingBuffer.Contents.{IsValid, contents, push_lem}

-- 8, then 9.
abbrev wrapped : RingBuffer ℕ
wrapped = record { next = 2; count = 2; array_at = λ i. if i == 2 then 8 else 9; max = 3 }

wrapped-IsValid : IsValid wrapped
wrapped-IsValid = record { within = omega arith; inside = omega arith; word = omega arith }

contents-wrapped : contents wrapped ≡ 8 ∷ 9 ∷ []
contents-wrapped = refl

push_lem_example :
    (wrapped.count < wrapped.max
      → (b' : RingBuffer ℕ) × (push wrapped 5 ≡ some b')
        × IsValid b'
        × (contents b' ≡ contents wrapped ++ (5 ∷ [])))
    × (wrapped.count ≡ wrapped.max → push wrapped 5 ≡ none)
push_lem_example = push_lem wrapped 5 wrapped-IsValid
