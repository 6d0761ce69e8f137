-- ===== src/AddressSpace/Epochs.antt =====
-- The epochs of src/kernel/AddressSpace.h: which of the pages that wait on the list a processor may still
-- have in its TLB, and what `leave` flushes.
use mathlib.Core.List.{reverse, append_assoc, append-nil, reverse-append}
use kos_hspabla.Prelude.{
  ℕ, ◌+◌, ◌^◌, ◌<◌, true, false, ◌≡◌, refl, sym, ◌∙◌, ap, arith, some, List, [], ◌∷◌, ◌++◌, map,
  length, length-append,
}
use kos_hspabla.Basics.{mword_mod, add_mword, sub_mword}
use kos_hspabla.AddressSpace.{Descriptor, Marker, positive, invalidate_from}

-- The pages `stale` were unmapped since the processor entered; each processor's are the last of those of
-- the one that entered before it.
abbrev pub Tracks : ℕ → List Descriptor → List Marker → List (List Descriptor) → Type 0
Tracks epoch older [] [] = Unit
Tracks epoch older (m ∷ markers) [] = ⊥
Tracks epoch older [] (t ∷ stale) = ⊥
Tracks epoch older (m ∷ markers) (t ∷ stale) =
    ((gone : List Descriptor) × (older ≡ gone ++ t))
    × (m.enter_epoch < mword_mod)
    × (sub_mword epoch m.enter_epoch ≡ length t)
    × Tracks epoch t markers stale

-- The first processor's are all that wait.
abbrev pub IsExact : List Descriptor → List (List Descriptor) → Type 0
IsExact pages [] = pages ≡ []
IsExact pages (t ∷ stale) = t ≡ pages

-- The rounds of the loop that flushes.
pub invalidate_from-all :
    (e enter_epoch : ℕ) (pages rest : List Descriptor)
    → e < mword_mod
    → enter_epoch < mword_mod
    → sub_mword e enter_epoch ≡ length pages
    → length pages < 2 ^ 63
    → invalidate_from e enter_epoch (pages ++ rest) ≡ some (map (λ md. md.vma) pages)
unfolding invalidate_from
invalidate_from-all e enter_epoch [] [] le le' d small =
    let over : positive (sub_mword e enter_epoch) ≡ false = ap positive d in rw over refl
invalidate_from-all e enter_epoch [] (md ∷ rest) le le' d small =
    let over : positive (sub_mword e enter_epoch) ≡ false = ap positive d in rw over refl
invalidate_from-all e enter_epoch (md ∷ pages) rest le le' d small =
    let more : positive (sub_mword e enter_epoch) ≡ true = ground (arith, d, small) in
    let loop =
      invalidate_from-all (sub_mword e 1) enter_epoch pages rest (omega arith) le'
        (omega (arith, le, le', d, small)) (omega (arith, small)) in
    rw (more, loop) refl

pub length-reverse {ℓ} : {A : Type ℓ} (xs : List A) → length (reverse xs) ≡ length xs
length-reverse [] = refl
length-reverse (x ∷ xs) =
    ap length (reverse-append (x ∷ []) xs)
    ∙ length-append (reverse xs) (x ∷ [])
    ∙ omega (arith, length-reverse xs)

-- Backwards over a list whose last pages are `t`.
pub invalidate_reverse :
    (e enter_epoch : ℕ) (gone t : List Descriptor)
    → e < mword_mod
    → enter_epoch < mword_mod
    → sub_mword e enter_epoch ≡ length t
    → length t < 2 ^ 63
    → invalidate_from e enter_epoch (reverse (gone ++ t)) ≡ some (map (λ md. md.vma) (reverse t))
invalidate_reverse e enter_epoch gone t le le' d small =
    ap (invalidate_from e enter_epoch) (reverse-append gone t)
    ∙ invalidate_from-all e enter_epoch (reverse t) (reverse gone) le le'
        (d ∙ sym (length-reverse t)) (omega (arith, small, length-reverse t))

-- A page is unmapped: it waits last, for every processor.
abbrev pub one_more : Descriptor → List (List Descriptor) → List (List Descriptor)
one_more md [] = []
one_more md (t ∷ stale) = (t ++ (md ∷ [])) ∷ one_more md stale

pub Tracks-one_more :
    (epoch : ℕ) (older : List Descriptor) (markers : List Marker) (stale : List (List Descriptor))
    (md : Descriptor)
    → epoch < mword_mod
    → length older + 1 < 2 ^ 63
    → Tracks epoch older markers stale
    → Tracks (add_mword epoch 1) (older ++ (md ∷ [])) markers (one_more md stale)
Tracks-one_more epoch older [] [] md lt room h = record {}
Tracks-one_more epoch older (m ∷ markers) [] md lt room h = absurd h
Tracks-one_more epoch older [] (t ∷ stale) md lt room h = absurd h
Tracks-one_more epoch older (m ∷ markers) (t ∷ stale) md lt room ((gone, e), below, d, rest) =
    let size : length older ≡ length gone + length t = ap length e ∙ length-append gone t in
    (
      (gone, ap (λ l. l ++ (md ∷ [])) e ∙ append_assoc gone t (md ∷ [])),
      below,
      omega (arith, lt, below, d, room, size, length-append t (md ∷ [])),
      Tracks-one_more epoch t markers stale md lt (omega (arith, room, size)) rest,
    )

-- A processor enters.
pub Tracks-enter :
    (epoch cpu : ℕ) (older : List Descriptor) (markers : List Marker)
    (stale : List (List Descriptor))
    → epoch < mword_mod
    → Tracks epoch older markers stale
    → Tracks epoch older
        (markers ++ (record { cpu = cpu; enter_epoch = epoch } ∷ []))
        (stale ++ ([] ∷ []))
Tracks-enter epoch cpu older [] [] lt h =
    ((older, sym (append-nil older)), lt, omega (arith, lt), record {})
Tracks-enter epoch cpu older (m ∷ markers) [] lt h = absurd h
Tracks-enter epoch cpu older [] (t ∷ stale) lt h = absurd h
Tracks-enter epoch cpu older (m ∷ markers) (t ∷ stale) lt (e, below, d, rest) =
    (e, below, d, Tracks-enter epoch cpu t markers stale lt rest)
