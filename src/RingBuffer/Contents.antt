-- ===== src/RingBuffer/Contents.antt =====
-- What `class RingBuffer` of src/generic/Buffers.h holds, oldest first, and that its operations are
-- those of a queue of at most `max` items.
use mathlib.Core.Path.{subst}
use native.Mathlib.Nat.{mod-lt}
use kos_hspabla.Prelude.{
  ℕ, zero, suc, ◌+◌, ◌-◌, ◌*◌, ◌%◌, ◌<◌, ◌≤◌, ◌==◌, true, false, ◌≡◌, ◌≢◌, refl, sym, ◌∙◌, ap, ap₂,
  arith, ℕ_discrete, dec_lt, update, update_self, update_ne, none, some, List, [], ◌∷◌, ◌++◌,
}
use kos_hspabla.Basics.{mword_mod, add_mword, sub_mword}
use kos_hspabla.RingBuffer.{RingBuffer, size, empty, full, front, back, push, pop}

turn : (max start : ℕ) → 0 < max → (max + start) % max ≡ start % max
turn max start pos = grind arith

around : (max start : ℕ) → suc start ≡ max → 0 < max → suc start % max ≡ 0
around max start e pos = grind arith

straight : (max s : ℕ) → s < max → s % max ≡ s
straight max s lt = grind arith

beyond : (max s : ℕ) → max ≤ s → s < max + max → s % max ≡ s - max
beyond max s le lt = grind arith

-- The slot behind the last item is none of theirs.
free_slot :
    (max start count i : ℕ)
    → start < max
    → count < max
    → i < count
    → (start + count) % max ≢ (start + i) % max
free_slot max start count i below room lt = elim (dec_lt (start + count) max) [
  | yes low ↦
      omega (arith, straight max (start + count) low, straight max (start + i) (omega arith))
  | no high ↦ elim (dec_lt (start + i) max) [
    | yes low ↦ omega (
      arith,
      beyond max (start + count) (omega arith) (omega arith),
      straight max (start + i) low,
    )
    | no top ↦ omega (
      arith,
      beyond max (start + count) (omega arith) (omega arith),
      beyond max (start + i) (omega arith) (omega arith),
    )
  ]
]

module _ {ℓ} {A : Type ℓ} where
  pub record IsValid (b : RingBuffer A) : Type 0 where
    pub within : b.count ≤ b.max
    pub inside : b.next < b.max
    pub word : b.max * 2 < mword_mod

  -- `n` slots from `start` on, round the end of the array.
  abbrev pub slots : (ℕ → A) → ℕ → ℕ → ℕ → List A
  slots f max start zero = []
  slots f max start (suc n) = f (start % max) ∷ slots f max (suc start) n

  abbrev pub contents : RingBuffer A → List A
  contents b = slots b.array_at b.max b.next b.count

  slots-snoc :
      (f : ℕ → A) (max start n : ℕ)
      → slots f max start (suc n) ≡ slots f max start n ++ (f ((start + n) % max) ∷ [])
  slots-snoc f max start zero =
      let here : start ≡ start + 0 = omega arith in ap (λ s. f (s % max) ∷ []) here
  slots-snoc f max start (suc n) =
      let later : suc start + n ≡ start + suc n = omega arith in
      ap (λ xs. f (start % max) ∷ xs)
        (slots-snoc f max (suc start) n
          ∙ ap (λ s. slots f max (suc start) n ++ (f (s % max) ∷ [])) later)

  -- A slot that is not among them may change.
  slots-update :
      (f : ℕ → A) (max start n p : ℕ) (x : A)
      → ((i : ℕ) → i < n → p ≢ (start + i) % max)
      → slots (update f p x) max start n ≡ slots f max start n
  slots-update f max start zero p x apart = refl
  slots-update f max start (suc n) p x apart =
      ap₂ ◌∷◌ (update_ne f p (start % max) x first)
        (slots-update f max (suc start) n p x λ i lt. later i lt)
    where
      first : p ≢ start % max
      first =
          let here : start + 0 ≡ start = omega arith in
          subst (λ s. p ≢ s % max) here (apart 0 (omega arith))

      later : (i : ℕ) → i < n → p ≢ (suc start + i) % max
      later i lt =
          let here : start + suc i ≡ suc start + i = omega arith in
          subst (λ s. p ≢ s % max) here (apart (suc i) (omega arith))

  -- A whole turn round the array leads to the same slots.
  slots-turn :
      (f : ℕ → A) (max start n : ℕ) → 0 < max → slots f max (max + start) n ≡ slots f max start n
  slots-turn f max start zero pos = refl
  slots-turn f max start (suc n) pos =
      let next : suc (max + start) ≡ max + suc start = omega arith in
      ap₂ ◌∷◌ (ap f (turn max start pos))
        (ap (λ s. slots f max s n) next ∙ slots-turn f max (suc start) n pos)

  slots-next :
      (f : ℕ → A) (max start n : ℕ)
      → start < max
      → slots f max (suc start % max) n ≡ slots f max (suc start) n
  slots-next f max start n lt = elim (ℕ_discrete (suc start) max) [
    | yes last ↦
        let low : suc start % max ≡ 0 = around max start last (omega arith) in
        let wrap : max + 0 ≡ suc start = omega arith in
        ap (λ s. slots f max s n) low
        ∙ sym (slots-turn f max 0 n (omega arith))
        ∙ ap (λ s. slots f max s n) wrap
    | no more ↦
        let here : suc start % max ≡ suc start = straight max (suc start) (omega arith) in
        ap (λ s. slots f max s n) here
  ]

  slots-uncons :
      (f : ℕ → A) (max start n : ℕ)
      → 0 < n
      → slots f max start n ≡ f (start % max) ∷ slots f max (suc start) (n - 1)
  slots-uncons f max start zero pos = absurd (omega arith)
  slots-uncons f max start (suc n) pos =
      let left : n ≡ suc n - 1 = omega arith in
      ap (λ k. f (start % max) ∷ slots f max (suc start) k) left

  slots-unsnoc :
      (f : ℕ → A) (max start n : ℕ)
      → 0 < n
      → slots f max start n ≡ slots f max start (n - 1) ++ (f ((start + n - 1) % max) ∷ [])
  slots-unsnoc f max start zero pos = absurd (omega arith)
  slots-unsnoc f max start (suc n) pos =
      let left : n ≡ suc n - 1 = omega arith in
      let last : start + n ≡ start + suc n - 1 = omega arith in
      slots-snoc f max start n ∙ ap₂ (λ k s. slots f max start k ++ (f (s % max) ∷ [])) left last

  -- For a ring buffer whose count and next are in range and whose size doubled is below 2 ^ 64,
  -- `push` puts the element behind the contents and keeps the buffer in range if it is not full,
  -- and fails its assertion if it is full.
  pub push_lem :
      (b : RingBuffer A) (x : A)
      → IsValid b
      → (b.count < b.max
          → (b' : RingBuffer A) × (push b x ≡ some b')
            × IsValid b'
            × (contents b' ≡ contents b ++ (x ∷ [])))
        × (b.count ≡ b.max → push b x ≡ none)
  unfolding push full size
  push_lem b x v =
      (room_left, λ e. let filled : (b.count == b.max) ≡ true = ground arith in rw filled refl)
    where
      room_left :
          b.count < b.max
          → (b' : RingBuffer A) × (push b x ≡ some b')
            × IsValid b'
            × (contents b' ≡ contents b ++ (x ∷ []))
      room_left room =
          let more : add_mword b.count 1 ≡ suc b.count = omega (arith, v.word) in
          let place : add_mword b.next b.count ≡ b.next + b.count =
            omega (arith, v.word, v.inside) in
          let not_full : (b.count == b.max) ≡ false = ground arith in
          let b' : RingBuffer A = record b {
            array_at = update b.array_at ((b.next + b.count) % b.max) x;
            count = suc b.count;
          } in
          (
            b',
            rw (not_full, more, place) refl,
            record { within = room; inside = v.inside; word = v.word },
            slots-snoc (update b.array_at ((b.next + b.count) % b.max) x) b.max b.next b.count
                ∙ ap₂ (λ (xs : List A) (y : A). xs ++ (y ∷ []))
                    (slots-update b.array_at b.max b.next b.count ((b.next + b.count) % b.max) x
                      (λ i lt. free_slot b.max b.next b.count i v.inside room lt))
                    (update_self b.array_at ((b.next + b.count) % b.max) x),
          )

  -- For such a ring buffer that is not empty, `front` reads the first of the contents, and `pop`
  -- takes it away and keeps the buffer in range; both fail their assertions if it is empty.
  pub pop_lem :
      (b : RingBuffer A)
      → IsValid b
      → (0 < b.count
          → (x : A) × (b' : RingBuffer A) × (front b ≡ some x)
            × (pop b ≡ some b')
            × IsValid b'
            × (contents b ≡ x ∷ contents b'))
        × (b.count ≡ 0 → (front b ≡ none) × (pop b ≡ none))
  unfolding pop empty size front
  pop_lem b v =
      (an_item, λ e. let nothing : (b.count == 0) ≡ true = ground arith in rw nothing (refl, refl))
    where
      an_item :
          0 < b.count
          → (x : A) × (b' : RingBuffer A) × (front b ≡ some x)
            × (pop b ≡ some b')
            × IsValid b'
            × (contents b ≡ x ∷ contents b')
      an_item some_left =
          let less : sub_mword b.count 1 ≡ b.count - 1 = omega (arith, v.word, v.within) in
          let step : add_mword b.next 1 ≡ suc b.next = omega (arith, v.word, v.inside) in
          let held : (b.count == 0) ≡ false = ground arith in
          let b' : RingBuffer A = record b { next = suc b.next % b.max; count = b.count - 1 } in
          (
            b.array_at b.next,
            b',
            rw held refl,
            rw (held, less, step) refl,
            record {
              within = omega (arith, v.within);
              inside = mod-lt (suc b.next) (omega (arith, v.inside));
              word = v.word;
            },
            slots-uncons b.array_at b.max b.next b.count some_left
                ∙ ap₂ ◌∷◌ (ap b.array_at (straight b.max b.next v.inside))
                    (sym (slots-next b.array_at b.max b.next (b.count - 1) v.inside)),
          )

  -- For such a ring buffer that is not empty, `back` reads the last of the contents; it fails its
  -- assertion if it is empty.
  pub back_lem :
      (b : RingBuffer A)
      → IsValid b
      → (0 < b.count → (x : A) × (xs : List A) × (back b ≡ some x) × (contents b ≡ xs ++ (x ∷ [])))
        × (b.count ≡ 0 → back b ≡ none)
  unfolding back empty size
  back_lem b v = (
    λ some_left.
        let place : sub_mword (add_mword b.next b.count) 1 ≡ b.next + b.count - 1 =
          omega (arith, v.word, v.inside, v.within) in
        let held : (b.count == 0) ≡ false = ground arith in
        (
          b.array_at ((b.next + b.count - 1) % b.max),
          slots b.array_at b.max b.next (b.count - 1),
          rw (held, place) refl,
          slots-unsnoc b.array_at b.max b.next b.count some_left,
        ),
    λ e. let nothing : (b.count == 0) ≡ true = ground arith in rw nothing refl,
  )
