-- ===== src/AddressSpace/Ranges.antt =====
-- The ranges of src/kernel/AddressSpace.h: those above the break, and how `putVmRange` moves the break.
use kos_hspabla.Prelude.{
  ℕ, ◌≤◌, ◌<◌, ◌==◌, ltb, true, ◌≡◌, refl, arith, some, List, [], ◌∷◌, ◌⊎◌, inl, inr, All,
  Bool-cases, dec_lt,
}
use kos_hspabla.AddressSpace.{
  Range, Descriptor, VmRange, set_insert, move_break, range_of, put_vm_range,
}

abbrev pub Apart : Range → Range → Type 0
Apart r q = (r.end ≤ q.start) ⊎ (q.end ≤ r.start)

-- A range above the break, not empty, and apart from the set.
pub record Fits (b : ℕ) (set : List Range) (r : Range) : Type 0 where
  pub above : b ≤ r.start
  pub some_room : r.start < r.end
  pub apart : All (Apart r) set

abbrev pub IsClear : ℕ → List Range → Type 0
IsClear b [] = Unit
IsClear b (r ∷ set) = Fits b set r × IsClear b set

abbrev pub Inside : ℕ → List Range → Type 0
Inside x [] = ⊥
Inside x (r ∷ set) = ((r.start ≤ x) × (x < r.end)) ⊎ Inside x set

pub swap_sides : (r q : Range) → Apart r q → Apart q r
swap_sides r q (inl h) = inr h
swap_sides r q (inr h) = inl h

All-set_insert :
    (q r : Range) (set : List Range)
    → All (Apart q) set
    → Apart q r
    → All (Apart q) (set_insert r set)
unfolding set_insert
All-set_insert q r [] h a = (a, h)
All-set_insert q r (x ∷ set) (first, rest) a = elim (Bool-cases (ltb r.at x.at)) [
  | inl lower ↦ rw lower (a, (first, rest))
  | inr not_lower ↦ elim (Bool-cases (r.at == x.at)) [
    | inl same ↦ rw (not_lower, same) (first, rest)
    | inr other ↦ rw (not_lower, other) (first, All-set_insert q r set rest a)
  ]
]

set_insert-IsClear :
    (b : ℕ) (r : Range) (set : List Range)
    → IsClear b set
    → Fits b set r
    → IsClear b (set_insert r set)
unfolding set_insert
set_insert-IsClear b r [] h f = (f, h)
set_insert-IsClear b r (x ∷ set) (first, rest) f = elim (Bool-cases (ltb r.at x.at)) [
  | inl lower ↦ rw lower (f, (first, rest))
  | inr not_lower ↦ elim (Bool-cases (r.at == x.at)) [
    | inl same ↦ rw (not_lower, same) (first, rest)
    | inr other ↦
        rw (not_lower, other)
          (
            record {
              above = first.above;
              some_room = first.some_room;
              apart = All-set_insert x r set first.apart (swap_sides r x f.apart.0);
            },
            set_insert-IsClear b r set rest
                (record { above = f.above; some_room = f.some_room; apart = f.apart.1 }),
          )
  ]
]

Inside-set_insert :
    (x : ℕ) (r : Range) (set : List Range)
    → Inside x (set_insert r set)
    → ((r.start ≤ x) × (x < r.end)) ⊎ Inside x set
unfolding set_insert
Inside-set_insert x r [] h = h
Inside-set_insert x r (y ∷ set) h = elim (Bool-cases (ltb r.at y.at)) [
  | inl lower ↦ rw lower at h
  | inr not_lower ↦ elim (Bool-cases (r.at == y.at)) [
    | inl same ↦ inr (rw (not_lower, same) at h)
    | inr other ↦
        let later : ((y.start ≤ x) × (x < y.end)) ⊎ Inside x (set_insert r set) =
          rw (not_lower, other) at h in
        elim later [
          | inl here ↦ inr (inl here)
          | inr there ↦ elim (Inside-set_insert x r set there) [
            | inl a ↦ inl a
            | inr b ↦ inr (inr b)
          ]
        ]
  ]
]

-- What `move_break` leaves behind.
pub record Moves (b : ℕ) (set : List Range) (b' : ℕ) (set' : List Range) : Type 0 where
  pub up : b ≤ b'
  pub clear : IsClear b' set'
  pub others : (q : Range) → Fits b set q → Fits b' set' q
  pub covered : (x : ℕ) → b ≤ x → x < b' → Inside x set

-- A range above one break and apart from the range that starts there is above the end of that.
next_break :
    (b : ℕ) (r q : Range)
    → r.start ≡ b
    → b ≤ q.start
    → q.start < q.end
    → Apart q r
    → r.end ≤ q.start
next_break b r q e le lt (inl h) = absurd (omega arith)
next_break b r q e le lt (inr h) = h

raised :
    (b : ℕ) (r : Range) (set : List Range)
    → r.start ≡ b
    → All (Apart r) set
    → IsClear b set
    → IsClear r.end set
raised b r [] e h c = record {}
raised b r (q ∷ set) e (first, rest) (f, c) = (
  record {
    above = next_break b r q e f.above f.some_room (swap_sides r q first);
    some_room = f.some_room;
    apart = f.apart;
  },
  raised b r set e rest c,
)

pub move_break-Moves :
    (b : ℕ) (set : List Range)
    → IsClear b set
    → (b' : ℕ) × (set' : List Range) × (move_break b set ≡ some (b', set')) × Moves b set b' set'
unfolding move_break
move_break-Moves b [] c = (
  b,
  [],
  refl,
  record {
    up = omega arith;
    clear = record {};
    others = λ q f. f;
    covered = λ x le lt. absurd (omega arith);
  },
)
move_break-Moves b (r ∷ set) (f, c) = elim (Bool-cases (ltb b r.start)) [
  | inl gap ↦ (
    b,
    r ∷ set,
    rw gap refl,
    record {
      up = omega arith;
      clear = (f, c);
      others = λ q g. g;
      covered = λ x le lt. absurd (omega arith);
    },
  )
  | inr no_gap ↦
      let here : r.start ≡ b = ground (arith, no_gap, f.above) in
      let at_break : (r.start == b) ≡ true = ground (arith, here) in
      let some_room : ltb b r.end ≡ true = ground (arith, here, f.some_room) in
      let (b', set', run, m) = move_break-Moves r.end set (raised b r set here f.apart c) in
      (
        b',
        set',
        rw (no_gap, at_break, some_room) run,
        record {
          up = omega (arith, m.up, f.some_room, here);
          clear = m.clear;
          others = λ q g. m.others q (record {
            above = next_break b r q here g.above g.some_room g.apart.0;
            some_room = g.some_room;
            apart = g.apart.1;
          });
          covered = λ x le lt. elim (dec_lt x r.end) [
            | yes inside ↦ inl (omega (arith, here, le), inside)
            | no beyond ↦ inr (m.covered x (omega arith) lt)
          ];
        },
      )
]

-- A page is given back.
pub record PutBack (vm : VmRange) (r : Range) (vm' : VmRange) : Type 0 where
  pub up : vm.map_start ≤ vm'.map_start
  pub clear : IsClear vm'.map_start vm'.unmap_set
  pub others :
      (q : Range)
      → Fits vm.map_start vm.unmap_set q
      → Apart q r
      → Fits vm'.map_start vm'.unmap_set q
  pub covered :
      (x : ℕ)
      → vm.map_start ≤ x
      → x < vm'.map_start
      → ((r.start ≤ x) × (x < r.end)) ⊎ Inside x vm.unmap_set

-- If the unmapped ranges are not empty, above the break and apart from each other, and the page's
-- range is so too and apart from them, `put_vm_range` fails no assertion and leaves such ranges
-- and a break that is not lower; every address that the break passed is in the page or in an
-- unmapped range; and a range that was above the break and apart from the set and the page still
-- is so.
pub put_vm_range-PutBack :
    (vm : VmRange) (md : Descriptor)
    → IsClear vm.map_start vm.unmap_set
    → Fits vm.map_start vm.unmap_set (range_of md)
    → (vm' : VmRange) × (put_vm_range vm md ≡ some vm') × PutBack vm (range_of md) vm'
unfolding put_vm_range
put_vm_range-PutBack vm md c f =
    let r = range_of md in
    let (b', set', run, m) =
      move_break-Moves vm.map_start (set_insert r vm.unmap_set)
        (set_insert-IsClear vm.map_start r vm.unmap_set c f) in
    (
      record vm { map_start = b'; unmap_set = set' },
      rw run refl,
      record {
        up = m.up;
        clear = m.clear;
        others = λ q g a. m.others q (record {
          above = g.above;
          some_room = g.some_room;
          apart = All-set_insert q r vm.unmap_set g.apart a;
        });
        covered = λ x le lt. Inside-set_insert x r vm.unmap_set (m.covered x le lt);
      },
    )
