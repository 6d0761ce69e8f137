-- ===== src/AddressSpace/Reserve.antt =====
-- `getVmRange` of src/kernel/AddressSpace.h without an address to start from.
use native.Mathlib.Nat.{div-add-mod, mod-lt, mul-mod_left}
use kos_hspabla.Prelude.{
  ℕ, ◌+◌, ◌-◌, ◌*◌, ◌/◌, ◌%◌, ◌^◌, ◌<◌, ◌≤◌, true, false, ltb, leb, if◌then◌else◌, ◌≡◌, refl, ◌∙◌,
  ap, arith, none, some, ◌⊎◌, inl, inr, Bool-cases, ltb→lt, ltb-false→le,
}
use kos_hspabla.Prelude.Bits.{pow_pos}
use kos_hspabla.Basics.{mword_mod, sub_mword, align_down}
use kos_hspabla.Basics.Align.{align_down-eq}
use kos_hspabla.AddressSpace.{VmRange, get_vm_range}

-- A range of whole pages that holds `size` bytes and no page more, between the bottom and the break, which
-- moves to its start.
pub record Reserves (vm : VmRange) (page size start n : ℕ) (vm' : VmRange) : Type 0 where
  pub whole : start % page ≡ 0
  pub enough : size ≤ n
  pub tight : n < size + page
  pub bottom : vm.map_bottom ≤ start
  pub under : start + n ≤ vm.map_start
  pub near : vm.map_start < start + n + page
  pub moved : vm' ≡ record vm { map_start = start }

round_down : (x a : ℕ) → 0 < a → (x / a * a ≤ x) × (x < x / a * a + a)
round_down x a h = omega (arith, div-add-mod x a, mod-lt x h)

lower_to :
    (vm : VmRange) (start : ℕ)
    → start ≤ vm.map_start
    → (if ltb start vm.map_start then record vm { map_start = start } else vm)
      ≡ record vm { map_start = start }
lower_to vm start le = ground arith

-- For pages of 2 ^ k bytes with k < 64, a break below 2 ^ 64, an address below the bottom (none
-- is asked for), a bottom below the top and a size of at most the break less a page,
-- `get_vm_range` either returns a page-aligned range with the bytes asked for, not a page more,
-- between the bottom and the break and less than a page below the break, and moves the break to
-- its start and changes nothing else; or it fails, and less than the size and two pages are left
-- between the bottom and the break.
pub get_vm_range-Reserves :
    (k : ℕ) (vm : VmRange) (addr size : ℕ)
    → k < 64
    → vm.map_start < mword_mod
    → addr < vm.map_bottom
    → vm.map_bottom < vm.map_top
    → size + 2 ^ k ≤ vm.map_start
    → ((start : ℕ) × (n : ℕ) × (vm' : VmRange) × (get_vm_range vm (2 ^ k) addr size
          ≡ some (start, n, vm'))
        × Reserves vm (2 ^ k) size start n vm')
      ⊎ ((get_vm_range vm (2 ^ k) addr size ≡ none)
          × (vm.map_start < vm.map_bottom + size + 2 ^ k + 2 ^ k))
unfolding get_vm_range
get_vm_range-Reserves k vm addr size hk below no_hint set_up room =
    let page = 2 ^ k in
    let end = align_down vm.map_start page in
    let end_eq : end ≡ vm.map_start / page * page = align_down-eq vm.map_start k below hk in
    let end_down = round_down vm.map_start page (pow_pos k) in
    let diff : sub_mword end size ≡ end - size = omega (arith, end_eq, end_down, room, below) in
    let start = align_down (sub_mword end size) page in
    let start_eq : start ≡ (end - size) / page * page =
      ap (λ x. align_down x page) diff
      ∙ align_down-eq (end - size) k (omega (arith, end_eq, end_down, below)) hk in
    let start_down = round_down (end - size) page (pow_pos k) in
    let n : sub_mword end start ≡ end - start =
      omega (arith, end_eq, end_down, start_eq, start_down, below) in
    let no_address : leb vm.map_bottom addr ≡ false = ground (arith, no_hint) in
    let is_set_up : ltb vm.map_bottom vm.map_top ≡ true = ground (arith, set_up) in
    elim (Bool-cases (ltb start vm.map_bottom)) [
      | inl low ↦ inr (
        rw (no_address, is_set_up, low) refl,
        omega (arith, ltb→lt _ _ low, end_eq, end_down, start_eq, start_down),
      )
      | inr high ↦ inl (
        start,
        sub_mword end start,
        (if ltb start vm.map_start then record vm { map_start = start } else vm),
        rw (no_address, is_set_up, high) refl,
        record {
          whole = ap (λ x. x % page) start_eq ∙ mul-mod_left ((end - size) / page) page;
          enough = omega (arith, n, end_eq, end_down, start_eq, start_down);
          tight = omega (arith, n, end_eq, end_down, start_eq, start_down, pow_pos k, room);
          bottom = ltb-false→le _ _ high;
          under = omega (arith, n, end_eq, end_down, start_eq, start_down);
          near = omega (arith, n, end_eq, end_down, start_eq, start_down);
          moved = lower_to vm start (omega (arith, end_eq, end_down, start_eq, start_down));
        },
      )
    ]
