-- ===== src/Hierarchy.antt =====
-- `class HierarchicalBitmap<B, W>` of src/generic/Bitmap.h: maps of B = 64 n bits in L levels, where a
-- bit of level l + 1 says whether a map of level l has a bit. `bitmaps[l][s]` is `h l s`.
pub mod Invariant
pub mod Link
pub mod Update
pub mod Levels
pub mod Find
pub mod Climb
pub mod Search
pub mod Blocks
mod Tests
use kos_hspabla.Prelude.{
  ℕ, zero, suc, ◌+◌, ◌-◌, ◌*◌, ◌/◌, ◌%◌, Bool, true, false, not, ◌==◌, ltb, if◌then◌else◌, update,
  Option, none, ◌>>=◌, some,
}
use kos_hspabla.Basics.{mword_mod, add_mword, sub_mword, limit, divup}
use kos_hspabla.Bitmanip.{floorlog2}
use kos_hspabla.Bitmap
use kos_hspabla.Bitmap.{Bitmap}

abbrev pub Hierarchy : Type 0
Hierarchy = ℕ → ℕ → Bitmap

-- `static const size_t Levels`
unfoldable pub level_count : ℕ → ℕ → ℕ
level_count b w = divup w (floorlog2 b)

-- A write of one map.
abbrev pub put_map : Hierarchy → ℕ → ℕ → Bitmap → Hierarchy
put_map h l s m = update h l (update (h l) s m)

-- `B`
abbrev pub map_bits : ℕ → ℕ
map_bits n = n * 64

-- `n` words to a map, `L` levels.
module _ (n L : ℕ) where
  -- `sizeof(Bitmap<B>)` is 8 bytes for each word. The loop counts the maps of the levels left.
  unfoldable pub map_count : ℕ → ℕ → ℕ
  map_count zero bitcount = 0
  map_count (suc r) bitcount =
      let maps = divup bitcount (map_bits n) in add_mword maps (map_count r maps)

  unfoldable pub allocsize : ℕ → ℕ
  allocsize bitcount = 8 * n * map_count L bitcount % mword_mod

  -- The loops of `set` and `clr`, with the levels left; `none` is a failed KASSERT1.
  unfoldable pub set_from : ℕ → Hierarchy → ℕ → ℕ → Option Hierarchy
  set_from zero h idx l = if idx == 0 then some h else none
  set_from (suc r) h idx l =
      let q = idx / map_bits n in
      let rest = set_from r (put_map h l q (Bitmap.set (h l q) (idx % map_bits n))) q (suc l) in
      if Bitmap.test (h l q) (idx % map_bits n) then some h else rest

  unfoldable pub clr_from : ℕ → Hierarchy → ℕ → ℕ → Option Hierarchy
  clr_from zero h idx l = if idx == 0 then some h else none
  clr_from (suc r) h idx l =
      let q = idx / map_bits n in
      let cleared = Bitmap.clr (h l q) (idx % map_bits n) in
      let rest = clr_from r (put_map h l q cleared) q (suc l) in
      if not (Bitmap.empty n cleared) then some (put_map h l q cleared) else rest

  unfoldable pub set : Hierarchy → ℕ → ℕ → Option Hierarchy
  set h idx botlevel = set_from (L - botlevel) h idx botlevel

  unfoldable pub clr : Hierarchy → ℕ → ℕ → Option Hierarchy
  clr h idx botlevel = clr_from (L - botlevel) h idx botlevel

  unfoldable pub blockset : Hierarchy → ℕ → Option Hierarchy
  blockset h idx = let q = idx / map_bits n in set (put_map h 0 q (Bitmap.set_b n (h 0 q))) q 1

  unfoldable pub blockclr : Hierarchy → ℕ → Option Hierarchy
  blockclr h idx = let q = idx / map_bits n in clr (put_map h 0 q (Bitmap.clr_b n (h 0 q))) q 1

  unfoldable pub test : Hierarchy → ℕ → Bool
  test h idx = Bitmap.test (h 0 (idx / map_bits n)) (idx % map_bits n)

  unfoldable pub empty : Hierarchy → Bool
  empty h = Bitmap.empty n (h (L - 1) 0)

  unfoldable pub blockempty : Hierarchy → ℕ → Bool
  blockempty h idx = Bitmap.empty n (h 0 (idx / map_bits n))

  unfoldable pub blockfull : Hierarchy → ℕ → Bool
  blockfull h idx = Bitmap.full n (h 0 (idx / map_bits n))

  -- The private `find`, on fuel; `none` means that the fuel ran out.
  unfoldable pub find_from : ℕ → Hierarchy → Bool → ℕ → ℕ → ℕ → Option ℕ
  find_from zero h findset sidx ridx l = none
  find_from (suc fuel) h findset sidx ridx l =
      let fidx = Bitmap.find n (h l sidx) findset ridx in
      let place = add_mword (sidx * map_bits n % mword_mod) fidx in
      let next = add_mword sidx 1 in
      let up = find_from fuel h findset (next / map_bits n) (next % map_bits n) (suc l) in
      let down = find_from fuel h findset place 0 (l - 1) in
      if l == L
      then some limit
      else if fidx == map_bits n
      then up
      else if l == 0
      then some place
      else down

  -- Two levels up and down need no more calls than this.
  abbrev pub find_fuel : ℕ
  find_fuel = L + L + 1

  unfoldable pub find : Hierarchy → Bool → Option ℕ
  find h findset = find_from find_fuel h findset 0 0 (L - 1)

  unfoldable pub find_after : Hierarchy → ℕ → Bool → Option ℕ
  find_after h idx findset =
      let next = add_mword idx 1 in
      find_from find_fuel h findset (next / map_bits n) (next % map_bits n) 0

  -- The result and the new value of `start`.
  unfoldable pub findrange : Hierarchy → ℕ → ℕ → Option (ℕ × ℕ)
  findrange h start max = do
    first ← find_after h start true
    if first == limit then some (0, first) else do
      end ← find_after h first false
      some (sub_mword (if end == limit then max else end) first, first)

  -- The loop of `find_rev`, from level `i` down.
  unfoldable pub find_rev_from : ℕ → Hierarchy → Bool → ℕ → ℕ
  find_rev_from zero h findset idx =
      let ldx = Bitmap.find_rev n (h 0 idx) findset in
      if ldx == map_bits n then limit else add_mword (idx * map_bits n % mword_mod) ldx
  find_rev_from (suc i) h findset idx =
      let ldx = Bitmap.find_rev n (h (suc i) idx) findset in
      let rest = find_rev_from i h findset (add_mword (idx * map_bits n % mword_mod) ldx) in
      if ldx == map_bits n then limit else rest

  unfoldable pub find_rev : Hierarchy → Bool → ℕ
  find_rev h findset = find_rev_from (L - 1) h findset 0
