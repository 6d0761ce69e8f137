-- ===== src/RingBuffer.antt =====
-- src/generic/Buffers.h: `class RingBuffer` over an array, and `class QueueBuffer`, which bounds the
-- library's queue. `none` is a failed assertion.
pub mod Contents
mod Tests
use kos_hspabla.Prelude.{
  ℕ, ◌+◌, ◌%◌, ◌==◌, Bool, if◌then◌else◌, update, Option, none, some, List, length,
}
use kos_hspabla.Basics.{mword_mod, add_mword, sub_mword}

-- `RingBuffer` with its array's `buffer` and `max`.
pub record RingBuffer {ℓ} (A : Type ℓ) : Type ℓ where
  pub next : ℕ
  pub count : ℕ
  pub array_at : ℕ → A
  pub max : ℕ

module _ {ℓ} {A : Type ℓ} where
  -- `memory` is what the storage holds before. GENASSERT0(N) is RuntimeArray's.
  unfoldable pub init : ℕ → (ℕ → A) → Option (RingBuffer A)
  init n memory =
      if n == 0 then none else some (record { next = 0; count = 0; array_at = memory; max = n })

  unfoldable pub size : RingBuffer A → ℕ
  size b = b.count

  unfoldable pub empty : RingBuffer A → Bool
  empty b = size b == 0

  unfoldable pub full : RingBuffer A → Bool
  full b = size b == b.max

  unfoldable pub front : RingBuffer A → Option A
  front b = if empty b then none else some (b.array_at b.next)

  unfoldable pub back : RingBuffer A → Option A
  back b =
      if empty b then none else some (b.array_at (sub_mword (add_mword b.next b.count) 1 % b.max))

  unfoldable pub push : RingBuffer A → A → Option (RingBuffer A)
  push b x =
      if full b
      then none
      else some (record b {
        array_at = update b.array_at (add_mword b.next b.count % b.max) x;
        count = add_mword b.count 1;
      })

  unfoldable pub pop : RingBuffer A → Option (RingBuffer A)
  pop b =
      if empty b
      then none
      else some (record b { next = add_mword b.next 1 % b.max; count = sub_mword b.count 1 })

  -- `QueueBuffer::full`, of the items that the queue holds.
  unfoldable pub queue_full : ℕ → List A → Bool
  queue_full max items = length items == max
