-- ===== src/Intrusive.antt =====
-- `class IntrusiveList` of src/generic/IntrusiveContainers.h: the links inside the elements as two functions
-- from addresses, with `none` for null. A list is the address of its anchor. `none` as a result is a failed
-- assertion or a null pointer that is followed.
pub mod Chain
pub mod Change
pub mod Insert
mod Tests
use kos_hspabla.Prelude.{
  ℕ, zero, suc, ◌+◌, ◌-◌, ◌==◌, ltb, Bool, true, false, not, ◌&&◌, if◌then◌else◌, update, Option,
  none, some, ◌>>=◌,
}

pub record Links : Type 0 where
  pub prev : ℕ → Option ℕ
  pub next : ℕ → Option ℕ

abbrev pub null : Option ℕ → Bool
null none = true
null (some x) = false

-- Both links are set, or neither; the assertion of `onList` fails otherwise.
unfoldable pub on_list : Links → ℕ → Bool
on_list s x = not (null (s.prev x)) && not (null (s.next x))

unfoldable pub off_list : Links → ℕ → Bool
off_list s x = null (s.prev x) && null (s.next x)

-- The constructor.
unfoldable pub init_list : Links → ℕ → Links
init_list s anchor = record {
  prev = update s.prev anchor (some anchor);
  next = update s.next anchor (some anchor);
}

abbrev pub points_at : Option ℕ → ℕ → Bool
points_at none x = false
points_at (some y) x = y == x

unfoldable pub list_empty : Links → ℕ → Bool
list_empty s anchor = points_at (s.next anchor) anchor

unfoldable pub insert_before : Links → ℕ → ℕ → Option Links
insert_before s next elem =
    if off_list s elem && on_list s next
    then (s.prev next >>= λ p. some (record {
      prev = update (update s.prev elem (some p)) next (some elem);
      next = update (update s.next p (some elem)) elem (some next);
    }))
    else none

unfoldable pub insert_after : Links → ℕ → ℕ → ℕ → Option Links
insert_after s prev first last =
    if null (s.prev first) && null (s.next last) && on_list s prev
    then (s.next prev >>= λ n. some (record {
      prev = update (update s.prev n (some last)) first (some prev);
      next = update (update s.next last (some n)) prev (some first);
    }))
    else none

unfoldable pub remove_elem : Links → ℕ → Option Links
remove_elem s elem =
    if on_list s elem
    then (s.prev elem >>= λ p. update s.next p (s.next elem) elem >>= λ n. some (record {
      prev = update (update s.prev n (some p)) elem none;
      next = update (update s.next p (s.next elem)) elem none;
    }))
    else none

-- The loop of `remove` of many, with `n` rounds left: the last element and `i`.
unfoldable pub walk : Links → ℕ → ℕ → ℕ → ℕ → Option (ℕ × ℕ)
walk s fence last i zero = some (last, i)
walk s fence last i (suc n) = s.next last >>= λ m.
    let rest = walk s fence m (i + 1) n in if m == fence then some (last, i) else rest

-- The links, the last element removed, and the count.
unfoldable pub remove_many : Links → ℕ → ℕ → ℕ → Option (Links × ℕ × ℕ)
remove_many s fence first count =
    if on_list s first
    then (walk s fence first 1 (count - 1) >>= λ w. s.prev first >>= λ p.
        update s.next p (s.next w.0) w.0 >>= λ n. some (
          record {
            prev = update (update s.prev n (some p)) first none;
            next = update (update s.next p (s.next w.0)) w.0 none;
          },
          w.0,
          if count == 0 then 0 else w.1,
        ))
    else none

unfoldable pub push_front : Links → ℕ → ℕ → Option Links
push_front s anchor elem = s.next anchor >>= λ first. insert_before s first elem

unfoldable pub push_back : Links → ℕ → ℕ → Option Links
push_back s anchor elem = s.prev anchor >>= λ last. insert_after s last elem elem

unfoldable pub splice_back : Links → ℕ → ℕ → ℕ → Option Links
splice_back s anchor first last = s.prev anchor >>= λ back. insert_after s back first last

unfoldable pub pop_front : Links → ℕ → Option (Links × ℕ)
pop_front s anchor =
    let popped = s.next anchor >>= λ first. remove_elem s first >>= λ s'. some (s', first) in
    if list_empty s anchor then none else popped

unfoldable pub pop_back : Links → ℕ → Option (Links × ℕ)
pop_back s anchor =
    let popped = s.prev anchor >>= λ last. remove_elem s last >>= λ s'. some (s', last) in
    if list_empty s anchor then none else popped

-- The links and the count.
unfoldable pub transfer_from : Links → ℕ → ℕ → ℕ → Option (Links × ℕ)
transfer_from s anchor other count =
    let moved = s.next other >>= λ first. remove_many s other first count >>= λ r.
    splice_back r.0 anchor first r.1 >>= λ s'. some (s', r.2) in
    if list_empty s other then none else moved
