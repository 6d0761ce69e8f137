-- ===== src/Files/Reading.antt =====
-- Sequences of `read` in src/world/Access.cc, and reading behind the end.
use kos_hspabla.Prelude.{
  ℕ, zero, suc, ◌+◌, ◌-◌, ◌^◌, ◌<◌, ◌≤◌, ltb, false, if◌then◌else◌, ◌≡◌, refl, sym, ◌∙◌, ap, ap₂,
  arith, List, [], ◌∷◌, ◌++◌, All,
}
use kos_hspabla.Basics.{mword_mod, add_mword, sub_mword}
use kos_hspabla.Files.{FileAccess, is_negative, copy, pread, read}

-- `read` for one size after the other: the bytes, and the file.
abbrev pub reads : (ℕ → ℕ) → FileAccess → List ℕ → List ℕ × FileAccess
reads memory f [] = ([], f)
reads memory f (n ∷ sizes) =
    let r = read memory f n in let rest = reads memory r.2 sizes in (r.1 ++ rest.0, rest.1)

abbrev pub total : List ℕ → ℕ
total [] = 0
total (n ∷ sizes) = n + total sizes

abbrev pub at_most : ℕ → ℕ → ℕ
at_most left n = if ltb left n then left else n

pub record IsFile (f : FileAccess) : Type 0 where
  pub inside : f.offset ≤ f.rf.size
  pub positive : f.rf.size < 2 ^ 63
  pub in_memory : f.rf.vma + f.rf.size < mword_mod

copy_split :
    (memory : ℕ → ℕ) (addr n m : ℕ)
    → addr + n < mword_mod
    → copy memory addr (n + m) ≡ copy memory addr n ++ copy memory (addr + n) m
unfolding copy
copy_split memory addr zero m small =
    let here : addr ≡ addr + zero = omega arith in
    let count : zero + m ≡ m = omega arith in ap₂ (copy memory) here count
copy_split memory addr (suc n) m small =
    let one : add_mword addr 1 ≡ addr + 1 = omega (arith, small) in
    let next : addr + 1 + n ≡ addr + suc n = omega arith in
    let count : suc n + m ≡ suc (n + m) = omega arith in
    ap (copy memory addr) count
    ∙ ap (λ l. memory addr ∷ l)
        (ap (λ a. copy memory a (n + m)) one
          ∙ copy_split memory (addr + 1) n m (omega (arith, small))
          ∙ ap₂ (λ a b. copy memory a n ++ copy memory b m) (sym one) next)

-- One read within the file.
record Reads (memory : ℕ → ℕ) (f : FileAccess) (n : ℕ) : Type 0 where
  count : (read memory f n).0 ≡ at_most (f.rf.size - f.offset) n
  bytes : (read memory f n).1 ≡ copy memory (f.rf.vma + f.offset) (at_most (f.rf.size - f.offset) n)
  moved : (read memory f n).2 ≡ record f { offset = f.offset + at_most (f.rf.size - f.offset) n }

read-Reads : (memory : ℕ → ℕ) (f : FileAccess) (n : ℕ) → IsFile f → n < 2 ^ 63 → Reads memory f n
unfolding read pread
read-Reads memory f n v small =
    let amount : (if ltb f.rf.size (add_mword f.offset n) then sub_mword f.rf.size f.offset else n)
        ≡ at_most (f.rf.size - f.offset) n =
      ground (arith, v.inside, v.positive, small) in
    let start : add_mword f.rf.vma f.offset ≡ f.rf.vma + f.offset =
      omega (arith, v.inside, v.in_memory) in
    let here : is_negative (at_most (f.rf.size - f.offset) n) ≡ false =
      ground (arith, v.positive, small) in
    let next : add_mword f.offset (at_most (f.rf.size - f.offset) n)
        ≡ f.offset + at_most (f.rf.size - f.offset) n =
      ground (arith, v.inside, v.positive, small) in
    record {
      count = amount;
      bytes = ap₂ (copy memory) start amount;
      moved = rw (amount, here, next) refl;
    }

at_most_sum :
    (left n m : ℕ) → at_most left n + at_most (left - at_most left n) m ≡ at_most left (n + m)
at_most_sum left n m = ground arith

at_most-le : (left n : ℕ) → at_most left n ≤ left
at_most-le left n = ground arith

behind :
    (left n size offset : ℕ)
    → size - offset ≡ left
    → size - (offset + at_most left n) ≡ left - at_most left n
behind left n size offset e = ground (arith, e)

-- For a file of fewer than 2 ^ 63 bytes that ends below 2 ^ 64 in memory, with the offset not
-- behind its end, and any sequence of sizes below 2 ^ 63, the bytes that `read` puts in the
-- buffer for one size after the other are, together, those of the file from the offset on, as
-- many as the sizes add up to or as the file has left, and the offset moves by that many.
pub reads_lem :
    (memory : ℕ → ℕ) (f : FileAccess) (sizes : List ℕ)
    → IsFile f
    → All (λ n. n < 2 ^ 63) sizes
    → ((reads memory f sizes).0
        ≡ copy memory (f.rf.vma + f.offset) (at_most (f.rf.size - f.offset) (total sizes)))
      × ((reads memory f sizes).1
          ≡ record f { offset = f.offset + at_most (f.rf.size - f.offset) (total sizes) })
unfolding copy
reads_lem memory f [] v small =
    let none : at_most (f.rf.size - f.offset) 0 ≡ 0 = ground arith in
    let same : f.offset ≡ f.offset + at_most (f.rf.size - f.offset) 0 = omega (arith, none) in
    (sym (ap (copy memory (f.rf.vma + f.offset)) none), ap (λ o. record f { offset = o }) same)
reads_lem memory f (n ∷ sizes) v (first, rest) =
    let r = read-Reads memory f n v first in
    let left = f.rf.size - f.offset in
    let k = at_most left n in
    let f' : FileAccess = record f { offset = f.offset + k } in
    let v' : IsFile f' = record {
      inside = omega (arith, v.inside, at_most-le left n);
      positive = v.positive;
      in_memory = v.in_memory;
    } in
    let (bytes, end) = reads_lem memory f' sizes v' rest in
    let same_left = behind left n f.rf.size f.offset refl in
    let all = at_most_sum left n (total sizes) in
    let later = ap (λ g. reads memory g sizes) r.moved in
    let start : f.rf.vma + (f.offset + k) ≡ f.rf.vma + f.offset + k = omega arith in
    let rest_left = ap (λ l. at_most l (total sizes)) same_left in
    let joined =
      ap₂ (λ a b. copy memory (f.rf.vma + f.offset) k ++ copy memory a b) start rest_left in
    let whole = sym (
      copy_split memory (f.rf.vma + f.offset) k (at_most (left - k) (total sizes))
        (omega (arith, v.inside, v.in_memory, at_most-le left n))) in
    let offset : f.offset + k + at_most (f.rf.size - (f.offset + k)) (total sizes)
        ≡ f.offset + at_most left (n + total sizes) =
      omega (arith, rest_left, all) in
    (
      ap₂ (λ a b. a ++ b) r.bytes (ap (λ x. x.0) later ∙ bytes)
          ∙ joined
          ∙ whole
          ∙ ap (copy memory (f.rf.vma + f.offset)) all,
      ap (λ x. x.1) later ∙ end ∙ ap (λ o. record f { offset = o }) offset,
    )
