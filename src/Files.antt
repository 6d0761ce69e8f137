-- ===== src/Files.antt =====
-- `class FileAccess` of src/world/Access.h and Access.cc: reading a file that lies in memory. An off_t is a
-- word whose upper half is negative, and a result of -EINVAL is one.
pub mod Reading
mod Tests
use kos_hspabla.Prelude.{
  ℕ, zero, suc, ◌+◌, ◌-◌, ◌^◌, ◌==◌, ltb, leb, Bool, if◌then◌else◌, List, [], ◌∷◌,
}
use kos_hspabla.Basics.{mword_mod, add_mword, sub_mword}

pub record RamFile : Type 0 where
  pub vma : ℕ
  pub pma : ℕ
  pub size : ℕ

pub record FileAccess : Type 0 where
  pub offset : ℕ
  pub rf : RamFile

abbrev pub is_negative : ℕ → Bool
is_negative x = leb (2 ^ 63) x

-- `-EINVAL`
abbrev pub invalid : ℕ
invalid = mword_mod - 22

-- What `memcpy` reads.
unfoldable pub copy : (ℕ → ℕ) → ℕ → ℕ → List ℕ
copy memory addr zero = []
copy memory addr (suc n) = memory addr ∷ copy memory (add_mword addr 1) n

-- The result and the bytes in the buffer.
unfoldable pub pread : (ℕ → ℕ) → RamFile → ℕ → ℕ → ℕ × List ℕ
pread memory rf nbyte o =
    let n = if ltb rf.size (add_mword o nbyte) then sub_mword rf.size o else nbyte in
    (n, copy memory (add_mword rf.vma o) n)

-- Under `olock`.
unfoldable pub read : (ℕ → ℕ) → FileAccess → ℕ → ℕ × List ℕ × FileAccess
read memory f nbyte =
    let len = pread memory f.rf nbyte f.offset in
    (len.0, len.1, if is_negative len.0 then f else record f { offset = add_mword f.offset len.0 })

pub data Whence : Type 0 where
  seek_set : Whence
  seek_cur : Whence
  seek_end : Whence
  other_whence : ℕ → Whence

abbrev pub seek_to : FileAccess → ℕ → ℕ × FileAccess
seek_to f new_o = if is_negative new_o then (invalid, f) else (new_o, record f { offset = new_o })

unfoldable pub lseek : FileAccess → ℕ → Whence → ℕ × FileAccess
lseek f o seek_set = seek_to f o
lseek f o seek_cur = seek_to f (add_mword f.offset o)
lseek f o seek_end = seek_to f (add_mword f.rf.size o)
lseek f o (other_whence w) = (invalid, f)
