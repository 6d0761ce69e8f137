-- ===== src/Gdb/Breakpoints.antt =====
-- The memory behind the software breakpoints of src/gdb/Gdb.cc, over the handlers `Z0` and `z0`.
use kos_hspabla.Prelude.{
  ℕ, ◌==◌, Bool, true, false, not, ◌&&◌, ◌||◌, if◌then◌else◌, ◌≡◌, ◌≢◌, refl, sym, ◌∙◌, ap, arith,
  update_self, update_ne, Option, none, some, ◌>>=◌, List, [], ◌∷◌, All,
}
use kos_hspabla.Gdb.Hex.{head_or_nul, behind, hex_to_int}
use kos_hspabla.Gdb.Stub.{Stub, error_text, ok_text}
use kos_hspabla.Gdb.Break.{
  remember, remembered, poke, set_break_at, remove_break_with, set_soft_break, remove_soft_break,
}

pub remembered-remember :
    (a op : ℕ) (map : List (ℕ × ℕ)) → remembered a (remember a op map) ≡ some op
remembered-remember a op [] = ground arith
remembered-remember a op ((b, o) ∷ map) = ground (arith, remembered-remember a op map)

pub remembered-remember_ne :
    (a b op : ℕ) (map : List (ℕ × ℕ)) → a ≢ b → remembered a (remember b op map) ≡ remembered a map
remembered-remember_ne a b op [] ne = ground (arith, ne)
remembered-remember_ne a b op ((c, o) ∷ map) ne =
    ground (arith, ne, remembered-remember_ne a b op map ne)

-- `text` parses as an address and a length.
pub record IsRequest (text : List ℕ) (addr length : ℕ) : Type 0 where
  pub addr_there : (hex_to_int text).digits ≢ 0
  pub comma : head_or_nul (hex_to_int text).rest ≡ b','
  pub length_there : (hex_to_int (behind (hex_to_int text).rest)).digits ≢ 0
  pub addr_value : (hex_to_int text).value ≡ addr
  pub length_value : (hex_to_int (behind (hex_to_int text).rest)).value ≡ length

module _ {text : List ℕ} {addr length : ℕ} (r : IsRequest text addr length) (s : Stub) where
  parsed :
      (not ((hex_to_int text).digits == 0)
        && (head_or_nul (hex_to_int text).rest == b',')
        && not ((hex_to_int (behind (hex_to_int text).rest)).digits == 0))
      ≡ true
  parsed = ground (arith, r.addr_there, r.comma, r.length_there)

  set_soft_break-parsed : set_soft_break s text ≡ set_break_at s addr length
  unfolding set_soft_break
  set_soft_break-parsed = rw (parsed, r.addr_value, (r.length_value)) refl

  remove_soft_break-parsed :
      remove_soft_break s text ≡ remove_break_with s addr (remembered addr s.bp_map)
  unfolding remove_soft_break
  remove_soft_break-parsed = rw (parsed, (r.addr_value)) refl

-- Requests to set (`true`) or to remove a breakpoint, one after the other.
unfoldable pub handle_breaks : Stub → List (Bool × List ℕ) → Option Stub
handle_breaks s [] = some s
handle_breaks s ((setting, text) ∷ requests) = do
  done ← if setting then set_soft_break s text else remove_soft_break s text
  handle_breaks done.0 requests

-- At another address, and of one byte.
pub record IsElsewhere (a : ℕ) (request : Bool × List ℕ) : Type 0 where
  pub other : (hex_to_int request.1).value ≢ a
  pub one : (hex_to_int (behind (hex_to_int request.1).rest)).value ≡ 1

-- What the breakpoint at `a` rests on is the same.
record IsSame (a : ℕ) (s s' : Stub) : Type 0 where
  byte : s'.memory.byte_at a ≡ s.memory.byte_at a
  entry : remembered a s'.bp_map ≡ remembered a s.bp_map
  access : s'.memory.writable a ≡ s.memory.writable a

data Leaves (a : ℕ) (s : Stub) : Option (Stub × List ℕ) → Type 0 where
  leaves : (s' : Stub) (out : List ℕ) → IsSame a s s' → Leaves a s (some (s', out))

Leaves-if :
    {a : ℕ} {s : Stub} (b : Bool) {o p : Option (Stub × List ℕ)}
    → (b ≡ true → Leaves a s o)
    → (b ≡ false → Leaves a s p)
    → Leaves a s (if b then o else p)
Leaves-if true h g = h refl
Leaves-if false h g = g refl

module _ (a : ℕ) (s : Stub) where
  same : (fault : Bool) → IsSame a s (record s { fault_enabled = fault })
  same fault = record { byte = refl; entry = refl; access = refl }

  Leaves-set_break_at : (b length : ℕ) → length ≡ 1 → b ≢ a → Leaves a s (set_break_at s b length)
  unfolding set_break_at
  Leaves-set_break_at b length one ne =
      let other = remembered-remember_ne a b (s.memory.byte_at b) s.bp_map (λ e. ne (sym e)) in
      Leaves-if (not (s.memory.readable b)) (λ e. leaves _ _ (same true))
        (λ e.
          Leaves-if (not (length == 1)) (λ e. absurd (ground (arith, e, one)))
            (λ e.
              Leaves-if (not (s.memory.writable b))
                (λ e. leaves _ _ (record { byte = refl; entry = other; access = refl }))
                (λ e. leaves _ _ (record {
                  byte = update_ne s.memory.byte_at b a 0xCC ne;
                  entry = other;
                  access = refl;
                }))))

  Leaves-remove_break_with : (b : ℕ) (op : Option ℕ) → b ≢ a → Leaves a s (remove_break_with s b op)
  unfolding remove_break_with
  Leaves-remove_break_with b none ne =
      leaves _ _ (record { byte = refl; entry = refl; access = refl })
  Leaves-remove_break_with b (some op) ne =
      Leaves-if (not (s.memory.writable b)) (λ e. leaves _ _ (same true))
        (λ e.
          leaves _ _
            (record { byte = update_ne s.memory.byte_at b a op ne; entry = refl; access = refl }))

  Leaves-request :
      (request : Bool × List ℕ)
      → IsElsewhere a request
      → Leaves a s (if request.0 then set_soft_break s request.1 else remove_soft_break s request.1)
  unfolding set_soft_break remove_soft_break
  Leaves-request (setting, text) h =
      let addr = (hex_to_int text).value in
      let refused : Leaves a s (some (s, error_text)) =
        leaves s error_text (record { byte = refl; entry = refl; access = refl }) in
      Leaves-if setting
        (λ e. Leaves-if _ (λ e. Leaves-set_break_at addr _ h.one h.other) (λ e. refused))
        (λ e.
          Leaves-if _ (λ e. Leaves-remove_break_with addr (remembered addr s.bp_map) h.other)
            (λ e. refused))

IsSame-trans : {a : ℕ} {s s' s2 : Stub} → IsSame a s s' → IsSame a s' s2 → IsSame a s s2
IsSame-trans h g = record {
  byte = g.byte ∙ h.byte;
  entry = g.entry ∙ h.entry;
  access = g.access ∙ h.access;
}

continue :
    (a : ℕ) (s : Stub) (requests : List (Bool × List ℕ)) (o : Option (Stub × List ℕ))
    → Leaves a s o
    → ((s' : Stub) → (s2 : Stub) × (handle_breaks s' requests ≡ some s2) × IsSame a s' s2)
    → (s2 : Stub) × ((o >>= λ done. handle_breaks done.0 requests) ≡ some s2) × IsSame a s s2
continue a s requests o (leaves s' out h) rest =
    let (s2, run, g) = rest s' in (s2, run, IsSame-trans h g)

handle_breaks-IsSame :
    (a : ℕ) (requests : List (Bool × List ℕ)) (s : Stub)
    → All (IsElsewhere a) requests
    → (s' : Stub) × (handle_breaks s requests ≡ some s') × IsSame a s s'
unfolding handle_breaks
handle_breaks-IsSame a [] s h = (s, refl, record { byte = refl; entry = refl; access = refl })
handle_breaks-IsSame a (request ∷ requests) s h =
    continue a s requests _ (Leaves-request a s request h.0)
      (λ s'. handle_breaks-IsSame a requests s' h.1)

module _ (s : Stub) (a : ℕ) (writable : s.memory.writable a ≡ true) where
  unfoldable after_set : Stub
  after_set = record s {
    memory = poke s.memory a 0xCC;
    bp_map = remember a (s.memory.byte_at a) s.bp_map;
    unwind_break = (a == s.unwind_addr) || s.unwind_break;
    fault_enabled = false;
  }

  set_break_at-works : s.memory.readable a ≡ true → set_break_at s a 1 ≡ some (after_set, ok_text)
  unfolding set_break_at after_set
  set_break_at-works readable = rw (readable, writable) refl

  remove_break_with-works :
      (entry : Option ℕ) (op : ℕ)
      → entry ≡ some op
      → (s' : Stub) × (remove_break_with s a entry ≡ some (s', ok_text))
        × (s'.memory.byte_at a ≡ op)
  unfolding remove_break_with
  remove_break_with-works entry op e = (
    record s {
      memory = poke s.memory a op;
      unwind_break = not (a == s.unwind_addr) && s.unwind_break;
      fault_enabled = false;
    },
    rw (e, writable) refl,
    update_self s.memory.byte_at a op,
  )

-- For a request that names a readable and writable address with length 1, and any requests in
-- between to set or remove breakpoints with length 1 at other addresses, setting the breakpoint
-- answers OK, the requests in between fail no assertion, the byte at the address is 0xCC until it
-- is removed, removing it answers OK, and the byte is then what it was before.
pub breakpoint_lifetime :
    (s : Stub) (a : ℕ) (text : List ℕ) (requests : List (Bool × List ℕ))
    → IsRequest text a 1
    → s.memory.readable a ≡ true
    → s.memory.writable a ≡ true
    → All (IsElsewhere a) requests
    → (s1 s2 s3 : Stub) × (set_soft_break s text ≡ some (s1, ok_text))
      × (handle_breaks s1 requests ≡ some s2)
      × (s2.memory.byte_at a ≡ 0xCC)
      × (remove_soft_break s2 text ≡ some (s3, ok_text))
      × (s3.memory.byte_at a ≡ s.memory.byte_at a)
unfolding after_set
breakpoint_lifetime s a text requests r readable writable h =
    let s1 = after_set s a writable in
    let (s2, run, same) = handle_breaks-IsSame a requests s1 h in
    let entry = same.entry ∙ remembered-remember a (s.memory.byte_at a) s.bp_map in
    let (s3, removed, restored) =
      remove_break_with-works s2 a (same.access ∙ writable) (remembered a s2.bp_map)
        (s.memory.byte_at a) entry in
    (
      s1,
      s2,
      s3,
      set_soft_break-parsed r s ∙ set_break_at-works s a writable readable,
      run,
      same.byte ∙ update_self s.memory.byte_at a 0xCC,
      remove_soft_break-parsed r s2 ∙ removed,
      restored,
    )

-- For a request that names a readable and writable address with length 1, setting the breakpoint
-- twice and removing it answers OK each time, and leaves 0xCC in memory.
pub breakpoint_twice :
    (s : Stub) (a : ℕ) (text : List ℕ)
    → IsRequest text a 1
    → s.memory.readable a ≡ true
    → s.memory.writable a ≡ true
    → (s1 s2 s3 : Stub) × (set_soft_break s text ≡ some (s1, ok_text))
      × (set_soft_break s1 text ≡ some (s2, ok_text))
      × (remove_soft_break s2 text ≡ some (s3, ok_text))
      × (s3.memory.byte_at a ≡ 0xCC)
unfolding after_set
breakpoint_twice s a text r readable writable =
    let s1 = after_set s a writable in
    let s2 = after_set s1 a writable in
    let entry =
      remembered-remember a (s1.memory.byte_at a) s1.bp_map
      ∙ ap (λ op. some op) (update_self s.memory.byte_at a 0xCC) in
    let (s3, removed, left) =
      remove_break_with-works s2 a writable (remembered a s2.bp_map) 0xCC entry in
    (
      s1,
      s2,
      s3,
      set_soft_break-parsed r s ∙ set_break_at-works s a writable readable,
      set_soft_break-parsed r s1 ∙ set_break_at-works s1 a writable readable,
      remove_soft_break-parsed r s2 ∙ removed,
      left,
    )
