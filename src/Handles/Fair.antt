-- ===== src/Handles/Fair.antt =====
-- Users, counts and slots of src/runtime/SynchronizedArray.h, as functions: which slot holds which element,
-- how often an element is counted as used, who uses it through which slot, and which ones are being closed.
use kos_hspabla.Prelude.{
  ℕ, ◌+◌, ◌-◌, ◌<◌, ◌==◌, Bool, true, false, ◌&&◌, if◌then◌else◌, ◌≡◌, ◌≢◌, sym, ◌∙◌, ap, ap₂,
  arith, update, update_self, update_ne, Option, none, some, ℕ_discrete, dec_lt,
}
use mathlib.Core.Path.{subst}
use mathlib.Core.Option.{some-injective}

abbrev pub Uses : Type 0
Uses = ℕ → ℕ → ℕ

abbrev pub put_use : Uses → ℕ → ℕ → ℕ → Uses
put_use uses i e n j x = if (i == j) && (e == x) then n else uses j x

pub record IsFair (g : ℕ → Option ℕ) (count : ℕ → ℕ) (uses : Uses) (closing : ℕ → Bool)
    : Type 0 where
  pub used : (i e : ℕ) → 0 < uses i e → g i ≡ some e
  pub counted : (i e : ℕ) → g i ≡ some e → count e ≡ uses i e
  pub distinct : (i j e : ℕ) → g i ≡ some e → g j ≡ some e → i ≡ j
  pub closed : (i e : ℕ) → closing e ≡ true → g i ≢ some e

pub put_use_self : (uses : Uses) (i e n : ℕ) → put_use uses i e n i e ≡ n
put_use_self uses i e n = ground arith

put_use_slot : (uses : Uses) (i e n j x : ℕ) → i ≢ j → put_use uses i e n j x ≡ uses j x
put_use_slot uses i e n j x h = ground (arith, h)

put_use_elem : (uses : Uses) (i e n j x : ℕ) → e ≢ x → put_use uses i e n j x ≡ uses j x
put_use_elem uses i e n j x h = ground (arith, h)

module _ {g : ℕ → Option ℕ} {count : ℕ → ℕ} {uses : Uses} {closing : ℕ → Bool}
    (v : IsFair g count uses closing) where
  not_used : (i e : ℕ) → g i ≢ some e → uses i e ≡ 0
  not_used i e h = elim (dec_lt 0 (uses i e)) [
    | yes on ↦ absurd (h (v.used i e on))
    | no off ↦ omega (arith, off)
  ]

  pub same-IsFair : {g' : ℕ → Option ℕ} → ((j : ℕ) → g' j ≡ g j) → IsFair g' count uses closing
  same-IsFair same = record {
    used = λ i e h. same i ∙ v.used i e h;
    counted = λ i e h. v.counted i e (sym (same i) ∙ h);
    distinct = λ i j e h k. v.distinct i j e (sym (same i) ∙ h) (sym (same j) ∙ k);
    closed = λ i e c h. v.closed i e c (sym (same i) ∙ h);
  }

  pub deleted-IsFair : (e : ℕ) → IsFair g count uses (update closing e false)
  deleted-IsFair e = record {
    used = v.used;
    counted = v.counted;
    distinct = v.distinct;
    closed = λ i x c. elim (ℕ_discrete e x) [
      | yes same ↦ absurd (ground (arith, c, same))
      | no other ↦ v.closed i x (sym (update_ne closing e x false other) ∙ c)
    ];
  }

  -- An element comes into a vacant slot.
  pub opened-IsFair :
      {g' : ℕ → Option ℕ} (idx e : ℕ)
      → g idx ≡ none
      → ((j : ℕ) → g j ≢ some e)
      → closing e ≡ false
      → g' idx ≡ some e
      → ((j : ℕ) → idx ≢ j → g' j ≡ g j)
      → IsFair g' (update count e 0) uses closing
  opened-IsFair {g'} idx e vacant fresh open_now here others = record {
    used = λ i x h. elim (ℕ_discrete idx i) [
      | yes same ↦ cc (v.used i x h)
      | no other ↦ others i other ∙ v.used i x h
    ];
    counted = λ i x h. elim (ℕ_discrete idx i) [
      | yes same ↦
          let only : e ≡ x = cc in
          let unused : uses i x ≡ 0 = not_used i x (λ k. cc) in
          ap (update count e 0) (sym only) ∙ update_self count e 0 ∙ sym unused
      | no other ↦
          let before : g i ≡ some x = sym (others i other) ∙ h in
          update_ne count e x 0 (λ k. fresh i (before ∙ ap some (sym k))) ∙ v.counted i x before
    ];
    distinct = λ i j x h k. elim (ℕ_discrete idx i) [
      | yes one ↦ elim (ℕ_discrete idx j) [
        | yes two ↦ sym one ∙ two
        | no two ↦ absurd (fresh j (sym (others j two) ∙ k ∙ cc))
      ]
      | no one ↦ elim (ℕ_discrete idx j) [
        | yes two ↦ absurd (fresh i (sym (others i one) ∙ h ∙ cc))
        | no two ↦ v.distinct i j x (sym (others i one) ∙ h) (sym (others j two) ∙ k)
      ]
    ];
    closed = λ i x c h. elim (ℕ_discrete idx i) [
      | yes same ↦ let only : e ≡ x = cc in cc
      | no other ↦ v.closed i x c (sym (others i other) ∙ h)
    ];
  }

  -- A use begins, and ends.
  put-IsFair :
      (idx e n : ℕ) → g idx ≡ some e → IsFair g (update count e n) (put_use uses idx e n) closing
  put-IsFair idx e n here = record {
    used = λ i x h. elim (ℕ_discrete idx i) [
      | yes one ↦ elim (ℕ_discrete e x) [
        | yes two ↦ cc
        | no two ↦ v.used i x (subst (λ m. 0 < m) (put_use_elem uses idx e n i x two) h)
      ]
      | no one ↦ v.used i x (subst (λ m. 0 < m) (put_use_slot uses idx e n i x one) h)
    ];
    counted = λ i x h. elim (ℕ_discrete e x) [
      | yes two ↦
          let slot : idx ≡ i = v.distinct idx i x (here ∙ ap some two) h in
          ap (update count e n) (sym two)
          ∙ update_self count e n
          ∙ sym (put_use_self uses idx e n)
          ∙ ap₂ (put_use uses idx e n) slot two
      | no two ↦
          update_ne count e x n two ∙ v.counted i x h ∙ sym (put_use_elem uses idx e n i x two)
    ];
    distinct = v.distinct;
    closed = v.closed;
  }

  pub begun-IsFair :
      (idx e : ℕ)
      → g idx ≡ some e
      → IsFair g (update count e (count e + 1)) (put_use uses idx e (uses idx e + 1)) closing
  begun-IsFair idx e here =
      subst (λ n. IsFair g (update count e n) (put_use uses idx e (uses idx e + 1)) closing)
        (ap (λ n. n + 1) (sym (v.counted idx e here))) (put-IsFair idx e (uses idx e + 1) here)

  pub ended-IsFair :
      (idx e : ℕ)
      → g idx ≡ some e
      → IsFair g (update count e (count e - 1)) (put_use uses idx e (uses idx e - 1)) closing
  ended-IsFair idx e here =
      subst (λ n. IsFair g (update count e n) (put_use uses idx e (uses idx e - 1)) closing)
        (ap (λ n. n - 1) (sym (v.counted idx e here))) (put-IsFair idx e (uses idx e - 1) here)

  -- The slot of an element that nobody uses becomes invalid.
  pub vacated-IsFair :
      {g' : ℕ → Option ℕ} (idx e : ℕ)
      → g idx ≡ some e
      → uses idx e ≡ 0
      → g' idx ≡ none
      → ((j : ℕ) → idx ≢ j → g' j ≡ g j)
      → IsFair g' count uses closing
  vacated-IsFair {g'} idx e here unused gone others = record {
    used = λ i x h. elim (ℕ_discrete idx i) [
      | yes one ↦
          let only : e ≡ x = some-injective e x (sym here ∙ ap g one ∙ v.used i x h) in
          absurd (omega (arith, h, ap₂ uses one only, unused))
      | no one ↦ others i one ∙ v.used i x h
    ];
    counted = λ i x h. v.counted i x (before i x h);
    distinct = λ i j x h k. v.distinct i j x (before i x h) (before j x k);
    closed = λ i x c h. v.closed i x c (before i x h);
  }
    where
      before : (i x : ℕ) → g' i ≡ some x → g i ≡ some x
      before i x h = elim (ℕ_discrete idx i) [ yes one ↦ cc | no one ↦ sym (others i one) ∙ h ]

  -- An element that is in no slot is to be deleted.
  pub closing-IsFair :
      (e : ℕ) → ((i : ℕ) → g i ≢ some e) → IsFair g count uses (update closing e true)
  closing-IsFair e nowhere = record {
    used = v.used;
    counted = v.counted;
    distinct = v.distinct;
    closed = λ i x c. elim (ℕ_discrete e x) [
      | yes same ↦ λ h. nowhere i (h ∙ ap some (sym same))
      | no other ↦ v.closed i x (sym (update_ne closing e x true other) ∙ c)
    ];
  }
