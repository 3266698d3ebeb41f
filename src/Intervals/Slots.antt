-- ===== src/Intervals/Slots.antt =====
-- The next apply slot of a continuous market, `next_apply_slot`.
use quant_strategies.Prelude.{
  ℕ, suc, ◌+◌, ◌-◌, ◌*◌, ◌/◌, ◌≡◌, ◌≤◌, ◌<◌, ap, none, some, Bool, ltb, ltb→lt, Bool-cases, inl,
  inr, if◌then◌else◌, lt→ltb, if_ensures,
}
use native.Mathlib.Omega.{arith}
use native.Mathlib.Nat.{mul-le-mul_right}
use quant_strategies.Intervals.{Stamp, as_utc, floor_at, slot_after, next_apply_slot}

-- An instant that is `offset` before the close of a bar.
abbrev pub IsSlot : ℕ → ℕ → ℕ → Type 0
IsSlot period offset t = (k : ℕ) × (t + offset ≡ k * period)

-- `r` is the first slot after `now`.
abbrev pub IsNextSlot : ℕ → ℕ → ℕ → ℕ → Type 0
IsNextSlot period offset now r =
    (now < r) × IsSlot period offset r × ((t : ℕ) → now < t → IsSlot period offset t → r ≤ t)

pub floor_le : (a p : ℕ) → 0 < p → a / p * p ≤ a
floor_le a p h = grind arith

pub lt_floor : (a p : ℕ) → 0 < p → a < a / p * p + p
lt_floor a p h = grind arith

suc-mul_lem : (q p : ℕ) → suc q * p ≡ q * p + p
suc-mul_lem q p = omega arith

-- A multiple that passes one multiple passes the next.
next_multiple : (j q p : ℕ) → q * p < j * p → q * p + p ≤ j * p
next_multiple j q p h = elim (Bool-cases (ltb q j)) [
  | inl e ↦
      let le : suc q * p ≤ j * p = mul-le-mul_right p (ltb→lt q j e) in
      let expand = suc-mul_lem q p in omega arith
  | inr e ↦ let le : j * p ≤ q * p = mul-le-mul_right p (ground arith) in absurd (omega arith)
]

this_bar :
    (now period offset : ℕ)
    → offset < period
    → now < floor_at now period + period - offset
    → IsNextSlot period offset now (floor_at now period + period - offset)
this_bar now p offset h late =
    let low = floor_le now p (omega arith) in
    let next = suc-mul_lem (now / p) p in
    (
      late,
      (suc (now / p), omega arith),
      λ t after s. let far = next_multiple s.0 (now / p) p (omega arith) in omega arith,
    )

next_bar :
    (now period offset : ℕ)
    → offset < period
    → floor_at now period + period - offset ≤ now
    → IsNextSlot period offset now (floor_at now period + period - offset + period)
next_bar now p offset h late =
    let high = lt_floor now p (omega arith) in
    let next = suc-mul_lem (now / p) p in
    let next' = suc-mul_lem (suc (now / p)) p in
    (
      omega arith,
      (suc (suc (now / p)), omega arith),
      λ t after s. let far = next_multiple s.0 (suc (now / p)) p (omega arith) in omega arith,
    )

-- An offset shorter than the period is accepted, and the answer is the first instant after the given
-- one that lies `offset` before the close of a bar.
pub next_apply_slot-IsNextSlot :
    (after : Stamp) (period offset : ℕ)
    → offset < period
    → (r : ℕ) × (next_apply_slot after period offset ≡ some r)
      × IsNextSlot period offset (as_utc after) r
unfolding next_apply_slot
next_apply_slot-IsNextSlot after p offset h =
    let now = as_utc after in
    (
      slot_after now p offset,
      ap (λ (b : Bool). if b then some (slot_after now p offset) else none) (lt→ltb offset p h),
      if_ensures (IsNextSlot p offset now) (ltb now (floor_at now p + p - offset))
          (λ e. this_bar now p offset h (ltb→lt now (floor_at now p + p - offset) e))
          (λ e. next_bar now p offset h (ground arith)),
    )
