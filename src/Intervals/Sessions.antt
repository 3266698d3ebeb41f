-- ===== src/Intervals/Sessions.antt =====
-- The next apply slot of a listed market, `next_session_apply_slot`.
use quant_strategies.Prelude.{
  ℕ, zero, suc, ◌+◌, ◌-◌, ◌*◌, ◌/◌, ◌≡◌, ◌≤◌, ◌<◌, refl, ap, Option, none, some, ltb, leb, leb→le,
  ltb→lt, ◌==◌, ==_iff, Bool-cases, inl, inr, if_ensures,
}
use mathlib.Core.Path.{subst}
use native.Mathlib.Omega.{arith}
use quant_strategies.Intervals.{
  Stamp, as_utc, day_us, weekday, session_from, next_session_apply_slot,
}

module _ (cursor close_time offset : ℕ) where
  -- A weekday whose slot is still ahead.
  abbrev pub Opens : ℕ → Type 0
  Opens day = (weekday day < 5) × (cursor + offset < day * day_us + close_time)

  -- The slot of the first such day, from `day` on.
  abbrev pub IsFirstSession : ℕ → Option ℕ → Type 0
  IsFirstSession day r =
      (d : ℕ) × (day ≤ d)
      × Opens d
      × (r ≡ some (d * day_us + close_time - offset))
      × ((e : ℕ) → day ≤ e → e < d → ¬ Opens e)

  later_first :
      (day : ℕ) (r : Option ℕ) → ¬ Opens day → IsFirstSession (day + 1) r → IsFirstSession day r
  later_first day r shut (d, from, opens, e, first) = (
    d,
    omega arith,
    opens,
    e,
    λ f le lt. elim (Bool-cases (f == day)) [
      | inl same ↦ λ o. shut (subst Opens ((==_iff f day).0 same) o)
      | inr other ↦ first f (ground arith) lt
    ],
  )

  later_open : (day d : ℕ) → day ≤ d → Opens d → ¬ Opens day → day + 1 ≤ d
  later_open day d le opens shut = elim (Bool-cases (d == day)) [
    | inl same ↦ absurd (shut (subst Opens ((==_iff d day).0 same) opens))
    | inr other ↦ ground arith
  ]

  session_from-IsFirst :
      (n day d : ℕ)
      → day ≤ d
      → d < day + n
      → Opens d
      → IsFirstSession day (session_from n cursor close_time offset day)
  unfolding session_from
  session_from-IsFirst zero day d le lt opens = absurd (omega arith)
  session_from-IsFirst (suc n) day d le lt opens =
      let later = session_from n cursor close_time offset (day + 1) in
      let rest = λ (shut : ¬ Opens day).
        later_first day later shut (
          session_from-IsFirst n (day + 1) d (later_open day d le opens shut) (omega arith)
            opens) in
      if_ensures (IsFirstSession day) (leb 5 (weekday day))
        (λ e. let weekend = leb→le 5 (weekday day) e in rest (λ o. absurd (omega arith)))
        (λ e.
          if_ensures (IsFirstSession day) (ltb (cursor + offset) (day * day_us + close_time))
            (λ l. (
              day,
              omega arith,
              (ground arith, ltb→lt (cursor + offset) _ l),
              refl,
              λ f from before. absurd (omega arith),
            ))
            (λ l. rest (λ o. absurd (ground arith))))

  -- A weekday follows within three days.
  weekday_soon : (day : ℕ) → (d : ℕ) × (day < d) × (d ≤ day + 3) × (weekday d < 5)
  weekday_soon day = elim (Bool-cases (leb 5 (weekday (day + 1)))) [
    | inl e ↦
        let weekend = leb→le 5 (weekday (day + 1)) e in
        (day + 3, omega arith, omega arith, omega arith)
    | inr e ↦ (day + 1, omega arith, omega arith, ground arith)
  ]

  session-IsFirst :
      offset ≤ close_time
      → IsFirstSession
          (cursor / day_us)
          (session_from 10 cursor close_time offset (cursor / day_us))
  session-IsFirst h =
      let soon = weekday_soon (cursor / day_us) in
      session_from-IsFirst 10 (cursor / day_us) soon.0 (omega arith) (omega arith)
        (soon.3, omega arith)

-- Where the offset does not reach back past midnight, a slot is always found within the ten days
-- searched: it is `offset` before the close of the first weekday, from today in the venue's zone,
-- whose slot has not passed.
pub next_session_apply_slot-IsFirst :
    (to_wall to_utc : ℕ → ℕ) (after : Stamp) (close_time offset : ℕ)
    → offset ≤ close_time
    → let cursor = to_wall (as_utc after) in
      (d : ℕ) × (next_session_apply_slot to_wall to_utc after close_time offset
        ≡ some (to_utc (d * day_us + close_time - offset)))
      × (cursor / day_us ≤ d)
      × Opens cursor close_time offset d
      × ((e : ℕ) → cursor / day_us ≤ e → e < d → ¬ Opens cursor close_time offset e)
unfolding next_session_apply_slot
next_session_apply_slot-IsFirst to_wall to_utc after close_time offset h =
    let cursor = to_wall (as_utc after) in
    let first = session-IsFirst cursor close_time offset h in
    (
      first.0,
      ap (λ (r : Option ℕ). elim r [ none ↦ none | some slot ↦ some (to_utc slot) ]) first.3,
      first.1,
      first.2,
      first.4,
    )
