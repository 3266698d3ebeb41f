-- ===== src/MarketData/Gaps.antt =====
-- Missing, fetched and unfilled bars, as lists of timestamps: when a window is rejected.
use quant_strategies.Prelude.{
  ℕ, ◌≡◌, ◌↔◌, ◌≤◌, refl, true, false, not, ◌&&◌, Option, none, some, List, [], ◌∷◌, listed,
  listed-keep, length, ltb, ◌==◌, ==_iff, if_ensures, if◌then◌else◌, ◌<◌, All, ◌⊎◌, Bool-cases, sym,
  ◌∙◌, ltb→lt, inl, lt→ltb, inr,
}
use mathlib.Core.Path.{subst}
use mathlib.Core.Bool.{false≢true, true≢false}
use native.Mathlib.Omega.{arith}
use quant_strategies.MarketData.{not_in, earliest, keep, is_hole, rejects}

-- A bar that was missing and that the exchange did not return.
abbrev pub Unfilled : List ℕ → List ℕ → ℕ → Type 0
Unfilled missing fetched t = (listed t missing ≡ true) × (listed t fetched ≡ false)

listed-not_in :
    (fetched missing : List ℕ) (t : ℕ)
    → listed t (not_in fetched missing) ≡ (listed t missing && not (listed t fetched))
listed-not_in fetched missing t = listed-keep (λ u. not (listed u fetched)) missing t

pub not_in-Unfilled :
    (fetched missing : List ℕ) (t : ℕ)
    → (listed t (not_in fetched missing) ≡ true) ↔ Unfilled missing fetched t
not_in-Unfilled fetched missing t = let e = listed-not_in fetched missing t in ground arith

-- A list that is not empty has an entry.
some_entry : (ts : List ℕ) → (length ts == 0) ≡ false → (t : ℕ) × (listed t ts ≡ true)
some_entry [] h = absurd (true≢false h)
some_entry (t ∷ ts) h = (t, let same = (==_iff t t).1 refl in ground arith)

entry_some : (ts : List ℕ) (t : ℕ) → listed t ts ≡ true → (length ts == 0) ≡ false
entry_some [] t h = absurd (false≢true h)
entry_some (u ∷ ts) t h = ground arith

-- The least entry.
abbrev IsLeast : List ℕ → Option ℕ → Type 0
IsLeast ts none = (t : ℕ) → listed t ts ≡ false
IsLeast ts (some e) = (listed e ts ≡ true) × ((t : ℕ) → listed t ts ≡ true → e ≤ t)

earliest-IsLeast : (ts : List ℕ) → IsLeast ts (earliest ts)
unfolding earliest
earliest-IsLeast [] = λ t. refl
earliest-IsLeast (t ∷ ts) = least_of t ts (earliest ts) (earliest-IsLeast ts)
  where
    least_of :
        (t : ℕ) (ts : List ℕ) (o : Option ℕ)
        → IsLeast ts o
        → IsLeast (t ∷ ts) (elim o [ none ↦ some t | some e ↦ some (if ltb e t then e else t) ])
    least_of t ts none h =
        (let same = (==_iff t t).1 refl in ground arith, λ u l. let none_left = h u in ground arith)
    least_of t ts (some e) h =
        if_ensures (λ (x : ℕ). IsLeast (t ∷ ts) (some x)) (ltb e t)
          (λ lt. (let l = h.0 in ground arith, λ u l. let le = h.1 u in ground arith))
          (λ ge.
            (let same = (==_iff t t).1 refl in ground arith, λ u l. let le = h.1 u in ground arith))

is_hole_iff :
    (ts : List ℕ) (o : Option ℕ) (t : ℕ)
    → IsLeast ts o
    → (is_hole o t ≡ true) ↔ ((u : ℕ) × (listed u ts ≡ true) × (u < t))
is_hole_iff ts none t h = (λ e. absurd (false≢true e), λ m. absurd (true≢false (sym m.1 ∙ h m.0)))
is_hole_iff ts (some e) t h =
    (λ lt. (e, h.0, ltb→lt e t lt), λ m. let le = h.1 m.0 m.1 in lt→ltb e t (omega arith))

-- A bar that the exchange skipped: it returned an older one.
abbrev pub Skipped : List ℕ → List ℕ → ℕ → Type 0
Skipped missing fetched t =
    Unfilled missing fetched t × ((u : ℕ) × (listed u fetched ≡ true) × (u < t))

holes_iff :
    (missing fetched : List ℕ) (t : ℕ)
    → (listed t (keep (is_hole (earliest fetched)) (not_in fetched missing)) ≡ true)
      ↔ Skipped missing fetched t
holes_iff missing fetched t =
    let at_hole = listed-keep (is_hole (earliest fetched)) (not_in fetched missing) t in
    let unfilled = not_in-Unfilled fetched missing t in
    let older = is_hole_iff fetched (earliest fetched) t (earliest-IsLeast fetched) in
    (
      λ l. (unfilled.0 (ground arith), older.0 (ground arith)),
      λ s. let u = unfilled.1 s.0 in let o = older.1 s.1 in ground arith,
    )

module _ (missing fetched : List ℕ) (newest : ℕ) where
  abbrev unfilled : List ℕ
  unfilled = not_in fetched missing

  abbrev holes : List ℕ
  holes = keep (is_hole (earliest fetched)) unfilled

  rejects_cases :
      rejects missing fetched newest ≡ true
      → (listed newest unfilled ≡ true) ⊎ ((length holes == 0) ≡ false)
  unfolding rejects
  rejects_cases h = elim (Bool-cases (listed newest unfilled)) [
    | inl l ↦ inl l
    | inr other ↦ inr (ground arith)
  ]

  rejects_newest : listed newest unfilled ≡ true → rejects missing fetched newest ≡ true
  unfolding rejects
  rejects_newest l = let some_left = entry_some unfilled newest l in ground arith

  rejects_hole :
      (t : ℕ)
      → listed t unfilled ≡ true
      → listed t holes ≡ true
      → rejects missing fetched newest ≡ true
  unfolding rejects
  rejects_hole t l k =
      let some_left = entry_some unfilled t l in
      let some_hole = entry_some holes t k in ground arith

  -- A window is rejected exactly if the exchange did not return its newest bar, or skipped a bar, that
  -- was missing.
  pub rejects_iff :
      (rejects missing fetched newest ≡ true)
      ↔ (Unfilled missing fetched newest ⊎ ((t : ℕ) × Skipped missing fetched t))
  rejects_iff = (
    λ h. elim (rejects_cases h) [
      | inl l ↦ inl ((not_in-Unfilled fetched missing newest).0 l)
      | inr k ↦
          let hole = some_entry holes k in inr (hole.0, (holes_iff missing fetched hole.0).0 hole.1)
    ],
    λ r. elim r [
      | inl u ↦ rejects_newest ((not_in-Unfilled fetched missing newest).1 u)
      | inr s ↦
          rejects_hole s.0 ((not_in-Unfilled fetched missing s.0).1 s.1.0)
            ((holes_iff missing fetched s.0).1 s.1)
    ],
  )

All-listed : (P : ℕ → Type 0) (ts : List ℕ) (t : ℕ) → All P ts → listed t ts ≡ true → P t
All-listed P [] t h l = absurd (false≢true l)
All-listed P (u ∷ ts) t h l = elim (Bool-cases (u == t)) [
  | inl e ↦ subst P ((==_iff u t).0 e) h.0
  | inr e ↦ All-listed P ts t h.1 (ground arith)
]

-- A hole right after the stored history is accepted: where the exchange returns every missing bar but
-- the oldest, the window passes, also if older bars are stored.
pub rejects-oldest_hole :
    (oldest : ℕ) (rest : List ℕ) (newest : ℕ)
    → All (λ t. oldest < t) rest
    → listed newest rest ≡ true
    → rejects (oldest ∷ rest) rest newest ≡ false
rejects-oldest_hole oldest rest newest above has =
    elim (Bool-cases (rejects (oldest ∷ rest) rest newest)) [
      | inr accepted ↦ accepted
      | inl refused ↦ elim ((rejects_iff (oldest ∷ rest) rest newest).0 refused) [
        | inl u ↦ absurd (true≢false (sym has ∙ u.1))
        | inr s ↦
            let at_oldest : (oldest == s.0) ≡ true =
              let l = s.1.0.0 in let m = s.1.0.1 in ground arith in
            let same = (==_iff oldest s.0).0 at_oldest in
            let later = All-listed (λ t. oldest < t) rest s.1.1.0 above s.1.1.1 in
            let sooner = s.1.1.2 in absurd (omega arith)
      ]
    ]
