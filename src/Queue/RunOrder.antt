-- ===== src/Queue/RunOrder.antt =====
-- The order in which queued jobs run: `in_run_order` sorts, and rows with the same key keep the order
-- in which they were listed.
use quant_strategies.Prelude.{
  ℕ, ◌≡◌, refl, ap, ◌∙◌, Bool, true, false, ◌&&◌, List, [], ◌∷◌, All, ◌==◌, if◌then◌else◌,
  if_ensures, ◌⊎◌, ◌≤◌,
}
use quant_strategies.Prelude.Int.{ℤ, eqb_ℤ, ltb_ℤ}
use mathlib.Core.Bool.{true≢false}
use native.Mathlib.Omega.{arith}
use quant_strategies.Queue.{QueueRow, runs_before, insert_row, in_run_order}

-- `a` may stand before `b`: its priority number is smaller, or it is the same and `a` was enqueued no
-- later than `b`.
abbrev pub InOrder : QueueRow → QueueRow → Type 0
InOrder a b =
    (ltb_ℤ a.priority b.priority ≡ true)
    ⊎ ((eqb_ℤ a.priority b.priority ≡ true) × (a.transact_from_ts ≤ b.transact_from_ts))

-- Each row is in order with all that follow it.
abbrev pub IsSorted : List QueueRow → Type 0
IsSorted [] = Unit
IsSorted (x ∷ xs) = All (InOrder x) xs × IsSorted xs

abbrev pub same_key : ℤ → ℕ → QueueRow → Bool
same_key priority ts row = eqb_ℤ row.priority priority && (row.transact_from_ts == ts)

-- The rows with one key, as listed.
abbrev pub keyed : ℤ → ℕ → List QueueRow → List QueueRow
keyed priority ts [] = []
keyed priority ts (x ∷ xs) =
    let rest = keyed priority ts xs in if same_key priority ts x then x ∷ rest else rest

before-InOrder : (a b : QueueRow) → runs_before a b ≡ true → InOrder a b
unfolding runs_before
before-InOrder a b h = ground arith

not_before-InOrder : (a b : QueueRow) → runs_before b a ≡ false → InOrder a b
unfolding runs_before
not_before-InOrder a b h = ground arith

InOrder-trans : (a b c : QueueRow) → InOrder a b → InOrder b c → InOrder a c
InOrder-trans a b c h k = ground arith

before_keys :
    (p : ℤ) (ts : ℕ) (x y : QueueRow)
    → runs_before y x ≡ true
    → same_key p ts y ≡ true
    → same_key p ts x ≡ false
unfolding runs_before
before_keys p ts x y h k = ground arith

All-mono {κ μ} :
    (P : QueueRow → Type κ) (R : QueueRow → Type μ) (xs : List QueueRow)
    → ((x : QueueRow) → P x → R x)
    → All P xs
    → All R xs
All-mono P R [] f h = tt
All-mono P R (x ∷ xs) f h = (f x h.0, All-mono P R xs f h.1)

insert_row-All {κ} :
    (P : QueueRow → Type κ) (x : QueueRow) (ys : List QueueRow)
    → P x
    → All P ys
    → All P (insert_row x ys)
unfolding insert_row
insert_row-All P x [] hx h = (hx, tt)
insert_row-All P x (y ∷ ys) hx h =
    if_ensures (All P) (runs_before y x) (λ _. (h.0, insert_row-All P x ys hx h.1)) (λ _. (hx, h))

insert_row-IsSorted : (x : QueueRow) (ys : List QueueRow) → IsSorted ys → IsSorted (insert_row x ys)
unfolding insert_row
insert_row-IsSorted x [] h = (tt, tt)
insert_row-IsSorted x (y ∷ ys) h =
    if_ensures IsSorted (runs_before y x)
      (λ e.
        (insert_row-All (InOrder y) x ys (before-InOrder y x e) h.0, insert_row-IsSorted x ys h.1))
      (λ e. (
        (
          not_before-InOrder x y e,
          All-mono (InOrder y) (InOrder x) ys
              (λ z k. InOrder-trans x y z (not_before-InOrder x y e) k) h.0,
        ),
        h,
      ))

swap_kept :
    (b c : Bool) (x y : QueueRow) (rest : List QueueRow)
    → (b ≡ true → c ≡ false)
    → (if b then y ∷ (if c then x ∷ rest else rest) else (if c then x ∷ rest else rest))
      ≡ (if c then x ∷ (if b then y ∷ rest else rest) else (if b then y ∷ rest else rest))
swap_kept true true x y rest h = absurd (true≢false (h refl))
swap_kept true false x y rest h = refl
swap_kept false true x y rest h = refl
swap_kept false false x y rest h = refl

insert_row-keyed :
    (p : ℤ) (ts : ℕ) (x : QueueRow) (ys : List QueueRow)
    → keyed p ts (insert_row x ys) ≡ keyed p ts (x ∷ ys)
unfolding insert_row
insert_row-keyed p ts x [] = refl
insert_row-keyed p ts x (y ∷ ys) =
    if_ensures (λ (l : List QueueRow). keyed p ts l ≡ keyed p ts (x ∷ y ∷ ys)) (runs_before y x)
      (λ e.
        ap (λ (l : List QueueRow). if same_key p ts y then y ∷ l else l)
          (insert_row-keyed p ts x ys)
        ∙ swap_kept (same_key p ts y) (same_key p ts x) x y (keyed p ts ys)
            (before_keys p ts x y e))
      (λ e. refl)

in_run_order-IsSorted : (rows : List QueueRow) → IsSorted (in_run_order rows)
unfolding in_run_order
in_run_order-IsSorted [] = tt
in_run_order-IsSorted (x ∷ xs) = insert_row-IsSorted x (in_run_order xs) (in_run_order-IsSorted xs)

in_run_order-keyed :
    (p : ℤ) (ts : ℕ) (rows : List QueueRow) → keyed p ts (in_run_order rows) ≡ keyed p ts rows
unfolding in_run_order
in_run_order-keyed p ts [] = refl
in_run_order-keyed p ts (x ∷ xs) =
    insert_row-keyed p ts x (in_run_order xs)
    ∙ ap (λ (l : List QueueRow). if same_key p ts x then x ∷ l else l) (in_run_order-keyed p ts xs)

-- In the run order each row has a smaller priority number than all that follow it, or the same one and
-- no later enqueue time, and for each key it lists exactly the
-- rows with that key, in the order in which they were given.
pub in_run_order-IsRunOrder :
    (rows : List QueueRow)
    → IsSorted (in_run_order rows)
      × ((p : ℤ) (ts : ℕ) → keyed p ts (in_run_order rows) ≡ keyed p ts rows)
in_run_order-IsRunOrder rows = (in_run_order-IsSorted rows, λ p ts. in_run_order-keyed p ts rows)
