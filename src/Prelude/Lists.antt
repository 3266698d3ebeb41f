-- ===== src/Prelude/Lists.antt =====
-- Lists measured by native numbers, under the library's names, and Python's `any` and `all`.
use Prim.Native.Nat.{ℕ, suc, ◌+◌}
use mathlib.Core.Path.{◌≡◌, refl, ap}
use mathlib.Core.Bool.{Bool, true, false, ◌&&◌, ◌||◌}
use mathlib.Core.Option.{Option, none, some}
use mathlib.Core.List.{List, [], ◌∷◌, ◌++◌}
use native.Mathlib.Omega.{arith}
use quant_strategies.Prelude.Tests.{◌==◌, if◌then◌else◌, if_ensures, ==_iff, Bool-cases}
use mathlib.Core.Logic.{inl, inr}

module _ {ℓ} {A : Type ℓ} where
  abbrev pub length : List A → ℕ
  length [] = 0
  length (x ∷ xs) = suc (length xs)

  abbrev pub any : (A → Bool) → List A → Bool
  any p [] = false
  any p (x ∷ xs) = p x || any p xs

  abbrev pub all : (A → Bool) → List A → Bool
  all p [] = true
  all p (x ∷ xs) = p x && all p xs

  abbrev pub sum_of : (A → ℕ) → List A → ℕ
  sum_of f [] = 0
  sum_of f (x ∷ xs) = f x + sum_of f xs

  -- `[x for x in xs if p(x)]`.
  abbrev pub keep : (A → Bool) → List A → List A
  keep p [] = []
  keep p (x ∷ xs) = let rest = keep p xs in if p x then x ∷ rest else rest

  -- A predicate that holds of each entry.
  abbrev pub All {κ} : (A → Type κ) → List A → Type κ
  All P [] = Unit
  All P (x ∷ xs) = P x × All P xs

  -- `xs[-1]`, with nothing for an empty list.
  abbrev pub last? : List A → Option A
  last? [] = none
  last? (x ∷ []) = some x
  last? (x ∷ y ∷ xs) = last? (y ∷ xs)

  -- `xs[0]` and `xs[0] if xs else None`.
  abbrev pub head? : List A → Option A
  head? [] = none
  head? (x ∷ _) = some x

module _ {ℓ} {A : Type ℓ} where
  pub length-append : (xs ys : List A) → length (xs ++ ys) ≡ length xs + length ys
  length-append [] ys = omega arith
  length-append (x ∷ xs) ys = omega (arith, length-append xs ys)

  pub All-append {κ} : (P : A → Type κ) (xs ys : List A) → All P xs → All P ys → All P (xs ++ ys)
  All-append P [] ys hx hy = hy
  All-append P (x ∷ xs) ys hx hy = (hx.0, All-append P xs ys hx.1 hy)

  pub last?-append : (xs : List A) (a : A) → last? (xs ++ (a ∷ [])) ≡ some a
  last?-append [] a = refl
  last?-append (x ∷ []) a = refl
  last?-append (x ∷ y ∷ xs) a = last?-append (y ∷ xs) a

-- `t in ts`, for numbers.
abbrev pub listed : ℕ → List ℕ → Bool
listed t ts = any (λ u. u == t) ts

pub listed-keep : (p : ℕ → Bool) (ts : List ℕ) (t : ℕ) → listed t (keep p ts) ≡ (listed t ts && p t)
listed-keep p [] t = refl
listed-keep p (x ∷ xs) t =
    let rest = listed-keep p xs t in
    let same = λ (e : (x == t) ≡ true). ap p ((==_iff x t).0 e) in
    if_ensures (λ (l : List ℕ). listed t l ≡ (((x == t) || listed t xs) && p t)) (p x)
      (λ h. elim (Bool-cases (x == t)) [
        | inl e ↦ let at_t = same e in ground (arith, rest)
        | inr e ↦ ground (arith, rest)
      ])
      (λ h. elim (Bool-cases (x == t)) [
        | inl e ↦ let at_t = same e in ground (arith, rest)
        | inr e ↦ ground (arith, rest)
      ])
