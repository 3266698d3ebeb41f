-- ===== src/Promotion/Groups.antt =====
-- Grouping by requirement type keeps, for each type, the metrics of that type in their order.
use text.Mathlib.Text.{◌==◌ as str_eq}
use text.Mathlib.TextEquality.{eq_iff}
use quant_strategies.Prelude.{
  ◌≡◌, ◌∙◌, String, true, false, List, [], ◌∷◌, ◌++◌, if◌then◌else◌, arith, Bool-cases, inl, inr,
  sym, ap,
}
use mathlib.Core.List.{append_assoc, append-nil}
use quant_strategies.Promotion.{Metric, append_under, get_list, text_or, group_into, group_by_type}

differ : (j k t : String) → str_eq j t ≡ true → str_eq j k ≡ false → str_eq k t ≡ false
differ j k t here other = ground (arith, eq_iff j t, eq_iff j k, eq_iff k t)

module _ {Q : Type 0} where
  -- The metrics of one requirement type.
  abbrev pub of_type : String → List (Metric Q) → List (Metric Q)
  of_type t [] = []
  of_type t (m ∷ ms) =
      if str_eq (text_or "" m.requirement_type) t then m ∷ of_type t ms else of_type t ms

  get_list-append_under :
      (t k : String) (m : Metric Q) (d : List (String × List (Metric Q)))
      → get_list t (append_under k m d) ≡ get_list t d ++ (if str_eq k t then m ∷ [] else [])
  get_list-append_under t k m [] = ground arith
  get_list-append_under t k m ((j, items) ∷ d) = elim (Bool-cases (str_eq j k)) [
    | inl same ↦ rw same (
        rw ((eq_iff j k).0 same) (elim (Bool-cases (str_eq k t)) [
          | inl here ↦ rw here
          | inr there ↦ rw there (sym (append-nil (get_list t d)))
        ]))
    | inr other ↦ rw other (elim (Bool-cases (str_eq j t)) [
      | inl here ↦ rw here (rw (differ j k t here other) (sym (append-nil items)))
      | inr there ↦ rw there (get_list-append_under t k m d)
    ])
  ]

  get_list-group_into :
      (t : String) (d : List (String × List (Metric Q))) (ms : List (Metric Q))
      → get_list t (group_into d ms) ≡ get_list t d ++ of_type t ms
  unfolding group_into
  get_list-group_into t d [] = ground (arith, append-nil (get_list t d))
  get_list-group_into t d (m ∷ ms) =
      get_list-group_into t (append_under (text_or "" m.requirement_type) m d) ms
      ∙ ap (λ (l : List (Metric Q)). l ++ of_type t ms)
          (get_list-append_under t (text_or "" m.requirement_type) m d)
      ∙ elim (Bool-cases (str_eq (text_or "" m.requirement_type) t)) [
        | inl here ↦ rw here (append_assoc (get_list t d) (m ∷ []) (of_type t ms))
        | inr there ↦ rw there (append_assoc (get_list t d) [] (of_type t ms))
      ]

  pub get_list-group_by_type :
      (t : String) (ms : List (Metric Q)) → get_list t (group_by_type ms) ≡ of_type t ms
  unfolding group_by_type
  get_list-group_by_type t ms = get_list-group_into t [] ms
