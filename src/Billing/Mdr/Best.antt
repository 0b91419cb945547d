-- ===== src/Billing/Mdr/Best.antt =====
-- pickBestMdrRule and mdrRuleSpecificity.
use atlas_erpbackend.Prelude.{
  ℕ, ◌+◌, ◌≤◌, ◌≡◌, refl, sym, ◌∙◌, Bool, true, false, Option, none, some, List, [], ◌∷◌, All, keep,
  ltb, leb, leb→le, arith, if◌then◌else◌,
}
use mathlib.Core.List.{Mem, mem-cons_self, mem-cons_of_mem}
use atlas_erpbackend.Billing.Mdr.{
  MdrRule, is_set, mdr_rule_specificity, Sale, applies_to, insert_rule, by_specificity, first_rule,
  pick_best_mdr_rule,
}

-- One rule comes before another: by the branch, then by the category, then by the segment of risk.
abbrev pub first_difference : Bool → Bool → Bool → Bool
first_difference a b later = if a then (if b then later else true) else if b then false else later

abbrev pub is_above : MdrRule → MdrRule → Bool
is_above a b = first_difference (is_set a.branch_id) (is_set b.branch_id) (
    first_difference (is_set a.product_category) (is_set b.product_category)
      (first_difference (is_set a.risk_segment) (is_set b.risk_segment) false))

above_iff : (a b : MdrRule) → is_above a b ≡ ltb (mdr_rule_specificity b) (mdr_rule_specificity a)
unfolding mdr_rule_specificity
above_iff a b =
    by_bits (is_set a.branch_id) (is_set b.branch_id) (is_set a.product_category)
      (is_set b.product_category) (is_set a.risk_segment) (is_set b.risk_segment)
  where
    by_bits :
        (p q r s t u : Bool)
        → first_difference p q (first_difference r s (first_difference t u false))
          ≡ ltb
              ((if q then 4 else 0) + (if s then 2 else 0) + (if u then 1 else 0))
              ((if p then 4 else 0) + (if r then 2 else 0) + (if t then 1 else 0))
    by_bits p q r s t u = ground arith

-- The choice among rules for a sale: it is one of them, it applies, and no rule that applies comes before
-- it; where there is none, none applies.
abbrev pub IsBest : Sale → List MdrRule → Option MdrRule → Type 0
IsBest sale rules none = All (λ other. applies_to sale other ≡ false) rules
IsBest sale rules (some rule) =
    Mem rule rules
    × (applies_to sale rule ≡ true)
    × All (λ other. applies_to sale other ≡ true → is_above other rule ≡ false) rules

module _ (sale : Sale) where
  -- The same, by the specificity.
  abbrev IsTop : Option MdrRule → List MdrRule → Type 0
  IsTop none rules = All (λ other. applies_to sale other ≡ false) rules
  IsTop (some rule) rules =
      Mem rule rules
      × (applies_to sale rule ≡ true)
      × All
          (λ other.
            applies_to sale other ≡ true → mdr_rule_specificity other ≤ mdr_rule_specificity rule)
          rules

  none_below :
      (rule : MdrRule) (rules : List MdrRule)
      → All (λ other. applies_to sale other ≡ false) rules
      → All
          (λ other.
            applies_to sale other ≡ true → mdr_rule_specificity other ≤ mdr_rule_specificity rule)
          rules
  none_below rule [] h = tt
  none_below rule (other ∷ rules) (first, rest) =
      (λ k. cc (sym first ∙ k), none_below rule rules rest)

  raise_below :
      (a b : MdrRule) (rules : List MdrRule)
      → mdr_rule_specificity a ≤ mdr_rule_specificity b
      → All
          (λ other.
            applies_to sale other ≡ true → mdr_rule_specificity other ≤ mdr_rule_specificity a)
          rules
      → All
          (λ other.
            applies_to sale other ≡ true → mdr_rule_specificity other ≤ mdr_rule_specificity b)
          rules
  raise_below a b [] h k = tt
  raise_below a b (rule ∷ rules) h (first, rest) =
      (λ applies. below (first applies), raise_below a b rules h rest)
    where
      below :
          mdr_rule_specificity rule ≤ mdr_rule_specificity a
          → mdr_rule_specificity rule ≤ mdr_rule_specificity b
      below k = omega (arith, k, h)

  insert_rule-IsTop :
      (rule : MdrRule) (sorted rules : List MdrRule)
      → applies_to sale rule ≡ true
      → IsTop (first_rule sorted) rules
      → IsTop (first_rule (insert_rule rule sorted)) (rule ∷ rules)
  insert_rule-IsTop rule [] rules applies h =
      (mem-cons_self, applies, ((λ _. omega arith), none_below rule rules h))
  insert_rule-IsTop rule (other ∷ sorted) rules applies (member, fit, above) =
      by_test (leb (mdr_rule_specificity other) (mdr_rule_specificity rule)) refl
    where
      by_test :
          (b : Bool)
          → leb (mdr_rule_specificity other) (mdr_rule_specificity rule) ≡ b
          → IsTop
              (first_rule (if b then rule ∷ (other ∷ sorted) else other ∷ insert_rule rule sorted))
              (rule ∷ rules)
      by_test true e = (
        mem-cons_self,
        applies,
        ((λ _. omega arith), raise_below other rule rules (leb→le _ _ e) above),
      )
      by_test false e = (mem-cons_of_mem rule member, fit, ((λ _. ground arith), above))

  pass_over :
      (o : Option MdrRule) (rule : MdrRule) (rules : List MdrRule)
      → applies_to sale rule ≡ false
      → IsTop o rules
      → IsTop o (rule ∷ rules)
  pass_over none rule rules e h = (e, h)
  pass_over (some best) rule rules e (member, fit, above) =
      (mem-cons_of_mem rule member, fit, ((λ k. cc (sym e ∙ k)), above))

  by_specificity-IsTop :
      (rules : List MdrRule)
      → IsTop (first_rule (by_specificity (keep (applies_to sale) rules))) rules
  by_specificity-IsTop [] = tt
  by_specificity-IsTop (rule ∷ rules) =
      let rest = by_specificity-IsTop rules in by_test (applies_to sale rule) refl rest
    where
      kept : List MdrRule
      kept = keep (applies_to sale) rules

      by_test :
          (b : Bool)
          → applies_to sale rule ≡ b
          → IsTop (first_rule (by_specificity kept)) rules
          → IsTop (first_rule (by_specificity (if b then rule ∷ kept else kept))) (rule ∷ rules)
      by_test true e h = insert_rule-IsTop rule (by_specificity kept) rules e h
      by_test false e h = pass_over (first_rule (by_specificity kept)) rule rules e h

  not_above :
      (rule : MdrRule) (rules : List MdrRule)
      → All
          (λ other.
            applies_to sale other ≡ true → mdr_rule_specificity other ≤ mdr_rule_specificity rule)
          rules
      → All (λ other. applies_to sale other ≡ true → is_above other rule ≡ false) rules
  not_above rule [] h = tt
  not_above rule (other ∷ rules) (first, rest) =
      ((λ k. above_iff other rule ∙ le→not_lt (first k)), not_above rule rules rest)
    where
      le→not_lt : {m n : ℕ} → m ≤ n → ltb n m ≡ false
      le→not_lt h = ground arith

  -- The rule that is chosen for a sale is one of the rules, it applies to the sale, and no other that
  -- applies comes before it, where a rule with a branch comes before one without, then one with a product
  -- category, then one with a segment of risk; and where none is chosen none applies.
  pub pick_best_mdr_rule-IsBest :
      (rules : List MdrRule) → IsBest sale rules (pick_best_mdr_rule rules sale)
  unfolding pick_best_mdr_rule
  pick_best_mdr_rule-IsBest rules =
      of_top (first_rule (by_specificity (keep (applies_to sale) rules)))
        (by_specificity-IsTop rules)
    where
      of_top : (o : Option MdrRule) → IsTop o rules → IsBest sale rules o
      of_top none h = h
      of_top (some rule) (member, fit, above) = (member, fit, not_above rule rules above)
