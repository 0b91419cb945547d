-- ===== src/Money/Division/Shares.antt =====
-- The shares of `allocateProportionally` add up to the total.
use atlas_erpbackend.Prelude.{
  ap, quot, pos_part, ◌*ℤ◌, ◌≡◌, refl, ◌∙◌, false, List, [], ◌∷◌, foldl, ℤ, pos, ◌+ℤ◌, ◌-ℤ◌, sum_ℤ,
  is_neg, eqb_ℤ, int_laws, any, length, length-map, ok, Bool-cases, inl, inr,
}
use atlas_erpbackend.Money.Division.{
  sum_minor, add_to_first, truncated_shares, allocate_proportionally, is_empty,
}

foldl-sum : (acc : ℤ) (xs : List ℤ) → foldl (λ total value. total +ℤ value) acc xs ≡ acc +ℤ sum_ℤ xs
foldl-sum acc [] = omega int_laws
foldl-sum acc (x ∷ xs) = foldl-sum (acc +ℤ x) xs ∙ omega int_laws

pub sum_minor_lem : (xs : List ℤ) → sum_minor xs ≡ sum_ℤ xs
unfolding sum_minor
sum_minor_lem xs = foldl-sum (pos 0) xs ∙ omega int_laws

sum-add_to_first :
    (rest x : ℤ) (xs : List ℤ) → sum_ℤ (add_to_first rest (x ∷ xs)) ≡ sum_ℤ (x ∷ xs) +ℤ rest
sum-add_to_first rest x xs = omega int_laws

length-add_to_first : (rest : ℤ) (xs : List ℤ) → length (add_to_first rest xs) ≡ length xs
length-add_to_first rest [] = refl
length-add_to_first rest (x ∷ xs) = refl

restored : (total s : ℤ) → s +ℤ (total -ℤ s) ≡ total
restored total s = omega int_laws

abbrev shares_of : ℤ → List ℤ → List ℤ
shares_of total weights =
    let parts = truncated_shares total (sum_minor weights) weights in
    add_to_first (total -ℤ sum_minor parts) parts

allocate_proportionally-ok :
    (total : ℤ) (weights : List ℤ) {parts : List ℤ}
    → allocate_proportionally total weights ≡ ok parts
    → (is_empty weights ≡ false) × (parts ≡ shares_of total weights)
unfolding allocate_proportionally
allocate_proportionally-ok total [] h = cc
allocate_proportionally-ok total (w ∷ ws) h = elim (Bool-cases (any is_neg (w ∷ ws))) [
  | inl e ↦ cc (rw e at h)
  | inr e ↦ elim (Bool-cases (eqb_ℤ (sum_minor (w ∷ ws)) (pos 0))) [
    | inl z ↦ cc (rw (e, z) at h)
    | inr z ↦ (refl, cc (rw (e, z) at h))
  ]
]

sum-shares_of :
    (total : ℤ) (weights : List ℤ)
    → is_empty weights ≡ false
    → sum_minor (shares_of total weights) ≡ total
sum-shares_of total [] h = cc
sum-shares_of total (w ∷ ws) h =
    let parts = truncated_shares total (sum_minor (w ∷ ws)) (w ∷ ws) in
    sum_minor_lem (shares_of total (w ∷ ws))
    ∙ ap (λ s. sum_ℤ (add_to_first (total -ℤ s) parts)) (sum_minor_lem parts)
    ∙ omega int_laws

-- An allocation, where it is made, hands out the total exactly, with one share for each weight.
pub allocate_proportionally_exact :
    (total : ℤ) (weights : List ℤ) {parts : List ℤ}
    → allocate_proportionally total weights ≡ ok parts
    → (sum_minor parts ≡ total) × (length parts ≡ length weights)
allocate_proportionally_exact total weights h =
    let (some_weight, made) = allocate_proportionally-ok total weights h in
    let parts = truncated_shares total (sum_minor weights) weights in
    (
      ap sum_minor made ∙ sum-shares_of total weights some_weight,
      ap length made
          ∙ length-add_to_first (total -ℤ sum_minor parts) parts
          ∙ length-map (λ weight. quot (total *ℤ weight) (pos_part (sum_minor weights))) weights,
    )
