-- ===== src/Rating/Worst.antt =====
-- The debt that rates an account.
use atlas_erpbackend.Prelude.{
  ◌≡◌, refl, sym, ◌∙◌, subst, true, false, not, some, List, [], ◌∷◌, ℤ, ltb_ℤ, eqb_ℤ, ◌≤ℤ◌, arith,
  inl, inr, ◌⊎◌, Bool-cases, All, eq_of_parts,
}
use mathlib.Core.List.{Mem, mem-cons_self, mem-cons_of_mem}
use mathlib.Core.List.Perm
use atlas_erpbackend.Rating.Scale.{RatingBand}
use atlas_erpbackend.Rating.Account.{
  RatedReceivable, severity_of, exposure_of, worse, worst_receivable_of, rate_account,
}

-- The order of the debts, by category and then by balance.
abbrev pub BelowOrSame : ℤ → ℤ → ℤ → ℤ → Type 0
BelowOrSame severity exposure severity' exposure' =
    (ltb_ℤ severity severity' ≡ true) ⊎ ((severity ≡ severity') × (exposure ≤ℤ exposure'))

BelowOrSame-refl : (s e : ℤ) → BelowOrSame s e s e
BelowOrSame-refl s e = inr (refl, omega arith)

BelowOrSame-trans :
    (s e s' e' s'' e'' : ℤ)
    → BelowOrSame s e s' e'
    → BelowOrSame s' e' s'' e''
    → BelowOrSame s e s'' e''
BelowOrSame-trans s e s' e' s'' e'' (inl h) (inl k) = inl (ground arith)
BelowOrSame-trans s e s' e' s'' e'' (inl h) (inr (k, f)) = inl (subst (λ x. ltb_ℤ s x ≡ true) k h)
BelowOrSame-trans s e s' e' s'' e'' (inr (h, g)) (inl k) =
    inl (subst (λ x. ltb_ℤ x s'' ≡ true) (sym h) k)
BelowOrSame-trans s e s' e' s'' e'' (inr (h, g)) (inr (k, f)) = inr (h ∙ k, omega arith)

same_severity : (s s' : ℤ) → not (eqb_ℤ s s') ≡ false → s ≡ s'
same_severity s s' h = ground (arith, eq_of_parts s s')

not_above : (s s' : ℤ) → not (eqb_ℤ s s') ≡ true → ltb_ℤ s' s ≡ false → ltb_ℤ s s' ≡ true
not_above s s' h k = ground arith

below : (e e' : ℤ) → ltb_ℤ e e' ≡ true → e ≤ℤ e'
below e e' h = ground arith

not_below : (e e' : ℤ) → ltb_ℤ e e' ≡ false → e' ≤ℤ e
not_below e e' h = ground arith

module _ {N : Type 0} where
  -- The first debt is at least as bad as the second: its category is worse, or is the same with no
  -- smaller balance.
  abbrev pub AtLeastAsBad : RatedReceivable N → RatedReceivable N → Type 0
  AtLeastAsBad worst item =
      BelowOrSame (severity_of item) (exposure_of item) (severity_of worst) (exposure_of worst)

  -- The cases of one step of the reduction.
  worse-cases :
      (worst item : RatedReceivable N)
      → ((worse worst item ≡ worst) × AtLeastAsBad worst item)
        ⊎ ((worse worst item ≡ item) × AtLeastAsBad item worst)
  unfolding worse
  worse-cases worst item = elim (Bool-cases (not (eqb_ℤ (severity_of item) (severity_of worst)))) [
    | inl e ↦ elim (Bool-cases (ltb_ℤ (severity_of worst) (severity_of item))) [
      | inl f ↦ inr (rw (e, f) refl, inl f)
      | inr f ↦ inl (rw (e, f) refl, inl (not_above (severity_of item) (severity_of worst) e f))
    ]
    | inr e ↦
        let equal = same_severity (severity_of item) (severity_of worst) e in
        elim (Bool-cases (ltb_ℤ (exposure_of worst) (exposure_of item))) [
          | inl f ↦
              inr (rw (e, f) refl, inr (sym equal, below (exposure_of worst) (exposure_of item) f))
          | inr f ↦
              inl (rw (e, f) refl, inr (equal, not_below (exposure_of worst) (exposure_of item) f))
        ]
  ]

  All-AtLeastAsBad :
      (w v : RatedReceivable N) (items : List (RatedReceivable N))
      → AtLeastAsBad w v
      → All (AtLeastAsBad v) items
      → All (AtLeastAsBad w) items
  All-AtLeastAsBad w v [] h hs = tt
  All-AtLeastAsBad w v (item ∷ items) h (k, ks) = (
    BelowOrSame-trans (severity_of item) (exposure_of item) (severity_of v) (exposure_of v)
        (severity_of w) (exposure_of w) k h,
    All-AtLeastAsBad w v items h ks,
  )

  abbrev pub IsWorst : List (RatedReceivable N) → RatedReceivable N → Type 0
  IsWorst items w = Mem w items × All (AtLeastAsBad w) items

  -- The reduction gives one of the debts, and no debt is worse.
  worst_receivable_of-AtLeastAsBad :
      (first : RatedReceivable N) (rest : List (RatedReceivable N))
      → IsWorst (first ∷ rest) (worst_receivable_of first rest)
  unfolding worst_receivable_of
  worst_receivable_of-AtLeastAsBad first [] =
      (mem-cons_self, (BelowOrSame-refl (severity_of first) (exposure_of first), tt))
  worst_receivable_of-AtLeastAsBad first (item ∷ rest) = elim (worse-cases first item) [
    | inl (same, bad) ↦
        subst (λ x. IsWorst (first ∷ (item ∷ rest)) (worst_receivable_of x rest)) (sym same)
          (kept (worst_receivable_of-AtLeastAsBad first rest) bad)
    | inr (same, bad) ↦
        subst (λ x. IsWorst (first ∷ (item ∷ rest)) (worst_receivable_of x rest)) (sym same)
          (replaced (worst_receivable_of-AtLeastAsBad item rest) bad)
  ]
    where
      through : (w a b : RatedReceivable N) → AtLeastAsBad w a → AtLeastAsBad a b → AtLeastAsBad w b
      through w a b h k =
          BelowOrSame-trans (severity_of b) (exposure_of b) (severity_of a) (exposure_of a)
            (severity_of w) (exposure_of w) k h

      kept :
          {w : RatedReceivable N}
          → IsWorst (first ∷ rest) w
          → AtLeastAsBad first item
          → IsWorst (first ∷ (item ∷ rest)) w
      kept {w} (member, (h, hs)) bad = (
        Perm.subset (Perm.swap first item rest) w (mem-cons_of_mem item member),
        (h, (through w first item h bad, hs)),
      )

      replaced :
          {w : RatedReceivable N}
          → IsWorst (item ∷ rest) w
          → AtLeastAsBad item first
          → IsWorst (first ∷ (item ∷ rest)) w
      replaced {w} (member, (h, hs)) bad =
          (mem-cons_of_mem first member, (through w item first h bad, (h, hs)))

  -- With contamination, an account with debts takes its category from one of them, which it names, and
  -- no other debt has a worse category, nor the same category with a larger balance.
  pub rate_account-IsWorst :
      (first : RatedReceivable N) (rest : List (RatedReceivable N)) (best_band : RatingBand N)
      → (driver : RatedReceivable N) × IsWorst (first ∷ rest) driver
        × ((rate_account (first ∷ rest) best_band true).band ≡ driver.rating.band)
        × ((rate_account (first ∷ rest) best_band true).driving_receivable_id
            ≡ some driver.receivable_id)
  unfolding rate_account
  rate_account-IsWorst first rest best_band =
      (worst_receivable_of first rest, worst_receivable_of-AtLeastAsBad first rest, refl, refl)
