-- ===== src/Rating/Account.antt =====
-- modules/b2b-sales-crm/domain/account-rating.ts
use atlas_erpbackend.Prelude.{
  ℕ, Bool, not, Option, none, some, List, [], ◌∷◌, foldl, length, ℤ, pos, ltb_ℤ, eqb_ℤ, ◌+ℤ◌,
  if◌then◌else◌,
}
use atlas_erpbackend.Text.{Text}
use atlas_erpbackend.Rating.Scale.{RatingBand, ReceivableRating}

pub record RatedReceivable (N : Type 0) : Type 0 where
  pub receivable_id : Text
  pub rating : ReceivableRating N

pub data AccountReason : Type 0 where
  worst_receivable no_open_debt : AccountReason

pub record AccountRating (N : Type 0) : Type 0 where
  pub band : RatingBand N
  pub worst_days_past_due : ℤ
  pub rated_receivable_count : ℕ
  pub total_exposure_cents : ℤ
  pub total_provision_cents : ℤ
  pub driving_receivable_id : Option Text
  pub reason : AccountReason

-- `Math.max`
abbrev pub max_ℤ : ℤ → ℤ → ℤ
max_ℤ a b = if ltb_ℤ a b then b else a

module _ {N : Type 0} where
  abbrev pub severity_of : RatedReceivable N → ℤ
  severity_of item = item.rating.band.severity_rank

  abbrev pub exposure_of : RatedReceivable N → ℤ
  exposure_of item = item.rating.exposure_cents

  -- One step of the `reduce` of `worstReceivable`.
  unfoldable pub worse : RatedReceivable N → RatedReceivable N → RatedReceivable N
  worse worst item =
      if not (eqb_ℤ (severity_of item) (severity_of worst))
      then (if ltb_ℤ (severity_of worst) (severity_of item) then item else worst)
      else (if ltb_ℤ (exposure_of worst) (exposure_of item) then item else worst)

  -- `reduce` starts at the first item.
  unfoldable pub worst_receivable_of :
      RatedReceivable N → List (RatedReceivable N) → RatedReceivable N
  worst_receivable_of first rest = foldl worse first rest

  unfoldable pub larger : RatedReceivable N → RatedReceivable N → RatedReceivable N
  larger largest item = if ltb_ℤ (exposure_of largest) (exposure_of item) then item else largest

  unfoldable pub largest_receivable_of :
      RatedReceivable N → List (RatedReceivable N) → RatedReceivable N
  largest_receivable_of first rest = foldl larger first rest

  unfoldable pub rate_account : List (RatedReceivable N) → RatingBand N → Bool → AccountRating N
  rate_account [] best_band apply_contamination = record {
    band = best_band;
    worst_days_past_due = pos 0;
    rated_receivable_count = 0;
    total_exposure_cents = pos 0;
    total_provision_cents = pos 0;
    driving_receivable_id = none;
    reason = no_open_debt;
  }
  rate_account (first ∷ rest) best_band apply_contamination =
      let driver =
        if apply_contamination
        then worst_receivable_of first rest
        else largest_receivable_of first rest in
      record {
        band = driver.rating.band;
        worst_days_past_due =
            foldl (λ worst item. max_ℤ worst item.rating.days_past_due) (pos 0) (first ∷ rest);
        rated_receivable_count = length (first ∷ rest);
        total_exposure_cents =
            foldl (λ sum item. sum +ℤ item.rating.exposure_cents) (pos 0) (first ∷ rest);
        total_provision_cents =
            foldl (λ sum item. sum +ℤ item.rating.provision_cents) (pos 0) (first ∷ rest);
        driving_receivable_id = some driver.receivable_id;
        reason = worst_receivable;
      }
