-- ===== src/Tests/Rating.antt =====
-- A scale of two bands, and an account with two debts.
use atlas_erpbackend.Prelude.{ℕ, ◌≡◌, refl, true, none, some, [], ◌∷◌, pos, ◌+ℤ◌, ok}
use mathlib.Core.List.{Mem}
use atlas_erpbackend.Text.{codes}
use atlas_erpbackend.Rating.Scale.{
  RatingBand, RatingReason, normalize_scale, assert_scale, assert_contiguous,
  band_for_days_past_due, covers, at_least_0,
}
use atlas_erpbackend.Rating.Account.{RatedReceivable, rate_account}
use atlas_erpbackend.Rating.Coverage.{band_for_days_past_due_total}
use atlas_erpbackend.Rating.Worst.{IsWorst, rate_account-IsWorst}

abbrev current : RatingBand ℕ
current = record {
  grade = codes "A";
  grade_label = codes "Al dia";
  severity_rank = pos 1;
  min_days_past_due = pos 0;
  max_days_past_due = some (pos 30);
  provision_rate = 1;
}

abbrev late : RatingBand ℕ
late = record {
  grade = codes "B";
  grade_label = codes "En mora";
  severity_rank = pos 2;
  min_days_past_due = pos 31;
  max_days_past_due = none;
  provision_rate = 20;
}

scale_accepted : normalize_scale (late ∷ (current ∷ [])) ≡ ok (current ∷ (late ∷ []))
unfolding normalize_scale assert_scale assert_contiguous ◌+ℤ◌
scale_accepted = refl

band_for_days_past_due_total_example :
    (b : RatingBand ℕ) × (band_for_days_past_due (late ∷ (current ∷ [])) (pos 45) ≡ ok b)
    × (covers b (at_least_0 (pos 45)) ≡ true)
    × Mem b (late ∷ (current ∷ []))
band_for_days_past_due_total_example =
    band_for_days_past_due_total (late ∷ (current ∷ [])) (pos 45) scale_accepted

abbrev debt : RatingBand ℕ → ℕ → RatedReceivable ℕ
debt band cents = record {
  receivable_id = codes "debt";
  rating = record {
    band = band;
    days_past_due = pos 5;
    exposure_cents = pos cents;
    provision_cents = pos 0;
    reason = RatingReason.reason_days_past_due;
  };
}

rate_account-IsWorst_example :
    (driver : RatedReceivable ℕ) × IsWorst (debt current 900 ∷ (debt late 100 ∷ [])) driver
    × ((rate_account (debt current 900 ∷ (debt late 100 ∷ [])) current true).band
        ≡ driver.rating.band)
    × ((rate_account (debt current 900 ∷ (debt late 100 ∷ [])) current true).driving_receivable_id
        ≡ some driver.receivable_id)
rate_account-IsWorst_example = rate_account-IsWorst (debt current 900) (debt late 100 ∷ []) current
