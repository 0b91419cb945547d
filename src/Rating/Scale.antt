-- ===== src/Rating/Scale.antt =====
-- modules/b2b-sales-crm/domain/rating-scale.ts. Ranks, days and cents are the integers that the rows
-- hold; a provision rate is a floating point number, so its type and `Math.round(cents * rate)` are
-- parameters. `sort` is stable.
use atlas_erpbackend.Prelude.{
  Bool, true, false, not, ◌&&◌, Option, none, some, List, [], ◌∷◌, ℤ, pos, negsuc, ltb_ℤ, leb_ℤ,
  eqb_ℤ, ◌+ℤ◌, if◌then◌else◌, Result, ok, err, ◌>>=◌, ◌>>◌, throw_if,
}
use atlas_erpbackend.Text.{Text}

pub record RatingBand (N : Type 0) : Type 0 where
  pub grade : Text
  pub grade_label : Text
  pub severity_rank : ℤ
  pub min_days_past_due : ℤ
  pub max_days_past_due : Option ℤ
  pub provision_rate : N

pub record ReceivableRatingInput : Type 0 where
  pub days_past_due : ℤ
  pub exposure_cents : ℤ
  pub disputed : Bool

pub data RatingReason : Type 0 where
  reason_days_past_due reason_disputed : RatingReason

pub record ReceivableRating (N : Type 0) : Type 0 where
  pub band : RatingBand N
  pub days_past_due : ℤ
  pub exposure_cents : ℤ
  pub provision_cents : ℤ
  pub reason : RatingReason

-- The `Error`s thrown, in the order of the code.
pub data RatingError : Type 0 where
  no_bands first_not_at_zero last_not_open open_before_last gap_or_overlap no_band : RatingError

-- `Math.max(0, x)`
abbrev pub at_least_0 : ℤ → ℤ
at_least_0 (pos n) = pos n
at_least_0 (negsuc _) = pos 0

abbrev pub is_open : Option ℤ → Bool
is_open none = true
is_open (some _) = false

abbrev pub within_max : Option ℤ → ℤ → Bool
within_max none days = true
within_max (some max) days = leb_ℤ days max

module _ {N : Type 0} where
  -- `sort((a, b) => a.severityRank - b.severityRank)`
  abbrev pub insert : RatingBand N → List (RatingBand N) → List (RatingBand N)
  insert b [] = b ∷ []
  insert b (c ∷ cs) =
      let rest = insert b cs in
      if ltb_ℤ c.severity_rank b.severity_rank then c ∷ rest else b ∷ (c ∷ cs)

  abbrev pub by_severity : List (RatingBand N) → List (RatingBand N)
  by_severity [] = []
  by_severity (b ∷ bs) = insert b (by_severity bs)

  -- `at(-1)`, of a list with a first item.
  abbrev pub last_of : RatingBand N → List (RatingBand N) → RatingBand N
  last_of b [] = b
  last_of b (c ∷ cs) = last_of c cs

  -- The test of two neighbours.
  abbrev pub assert_follows : RatingBand N → RatingBand N → Result RatingError (Unit {0})
  assert_follows current next = elim current.max_days_past_due [
    | none ↦ err open_before_last
    | some max ↦ throw_if (not (eqb_ℤ next.min_days_past_due (max +ℤ pos 1))) gap_or_overlap
  ]

  -- `ordered.forEach`
  unfoldable pub assert_contiguous :
      RatingBand N → List (RatingBand N) → Result RatingError (Unit {0})
  assert_contiguous current [] = ok tt
  assert_contiguous current (next ∷ rest) =
      assert_follows current next >> assert_contiguous next rest

  unfoldable pub assert_scale : List (RatingBand N) → Result RatingError (List (RatingBand N))
  assert_scale [] = err no_bands
  assert_scale (first ∷ rest) = do
    throw_if (not (eqb_ℤ first.min_days_past_due (pos 0))) first_not_at_zero
    throw_if (not (is_open (last_of first rest).max_days_past_due)) last_not_open
    assert_contiguous first rest
    ok (first ∷ rest)

  unfoldable pub normalize_scale : List (RatingBand N) → Result RatingError (List (RatingBand N))
  normalize_scale bands = assert_scale (by_severity bands)

  abbrev pub covers : RatingBand N → ℤ → Bool
  covers band days = leb_ℤ band.min_days_past_due days && within_max band.max_days_past_due days

  -- `ordered.find(...)`, and the throw when there is none.
  unfoldable pub find_band : ℤ → List (RatingBand N) → Result RatingError (RatingBand N)
  find_band days [] = err no_band
  find_band days (b ∷ bs) = let rest = find_band days bs in if covers b days then ok b else rest

  unfoldable pub band_for_days_past_due :
      List (RatingBand N) → ℤ → Result RatingError (RatingBand N)
  band_for_days_past_due bands days_past_due = do
    ordered ← normalize_scale bands
    find_band (at_least_0 days_past_due) ordered

  -- `rounded_product cents rate` is `Math.round(exposureCents * provisionRate)`.
  module _ (rounded_product : ℤ → N → ℤ) where
    unfoldable pub provision_cents_for : ℤ → N → ℤ
    provision_cents_for exposure_cents provision_rate =
        if leb_ℤ exposure_cents (pos 0)
        then pos 0
        else rounded_product exposure_cents provision_rate

    unfoldable pub rate_receivable :
        List (RatingBand N) → ReceivableRatingInput → Result RatingError (ReceivableRating N)
    rate_receivable bands input = do
      band ← band_for_days_past_due bands input.days_past_due
      let exposure = at_least_0 input.exposure_cents
      ok (record {
        band = band;
        days_past_due = at_least_0 input.days_past_due;
        exposure_cents = exposure;
        provision_cents = provision_cents_for exposure band.provision_rate;
        reason = if input.disputed then reason_disputed else reason_days_past_due;
      })
