-- ===== src/Billing/Fee.antt =====
-- The commission of a purchase.
use atlas_erpbackend.Prelude.{
  ℕ, ◌+◌, ◌*◌, ◌^◌, ◌≤◌, ◌≡◌, refl, sym, ap, ◌∙◌, Option, none, some, ℤ, pos, negsuc, ◌*ℤ◌, ◌≤ℤ◌,
  ltb_ℤ, arith, if◌then◌else◌, ok, >>=-ok, ok_injective, subst,
}
use atlas_erpbackend.Money.Values.{Floats, Value}
use atlas_erpbackend.Money.Exact.{
  parse_money, parse_rate_percent, no_options, positive_amount, rate_scale,
}
use atlas_erpbackend.Money.Exact.Range.{parse_money-IsWithin, parse_rate_percent_range}
use atlas_erpbackend.Money.Division.{
  RoundingMode, apply_rate_percent, divide_magnitude, money_rounding_mode, half_up,
}
use atlas_erpbackend.Money.Division.Rounding.{divide_magnitude-IsNearest, divide_rounded-pos}
use atlas_erpbackend.Billing.Rules.{MdrPricing, MdrFee, compute_mdr_fee, raise_to_min, cap_to_max}

product_pos : (a b : ℕ) → pos a *ℤ pos b ≡ pos (a * b)
unfolding ◌*ℤ◌
product_pos a b = ground arith

-- The percentage of an amount that is not negative, in units of a millionth of a per cent.
pub apply_rate_percent-pos :
    (amount rate : ℕ) (mode : RoundingMode)
    → apply_rate_percent (pos amount) (pos rate) mode
      ≡ ok (pos (divide_magnitude (amount * rate) (100 * 10 ^ 6) mode))
unfolding apply_rate_percent
apply_rate_percent-pos amount rate mode =
    rw product_pos (divide_rounded-pos mode (amount * rate) 99999999)

times_le : (p a b : ℕ) → a ≤ b → p * a ≤ p * b
times_le p a b h = grind arith

-- A rate of at most 100 per cent takes at most the amount.
part_le_whole :
    (amount rate q : ℕ)
    → rate ≤ 100000000
    → 2 * (q * 100000000) ≤ 2 * (amount * rate) + 100000000
    → q ≤ amount
part_le_whole amount rate q h k = omega (arith, times_le amount rate 100000000 h)

pub nonneg_form : (a : ℤ) → pos 0 ≤ℤ a → (n : ℕ) × (a ≡ pos n)
nonneg_form (pos n) h = (n, refl)
nonneg_form (negsuc n) h = absurd (omega arith)

-- A commission at a valid rate lies between nothing and the whole amount.
rate_share :
    (amount rate : ℤ) {fee : ℤ}
    → pos 0 ≤ℤ amount
    → pos 0 ≤ℤ rate
    → rate ≤ℤ pos (100 * 10 ^ rate_scale)
    → apply_rate_percent amount rate money_rounding_mode ≡ ok fee
    → (pos 0 ≤ℤ fee) × (fee ≤ℤ amount)
rate_share amount rate {fee} h k at_most made =
    let (a, a_eq) = nonneg_form amount h in
    let (r, r_eq) = nonneg_form rate k in
    let q = divide_magnitude (a * r) (100 * 10 ^ 6) half_up in
    let near = divide_magnitude-IsNearest half_up (a * r) (100 * 10 ^ 6) (omega arith) in
    let value : pos q ≡ fee =
      ok_injective (sym (apply_rate_percent-pos a r half_up) ∙ rw (a_eq, r_eq) at made) in
    let small : q ≤ a = part_le_whole a r q (bare r (rw r_eq at at_most)) near.below in
    rw (a_eq, ← value) (omega arith, small_ℤ q a small)
  where
    bare : (x : ℕ) → pos x ≤ℤ pos (100 * 10 ^ rate_scale) → x ≤ 100000000
    bare x e = omega arith

    small_ℤ : (x y : ℕ) → x ≤ y → pos x ≤ℤ pos y
    small_ℤ x y e = omega arith

module _ (F : Floats) where
  -- The cap lowers a fee, never below nothing.
  cap_to_max-IsBetween :
      (limit : Option (Value F.Number)) (fee : ℤ) {capped : ℤ}
      → pos 0 ≤ℤ fee
      → cap_to_max F limit fee ≡ ok capped
      → (pos 0 ≤ℤ capped) × (capped ≤ℤ fee)
  unfolding cap_to_max
  cap_to_max-IsBetween none fee h k =
      subst (λ x. (pos 0 ≤ℤ x) × (x ≤ℤ fee)) (ok_injective k) (h, omega arith)
  cap_to_max-IsBetween (some amount) fee h k =
      let (limit, read, k1) = >>=-ok (parse_money F amount no_options) _ k in
      subst (λ x. (pos 0 ≤ℤ x) × (x ≤ℤ fee)) (ok_injective k1)
        (lower limit fee ((parse_money-IsWithin F amount no_options read).sign refl) h)
    where
      lower :
          (m f : ℤ)
          → pos 0 ≤ℤ m
          → pos 0 ≤ℤ f
          → (pos 0 ≤ℤ (if ltb_ℤ m f then m else f)) × ((if ltb_ℤ m f then m else f) ≤ℤ f)
      lower m f a b = ground arith

  raise_to_min-some :
      (amount : Value F.Number) {limit : ℤ} (fee : ℤ) {raised : ℤ}
      → parse_money F amount no_options ≡ ok limit
      → raise_to_min F (some amount) fee ≡ ok raised
      → limit ≤ℤ raised
  unfolding raise_to_min
  raise_to_min-some amount {limit} fee read h =
      let (m, again, h1) = >>=-ok (parse_money F amount no_options) _ h in
      subst (λ x. limit ≤ℤ x) (ok_injective h1)
        (subst (λ x. limit ≤ℤ (if ltb_ℤ fee x then x else fee)) (ok_injective (sym read ∙ again))
          (higher limit fee))
    where
      higher : (m f : ℤ) → m ≤ℤ (if ltb_ℤ f m then m else f)
      higher m f = ground arith

  cap_to_max-some :
      (amount : Value F.Number) (low : ℤ) {limit : ℤ} (fee : ℤ) {capped : ℤ}
      → parse_money F amount no_options ≡ ok limit
      → low ≤ℤ limit
      → low ≤ℤ fee
      → cap_to_max F (some amount) fee ≡ ok capped
      → (low ≤ℤ capped) × (capped ≤ℤ limit)
  unfolding cap_to_max
  cap_to_max-some amount low {limit} fee read a b h =
      let (m, again, h1) = >>=-ok (parse_money F amount no_options) _ h in
      subst (λ x. (low ≤ℤ x) × (x ≤ℤ limit)) (ok_injective h1)
        (subst
          (λ x.
            (low ≤ℤ (if ltb_ℤ x fee then x else fee)) × ((if ltb_ℤ x fee then x else fee) ≤ℤ limit))
          (ok_injective (sym read ∙ again)) (between limit fee a b))
    where
      between :
          (m f : ℤ)
          → low ≤ℤ m
          → low ≤ℤ f
          → (low ≤ℤ (if ltb_ℤ m f then m else f)) × ((if ltb_ℤ m f then m else f) ≤ℤ m)
      between m f a b = ground arith

  -- The steps of `compute_mdr_fee` that gave a fee.
  record Steps (purchase_amount : Value F.Number) (pricing : MdrPricing F.Number) (fee : MdrFee)
      : Type 0 where
    purchase : ℤ
    read : parse_money F purchase_amount positive_amount ≡ ok purchase
    rate : ℤ
    rated : parse_rate_percent F pricing.rate_percent ≡ ok rate
    base : ℤ
    shared : apply_rate_percent purchase rate money_rounding_mode ≡ ok base
    raised : ℤ
    raising : raise_to_min F pricing.min_fee_amount base ≡ ok raised
    capping : cap_to_max F pricing.max_fee_amount raised ≡ ok fee.fee_minor

  compute_mdr_fee-Steps :
      (purchase_amount : Value F.Number) (pricing : MdrPricing F.Number) {fee : MdrFee}
      → compute_mdr_fee F purchase_amount pricing ≡ ok fee
      → Steps purchase_amount pricing fee
  unfolding compute_mdr_fee
  compute_mdr_fee-Steps purchase_amount pricing h =
      let (purchase, read, h1) = >>=-ok (parse_money F purchase_amount positive_amount) _ h in
      let (rate, rated, h2) = >>=-ok (parse_rate_percent F pricing.rate_percent) _ h1 in
      let (base, shared, h3) = >>=-ok (apply_rate_percent purchase rate money_rounding_mode) _ h2 in
      let (raised, raising, h4) = >>=-ok (raise_to_min F pricing.min_fee_amount base) _ h3 in
      let (capped, capping, h5) = >>=-ok (cap_to_max F pricing.max_fee_amount raised) _ h4 in
      record {
        purchase = purchase;
        read = read;
        rate = rate;
        rated = rated;
        base = base;
        shared = shared;
        raised = raised;
        raising = raising;
        capping = capping ∙ ap (λ f. ok f.fee_minor) (ok_injective h5);
      }

  -- A commission that is computed without a minimum fee is at least nothing and at most the purchase.
  pub compute_mdr_fee-le_purchase :
      (purchase_amount : Value F.Number) (pricing : MdrPricing F.Number) {fee : MdrFee}
      → pricing.min_fee_amount ≡ none
      → compute_mdr_fee F purchase_amount pricing ≡ ok fee
      → (purchase : ℤ) × (parse_money F purchase_amount positive_amount ≡ ok purchase)
        × (pos 0 ≤ℤ fee.fee_minor)
        × (fee.fee_minor ≤ℤ purchase)
  unfolding raise_to_min
  compute_mdr_fee-le_purchase purchase_amount pricing {fee} free h =
      let s = compute_mdr_fee-Steps purchase_amount pricing h in
      let (low, high) = parse_rate_percent_range F pricing.rate_percent s.rated in
      let signed = (parse_money-IsWithin F purchase_amount positive_amount s.read).sign refl in
      let (base_low, base_high) = rate_share s.purchase s.rate signed low high s.shared in
      let same : s.base ≡ s.raised =
        ok_injective (subst (λ m. raise_to_min F m s.base ≡ ok s.raised) free s.raising) in
      let (fee_low, fee_high) =
        cap_to_max-IsBetween pricing.max_fee_amount s.raised (subst (λ x. pos 0 ≤ℤ x) same base_low)
          s.capping in
      (
        s.purchase,
        s.read,
        fee_low,
        trans_ℤ fee.fee_minor s.raised s.purchase fee_high
            (subst (λ x. x ≤ℤ s.purchase) same base_high),
      )
    where
      trans_ℤ : (a b c : ℤ) → a ≤ℤ b → b ≤ℤ c → a ≤ℤ c
      trans_ℤ a b c h k = omega arith

  -- A commission that is computed with a minimum and a maximum fee, both readable and the minimum at
  -- most the maximum, lies between the two.
  pub compute_mdr_fee_limits :
      (purchase_amount : Value F.Number) (pricing : MdrPricing F.Number) {fee : MdrFee}
      (low high : Value F.Number) {min_fee max_fee : ℤ}
      → pricing.min_fee_amount ≡ some low
      → pricing.max_fee_amount ≡ some high
      → parse_money F low no_options ≡ ok min_fee
      → parse_money F high no_options ≡ ok max_fee
      → min_fee ≤ℤ max_fee
      → compute_mdr_fee F purchase_amount pricing ≡ ok fee
      → (min_fee ≤ℤ fee.fee_minor) × (fee.fee_minor ≤ℤ max_fee)
  compute_mdr_fee_limits purchase_amount pricing {fee} low high lo hi lo_read hi_read ordered h =
      let s = compute_mdr_fee-Steps purchase_amount pricing h in
      let raising = subst (λ m. raise_to_min F m s.base ≡ ok s.raised) lo s.raising in
      let capping = subst (λ m. cap_to_max F m s.raised ≡ ok fee.fee_minor) hi s.capping in
      cap_to_max-some high _ s.raised hi_read ordered (raise_to_min-some low s.base lo_read raising)
        capping
