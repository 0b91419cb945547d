-- ===== src/Billing/Mdr/Charged.antt =====
-- calculateMdr, by the price that it takes.
use atlas_erpbackend.Prelude.{
  ◌≡◌, ◌≢◌, ◌⊎◌, refl, Option, none, some, List, [], ◌∷◌, All, true, false, if◌then◌else◌, Result,
  ok, err, Result-cases, inl, inr,
}
use atlas_erpbackend.Text.{Text}
use atlas_erpbackend.Money.Values.{Floats, Value, string}
use atlas_erpbackend.Billing.Rules.{MdrPricing, MdrFee, compute_mdr_fee}
use atlas_erpbackend.Billing.Mdr.{
  MdrRule, Sale, pick_best_mdr_rule, CommercialTerm, TermType, mdr_term, other_term,
  ContractVersion, MdrSource, mdr_rules, commercial_terms, MdrCharge, MdrError, no_rule_or_term,
  mdr_money, rate_of, term_rate, value_of, pricing_of, charge_by_term, charge_by_rule,
  calculate_mdr,
}
use atlas_erpbackend.Billing.Mdr.Best.{IsBest, pick_best_mdr_rule-IsBest}

-- The term is no commission term, or has no rate.
abbrev pub HasNoRate : CommercialTerm → Type 0
HasNoRate term = term.term_type ≡ mdr_term → term.rate_percent ≡ none

-- The rate, which may be empty, of the first commission term that has one.
pub data FirstRate : List CommercialTerm → Text → Type 0 where
  here :
      (term : CommercialTerm) (terms : List CommercialTerm) {rate : Text}
      → term.term_type ≡ mdr_term
      → term.rate_percent ≡ some rate
      → FirstRate (term ∷ terms) rate
  there :
      (term : CommercialTerm) {terms : List CommercialTerm} {rate : Text}
      → HasNoRate term
      → FirstRate terms rate
      → FirstRate (term ∷ terms) rate

-- No commission term has a rate, or the first that has one has an empty one.
abbrev pub GivesNoRate : List CommercialTerm → Type 0
GivesNoRate terms = All HasNoRate terms ⊎ FirstRate terms []

abbrev RateOf : List CommercialTerm → Option Text → Type 0
RateOf terms none = GivesNoRate terms
RateOf terms (some rate) = FirstRate terms rate × (rate ≢ [])

RateOf-there :
    (term : CommercialTerm) (terms : List CommercialTerm) (o : Option Text)
    → HasNoRate term
    → RateOf terms o
    → RateOf (term ∷ terms) o
RateOf-there term terms none h (inl all) = inl (h, all)
RateOf-there term terms none h (inr first) = inr (there term h first)
RateOf-there term terms (some rate) h (first, filled) = (there term h first, filled)

term_rate-RateOf : (terms : List CommercialTerm) → RateOf terms (term_rate terms)
term_rate-RateOf [] = inl tt
term_rate-RateOf (term ∷ terms) =
    by_parts term.term_type term.rate_percent refl refl (term_rate-RateOf terms)
  where
    of_rate :
        (rate : Text)
        → term.term_type ≡ mdr_term
        → term.rate_percent ≡ some rate
        → RateOf (term ∷ terms) (rate_of (some rate))
    of_rate [] t r = inr (here term terms t r)
    of_rate (c ∷ s) t r = (here term terms t r, λ e. cc e)

    by_parts :
        (type : TermType) (rate : Option Text)
        → term.term_type ≡ type
        → term.rate_percent ≡ rate
        → RateOf terms (term_rate terms)
        → RateOf (term ∷ terms) (
            if elim type [
              | mdr_term ↦ elim rate [ none ↦ false | some r ↦ true ]
              | other_term ↦ false
            ]
            then rate_of rate
            else term_rate terms)
    by_parts mdr_term none t r rest = RateOf-there term terms (term_rate terms) (λ mdr. r) rest
    by_parts mdr_term (some rate) t r rest = of_rate rate t r
    by_parts other_term o t r rest =
        RateOf-there term terms (term_rate terms) (λ mdr. cc (t, mdr)) rest

module _ (F : Floats) (amount : Value F.Number) (version : ContractVersion) (sale : Sale) where
  -- A limit that is set, as its text, or none.
  abbrev pub IsLimit : Option Text → Option (Value F.Number) → Type 0
  IsLimit none limit = limit ≡ none
  IsLimit (some text) limit = limit ≡ some (string text)

  -- Where a price comes from: the best rule for the sale, with its rate and its limits; or, only where no
  -- rule applies, the first commission term with a rate, which is not empty, with no limit.
  pub data IsPrice (pricing : MdrPricing F.Number) : MdrSource → Option Text → Type 0 where
    of_rule :
        (rule : MdrRule)
        → IsBest sale version.mdr_rules (some rule)
        → pricing.rate_percent ≡ string rule.rate_percent
        → IsLimit rule.min_fee_amount pricing.min_fee_amount
        → IsLimit rule.max_fee_amount pricing.max_fee_amount
        → IsPrice pricing mdr_rules (some rule.id)
    of_term :
        (rate : Text)
        → IsBest sale version.mdr_rules none
        → FirstRate version.terms rate
        → rate ≢ []
        → pricing.rate_percent ≡ string rate
        → pricing.min_fee_amount ≡ none
        → pricing.max_fee_amount ≡ none
        → IsPrice pricing commercial_terms none

  -- A charge that is made: the price, and the fee that it comes to.
  pub record IsCharge (charge : MdrCharge) : Type 0 where
    pub pricing : MdrPricing F.Number
    pub fee : MdrFee
    pub price : IsPrice pricing charge.source charge.rule_id
    pub computed : compute_mdr_fee F amount pricing ≡ ok fee
    pub rate_percent : charge.rate_percent ≡ fee.rate_percent
    pub charged : charge.amount ≡ fee.fee

  abbrev pub ChargedBy : Result MdrError MdrCharge → Type 0
  ChargedBy (ok charge) = IsCharge charge
  ChargedBy (err no_rule_or_term) = IsBest sale version.mdr_rules none × GivesNoRate version.terms
  ChargedBy (err (mdr_money e)) =
      (pricing : MdrPricing F.Number) × (source : MdrSource) × (rule_id : Option Text) × IsPrice
        pricing source rule_id
      × (compute_mdr_fee F amount pricing ≡ err e)

  value_of-IsLimit : (o : Option Text) → IsLimit o (value_of F o)
  value_of-IsLimit none = refl
  value_of-IsLimit (some s) = refl

  by_rule :
      (rule : MdrRule)
      → IsBest sale version.mdr_rules (some rule)
      → ChargedBy (charge_by_rule F amount version.terms (some rule))
  by_rule rule best = elim (Result-cases (compute_mdr_fee F amount (pricing_of F rule))) [
    | inl (fee, e) ↦ rw e (record {
      pricing = pricing_of F rule;
      fee = fee;
      price = price;
      computed = e;
      rate_percent = refl;
      charged = refl;
    })
    | inr (f, e) ↦ rw e (pricing_of F rule, mdr_rules, some rule.id, price, e)
  ]
    where
      price : IsPrice (pricing_of F rule) mdr_rules (some rule.id)
      price =
          of_rule rule best refl (value_of-IsLimit rule.min_fee_amount)
            (value_of-IsLimit rule.max_fee_amount)

  abbrev term_pricing : Text → MdrPricing F.Number
  term_pricing rate = record {
    rate_percent = string rate;
    min_fee_amount = none;
    max_fee_amount = none;
  }

  by_term :
      (o : Option Text)
      → RateOf version.terms o
      → IsBest sale version.mdr_rules none
      → ChargedBy (charge_by_term F amount o)
  by_term none no_rate best = (best, no_rate)
  by_term (some rate) (first, filled) best =
      elim (Result-cases (compute_mdr_fee F amount (term_pricing rate))) [
        | inl (fee, e) ↦ rw e (record {
          pricing = term_pricing rate;
          fee = fee;
          price = price;
          computed = e;
          rate_percent = refl;
          charged = refl;
        })
        | inr (f, e) ↦ rw e (term_pricing rate, commercial_terms, none, price, e)
      ]
    where
      price : IsPrice (term_pricing rate) commercial_terms none
      price = of_term rate best first filled refl refl refl

  -- A charge that is made has the rate and the fee that its price comes to for the amount of the sale:
  -- the price of the best rule for the sale, with the limits of that rule and its id; or, only where
  -- no rule applies, that of the first commission term that has a rate, which is not empty, with no
  -- limit and no id. It is refused for want of a price only where no rule applies and either no
  -- commission term has a rate or the first that has one has an empty one; and any other failure is
  -- one of computing the fee of that price.
  pub calculate_mdr-ChargedBy : ChargedBy (calculate_mdr F amount version sale)
  unfolding calculate_mdr
  calculate_mdr-ChargedBy =
      of_choice (pick_best_mdr_rule version.mdr_rules sale)
        (pick_best_mdr_rule-IsBest sale version.mdr_rules)
    where
      of_choice :
          (o : Option MdrRule)
          → IsBest sale version.mdr_rules o
          → ChargedBy (charge_by_rule F amount version.terms o)
      of_choice (some rule) best = by_rule rule best
      of_choice none best = by_term (term_rate version.terms) (term_rate-RateOf version.terms) best
