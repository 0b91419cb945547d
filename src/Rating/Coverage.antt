-- ===== src/Rating/Coverage.antt =====
-- What a scale that `normalizeScale` accepts promises of `bandForDaysPastDue`.
use atlas_erpbackend.Prelude.{
  ◌+◌, ◌≡◌, refl, sym, ◌∙◌, subst, Bool, true, false, not, ◌&&◌, Option, none, some, List, [], ◌∷◌,
  ℤ, pos, negsuc, ltb_ℤ, leb_ℤ, eqb_ℤ, ◌+ℤ◌, ◌≤ℤ◌, ◌<◌, pos_part, neg_part, eq_of_parts, ok, err,
  throw_if, >>=-ok, throw_if-ok, ok_injective, arith, int_laws, inl, inr, Bool-cases,
}
use mathlib.Core.List.{Mem, mem-cons_self, mem-cons_of_mem, Perm}
use mathlib.Core.List.Perm
use atlas_erpbackend.Rating.Scale.{
  RatingBand, RatingError, insert, by_severity, last_of, assert_follows, assert_contiguous, is_open,
  assert_scale, normalize_scale, within_max, covers, find_band, band_for_days_past_due, at_least_0,
}

passed : (b : Bool) (e : RatingError) → throw_if (not b) e ≡ ok tt → b ≡ true
passed true e h = refl
passed false e h = cc

same : (x y : ℤ) → eqb_ℤ x y ≡ true → x ≡ y
same x y e = ground (arith, eq_of_parts x y)

beyond : (m max d : ℤ) → m ≤ℤ d → (leb_ℤ m d && leb_ℤ d max) ≡ false → leb_ℤ d max ≡ false
beyond m max d k e = ground arith

next_day : (max d : ℤ) → leb_ℤ d max ≡ false → max +ℤ pos 1 ≤ℤ d
next_day max d e = omega (int_laws, greater max d e)
  where
    greater : (a b : ℤ) → leb_ℤ b a ≡ false → pos_part a + neg_part b < pos_part b + neg_part a
    greater a b k = ground arith

at_least_0-nonneg : (x : ℤ) → pos 0 ≤ℤ at_least_0 x
at_least_0-nonneg (pos n) = omega arith
at_least_0-nonneg (negsuc n) = omega arith

module _ {N : Type 0} where
  insert-Perm : (b : RatingBand N) (cs : List (RatingBand N)) → Perm (insert b cs) (b ∷ cs)
  insert-Perm b [] = Perm.rfl
  insert-Perm b (c ∷ cs) = elim (Bool-cases (ltb_ℤ c.severity_rank b.severity_rank)) [
    | inl e ↦ rw e (Perm.trans (Perm.cons c (insert-Perm b cs)) (Perm.swap b c cs))
    | inr e ↦ rw e Perm.rfl
  ]

  -- The sort keeps the bands.
  by_severity-Perm : (bs : List (RatingBand N)) → Perm (by_severity bs) bs
  by_severity-Perm [] = Perm.rfl
  by_severity-Perm (b ∷ bs) =
      Perm.trans (insert-Perm b (by_severity bs)) (Perm.cons b (by_severity-Perm bs))

  -- A band with no gap to its neighbour covers a day or leaves it to the neighbour.
  covers-or_follows :
      (current next : RatingBand N) (days : ℤ)
      → assert_follows current next ≡ ok tt
      → current.min_days_past_due ≤ℤ days
      → covers current days ≡ false
      → next.min_days_past_due ≤ℤ days
  covers-or_follows current next days h low miss =
      past current.max_days_past_due current.min_days_past_due next.min_days_past_due days h low
        miss
    where
      past :
          (limit : Option ℤ) (m n d : ℤ)
          → (elim limit [
            | none ↦ err RatingError.open_before_last
            | some max ↦ throw_if (not (eqb_ℤ n (max +ℤ pos 1))) RatingError.gap_or_overlap
          ])
            ≡ ok tt
          → m ≤ℤ d
          → (leb_ℤ m d && within_max limit d) ≡ false
          → n ≤ℤ d
      past none m n d h k e = cc
      past (some max) m n d h k e =
          subst (λ x. x ≤ℤ d) (sym (same n (max +ℤ pos 1) (passed _ _ h)))
            (next_day max d (beyond m max d k e))

  find_band-total :
      (first : RatingBand N) (rest : List (RatingBand N)) (days : ℤ)
      → is_open (last_of first rest).max_days_past_due ≡ true
      → assert_contiguous first rest ≡ ok tt
      → first.min_days_past_due ≤ℤ days
      → (b : RatingBand N) × (find_band days (first ∷ rest) ≡ ok b)
        × (covers b days ≡ true)
        × Mem b (first ∷ rest)
  unfolding find_band assert_contiguous
  find_band-total first [] days open_end h low =
      let covered = last_covers first.min_days_past_due first.max_days_past_due days open_end low in
      (first, rw covered refl, covered, mem-cons_self)
    where
      last_covers :
          (m : ℤ) (limit : Option ℤ) (d : ℤ)
          → is_open limit ≡ true
          → m ≤ℤ d
          → (leb_ℤ m d && within_max limit d) ≡ true
      last_covers m none d a b = ground arith
      last_covers m (some max) d a b = cc
  find_band-total first (next ∷ rest) days open_end h low = elim (Bool-cases (covers first days)) [
    | inl e ↦ (first, rw e refl, e, mem-cons_self)
    | inr e ↦
        let (unit, pair, others) =
          >>=-ok (assert_follows first next) (λ _. assert_contiguous next rest) h in
        let (b, found, covered, member) =
          find_band-total next rest days open_end others
            (covers-or_follows first next days (pair ∙ refl) low e) in
        (b, rw e found, covered, mem-cons_of_mem first member)
  ]

  assert_scale-total :
      (bs : List (RatingBand N)) {ordered : List (RatingBand N)} (days : ℤ)
      → pos 0 ≤ℤ days
      → assert_scale bs ≡ ok ordered
      → (b : RatingBand N) × (find_band days ordered ≡ ok b) × (covers b days ≡ true) × Mem b bs
  unfolding assert_scale
  assert_scale-total [] days low h = cc
  assert_scale-total (first ∷ rest) days low h =
      let (starts, h1) = throw_if-ok _ _ _ h in
      let (ends, h2) = throw_if-ok _ _ _ h1 in
      let (unit, chain, h3) = >>=-ok (assert_contiguous first rest) (λ _. ok (first ∷ rest)) h2 in
      let from_0 =
        subst (λ x. x ≤ℤ days) (sym (same first.min_days_past_due (pos 0) (kept _ starts))) low in
      subst
        (λ bs.
          (b : RatingBand N) × (find_band days bs ≡ ok b)
          × (covers b days ≡ true)
          × Mem b (first ∷ rest))
        (ok_injective h3) (find_band-total first rest days (kept _ ends) chain from_0)
    where
      kept : (b : Bool) → not b ≡ false → b ≡ true
      kept true e = refl
      kept false e = cc

  -- Over a scale that is accepted, every number of days has a band: the one that is found covers the
  -- days and is one of the bands of the policy, and the error for a day with no band is not thrown.
  pub band_for_days_past_due_total :
      (bands : List (RatingBand N)) {ordered : List (RatingBand N)} (days : ℤ)
      → normalize_scale bands ≡ ok ordered
      → (b : RatingBand N) × (band_for_days_past_due bands days ≡ ok b)
        × (covers b (at_least_0 days) ≡ true)
        × Mem b bands
  unfolding band_for_days_past_due normalize_scale
  band_for_days_past_due_total bands {ordered} days h =
      let (b, found, covered, member) =
        assert_scale-total (by_severity bands) (at_least_0 days) (at_least_0-nonneg days) h in
      (b, rw h found, covered, Perm.subset (by_severity-Perm bands) b member)
