-- ===== src/Onboarding/Figures.antt =====
-- The figures of summarizeOnboardingQueue, by the tests of the code.
use atlas_erpbackend.Prelude.{
  ℕ, suc, ◌+◌, ◌≡◌, ◌≤◌, refl, Bool, true, false, not, List, [], ◌∷◌, length, arith, if◌then◌else◌,
  Bool-cases, inl, inr,
}
use atlas_erpbackend.Onboarding.{
  OnboardingCaseStatus, OnboardingCaseSnapshot, OnboardingQueueSummary, is_terminal,
  is_ready_to_activate, waits_for_motor, waits_for_review, waits_for_credentials, bump, count_row,
  count_rows,
}

-- How many rows pass a test.
abbrev pub count : (OnboardingCaseSnapshot → Bool) → List OnboardingCaseSnapshot → ℕ
count p [] = 0
count p (row ∷ rows) = if p row then count p rows + 1 else count p rows

-- The figures after a loop, against the ones before it, by the tests of the code.
pub record Steps (s : OnboardingQueueSummary) (rows : List OnboardingCaseSnapshot)
    (t : OnboardingQueueSummary) : Type 0 where
  pub activados : t.activados ≡ s.activados + count (λ row. is_terminal row.status) rows
  pub abiertos : t.abiertos ≡ s.abiertos + count (λ row. not (is_terminal row.status)) rows
  pub esperando_motor :
      t.esperando_motor ≡ s.esperando_motor + count (λ row. waits_for_motor row.status) rows
  pub revision_manual :
      t.revision_manual ≡ s.revision_manual + count (λ row. waits_for_review row.status) rows
  pub esperando_credenciales :
      t.esperando_credenciales
      ≡ s.esperando_credenciales + count (λ row. waits_for_credentials row.status) rows
  pub listos_para_activar :
      t.listos_para_activar ≡ s.listos_para_activar + count is_ready_to_activate rows

-- What a closed case counts as.
closed_waits :
    (s : OnboardingCaseStatus)
    → is_terminal s ≡ true
    → (waits_for_motor s ≡ false) × (waits_for_review s ≡ false) × (waits_for_credentials s ≡ false)
closed_waits s h = ground arith

closed-not_ready :
    (row : OnboardingCaseSnapshot)
    → is_terminal row.status ≡ true
    → is_ready_to_activate row ≡ false
unfolding is_ready_to_activate
closed-not_ready row h = ground arith

count_row-Steps :
    (s : OnboardingQueueSummary) (row : OnboardingCaseSnapshot)
    → Steps s (row ∷ []) (count_row s row)
unfolding count_row
count_row-Steps s row = elim (Bool-cases (is_terminal row.status)) [
  | inl e ↦
      let (motor, review, credentials) = closed_waits row.status e in
      rw e (record {
        activados = one_more (is_terminal row.status) s.activados e;
        abiertos = unmoved (not (is_terminal row.status)) s.abiertos (ground arith);
        esperando_motor = unmoved (waits_for_motor row.status) s.esperando_motor motor;
        revision_manual = unmoved (waits_for_review row.status) s.revision_manual review;
        esperando_credenciales =
            unmoved (waits_for_credentials row.status) s.esperando_credenciales credentials;
        listos_para_activar =
            unmoved (is_ready_to_activate row) s.listos_para_activar (closed-not_ready row e);
      })
  | inr e ↦ rw e (record {
    activados = unmoved (is_terminal row.status) s.activados e;
    abiertos = one_more (not (is_terminal row.status)) s.abiertos (ground arith);
    esperando_motor = moved (waits_for_motor row.status) s.esperando_motor;
    revision_manual = moved (waits_for_review row.status) s.revision_manual;
    esperando_credenciales = moved (waits_for_credentials row.status) s.esperando_credenciales;
    listos_para_activar = moved (is_ready_to_activate row) s.listos_para_activar;
  })
]
  where
    one_more : (b : Bool) (n : ℕ) → b ≡ true → n + 1 ≡ n + (if b then 0 + 1 else 0)
    one_more b n h = ground arith

    unmoved : (b : Bool) (n : ℕ) → b ≡ false → n ≡ n + (if b then 0 + 1 else 0)
    unmoved b n h = ground arith

    moved : (b : Bool) (n : ℕ) → bump b n ≡ n + (if b then 0 + 1 else 0)
    moved b n = ground arith

count_cons :
    (p : OnboardingCaseSnapshot → Bool) (row : OnboardingCaseSnapshot)
    (rows : List OnboardingCaseSnapshot) (a : ℕ) {b c : ℕ}
    → b ≡ a + count p (row ∷ [])
    → c ≡ b + count p rows
    → c ≡ a + count p (row ∷ rows)
count_cons p row rows a {b} {c} = by_test (p row) (count p rows)
  where
    by_test :
        (x : Bool) (n : ℕ)
        → b ≡ a + (if x then 0 + 1 else 0)
        → c ≡ b + n
        → c ≡ a + (if x then n + 1 else n)
    by_test x n h k = ground arith

pub count_rows-Steps :
    (s : OnboardingQueueSummary) (rows : List OnboardingCaseSnapshot)
    → Steps s rows (count_rows s rows)
count_rows-Steps s [] = record {
  activados = omega arith;
  abiertos = omega arith;
  esperando_motor = omega arith;
  revision_manual = omega arith;
  esperando_credenciales = omega arith;
  listos_para_activar = omega arith;
}
count_rows-Steps s (row ∷ rows) =
    let h = count_row-Steps s row in
    let k = count_rows-Steps (count_row s row) rows in
    record {
      activados = count_cons _ row rows s.activados h.activados k.activados;
      abiertos = count_cons _ row rows s.abiertos h.abiertos k.abiertos;
      esperando_motor = count_cons _ row rows s.esperando_motor h.esperando_motor k.esperando_motor;
      revision_manual = count_cons _ row rows s.revision_manual h.revision_manual k.revision_manual;
      esperando_credenciales =
          count_cons _ row rows s.esperando_credenciales h.esperando_credenciales
            k.esperando_credenciales;
      listos_para_activar =
          count_cons _ row rows s.listos_para_activar h.listos_para_activar k.listos_para_activar;
    }

pub count-every :
    (p : OnboardingCaseSnapshot → Bool) (rows : List OnboardingCaseSnapshot)
    → count (λ row. not (p row)) rows + count p rows ≡ length rows
count-every p [] = refl
count-every p (row ∷ rows) = by_test (p row) _ _ (length rows) (count-every p rows)
  where
    by_test :
        (b : Bool) (m n k : ℕ)
        → m + n ≡ k
        → (if not b then m + 1 else m) + (if b then n + 1 else n) ≡ suc k
    by_test b m n k h = ground arith

-- No case waits for two things, and a closed one for none.
pub count-waiting :
    (rows : List OnboardingCaseSnapshot)
    → count (λ row. waits_for_motor row.status) rows
        + count (λ row. waits_for_review row.status) rows
        + count (λ row. waits_for_credentials row.status) rows
      ≤ count (λ row. not (is_terminal row.status)) rows
count-waiting [] = omega arith
count-waiting (row ∷ rows) = by_status row.status _ _ _ _ (count-waiting rows)
  where
    by_status :
        (s : OnboardingCaseStatus) (a b c d : ℕ)
        → a + b + c ≤ d
        → (if waits_for_motor s then a + 1 else a)
            + (if waits_for_review s then b + 1 else b)
            + (if waits_for_credentials s then c + 1 else c)
          ≤ (if not (is_terminal s) then d + 1 else d)
    by_status s a b c d h = ground arith
