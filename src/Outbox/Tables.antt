-- ===== src/Outbox/Tables.antt =====
-- Rows of a table by position, under the updates of the relay.
use atlas_erpbackend.Prelude.{
  ℕ, zero, suc, ◌≡◌, refl, Bool, true, false, ◌&&◌, ◌||◌, some, List, [], ◌∷◌, map, arith, any,
  keep, take, get_elem?, Bool-cases, inl, inr,
}
use atlas_erpbackend.Outbox.Rows.{Row, Table}
use atlas_erpbackend.Outbox.Relay.{insert_by, sort_by}

-- The primary key.
abbrev pub DistinctIds : Table → Type 0
DistinctIds t =
    (i j : ℕ) (a b : Row) → get_elem? t i ≡ some a → get_elem? t j ≡ some b → a.id ≡ b.id → a ≡ b

module _ {ℓ} {A : Type ℓ} where
  pub get_elem?-map :
      (f : A → A) (t : List A) (i : ℕ) {e : A}
      → get_elem? (map f t) i ≡ some e
      → (d : A) × (get_elem? t i ≡ some d) × (e ≡ f d)
  get_elem?-map f [] i h = cc
  get_elem?-map f (x ∷ t) zero h = (x, refl, cc)
  get_elem?-map f (x ∷ t) (suc i) h = get_elem?-map f t i h

  pub get_elem?-map_at :
      (f : A → A) (t : List A) (i : ℕ) {e : A}
      → get_elem? t i ≡ some e
      → get_elem? (map f t) i ≡ some (f e)
  get_elem?-map_at f [] i h = cc
  get_elem?-map_at f (x ∷ t) zero h = cc
  get_elem?-map_at f (x ∷ t) (suc i) h = get_elem?-map_at f t i h

  pub get_elem?-map_eq :
      (f : A → A) (t : List A) (i : ℕ) {e e' : A}
      → get_elem? t i ≡ some e
      → get_elem? (map f t) i ≡ some e'
      → f e ≡ e'
  get_elem?-map_eq f t i at at' = cc (get_elem?-map_at f t i at)

  pub not_any :
      (p : A → Bool) (t : List A) (i : ℕ) {e : A}
      → any p t ≡ false
      → get_elem? t i ≡ some e
      → p e ≡ false
  not_any p [] i h k = cc
  not_any p (x ∷ t) zero h k = ground arith
  not_any p (x ∷ t) (suc i) h k = not_any p t i (ground arith) k

  pub any-witness :
      (p : A → Bool) (t : List A)
      → any p t ≡ true
      → (i : ℕ) × (e : A) × (get_elem? t i ≡ some e) × (p e ≡ true)
  any-witness p [] h = cc
  any-witness p (x ∷ t) h = elim (Bool-cases (p x)) [
    | inl found ↦ (zero, x, refl, found)
    | inr other ↦ let (i, e, at, holds) = any-witness p t (rw other at h) in (suc i, e, at, holds)
  ]

  pub any-take : (p : A → Bool) (n : ℕ) (t : List A) → any p (take n t) ≡ true → any p t ≡ true
  any-take p zero t h = cc
  any-take p (suc n) [] h = cc
  any-take p (suc n) (x ∷ t) h = ground (arith, any-take p n t)

  pub any-keep : (p q : A → Bool) (t : List A) → any p (keep q t) ≡ any (λ e. q e && p e) t
  any-keep p q [] = refl
  any-keep p q (x ∷ t) = ground (arith, any-keep p q t)

any-insert_by :
    (p : Row → Bool) (before : Row → Row → Bool) (r : Row) (t : Table)
    → any p (insert_by before r t) ≡ (p r || any p t)
any-insert_by p before r [] = refl
any-insert_by p before r (x ∷ t) = ground (arith, any-insert_by p before r t)

pub any-sort_by :
    (p : Row → Bool) (before : Row → Row → Bool) (t : Table) → any p (sort_by before t) ≡ any p t
any-sort_by p before [] = refl
any-sort_by p before (x ∷ t) =
    ground (arith, any-insert_by p before x (sort_by before t), any-sort_by p before t)
