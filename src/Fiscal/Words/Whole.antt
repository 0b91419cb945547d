-- ===== src/Fiscal/Words/Whole.antt =====
-- The range and the recursion of enteroEnLetras.
use atlas_erpbackend.Prelude.{
  ℕ, suc, ◌/◌, ◌≤◌, ◌<◌, ◌≡◌, refl, subst, sym, ap, Option, some, List, ◌∷◌, ◌++◌, arith, ltb,
  lt→ltb, ◌⊎◌, inl, inr, ◌==◌, if◌then◌else◌,
}
use atlas_erpbackend.Text.{Text, codes}
use atlas_erpbackend.Fiscal.Words.{
  Words, words, out_of_range, largest, apocope, join_all, miles_y_resto, con_millones,
  entero_en_letras,
}

-- A call that gives words.
abbrev pub HasWords : Option Words → Type 0
HasWords o = (t : Text) × (o ≡ some (words t))

below_million : (fuel n : ℕ) → n < 1000000 → HasWords (entero_en_letras (suc fuel) n)
unfolding entero_en_letras
below_million fuel n h = (
  if n == 0 then codes "cero" else join_all (miles_y_resto n),
  small (join_all (miles_y_resto n))
      (con_millones (entero_en_letras fuel (n / 1000000)) (miles_y_resto n)),
)
  where
    small :
        (t : Text) (o : Option Words)
        → (if ltb largest n
            then some out_of_range
            else if n == 0
            then some (words (codes "cero"))
            else if ltb 0 (n / 1000000)
            then if n / 1000000 == 1
              then some (words (join_all (codes "un millón" ∷ miles_y_resto n)))
              else o
            else some (words t))
          ≡ some (words (if n == 0 then codes "cero" else t))
    small t o = ground arith

con_millones-HasWords :
    (o : Option Words) (partes : List Text) → HasWords o → HasWords (con_millones o partes)
con_millones-HasWords o partes (t, e) =
    (join_all ((apocope t ++ codes " millones") ∷ partes), ap (λ w. con_millones w partes) e)

one_million :
    (fuel n : ℕ)
    → n / 1000000 ≡ 1
    → entero_en_letras (suc fuel) n ≡ some (words (join_all (codes "un millón" ∷ miles_y_resto n)))
unfolding entero_en_letras
one_million fuel n h =
    short (con_millones (entero_en_letras fuel (n / 1000000)) (miles_y_resto n))
      (some (words (join_all (miles_y_resto n))))
      (some (words (join_all (codes "un millón" ∷ miles_y_resto n))))
  where
    short :
        (o p q : Option Words)
        → (if ltb largest n
            then some out_of_range
            else if n == 0
            then some (words (codes "cero"))
            else if ltb 0 (n / 1000000)
            then if n / 1000000 == 1 then q else o
            else p)
          ≡ q
    short o p q = ground arith

millions :
    (fuel n : ℕ)
    → 1 < n / 1000000
    → n ≤ largest
    → entero_en_letras (suc fuel) n
      ≡ con_millones (entero_en_letras fuel (n / 1000000)) (miles_y_resto n)
unfolding entero_en_letras
millions fuel n h k =
    short (con_millones (entero_en_letras fuel (n / 1000000)) (miles_y_resto n))
      (some (words (join_all (miles_y_resto n))))
      (some (words (join_all (codes "un millón" ∷ miles_y_resto n))))
  where
    short :
        (o p q : Option Words)
        → (if ltb largest n
            then some out_of_range
            else if n == 0
            then some (words (codes "cero"))
            else if ltb 0 (n / 1000000)
            then if n / 1000000 == 1 then q else o
            else p)
          ≡ o
    short o p q = ground arith

too_large : (fuel n : ℕ) → largest < n → entero_en_letras (suc fuel) n ≡ some out_of_range
unfolding entero_en_letras
too_large fuel n h = rw (lt→ltb largest n h) refl

size_cases : (n : ℕ) → (n < 1000000) ⊎ ((n / 1000000 ≡ 1) ⊎ (1 < n / 1000000))
size_cases n = ground arith

-- With fuel for two calls or more, a number up to 999999999999 has words, and a larger one is refused:
-- the recursion ends.
pub entero_en_letras_total :
    (fuel n : ℕ)
    → (n ≤ largest → HasWords (entero_en_letras (suc (suc fuel)) n))
      × (largest < n → entero_en_letras (suc (suc fuel)) n ≡ some out_of_range)
entero_en_letras_total fuel n = (in_range (size_cases n), too_large (suc fuel) n)
  where
    in_range :
        (n < 1000000) ⊎ ((n / 1000000 ≡ 1) ⊎ (1 < n / 1000000))
        → n ≤ largest
        → HasWords (entero_en_letras (suc (suc fuel)) n)
    in_range (inl small) h = below_million (suc fuel) n small
    in_range (inr (inl one)) h = (_, one_million (suc fuel) n one)
    in_range (inr (inr many)) h = subst HasWords (sym (millions (suc fuel) n many h)) (
        con_millones-HasWords (entero_en_letras (suc fuel) (n / 1000000)) (miles_y_resto n)
          (below_million fuel (n / 1000000) (omega arith)))
