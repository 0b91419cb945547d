-- ===== src/Fiscal/Dispatch/Claims.antt =====
-- Two calls of reclamar on one table.
use atlas_erpbackend.Prelude.{
  ℕ, ◌≡◌, refl, sym, ◌∙◌, subst, Bool, true, false, ◌&&◌, List, [], ◌∷◌, map, keep, All, any, arith,
  if◌then◌else◌, Bool-cases, inl, inr,
}
use atlas_erpbackend.Text.{Text, text_eq, text_eq_sound}
use atlas_erpbackend.Fiscal.Dispatch.{Documento}
use atlas_erpbackend.Fiscal.Dispatch.Queue.{
  is_claimable, reclamado, has_id, is_updated, ids_of, elegidos, reclamar,
}

-- The rows that an id of the list names cannot be claimed.
abbrev pub AreTaken : List Text → List Documento → Type 0
AreTaken ids filas = All (λ d. has_id ids d ≡ true → is_claimable d.siat_status ≡ false) filas

taken :
    (now : ℕ) (ids : List Text) (filas : List Documento)
    → AreTaken ids (map (λ d. if is_updated ids d then reclamado now d else d) filas)
taken now ids [] = tt
taken now ids (d ∷ ds) = (by_update (is_updated ids d) refl, taken now ids ds)
  where
    by_update :
        (b : Bool)
        → is_updated ids d ≡ b
        → has_id ids (if b then reclamado now d else d) ≡ true
        → is_claimable (if b then reclamado now d else d).siat_status ≡ false
    by_update true e h = refl
    by_update false e h = ground arith

free_ids :
    (ids others : List Text) (filas : List Documento)
    → AreTaken ids filas
    → All (λ x. any (text_eq x) ids ≡ false) (ids_of (keep (is_updated others) filas))
free_ids ids others [] h = tt
free_ids ids others (d ∷ ds) (first, rest) =
    by_update (is_updated others d) refl (free_ids ids others ds rest)
  where
    by_update :
        (b : Bool)
        → is_updated others d ≡ b
        → All (λ x. any (text_eq x) ids ≡ false) (ids_of (keep (is_updated others) ds))
        → All
            (λ x. any (text_eq x) ids ≡ false)
            (ids_of (if b then d ∷ keep (is_updated others) ds else keep (is_updated others) ds))
    by_update true e later = (
      elim (Bool-cases (has_id ids d)) [
        | inl named ↦
            cc (sym (first named) ∙ claimable (has_id others d) (is_claimable d.siat_status) e)
        | inr free ↦ free
      ],
      later,
    )
      where
        claimable : (b c : Bool) → (b && c) ≡ true → c ≡ true
        claimable b c h = ground arith
    by_update false e later = later

returned_named :
    (x : Text) (ids : List Text) (filas : List Documento)
    → any (text_eq x) (ids_of (keep (is_updated ids) filas)) ≡ true
    → any (text_eq x) ids ≡ true
returned_named x ids [] h = cc
returned_named x ids (d ∷ ds) h = by_update (is_updated ids d) refl (returned_named x ids ds) h
  where
    by_update :
        (b : Bool)
        → is_updated ids d ≡ b
        → (any (text_eq x) (ids_of (keep (is_updated ids) ds)) ≡ true → any (text_eq x) ids ≡ true)
        → any
            (text_eq x)
            (ids_of (if b then d ∷ keep (is_updated ids) ds else keep (is_updated ids) ds))
          ≡ true
        → any (text_eq x) ids ≡ true
    by_update true e later h = elim (Bool-cases (text_eq x d.id)) [
      | inl same ↦
          subst (λ y. any (text_eq y) ids ≡ true) (sym (text_eq_sound x d.id same)) (ground arith)
      | inr other ↦ later (ground arith)
    ]
    by_update false e later h = later h

not_returned :
    (ids : List Text) (filas : List Documento) (xs : List Text)
    → All (λ x. any (text_eq x) ids ≡ false) xs
    → All (λ x. any (text_eq x) (ids_of (keep (is_updated ids) filas)) ≡ false) xs
not_returned ids filas [] h = tt
not_returned ids filas (x ∷ xs) (free, rest) = (
  elim (Bool-cases (any (text_eq x) (ids_of (keep (is_updated ids) filas)))) [
    | inl named ↦ cc (sym free ∙ returned_named x ids filas named)
    | inr e ↦ e
  ],
  not_returned ids filas xs rest,
)

-- After a claim, another claim of the table it left, by anyone and at any time, returns none of the ids
-- that the first returned: a document that was claimed is not claimed again before something else changes
-- its row.
pub reclamar-exclusive :
    (now later limite limite_2 : ℕ) (locked locked_2 : Documento → Bool) (filas : List Documento)
    → All
        (λ x. any (text_eq x) (reclamar now limite locked filas).1 ≡ false)
        (reclamar later limite_2 locked_2 (reclamar now limite locked filas).0).1
unfolding reclamar
reclamar-exclusive now later limite limite_2 locked locked_2 filas =
    let ids = elegidos now limite locked filas in
    let despues : List Documento =
      map (λ d. if is_updated ids d then reclamado now d else d) filas in
    not_returned ids filas _
      (free_ids ids (elegidos later limite_2 locked_2 despues) despues (taken now ids filas))
