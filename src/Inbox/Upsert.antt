-- ===== src/Inbox/Upsert.antt =====
-- The upsert of the table of aggregates in consumeOnce.
use atlas_erpbackend.Prelude.{
  ◌≡◌, refl, sym, ap, subst, Bool, true, false, ◌&&◌, some, List, [], ◌∷◌, ltb, ltb→lt, arith,
  if◌then◌else◌,
}
use atlas_erpbackend.Text.{Text, text_eq, text_eq_sound, text_eq_refl}
use atlas_erpbackend.Inbox.{
  Aggregate, AggregateRow, Advance, advanced, behind, is_row_for, advance, push_row,
}
use atlas_erpbackend.Inbox.Versions.{last_of, IsNewer}

module _ (consumer : Text) (a : Aggregate) where
  abbrev pub WasNewer : List AggregateRow → Advance → Type 0
  WasNewer rows (advanced after) =
      (last_of consumer a.type a.id after ≡ some a.version)
      × IsNewer a.version (last_of consumer a.type a.id rows)
  WasNewer rows (behind n) = Unit

  of_row :
      (row : AggregateRow) (rows : List AggregateRow) (same newer : Bool)
      → is_row_for consumer a row ≡ same
      → ltb row.last_version a.version ≡ newer
      → (rest : Advance) → WasNewer rows rest
      → WasNewer (row ∷ rows) (
          if same
          then if newer
            then advanced (record row { last_version = a.version } ∷ rows)
            else behind row.last_version
          else push_row row rest)
  of_row row rows true true e up r h = (rw e refl, rw e (ltb→lt row.last_version a.version up))
  of_row row rows true false e up r h = tt
  of_row row rows false newer e up (advanced after) (last, was) = (rw e last, rw e was)
  of_row row rows false newer e up (behind n) h = tt

  pub advance-WasNewer : (rows : List AggregateRow) → WasNewer rows (advance consumer a rows)
  unfolding advance
  advance-WasNewer [] =
      (rw (text_eq_refl consumer, text_eq_refl a.type, text_eq_refl a.id) refl, tt)
  advance-WasNewer (row ∷ rows) =
      of_row row rows (is_row_for consumer a row) (ltb row.last_version a.version) refl refl
        (advance consumer a rows) (advance-WasNewer rows)

  -- The version of another aggregate stays.
  module _ (type id : Text) (other : (text_eq a.type type && text_eq a.id id) ≡ false) where
    abbrev pub Keeps : List AggregateRow → Advance → Type 0
    Keeps rows (advanced after) = last_of consumer type id after ≡ last_of consumer type id rows
    Keeps rows (behind n) = Unit

    is_other :
        (row : AggregateRow)
        → is_row_for consumer a row ≡ true
        → (text_eq row.consumer consumer && text_eq row.type type && text_eq row.id id) ≡ false
    is_other row h =
        let (types, ids) = sounds (text_eq row.consumer consumer) row.type a.type row.id a.id h in
        subst (λ t. (text_eq row.consumer consumer && text_eq t type && text_eq row.id id) ≡ false)
          (sym types)
          (subst
            (λ i. (text_eq row.consumer consumer && text_eq a.type type && text_eq i id) ≡ false)
            (sym ids) (and_false (text_eq row.consumer consumer) _ _ other))
      where
        and_false : (b c d : Bool) → (c && d) ≡ false → (b && c && d) ≡ false
        and_false b c d h = ground arith

        sounds :
            (b : Bool) (s t u v : Text)
            → (b && text_eq s t && text_eq u v) ≡ true
            → (s ≡ t) × (u ≡ v)
        sounds b s t u v h = (text_eq_sound s t (ground arith), text_eq_sound u v (ground arith))

    other_row :
        (row : AggregateRow) (rows : List AggregateRow) (same newer : Bool)
        → is_row_for consumer a row ≡ same
        → (rest : Advance) → Keeps rows rest
        → Keeps (row ∷ rows) (
            if same
            then if newer
              then advanced (record row { last_version = a.version } ∷ rows)
              else behind row.last_version
            else push_row row rest)
    other_row row rows true true e r h = rw (is_other row e) refl
    other_row row rows true false e r h = tt
    other_row row rows false newer e (advanced after) h =
        ap
          (λ o.
            if text_eq row.consumer consumer && text_eq row.type type && text_eq row.id id
            then some row.last_version
            else o)
          h
    other_row row rows false newer e (behind n) h = tt

    pub advance-Keeps : (rows : List AggregateRow) → Keeps rows (advance consumer a rows)
    unfolding advance
    advance-Keeps [] = rw (text_eq_refl consumer, other) refl
    advance-Keeps (row ∷ rows) =
        other_row row rows (is_row_for consumer a row) (ltb row.last_version a.version) refl
          (advance consumer a rows) (advance-Keeps rows)
