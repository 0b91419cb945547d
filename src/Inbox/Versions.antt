-- ===== src/Inbox/Versions.antt =====
-- The versions of an aggregate that the rows of the inbox applied, and the one that its table has.
use atlas_erpbackend.Prelude.{
  ℕ, ◌≤◌, ◌<◌, ◌≡◌, sym, ap, ◌∙◌, subst, ◌&&◌, Option, none, some, List, [], ◌∷◌, ◌++◌, append-nil,
  append_assoc, All, arith, if◌then◌else◌,
}
use atlas_erpbackend.Text.{Text, text_eq}
use atlas_erpbackend.Inbox.{
  Aggregate, InboxRow, AggregateRow, Inbox, Outcome, row_applied, row_stale,
}

abbrev pub IsIncreasing : List ℕ → Type 0
IsIncreasing [] = Unit
IsIncreasing (v ∷ vs) = All (λ w. v < w) vs × IsIncreasing vs

-- The version a row of the inbox applied of the aggregate, as a list of at most one.
abbrev pub version_of : Text → Text → Text → Outcome → Text → Option Aggregate → List ℕ
version_of consumer type id row_applied c (some a) =
    if text_eq c consumer && text_eq a.type type && text_eq a.id id then a.version ∷ [] else []
version_of consumer type id row_applied c none = []
version_of consumer type id row_stale c a = []

-- The versions applied of an aggregate, in the order of the rows.
abbrev pub applied_versions : Text → Text → Text → List InboxRow → List ℕ
applied_versions consumer type id [] = []
applied_versions consumer type id (row ∷ rows) =
    version_of consumer type id row.outcome row.consumer row.aggregate
    ++ applied_versions consumer type id rows

-- The version that the table of aggregates has of it.
abbrev pub last_of : Text → Text → Text → List AggregateRow → Option ℕ
last_of consumer type id [] = none
last_of consumer type id (row ∷ rows) =
    if text_eq row.consumer consumer && text_eq row.type type && text_eq row.id id
    then some row.last_version
    else last_of consumer type id rows

-- Versions in order, with none above the last.
abbrev pub Tracks : List ℕ → Option ℕ → Type 0
Tracks vs none = vs ≡ []
Tracks vs (some n) = IsIncreasing vs × All (λ v. v ≤ n) vs

-- The versions applied of each aggregate go up, and none of them is above the version the table has.
abbrev pub IsTracked : {S : Type 0} → Text → Inbox S → Type 0
IsTracked consumer inbox =
    (type id : Text)
    → Tracks (applied_versions consumer type id inbox.rows)
        (last_of consumer type id inbox.aggregates)

abbrev pub IsNewer : ℕ → Option ℕ → Type 0
IsNewer v none = Unit
IsNewer v (some n) = n < v

snoc-IsIncreasing :
    (vs : List ℕ) (v : ℕ) → IsIncreasing vs → All (λ w. w < v) vs → IsIncreasing (vs ++ (v ∷ []))
snoc-IsIncreasing [] v up below = (tt, tt)
snoc-IsIncreasing (w ∷ vs) v (first, up) (w_below, below) =
    (all_then vs first, snoc-IsIncreasing vs v up below)
  where
    all_then : (us : List ℕ) → All (λ u. w < u) us → All (λ u. w < u) (us ++ (v ∷ []))
    all_then [] _ = (w_below, tt)
    all_then (u ∷ us) (h, hs) = (h, all_then us hs)

below_weaken : (vs : List ℕ) (n v : ℕ) → n < v → All (λ w. w ≤ n) vs → All (λ w. w < v) vs
below_weaken [] n v h _ = tt
below_weaken (w ∷ vs) n v h (below, rest) = (omega arith, below_weaken vs n v h rest)

snoc_below : (vs : List ℕ) (v : ℕ) → All (λ w. w < v) vs → All (λ w. w ≤ v) (vs ++ (v ∷ []))
snoc_below [] v _ = (omega arith, tt)
snoc_below (w ∷ vs) v (h, hs) = (omega arith, snoc_below vs v hs)

-- A newer version keeps the order.
pub snoc-Tracks :
    (vs : List ℕ) (o : Option ℕ) (v : ℕ)
    → Tracks vs o
    → IsNewer v o
    → Tracks (vs ++ (v ∷ [])) (some v)
snoc-Tracks vs none v h _ =
    subst (λ us. Tracks (us ++ (v ∷ [])) (some v)) (sym h) ((tt, tt), (omega arith, tt))
snoc-Tracks vs (some n) v (up, below) newer =
    let strictly = below_weaken vs n v newer below in
    (snoc-IsIncreasing vs v up strictly, snoc_below vs v strictly)

module _ (consumer type id : Text) where
  pub applied_versions-append :
      (rows : List InboxRow) (row : InboxRow)
      → applied_versions consumer type id (rows ++ (row ∷ []))
        ≡ applied_versions consumer type id rows
          ++ version_of consumer type id row.outcome row.consumer row.aggregate
  applied_versions-append [] row = append-nil _
  applied_versions-append (r ∷ rows) row =
      ap (λ vs. version_of consumer type id r.outcome r.consumer r.aggregate ++ vs)
        (applied_versions-append rows row)
      ∙ sym (append_assoc (version_of consumer type id r.outcome r.consumer r.aggregate) _ _)
