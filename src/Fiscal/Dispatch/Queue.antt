-- ===== src/Fiscal/Dispatch/Queue.antt =====
-- The claims of the queue: reclamar, rescatarHuerfanos and adelantar of siat-dispatch.service.ts, on a list
-- of rows. A row that another transaction has locked is passed over.
use atlas_erpbackend.Prelude.{
  ℕ, ◌+◌, ◌-◌, Bool, true, false, not, ◌&&◌, Option, none, some, List, [], ◌∷◌, map, ltb, leb, ◌==◌,
  if◌then◌else◌, keep, take, any, Result, ◌>>=◌,
}
use atlas_erpbackend.Text.{Text, text_eq}
use atlas_erpbackend.Fiscal.Dispatch.{SiatStatus, queued, sent, error, Documento, Fault, Entorno}
use atlas_erpbackend.Fiscal.Dispatch.Steps.{Salida, aplicar, consultar}

abbrev pub is_claimable : SiatStatus → Bool
is_claimable queued = true
is_claimable error = true
is_claimable _ = false

abbrev pub is_due : ℕ → Option ℕ → Bool
is_due now none = false
is_due now (some t) = leb t now

abbrev pub is_ready : ℕ → Documento → Bool
is_ready now d = is_claimable d.siat_status && d.codigo_emision == 1 && is_due now d.next_attempt_at

abbrev pub comes_first : Option ℕ → Option ℕ → Bool
comes_first (some s) (some t) = leb s t
comes_first (some s) none = true
comes_first none _ = false

abbrev pub insert_due : Documento → List Documento → List Documento
insert_due d [] = d ∷ []
insert_due d (e ∷ es) =
    if comes_first d.next_attempt_at e.next_attempt_at then d ∷ (e ∷ es) else e ∷ insert_due d es

abbrev pub by_next_attempt : List Documento → List Documento
by_next_attempt [] = []
by_next_attempt (d ∷ ds) = insert_due d (by_next_attempt ds)

abbrev pub reclamado : ℕ → Documento → Documento
reclamado now d = record d {
  siat_status = sent;
  sent_at = some now;
  attempt_count = d.attempt_count + 1;
}

abbrev pub has_id : List Text → Documento → Bool
has_id ids d = any (text_eq d.id) ids

-- The rows that the update changes.
abbrev pub is_updated : List Text → Documento → Bool
is_updated ids d = has_id ids d && is_claimable d.siat_status

abbrev pub ids_of : List Documento → List Text
ids_of ds = map (λ d. d.id) ds

-- The ids that the select finds.
unfoldable pub elegidos : ℕ → ℕ → (Documento → Bool) → List Documento → List Text
elegidos now limite locked filas =
    ids_of (take limite (by_next_attempt (keep (λ d. is_ready now d && not (locked d)) filas)))

-- The table after a claim, and the ids that it returned.
unfoldable pub reclamar : ℕ → ℕ → (Documento → Bool) → List Documento → List Documento × List Text
reclamar now limite locked filas =
    let ids = elegidos now limite locked filas in
    (
      map (λ d. if is_updated ids d then reclamado now d else d) filas,
      ids_of (keep (is_updated ids) filas),
    )

-- `SENT` for longer than a call can take.
abbrev pub is_before : ℕ → Option ℕ → Bool
is_before limite none = false
is_before limite (some t) = ltb t limite

module _ (E : Entorno) where
  open E use {now, http_timeout_ms}

  abbrev pub is_orphan : Documento → Bool
  is_orphan d = elim d.siat_status [
    | sent ↦ d.codigo_emision == 1 && is_before (now - http_timeout_ms - 60000) d.sent_at
    | _ ↦ false
  ]

  -- One turn of the loop of rescatarHuerfanos.
  unfoldable pub rescatar : Documento → Result Fault Salida
  rescatar d = do desenlace ← consultar E d; aplicar E d desenlace

abbrev pub is_error : SiatStatus → Bool
is_error error = true
is_error _ = false

-- `adelantar`, of the row that its id names, and whether it changed.
unfoldable pub adelantar : ℕ → Documento → Documento × Bool
adelantar now d =
    if is_error d.siat_status then (record d { next_attempt_at = some now }, true) else (d, false)
