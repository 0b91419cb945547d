-- ===== src/Documents/Access.antt =====
-- Who may touch a legal entity, and when a period takes postings.
use atlas_erpbackend.Prelude.{
  Bool, true, false, not, ◌||◌, Option, none, some, List, [], ◌∷◌, map, any, if◌then◌else◌, Result,
  ok, err, ◌>>◌, throw_if,
}
use atlas_erpbackend.Text.{Text, codes, text_eq, trim, to_upper}
use atlas_erpbackend.Documents.Rows.{
  AuthUser, AccountingPeriod, DocumentError, legal_entity_scope_required, legal_entity_forbidden,
  period_not_found, period_closed, is_text,
}

-- `role?.trim().toUpperCase()`
abbrev pub role_name : Option Text → Option Text
role_name none = none
role_name (some role) = some (to_upper (trim role))

unfoldable pub has_role : AuthUser → Text → Bool
has_role user expected_role =
    let expected = to_upper (trim expected_role) in
    any (λ role. is_text (role_name role) expected)
      (user.role_code ∷ (user.role ∷ map (λ role. some role) user.roles))

abbrev pub is_empty : List Text → Bool
is_empty [] = true
is_empty (_ ∷ _) = false

unfoldable pub assert_can_access_legal_entity : AuthUser → Text → Result DocumentError (Unit {0})
assert_can_access_legal_entity user legal_entity_id =
    if has_role user (codes "admin")
    then ok tt
    else (throw_if (is_empty user.legal_entity_ids) legal_entity_scope_required
        >> throw_if (not (any (text_eq legal_entity_id) user.legal_entity_ids))
            legal_entity_forbidden)

-- `null` is every entity.
unfoldable pub accessible_legal_entity_ids : AuthUser → Option (List Text)
accessible_legal_entity_ids user =
    if has_role user (codes "admin") then none else some user.legal_entity_ids

unfoldable pub can_access_legal_entity : AuthUser → Text → Bool
can_access_legal_entity user legal_entity_id = elim (accessible_legal_entity_ids user) [
  | none ↦ true
  | some allowed ↦ any (text_eq legal_entity_id) allowed
]

-- The period that was found for the id, if one was.
unfoldable pub assert_period_is_open :
    Option AccountingPeriod → Result DocumentError AccountingPeriod
assert_period_is_open none = err period_not_found
assert_period_is_open (some period) = do
  throw_if (not period.is_open || not (text_eq period.close_status (codes "OPEN"))) period_closed
  ok period
