-- ===== src/Approvals/Service.antt =====
-- sidecar/ibreeze/approvals/service.py. The table human_approvals is keyed by its primary key and
-- has the columns that the service writes. Instants are
-- numbers of microseconds; new ids and the present instant are arguments. `dumps_sha256` stands for the
-- hash of the JSON text of a target, `is_sha256`, `is_uuid` and `is_timestamp` for what `re`, `uuid` and
-- `datetime` accept, `references` for the foreign key to the run.
use i_breeze.Prelude.{
  ℕ, zero, suc, ◌+◌, ◌*◌, ltb, leb, String, str_eq, starts_with, Bool, true, false, not, ◌&&◌, ◌||◌,
  Option, none, some, List, [], ◌∷◌, contains, lookup, put, is_in, if◌then◌else◌, length, keep_if,
}
use i_breeze.Result.{guard, Result, ok, err, ◌>>=◌}

-- What `target_json` holds.
pub data Target : Type 0 where
  external_write :
      (target_realpath operation : String)
      → (expected_old_sha256 source_sha256 : Option String) → (workspace_grant_id : String) → Target
  uncertain_recovery :
      (run_id tool_execution_id action input_sha256 prior_started_at : String) → Target

pub record Approval : Type 0 where
  pub company_id : String
  pub run_id : String
  pub approval_type : String
  pub target : Target
  pub target_sha256 : String
  pub status : String
  pub requested_at : ℕ
  pub expires_at : ℕ
  pub resolved_at : Option ℕ
  pub consumed_at : Option ℕ

abbrev pub Approvals : Type 0
Approvals = List (String × Approval)

unfoldable pub external_write_operations : List String
external_write_operations = "create_file" ∷ "replace_file" ∷ "delete_file" ∷ "create_directory" ∷ []

abbrev pub microseconds : ℕ → ℕ
microseconds n = n * 1000000

module _ (dumps_sha256 : Target → String) (is_sha256 is_uuid is_timestamp : String → Bool)
    (references : String → String → Bool) where
  -- `required` and the error are those of the field.
  unfoldable pub validate_sha256 : Option String → Bool → String → Result String (Unit {0})
  validate_sha256 none required invalid = guard (not required) invalid
  validate_sha256 (some v) required invalid = guard (is_sha256 v) invalid

  -- The INSERT of both requests.
  abbrev pub inserted : Approvals → String → Approval → Result String Approvals
  inserted db approval_id row =
      if is_in approval_id db || not (references row.run_id row.company_id)
      then err "IntegrityError"
      else ok (put approval_id row db)

  abbrev pub pending_row : String → String → String → Target → ℕ → ℕ → Approval
  pending_row company_id run_id approval_type target now ttl_seconds = record {
    company_id = company_id;
    run_id = run_id;
    approval_type = approval_type;
    target = target;
    target_sha256 = dumps_sha256 target;
    status = "pending";
    requested_at = now;
    expires_at = now + microseconds ttl_seconds;
    resolved_at = none;
    consumed_at = none;
  }

  abbrev pub absent_source : String → Option String → Bool
  absent_source operation none = true
  absent_source operation (some _) =
      not (str_eq operation "delete_file" || str_eq operation "create_directory")

  -- The tests before the INSERT, in order.
  unfoldable pub check_external_write :
      String → String → Option String → Option String → Result String (Unit {0})
  unfolding external_write_operations validate_sha256
  check_external_write target_realpath operation expected_old_sha256 source_sha256 = do
    _ ← guard (starts_with target_realpath "/") "TARGET_PATH_INVALID"
    _ ← guard (contains operation external_write_operations) "OPERATION_INVALID"
    _ ←
        validate_sha256 expected_old_sha256 (not (str_eq operation "create_file"))
          "EXPECTED_OLD_SHA256_INVALID"
    _ ←
        validate_sha256 source_sha256
          (str_eq operation "create_file" || str_eq operation "replace_file")
          "SOURCE_SHA256_INVALID"
    guard (absent_source operation source_sha256) "SOURCE_SHA256_INVALID"

  unfoldable pub request_external_write_approval :
      Approvals
      → String
      → String
      → ℕ
      → String
      → String
      → String
      → String
      → Option String
      → Option String
      → ℕ
      → Result String Approvals
  unfolding check_external_write
  request_external_write_approval db company_id approval_id now run_id workspace_grant_id
        target_realpath operation expected_old_sha256 source_sha256 ttl_seconds =
      do
        _ ← check_external_write target_realpath operation expected_old_sha256 source_sha256
        inserted db approval_id (
            pending_row company_id run_id "external_write"
              (external_write target_realpath operation expected_old_sha256 source_sha256
                workspace_grant_id)
              now ttl_seconds)

  unfoldable pub check_uncertain_recovery :
      String → String → String → String → Result String (Unit {0})
  unfolding validate_sha256
  check_uncertain_recovery run_id tool_execution_id input_sha256 prior_started_at = do
    _ ← guard (is_uuid run_id) "RUN_ID_INVALID"
    _ ← guard (is_uuid tool_execution_id) "TOOL_EXECUTION_ID_INVALID"
    _ ← validate_sha256 (some input_sha256) true "INPUT_SHA256_INVALID"
    guard (is_timestamp prior_started_at) "PRIOR_STARTED_AT_INVALID"

  unfoldable pub request_uncertain_recovery_approval :
      Approvals
      → String
      → String
      → ℕ
      → String
      → String
      → String
      → String
      → ℕ
      → Result String Approvals
  unfolding check_uncertain_recovery
  request_uncertain_recovery_approval db company_id approval_id now run_id tool_execution_id
        input_sha256 prior_started_at ttl_seconds =
      do
        _ ← check_uncertain_recovery run_id tool_execution_id input_sha256 prior_started_at
        inserted db approval_id (
            pending_row company_id run_id "uncertain_recovery"
              (uncertain_recovery run_id tool_execution_id "retry_once" input_sha256
                prior_started_at)
              now ttl_seconds)

-- The new status, by the words that a decision may use.
unfoldable pub decided : String → Result String String
decided decision =
    if contains decision ("approve" ∷ "approved" ∷ "allow" ∷ "allowed" ∷ [])
    then ok "allowed"
    else if contains decision ("deny" ∷ "denied" ∷ "reject" ∷ "rejected" ∷ [])
    then ok "denied"
    else err "VALIDATION_FAILED"

-- `SELECT * FROM human_approvals WHERE id=? AND company_id=?`
unfoldable pub select_approval : Approvals → String → String → Option Approval
select_approval db company_id approval_id = elim (lookup approval_id db) [
  | none ↦ none
  | some row ↦ if str_eq row.company_id company_id then some row else none
]

unfoldable pub resolve_row :
    Approvals → String → Approval → String → ℕ → Result String (String × Approvals)
unfolding decided
resolve_row db approval_id row decision now =
    if not (str_eq row.status "pending") then err "STATE_TRANSITION_INVALID" else do
      new_status ← decided decision
      ok (
        new_status,
        put approval_id (record row { status = new_status; resolved_at = some now }) db,
      )

unfoldable pub resolve_approval :
    Approvals → String → String → String → ℕ → Result String (String × Approvals)
unfolding select_approval resolve_row
resolve_approval db company_id approval_id decision now =
    elim (select_approval db company_id approval_id) [
      | none ↦ err "RESOURCE_NOT_FOUND"
      | some row ↦ resolve_row db approval_id row decision now
    ]

-- The rows that the UPDATE of `expire_stale_approvals` finds.
abbrev pub is_stale : String → ℕ → Approval → Bool
is_stale company_id now row =
    str_eq row.company_id company_id && (str_eq row.status "pending" && ltb row.expires_at now)

unfoldable pub expire_rows : Approvals → String → ℕ → Approvals
expire_rows [] company_id now = []
expire_rows ((i, row) ∷ rest) company_id now =
    (
      i,
      if is_stale company_id now row
          then record row { status = "expired"; resolved_at = some now }
          else row,
    )
    ∷ expire_rows rest company_id now

unfoldable pub expire_stale_approvals : Approvals → String → ℕ → ℕ × Approvals
unfolding expire_rows
expire_stale_approvals db company_id now =
    (length (keep_if (λ e. is_stale company_id now e.1) db), expire_rows db company_id now)

abbrev pub entry_status : String × Approval → String
entry_status e = e.1.status

-- The WHERE of `list_pending_approvals`.
unfoldable pub is_listed : String → Option String → String × Approval → Bool
is_listed company_id approval_type (i, row) =
    (str_eq row.company_id company_id
      && (str_eq row.status "pending"
          || (str_eq row.status "allowed"
              && elim row.consumed_at [ none ↦ true | some _ ↦ false ])))
    && elim approval_type [ none ↦ true | some t ↦ str_eq row.approval_type t ]

-- `ORDER BY requested_at ASC`; rows that tie keep their order.
unfoldable pub insert_by_request : String × Approval → Approvals → Approvals
insert_by_request e [] = e ∷ []
insert_by_request e (f ∷ rest) =
    let later = insert_by_request e rest in
    if leb e.1.requested_at f.1.requested_at then e ∷ f ∷ rest else f ∷ later

unfoldable pub order_by_request : Approvals → Approvals
unfolding insert_by_request
order_by_request [] = []
order_by_request (e ∷ rest) = insert_by_request e (order_by_request rest)

unfoldable pub limited : ℕ → Approvals → Approvals
limited zero rows = []
limited (suc n) [] = []
limited (suc n) (e ∷ rest) = e ∷ limited n rest

-- Each row with its `execution_pending`.
unfoldable pub with_execution : Approvals → List (Bool × (String × Approval))
with_execution [] = []
with_execution (e ∷ rest) = (str_eq (entry_status e) "allowed", e) ∷ with_execution rest

unfoldable pub list_pending_approvals :
    Approvals → String → Option String → ℕ → List (Bool × (String × Approval))
unfolding is_listed order_by_request limited with_execution
list_pending_approvals db company_id approval_type limit =
    with_execution
      (limited limit (order_by_request (keep_if (is_listed company_id approval_type) db)))
