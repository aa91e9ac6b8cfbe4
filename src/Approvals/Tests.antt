-- ===== src/Approvals/Tests.antt =====
-- Runs of sidecar/ibreeze/approvals/service.py, and instances of its theorems.
use i_breeze.Prelude.{String, Bool, true, false, [], ◌∷◌, none, some, ◌≡◌, refl, lookup, put}
use i_breeze.Result.{Result, ok, err}
use i_breeze.Approvals.Service.{
  Target, Approval, Approvals, external_write_operations, validate_sha256, check_external_write,
  request_external_write_approval, decided, select_approval, resolve_row, resolve_approval,
  list_pending_approvals, is_listed, insert_by_request, order_by_request, limited, with_execution,
}
use i_breeze.Approvals.History.{Kept}
use i_breeze.Approvals.Steps.{resolves, none_yet, then_call, Calls-Kept}

abbrev hash_of : Target → String
hash_of t = "5f"

abbrev any_text : String → Bool
any_text s = true

abbrev any_run : String → String → Bool
any_run r c = true

abbrev asked : Result String Approvals
asked =
    request_external_write_approval hash_of any_text any_text any_text any_run [] "acme" "a1" 10
      "r1" "g1" "/tmp/x" "create_file" none (some "ab") 300

abbrev waiting_row : Approval
waiting_row = record {
  company_id = "acme";
  run_id = "r1";
  approval_type = "external_write";
  target = Target.external_write "/tmp/x" "create_file" none (some "ab") "g1";
  target_sha256 = "5f";
  status = "pending";
  requested_at = 10;
  expires_at = 300000010;
  resolved_at = none;
  consumed_at = none;
}

abbrev allowed_row : Approval
allowed_row = record waiting_row { status = "allowed"; resolved_at = some 20 }

request_run : asked ≡ ok (("a1", waiting_row) ∷ [])
unfolding request_external_write_approval check_external_write external_write_operations
    validate_sha256 lookup put
request_run = refl

resolve_run :
    resolve_approval (("a1", waiting_row) ∷ []) "acme" "a1" "approve" 20
    ≡ ok ("allowed", ("a1", allowed_row) ∷ [])
unfolding resolve_approval select_approval resolve_row decided lookup put
resolve_run = refl

refusals_run :
    (resolve_approval (("a1", allowed_row) ∷ []) "acme" "a1" "deny" 30
      ≡ err "STATE_TRANSITION_INVALID")
    × (resolve_approval (("a1", waiting_row) ∷ []) "bolt" "a1" "deny" 30 ≡ err "RESOURCE_NOT_FOUND")
    × (resolve_approval (("a1", waiting_row) ∷ []) "acme" "a1" "perhaps" 30
        ≡ err "VALIDATION_FAILED")
unfolding resolve_approval select_approval resolve_row decided lookup
refusals_run = (refl, refl, refl)

list_run :
    list_pending_approvals
      (("a1", allowed_row) ∷ ("a2", record waiting_row { requested_at = 5 }) ∷ [])
      "acme"
      none
      50
    ≡ (false, ("a2", record waiting_row { requested_at = 5 })) ∷ (true, ("a1", allowed_row)) ∷ []
unfolding list_pending_approvals is_listed insert_by_request order_by_request limited with_execution
list_run = refl

first_row : lookup "a1" (("a1", waiting_row) ∷ []) ≡ some waiting_row
unfolding lookup
first_row = refl

Calls-Kept_example :
    (r' : Approval) × (lookup "a1" (("a1", allowed_row) ∷ []) ≡ some r') × Kept waiting_row r'
Calls-Kept_example =
    Calls-Kept hash_of any_text any_text any_text any_run (("a1", waiting_row) ∷ [])
      (("a1", allowed_row) ∷ [])
      (then_call (("a1", waiting_row) ∷ []) none_yet
        (resolves "acme" "a1" "approve" 20 "allowed" resolve_run))
      "a1" waiting_row first_row
