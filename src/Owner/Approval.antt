-- ===== src/Owner/Approval.antt =====
-- The queue of approvals, src/data/delivery-system/approvalQueue.ts. Times are texts here, since the
-- queue only measures their length.
use autopilot_beta.Prelude.{
  ℕ, ◌+◌, ◌*◌, Bool, true, false, ◌&&◌, Option, none, some, List, [], Text, codes, text_eq,
  dedup_from, take, length, every, find, leb, ltb, ◌==◌, or_default, Result, ok, err, ◌>>=◌, ◌>>◌,
  guard, or_throw,
}

-- Number.MAX_SAFE_INTEGER
abbrev pub max_safe_integer : ℕ
max_safe_integer = 9007199254740991

pub data ApprovalStatus : Type 0 where
  pending approved rejected : ApprovalStatus

abbrev pub is_pending : ApprovalStatus → Bool
is_pending pending = true
is_pending _ = false

abbrev pub is_approved : ApprovalStatus → Bool
is_approved approved = true
is_approved _ = false

-- ApprovalQueueRecord; a document is its list of records.
pub record Approval : Type 0 where
  pub approval_id : Text
  pub run_id : Option Text
  pub revision : Option ℕ
  pub session_id : Text
  pub vendor : Text
  pub model : Option Text
  pub skill_ids : List Text
  pub prompt_preview : Text
  pub prompt_file : Option Text
  pub estimated_tokens : ℕ
  pub input_token_bound : ℕ
  pub output_token_allowance : ℕ
  pub prompt_review_acknowledged : Bool
  pub status : ApprovalStatus
  pub created_at : Text
  pub decided_at : Option Text
  pub rejection_reason : Option Text

pub data ApprovalError : Type 0 where
  invalid_approval_queue already_decided approval_not_found approval_not_approved : ApprovalError
  write_failed : Text → ApprovalError

abbrev pub max_queue_bytes : ℕ
max_queue_bytes = 1024 * 1024

abbrev pub max_records : ℕ
max_records = 512

abbrev pub max_field : ℕ
max_field = 512

unfoldable pub valid_text : ℕ → Text → Bool
valid_text maximum t = ltb 0 (length t) && leb (length t) maximum

-- `value === null || test(value)`
abbrev pub or_null {ℓ} : {A : Type ℓ} → (A → Bool) → Option A → Bool
or_null test none = true
or_null test (some a) = test a

abbrev pub valid_revision : ℕ → Bool
valid_revision r = leb 1 r && leb r max_safe_integer

-- The tests on the names of a record, on its prompt, on its counts and on its decision.
unfoldable pub names_valid : Approval → Bool
unfolding valid_text
names_valid r =
    valid_text max_field r.approval_id
    && or_null (valid_text max_field) r.run_id
    && or_null valid_revision r.revision
    && valid_text max_field r.session_id
    && valid_text max_field r.vendor
    && or_null (valid_text max_field) r.model

unfoldable pub prompt_valid : Approval → Bool
unfolding valid_text
prompt_valid r =
    leb (length r.skill_ids) 64
    && every (valid_text max_field) r.skill_ids
    && leb (length r.prompt_preview) 500
    && or_null (valid_text 2048) r.prompt_file

unfoldable pub counts_valid : Approval → Bool
counts_valid r =
    leb r.input_token_bound max_safe_integer
    && leb r.output_token_allowance max_safe_integer
    && leb r.estimated_tokens max_safe_integer
    && (r.estimated_tokens == r.input_token_bound + r.output_token_allowance)

unfoldable pub decision_valid : Approval → Bool
unfolding valid_text
decision_valid r =
    valid_text 32 r.created_at
    && or_null (valid_text 32) r.decided_at
    && or_null (valid_text 200) r.rejection_reason

unfoldable pub is_valid : Approval → Bool
unfolding names_valid prompt_valid counts_valid decision_valid
is_valid r = names_valid r && prompt_valid r && counts_valid r && decision_valid r

unfoldable pub validate : List Approval → Result ApprovalError (Unit {0})
unfolding is_valid
validate records =
    guard (leb (length records) max_records && every is_valid records) invalid_approval_queue

pub record ApprovalInput : Type 0 where
  pub approval_id : Text
  pub run_id : Option Text
  pub revision : Option ℕ
  pub session_id : Text
  pub vendor : Text
  pub model : Option Text
  pub skill_ids : List Text
  pub prompt : Text
  pub prompt_file : Option Text
  pub estimated_tokens : ℕ
  pub input_token_bound : ℕ
  pub output_token_allowance : ℕ
  pub prompt_review_acknowledged : Option Bool

-- An estimate that is natural passes `Math.max(0, Math.floor(n))` unchanged.
unfoldable pub create_approval_record : ApprovalInput → Text → Approval
create_approval_record input now = record {
  approval_id = input.approval_id;
  run_id = input.run_id;
  revision = input.revision;
  session_id = input.session_id;
  vendor = input.vendor;
  model = input.model;
  skill_ids = dedup_from [] input.skill_ids;
  prompt_preview = take 500 input.prompt;
  prompt_file = input.prompt_file;
  estimated_tokens = input.estimated_tokens;
  input_token_bound = input.input_token_bound;
  output_token_allowance = input.output_token_allowance;
  prompt_review_acknowledged = or_default input.prompt_review_acknowledged false;
  status = pending;
  created_at = now;
  decided_at = none;
  rejection_reason = none;
}

pub data Decision : Type 0 where
  approve reject : Decision

abbrev pub status_of : Decision → ApprovalStatus
status_of approve = approved
status_of reject = rejected

-- The reason that is kept: `rejectionReason?.slice(0, 200) ?? "rejected_by_owner"` of a rejection.
abbrev pub kept_reason : Decision → Option Text → Option Text
kept_reason approve reason = none
kept_reason reject none = some (codes "rejected_by_owner")
kept_reason reject (some t) = some (take 200 t)

abbrev pub decided : Approval → Decision → Text → Option Text → Approval
decided r decision now reason = record r {
  status = status_of decision;
  decided_at = some now;
  rejection_reason = kept_reason decision reason;
}

unfoldable pub decide_approval :
    Approval → Decision → Text → Option Text → Result ApprovalError Approval
decide_approval r decision now reason =
    guard (is_pending r.status) already_decided >> ok (decided r decision now reason)

unfoldable pub require_approved_approval : List Approval → Text → Result ApprovalError Approval
require_approved_approval records id = do
  r ← or_throw (find (λ (r : Approval). text_eq r.approval_id id) records) approval_not_found
  guard (is_approved r.status) approval_not_approved
  ok r

-- What the queue calls outside this file: the JSON text of a queue, its size, the parser (with the
-- defaults that `readApprovalQueue` fills in for old records), and the failure of the atomic write.
pub record Files : Type 0 where
  pub stringify : List Approval → Text
  pub parse : Text → Option (List Approval)
  pub byte_length : Text → ℕ
  pub write_failure : Text → Option Text

-- The text of the state file, if there is one.
abbrev pub Disk : Type 0
Disk = Option Text

unfoldable pub read_approval_queue : Files → Disk → Result ApprovalError (List Approval)
unfolding validate
read_approval_queue files none = ok []
read_approval_queue files (some text) = do
  guard (leb (files.byte_length text) max_queue_bytes) invalid_approval_queue
  records ← or_throw (files.parse text) invalid_approval_queue
  validate records
  ok records

abbrev pub fits : Files → List Approval → Result ApprovalError (Unit {0})
fits files records =
    guard (leb (files.byte_length (files.stringify records)) max_queue_bytes) invalid_approval_queue

abbrev pub stored : Files → List Approval → Result ApprovalError Disk
stored files records = elim (files.write_failure (files.stringify records)) [
  | some m ↦ err (write_failed m)
  | none ↦ ok (some (files.stringify records))
]

-- The state file after a write, or the error, which leaves it as it was.
unfoldable pub write_approval_queue : Files → List Approval → Result ApprovalError Disk
unfolding validate
write_approval_queue files records = do validate records; fits files records; stored files records
