-- ===== src/Supervisor/Task.antt =====
-- The data of src/data/delivery-system/supervisorQueue.ts: tasks, the options of a queue, its
-- errors, and the methods' way of returning a state with a result or an error.
use autopilot_beta.Prelude.{ℕ, ◌*◌, Bool, true, false, Option, List, Text, codes, Result, ok, err}
use autopilot_beta.Time.{Timestamp}

pub data Status : Type 0 where
  queued running blocked completed failed cancelled : Status

-- BuildPrepProvenance of routingModes.ts.
pub data Provenance : Type 0 where
  cheap_attempts : List Text → Provenance
  cheap_not_applicable : Text → Bool → Provenance

-- The fields of GovernedHandoff that the queue reads or checks beyond their static type.
pub record Handoff : Type 0 where
  pub handoff_id : Text
  pub prompt : Text
  pub packet_hash : Text
  pub session_id : Option Text
  pub task_packet_ref : Option Text
  pub timeout_ms : Option ℕ
  pub max_prompt_chars : Option ℕ
  pub prep_provenance : Option Provenance

pub record HandoffReference : Type 0 where
  pub handoff_id : Text
  pub packet_hash : Text
  pub task_packet_ref : Option Text

pub record Task : Type 0 where
  pub task_id : Text
  pub session_id : Option Text
  pub handoff : Handoff
  pub handoff_ref : HandoffReference
  pub status : Status
  pub attempt : ℕ
  pub max_attempts : ℕ
  pub timeout_ms : ℕ
  pub queued_at : Timestamp
  pub updated_at : Timestamp
  pub next_attempt_at : Timestamp
  pub run_started_at : Option Timestamp
  pub blocked_reason : Option Text
  pub last_error : Option Text
  pub attempt_delta_hash : Option Text
  pub dependency_ids : List Text
  pub requires_approval : Bool
  pub approval_granted : Bool

-- The options of a queue, and what the queue calls outside this file: the SHA-256 of `node:crypto`
-- (hexadecimal), the length of the serialised state, and the message with which the atomic write of
-- a state fails, if it fails.
pub record Env : Type 0 where
  pub max_tasks : ℕ
  pub max_prompt_chars : ℕ
  pub base_retry_delay : ℕ
  pub max_retry_delay : ℕ
  pub sha256 : Text → Text
  pub json_bytes : List Task → ℕ
  pub write_failure : List Task → Option Text

pub record EnqueueInput : Type 0 where
  pub task_id : Text
  pub handoff : Handoff
  pub session_id : Option Text
  pub max_attempts : Option ℕ
  pub timeout_ms : Option ℕ
  pub dependency_ids : Option (List Text)
  pub requires_approval : Option Bool
  pub approval_granted : Option Bool

pub data Error : Type 0 where
  invalid_task_id prompt_too_large task_already_exists queue_full : Error
  invalid_timestamp invalid_numeric_input invalid_task_dependency : Error
  task_not_approval_blocked task_not_running task_not_retryable : Error
  attempt_delta_missing task_already_terminal task_not_found : Error
  invalid_state state_too_large range_error : Error
  write_failed dispatch_error : Text → Error

-- `error.message`
unfoldable pub message : Error → Text
message invalid_task_id = codes "invalid_task_id"
message prompt_too_large = codes "supervisor_prompt_too_large"
message task_already_exists = codes "task_already_exists"
message queue_full = codes "supervisor_queue_full"
message invalid_timestamp = codes "invalid_supervisor_timestamp"
message invalid_numeric_input = codes "invalid_supervisor_numeric_input"
message invalid_task_dependency = codes "invalid_task_dependency"
message task_not_approval_blocked = codes "task_not_approval_blocked"
message task_not_running = codes "task_not_running"
message task_not_retryable = codes "task_not_retryable"
message attempt_delta_missing = codes "attempt_delta_missing"
message task_already_terminal = codes "task_already_terminal"
message task_not_found = codes "task_not_found"
message invalid_state = codes "invalid_supervisor_state"
message state_too_large = codes "supervisor_state_too_large"
message range_error = codes "Invalid time value"
message (write_failed m) = m
message (dispatch_error m) = m

abbrev pub default_timeout_ms : ℕ
default_timeout_ms = 15 * 60000

-- Number.MAX_SAFE_INTEGER
abbrev pub max_safe_integer : ℕ
max_safe_integer = 9007199254740991

abbrev pub max_attempts_cap : ℕ
max_attempts_cap = 8

abbrev pub max_dependencies : ℕ
max_dependencies = 32

abbrev pub max_error_chars : ℕ
max_error_chars = 512

abbrev pub max_state_bytes : ℕ
max_state_bytes = 4 * 1024 * 1024

abbrev pub status_eq : Status → Status → Bool
status_eq queued queued = true
status_eq running running = true
status_eq blocked blocked = true
status_eq completed completed = true
status_eq failed failed = true
status_eq cancelled cancelled = true
status_eq _ _ = false

-- A method runs on the tasks held in memory; what it has published before it throws stays.
abbrev pub M {ℓ} : Type ℓ → Type ℓ
M A = List Task → Result Error A × List Task

-- The rest of a method behind a call: an error passes through it.
abbrev pub and_then {ℓ κ} : {A : Type ℓ} {B : Type κ} → (A → M B) → Result Error A → M B
and_then f (ok a) s = f a s
and_then f (err e) s = (err e, s)

infixl 5 ◌>>=◌ ◌>>◌
unfoldable pub ◌>>=◌ {ℓ κ} : {A : Type ℓ} {B : Type κ} → M A → (A → M B) → M B
◌>>=◌ m f s = let (r, s') = m s in and_then f r s'

abbrev pub ◌>>◌ {ℓ κ} : {A : Type ℓ} {B : Type κ} → M A → M B → M B
m >> k = m >>= λ _. k

unfoldable pub pure {ℓ} : {A : Type ℓ} → A → M A
pure a s = (ok a, s)

unfoldable pub throw {ℓ} : {A : Type ℓ} → Error → M A
throw e s = (err e, s)

-- `if (!test) throw new Error(e)`
unfoldable pub require_that : Bool → Error → M (Unit {0})
require_that true e = pure tt
require_that false e = throw e

unfoldable pub get_tasks : M (List Task)
get_tasks s = (ok s, s)

unfoldable pub lift {ℓ} : {A : Type ℓ} → Result Error A → M A
lift r s = (r, s)
