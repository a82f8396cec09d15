-- ===== src/Owner/Session.antt =====
-- The sessions of agents, src/data/delivery-system/sessionRegistry.ts, less its file.
use autopilot_beta.Prelude.{
  ℕ, Bool, true, false, ◌&&◌, Option, none, some, List, [], ◌∷◌, ◌++◌, Text, text_eq, opt_text_eq,
  find, leb,
}
use autopilot_beta.Time.{Timestamp, date_parse}

pub record QueueItem : Type 0 where
  pub prompt_id : Text
  pub queued_at : Timestamp

pub data SessionStatus : Type 0 where
  active closed : SessionStatus

abbrev pub is_active : SessionStatus → Bool
is_active active = true
is_active closed = false

pub record Session : Type 0 where
  pub session_id : Text
  pub agent_command : Text
  pub cwd : Text
  pub name : Option Text
  pub status : SessionStatus
  pub created_at : Timestamp
  pub updated_at : Timestamp
  pub owner_expires_at : Option Timestamp
  pub queue : List QueueItem
  pub close_reason : Option Text

pub record Scope : Type 0 where
  pub agent_command : Text
  pub cwd : Text
  pub name : Option Text

unfoldable pub create_session_record : Text → Scope → Option Timestamp → Timestamp → Session
create_session_record id scope expires_at now = record {
  session_id = id;
  agent_command = scope.agent_command;
  cwd = scope.cwd;
  name = scope.name;
  status = active;
  created_at = now;
  updated_at = now;
  owner_expires_at = expires_at;
  queue = [];
  close_reason = none;
}

unfoldable pub is_in_scope : Scope → Session → Bool
is_in_scope scope s =
    is_active s.status
    && text_eq s.agent_command scope.agent_command
    && text_eq s.cwd scope.cwd
    && opt_text_eq s.name scope.name

unfoldable pub select_scoped_session : List Session → Scope → Option Session
unfolding is_in_scope
select_scoped_session sessions scope = find (is_in_scope scope) sessions

unfoldable pub enqueue_prompt : Session → Text → Timestamp → Session
enqueue_prompt s id now = record s {
  updated_at = now;
  queue = s.queue ++ (record { prompt_id = id; queued_at = now }) ∷ [];
}

unfoldable pub cancel_session : Session → Text → Timestamp → Session
cancel_session s reason now = record s {
  status = closed;
  updated_at = now;
  close_reason = some reason;
}

unfoldable pub resume_session : Session → Timestamp → Session
resume_session s now = record s { status = active; updated_at = now; owner_expires_at = none }

-- `!isFinite(expires) || !isFinite(now) || now >= expires`
abbrev pub has_passed : Option ℕ → Option ℕ → Bool
has_passed (some expires) (some now) = leb expires now
has_passed _ _ = true

unfoldable pub is_session_owner_expired : Session → Timestamp → Bool
unfolding date_parse
is_session_owner_expired s now = elim s.owner_expires_at [
  | none ↦ false
  | some expires ↦ has_passed (date_parse expires) (date_parse now)
]
