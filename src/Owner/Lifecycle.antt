-- ===== src/Owner/Lifecycle.antt =====
-- The life of a session, src/data/delivery-system/sessionRegistry.ts.
use autopilot_beta.Prelude.{
  arith, ◌≡◌, refl, sym, ◌∙◌, true, false, some, List, [], ◌∷◌, ◌++◌, map, Text, snoc-append,
}
use mathlib.Core.List.{append-nil}
use autopilot_beta.Time.{Timestamp}
use autopilot_beta.Owner.Session.{
  QueueItem, Session, Scope, is_in_scope, select_scoped_session, enqueue_prompt, cancel_session,
  resume_session, is_session_owner_expired,
}

-- Prompts put into a session one after the other.
abbrev pub enqueue_all : Session → List (Text × Timestamp) → Session
enqueue_all s [] = s
enqueue_all s ((id, now) ∷ prompts) = enqueue_all (enqueue_prompt s id now) prompts

abbrev pub item : Text × Timestamp → QueueItem
item (id, now) = record { prompt_id = id; queued_at = now }

-- Prompts wait in the order in which they came, behind those that waited before, and a session that
-- takes prompts stays in the scopes it was in.
pub enqueue_all-order :
    (s : Session) (prompts : List (Text × Timestamp)) (scope : Scope)
    → ((enqueue_all s prompts).queue ≡ s.queue ++ map item prompts)
      × (is_in_scope scope (enqueue_all s prompts) ≡ is_in_scope scope s)
unfolding enqueue_prompt is_in_scope
enqueue_all-order s [] scope = (sym (append-nil s.queue), refl)
enqueue_all-order s ((id, now) ∷ prompts) scope =
    let (order, same) = enqueue_all-order (enqueue_prompt s id now) prompts scope in
    (order ∙ snoc-append s.queue (item (id, now)) (map item prompts), same)

is_in_scope-resumed :
    (s : Session) (scope : Scope) (reason : Text) (t t' : Timestamp)
    → is_in_scope scope s ≡ true
    → is_in_scope scope (resume_session (cancel_session s reason t) t') ≡ true
unfolding cancel_session resume_session is_in_scope
is_in_scope-resumed s scope reason t t' h = ground arith

-- A cancelled session is never selected, whichever its scope is: the next one is. Once resumed, it is
-- in the scopes it was in, with its queue, and its owner never expires; but it keeps the reason for
-- which it was closed.
pub resume_session-cancelled :
    (s : Session) (scope : Scope) (others : List Session) (reason : Text) (t t' now : Timestamp)
    → (select_scoped_session (cancel_session s reason t ∷ others) scope
        ≡ select_scoped_session others scope)
      × (is_in_scope scope s ≡ true
          → select_scoped_session (resume_session (cancel_session s reason t) t' ∷ others) scope
            ≡ some (resume_session (cancel_session s reason t) t'))
      × ((resume_session (cancel_session s reason t) t').queue ≡ s.queue)
      × (is_session_owner_expired (resume_session (cancel_session s reason t) t') now ≡ false)
      × ((resume_session (cancel_session s reason t) t').close_reason ≡ some reason)
unfolding cancel_session resume_session select_scoped_session is_in_scope is_session_owner_expired
resume_session-cancelled s scope others reason t t' now =
    (refl, λ h. rw (is_in_scope-resumed s scope reason t t' h) refl, refl, refl, refl)
