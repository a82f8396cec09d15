-- ===== src/Supervisor/Valid.antt =====
-- isSupervisorState of src/data/delivery-system/supervisorQueue.ts: what a state must satisfy to
-- be written or read. A test that the static types settle (`typeof`, the enumerations) has no
-- counterpart here.
use autopilot_beta.Prelude.{
  ℕ, Bool, true, false, not, ◌&&◌, ◌||◌, Option, none, some, List, [], ◌∷◌, map, Text, codes,
  text_eq, opt_text_eq, includes, unique, is_blank, length, every, any, leb, ltb, is_some,
}
use autopilot_beta.Time.{Timestamp, is_valid_timestamp}
use autopilot_beta.Supervisor.Task.{
  Status, queued, running, blocked, Provenance, cheap_attempts, cheap_not_applicable, Handoff, Task,
  Env, max_attempts_cap, max_dependencies, max_error_chars, status_eq,
}
use autopilot_beta.Supervisor.Cycle.{Entry, has_dependency_cycle}

-- `value === null || p(value)`
abbrev pub optional {ℓ} : {A : Type ℓ} → (A → Bool) → Option A → Bool
optional p none = true
optional p (some x) = p x

-- Number.MAX_SAFE_INTEGER bounds the array where the caller gives no bound.
unfoldable pub is_unique_nonempty : Option ℕ → List Text → Bool
unfolding unique is_blank
is_unique_nonempty bound xs =
    optional (leb (length xs)) bound && every (λ x. not (is_blank x)) xs && unique xs

unfoldable pub is_optional_prep_provenance : Option Provenance → Bool
unfolding is_unique_nonempty is_blank
is_optional_prep_provenance none = true
is_optional_prep_provenance (some (cheap_attempts refs)) = is_unique_nonempty none refs
is_optional_prep_provenance (some (cheap_not_applicable reason owner_override)) =
    not (is_blank reason) && owner_override

unfoldable pub is_governed_handoff : ℕ → Handoff → Bool
unfolding is_optional_prep_provenance
is_governed_handoff max_chars h =
    leb (length h.prompt) max_chars
    && optional (ltb 0) h.timeout_ms
    && optional (ltb 0) h.max_prompt_chars
    && optional (leb (length h.prompt)) h.max_prompt_chars
    && is_optional_prep_provenance h.prep_provenance

-- /^[a-f0-9]{64}$/
unfoldable pub is_hex64 : Text → Bool
is_hex64 h =
    leb (length h) 64
    && leb 64 (length h)
    && every (λ c. leb 97 c && leb c 102 || leb 48 c && leb c 57) h

-- `status === "running" ? run_started_at !== null && attempt > 0 : run_started_at === null`
abbrev pub run_matches : Status → Option Timestamp → ℕ → Bool
run_matches running (some t) attempt = ltb 0 attempt
run_matches running none attempt = false
run_matches _ started attempt = not (is_some started)

-- The tests on `attempt` and `max_attempts`.
unfoldable pub attempts_valid : Task → Bool
attempts_valid t =
    ltb 0 t.max_attempts
    && leb t.max_attempts max_attempts_cap
    && leb t.attempt t.max_attempts
    && (not (status_eq t.status queued) || ltb t.attempt t.max_attempts)

-- The tests on times.
unfoldable pub times_valid : Task → Bool
unfolding is_valid_timestamp
times_valid t =
    leb 1000 t.timeout_ms
    && every is_valid_timestamp (t.queued_at ∷ t.updated_at ∷ t.next_attempt_at ∷ [])
    && optional is_valid_timestamp t.run_started_at

unfoldable pub texts_valid : Task → Bool
unfolding is_hex64 is_unique_nonempty
texts_valid t =
    optional (λ e. leb (length e) max_error_chars) t.last_error
    && optional is_hex64 t.attempt_delta_hash
    && is_unique_nonempty (some max_dependencies) t.dependency_ids

unfoldable pub reference_valid : Task → Bool
reference_valid t =
    text_eq t.handoff_ref.handoff_id t.handoff.handoff_id
    && text_eq t.handoff_ref.packet_hash t.handoff.packet_hash
    && opt_text_eq t.handoff_ref.task_packet_ref t.handoff.task_packet_ref

unfoldable pub blocking_valid : Task → Bool
blocking_valid t =
    not (status_eq t.status blocked)
    || t.requires_approval
      && not t.approval_granted
      && opt_text_eq t.blocked_reason (some (codes "approval_required"))

-- All of the tests on one task, in the order of the source.
unfoldable pub is_task : Env → Task → Bool
unfolding is_governed_handoff attempts_valid times_valid texts_valid reference_valid blocking_valid
is_task env t =
    is_governed_handoff env.max_prompt_chars t.handoff
    && attempts_valid t
    && times_valid t
    && texts_valid t
    && reference_valid t
    && run_matches t.status t.run_started_at t.attempt
    && blocking_valid t

-- The loop over the tasks, with the set `taskIds`.
unfoldable pub are_tasks : Env → List Text → List Task → Bool
unfolding is_task includes is_blank
are_tasks env seen [] = true
are_tasks env seen (t ∷ ts) =
    not (is_blank t.task_id)
    && not (includes t.task_id seen)
    && is_task env t
    && are_tasks env (t.task_id ∷ seen) ts

abbrev pub entry : Task → Entry
entry t = (t.task_id, t.dependency_ids)

unfoldable pub is_supervisor_state : Env → List Task → Bool
unfolding are_tasks has_dependency_cycle
is_supervisor_state env tasks =
    leb (length tasks) env.max_tasks
    && are_tasks env [] tasks
    && not (any (λ t. includes t.task_id t.dependency_ids) tasks)
    && not (has_dependency_cycle (map entry tasks))
