-- ===== src/Supervisor/Failing.antt =====
-- What `fail` makes of a running task, and what becomes of a task that was cancelled while its
-- dispatcher ran, src/data/delivery-system/supervisorQueue.ts.
use mathlib.Core.Path.{ap₂}
use autopilot_beta.Prelude.{
  ℕ, ◌+◌, ◌-◌, ◌*◌, ◌^◌, min, take, ◌≤◌, ◌<◌, ◌≡◌, refl, ◌⊎◌, inl, inr, Bool, true, false, not,
  ◌&&◌, Option, none, some, List, [], ◌∷◌, map, Text, codes, text_eq, trim, is_empty, or_default,
  find, leb, ltb, leb→le, ltb→lt, arith, Bool-cases, Option-cases, Result, ok, err, some-injective,
  none≢some, Result-cases, ok-injective, err≢ok, if◌then◌else◌, sym, ap, ◌∙◌, subst, is_some,
}
use autopilot_beta.Prelude
use autopilot_beta.Time.{Timestamp, date_parse, to_iso, max_time}
use autopilot_beta.Supervisor.Task.{Status, queued, running, failed, Task, Env, Error, range_error}
use autopilot_beta.Supervisor.Store.{bounded, has_id, put, transition}
use autopilot_beta.Supervisor.Run.{
  retry_delay, next_attempt, requeued, requeue, failing, fail_for_good, retry_task, retry, fail,
}
use autopilot_beta.Supervisor.Kept.{status_eq→≡}
use autopilot_beta.Supervisor.Inversion.{
  Ran, >>=-ok, require_that-ok, assert_timestamp-ok, lift-ok, require-ok,
}
use autopilot_beta.Supervisor.Outcomes.{replace-ok}

to_iso-ok :
    (ms : ℕ) {next : Timestamp}
    → elim (to_iso ms) as (λ _. Result Error Timestamp) [ none ↦ err range_error | some t ↦ ok t ]
      ≡ ok next
    → next ≡ some ms
unfolding to_iso
to_iso-ok ms h = elim (Bool-cases (leb ms max_time)) [
  | inl fits ↦ sym (ok-injective (rw (fits, to_iso) at h))
  | inr late ↦ absurd (err≢ok (rw (late, to_iso) at h))
]

-- The time of the next attempt: the delay of this attempt after `now`.
next_attempt-ok :
    (env : Env) (now : Timestamp) (attempt : ℕ) {next : Timestamp}
    → next_attempt env now attempt ≡ ok next
    → (at : ℕ) × (date_parse now ≡ some at) × (next ≡ some (at + retry_delay env attempt))
unfolding next_attempt to_iso
next_attempt-ok env now attempt h = elim (Option-cases (date_parse now)) [
  | inl bad ↦ absurd (err≢ok (rw (bad, next_attempt) at h))
  | inr (at, e) ↦ (at, e, to_iso-ok _ (rw (e, next_attempt) at h))
]

pub transition-ok :
    (env : Env) (id : Text) (status : Status) (now : Timestamp) (extra : Task → Task)
    → (s s' : List Task) {t : Task} → Ran (transition env id status now extra) s t s'
    → (u : Task) × (find (has_id id) s ≡ some u)
      × (t ≡ record (extra u) { status = status; updated_at = now })
      × (s' ≡ put (record (extra u) { status = status; updated_at = now }) s)
unfolding transition
transition-ok env id status now extra s s' h =
    let (_, s₁, ran_assert, h₁) = >>=-ok _ _ s s' h in
    let (_, e₁) = assert_timestamp-ok now s s₁ ran_assert in
    let (u, s₂, ran_require, h₂) = >>=-ok _ _ s₁ s' h₁ in
    let (found, e₂) = require-ok id s₁ s₂ ran_require in
    let (same, stored) = replace-ok env _ _ s₂ s' h₂ in
    (u, rw e₁ at found, same, stored ∙ ap (put _) (e₂ ∙ e₁))

-- How a running task `u` leaves `fail`.
pub data Failed (env : Env) (reason : Text) (now : Timestamp) (given : Option Text) (u t : Task)
    : Type 0 where
  will_retry :
      (at : ℕ) (delta : Text)
      → given ≡ some delta
      → u.attempt < u.max_attempts
      → date_parse now ≡ some at
      → is_empty (trim delta) ≡ false
      → t ≡ record u {
        status = queued;
        run_started_at = none;
        updated_at = now;
        next_attempt_at =
            some (at + min env.max_retry_delay (env.base_retry_delay * 2 ^ (u.attempt - 1)));
        last_error = some (take 512 reason);
        attempt_delta_hash = some (env.sha256 (trim delta));
      }
      → Failed env reason now given u t
  gave_up :
      u.max_attempts ≤ u.attempt
      → t ≡ record u {
        status = failed;
        run_started_at = none;
        updated_at = now;
        last_error = some (take 512 reason);
      }
      → Failed env reason now given u t

given_delta :
    (P : Text → Type 0) (delta : Option Text)
    → is_empty (trim (or_default delta [])) ≡ false
    → P (trim (or_default delta []))
    → (d : Text) × (delta ≡ some d) × (is_empty (trim d) ≡ false) × P (trim d)
unfolding trim
given_delta P none full p = cc full
given_delta P (some d) full p = (d, refl, full, p)

retry_task-ok :
    (env : Env) (u : Task) (reason : Text) (now : Timestamp) (delta : Option Text)
    → (s s' : List Task) {t : Task} → Ran (retry_task env u reason now delta) s t s'
    → (d : Text) × (delta ≡ some d)
      × (is_empty (trim d) ≡ false)
      × (requeue env u (bounded reason) now (trim d) ≡ ok t)
      × (s' ≡ put t s)
unfolding retry_task
retry_task-ok env u reason now delta s s' {t} h =
    let (_, s₁, ran_that, h₁) = >>=-ok _ _ s s' h in
    let (there, e₁) = require_that-ok _ _ s s₁ ran_that in
    let (next, s₂, ran_lift, h₂) = >>=-ok _ _ s₁ s' h₁ in
    let (e, e₂) = lift-ok _ s₁ s₂ ran_lift in
    let (same, stored) = replace-ok env next t s₂ s' h₂ in
    let (d, given, full, made) =
      given_delta (λ x. requeue env u (bounded reason) now x ≡ ok t) delta (ground arith)
        (rw same e) in
    (d, given, full, made, stored ∙ ap₂ put (sym same) (e₂ ∙ e₁))

requeue-ok :
    (env : Env) (u t : Task) (reason : Text) (now : Timestamp) (d : Text)
    → requeue env u reason now d ≡ ok t
    → (at : ℕ) × (date_parse now ≡ some at)
      × (t ≡ requeued env u reason now d (some (at + retry_delay env u.attempt)))
unfolding requeue
requeue-ok env u t reason now d h = elim (Result-cases (next_attempt env now u.attempt)) [
  | inr (e, failed_at) ↦ absurd (err≢ok (rw (failed_at, Prelude.◌>>=◌) at h))
  | inl (next, e) ↦
      let (at, parsed, same) = next_attempt-ok env now u.attempt e in
      (at, parsed, sym (ok-injective (rw (e, same, Prelude.◌>>=◌) at h)))
]

attempt_left :
    (u v : Task) → v ≡ u → u.attempt < u.max_attempts → leb v.max_attempts v.attempt ≡ false
attempt_left u v same lt = rw same (ground arith)

ltb-false→le : (a b : ℕ) → ltb a b ≡ false → b ≤ a
ltb-false→le a b h = ground arith

gave_up-ok :
    (env : Env) (id reason : Text) (now : Timestamp) (given : Option Text) (s s' : List Task)
    (u : Task)
    → {t : Task} → find (has_id id) s ≡ some u
    → u.max_attempts ≤ u.attempt
    → Ran (fail_for_good env id reason now) s t s'
    → Failed env reason now given u t × (s' ≡ put t s)
unfolding fail_for_good
gave_up-ok env id reason now given s s' u {t} found le h =
    let (v, found', result, stored) = transition-ok env id failed now (failing reason) s s' h in
    let same = some-injective (sym found' ∙ found) in
    (
      gave_up le
          (result ∙ ap (λ x. record (failing reason x) { status = failed; updated_at = now }) same),
      stored ∙ ap (λ x. put x s) (sym result),
    )

retry-ok :
    (env : Env) (id reason : Text) (now : Timestamp) (delta : Option Text) (s s' : List Task)
    (u : Task)
    → {t : Task} → find (has_id id) s ≡ some u
    → u.attempt < u.max_attempts
    → Ran (retry env id reason now delta) s t s'
    → Failed env reason now delta u t × (s' ≡ put t s)
unfolding retry retry_delay
retry-ok env id reason now delta s s' u {t} found lt h =
    let (_, s₁, ran_assert, h₁) = >>=-ok _ _ s s' h in
    let (_, e₁) = assert_timestamp-ok now s s₁ ran_assert in
    let (v, s₂, ran_require, h₂) = >>=-ok _ _ s₁ s' h₁ in
    let (found', e₂) = require-ok id s₁ s₂ ran_require in
    let (_, s₃, ran_that, h₃) = >>=-ok _ _ s₂ s' h₂ in
    let (_, e₃) = require_that-ok _ _ s₂ s₃ ran_that in
    let same = some-injective (sym (rw e₁ at found') ∙ found) in
    let left = attempt_left u v same lt in
    let (d, given, full, e, stored) = retry_task-ok env v reason now delta s₃ s' (rw left at h₃) in
    let (at, parsed, result) = requeue-ok env v t (bounded reason) now (trim d) e in
    (
      will_retry at d given lt parsed full (
          subst
            (λ x.
              t
              ≡ requeued env x (bounded reason) now (trim d)
                  (some (at + retry_delay env x.attempt)))
            same result),
      stored ∙ ap (put t) (e₃ ∙ e₂ ∙ e₁),
    )

-- When `fail` returns, the task was running. If it had attempts left, an attempt delta was given that is
-- not blank, and the task is queued again with the hash of the trimmed delta and the first 512 characters
-- of the reason; its next attempt is at `now` and the base delay doubled once for each earlier attempt,
-- but no more than the maximal delay. If it had none left, it has failed for good with that reason. Either
-- way it is updated at `now` and no longer has a time of start, and nothing else in the task or in the
-- queue changes.
pub fail-Failed :
    (env : Env) (id reason : Text) (now : Timestamp) (delta : Option Text) (s s' : List Task)
    (t : Task)
    → Ran (fail env id reason now delta) s t s'
    → (u : Task) × (find (has_id id) s ≡ some u)
      × (u.status ≡ running)
      × (Failed env reason now delta u t × (s' ≡ put t s))
unfolding fail fail_for_good
fail-Failed env id reason now delta s s' t h =
    let (_, s₁, ran_assert, h₁) = >>=-ok _ _ s s' h in
    let (_, e₁) = assert_timestamp-ok now s s₁ ran_assert in
    let (u, s₂, ran_require, h₂) = >>=-ok _ _ s₁ s' h₁ in
    let (found, e₂) = require-ok id s₁ s₂ ran_require in
    let (_, s₃, ran_that, h₃) = >>=-ok _ _ s₂ s' h₂ in
    let (test, e₃) = require_that-ok _ _ s₂ s₃ ran_that in
    let e = e₃ ∙ e₂ ∙ e₁ in
    let found' = rw e₁ at found in
    let h' = rw e at h₃ in
    (
      u,
      found',
      status_eq→≡ u.status running test,
      elim (Bool-cases (ltb u.attempt u.max_attempts)) [
        | inl left ↦
            retry-ok env id reason now delta s s' u found' (ltb→lt _ _ left) (rw left at h')
        | inr used_up ↦
            gave_up-ok env id reason now delta s s' u found' (ltb-false→le _ _ used_up)
              (rw used_up at h')
      ],
    )
