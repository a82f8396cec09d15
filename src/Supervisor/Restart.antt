-- ===== src/Supervisor/Restart.antt =====
-- What a restart and a time-out leave behind, src/data/delivery-system/supervisorQueue.ts.
use autopilot_beta.Prelude.{
  ℕ, ◌≤◌, ◌<◌, ◌≡◌, ◌≢◌, refl, ◌⊎◌, inl, inr, Bool, true, false, Option, none, some, List, [], ◌∷◌,
  All, Text, codes, arith, Bool-cases, Option-cases, Result, ok, err, Result-cases, ok-injective,
  err≢ok, sym, ◌∙◌, if◌then◌else◌, leb, leb→le, is_some,
}
use autopilot_beta.Prelude
use autopilot_beta.Time.{Timestamp}
use autopilot_beta.Supervisor.Task.{Status, queued, running, failed, Task, Env, Error, status_eq}
use autopilot_beta.Supervisor.Run.{requeue, next_attempt}
use autopilot_beta.Supervisor.Claim.{give_up_or_requeue, map_tasks, recovered_task, recover}
use mathlib.Core.Path.{subst₂}
use autopilot_beta.Supervisor.Inversion.{
  >>=-ok, assert_timestamp-ok, get_tasks-ok, lift-ok, publish-ok,
}

-- How `recover` changes one task: a running one waits again or has failed, any other stays.
pub data Recovered (env : Env) (t u : Task) : Type 0 where
  untouched : t.status ≢ running → u ≡ t → Recovered env t u
  waits_again :
      t.status ≡ running
      → t.attempt < t.max_attempts
      → u.status ≡ queued
      → u.attempt ≡ t.attempt
      → u.run_started_at ≡ none
      → Recovered env t u
  given_up :
      t.status ≡ running
      → t.max_attempts ≤ t.attempt
      → u.status ≡ failed
      → u.run_started_at ≡ none
      → Recovered env t u

-- Entry by entry.
abbrev pub Pointwise : (Task → Task → Type 0) → List Task → List Task → Type 0
Pointwise R [] [] = Unit
Pointwise R (t ∷ ts) (u ∷ us) = R t u × Pointwise R ts us
Pointwise R _ _ = ⊥

status_eq→≡ : (a b : Status) → status_eq a b ≡ true → a ≡ b
status_eq→≡ a b h = ground arith

requeue-Recovered :
    (env : Env) (now : Timestamp) (reason delta : Text) (t u : Task)
    → t.status ≡ running
    → t.attempt < t.max_attempts
    → requeue env t reason now delta ≡ ok u
    → Recovered env t u
unfolding requeue
requeue-Recovered env now reason delta t u r lt h =
    elim (Result-cases (next_attempt env now t.attempt)) [
      | inl (next, e) ↦
          let same = rw (e, Prelude.◌>>=◌) at h in
          rw (← ok-injective same) (waits_again r lt refl refl refl)
      | inr (e, failed_at) ↦ absurd (err≢ok (rw (failed_at, Prelude.◌>>=◌) at h))
    ]

recovered_task-Recovered :
    (env : Env) (now : Timestamp) (t u : Task) → recovered_task env now t ≡ ok u → Recovered env t u
unfolding recovered_task give_up_or_requeue
recovered_task-Recovered env now t u h = elim (Bool-cases (status_eq t.status running)) [
  | inr other ↦ untouched (λ e. ground arith) (sym (ok-injective (rw (other, recovered_task) at h)))
  | inl was_running ↦
      let r = status_eq→≡ t.status running was_running in
      let h' = rw (was_running, recovered_task) at h in
      elim (Bool-cases (leb t.max_attempts t.attempt)) [
        | inl used_up ↦
            rw (← ok-injective (rw (used_up, give_up_or_requeue) at h'))
              (given_up r (leb→le _ _ used_up) refl refl)
        | inr left ↦
            requeue-Recovered env now _ _ t u r (ground arith) (rw (left, give_up_or_requeue) at h')
      ]
]

map_tasks-Pointwise :
    (R : Task → Task → Type 0) (f : Task → Result Error Task)
    → ((t u : Task) → f t ≡ ok u → R t u)
    → (ts us : List Task) → map_tasks f ts ≡ ok us
    → Pointwise R ts us
unfolding map_tasks
map_tasks-Pointwise R f k [] us h = rw (← ok-injective h) tt
map_tasks-Pointwise R f k (t ∷ ts) us h = elim (Result-cases (f t)) [
  | inr (e, failed_at) ↦ absurd (err≢ok (rw (failed_at, Prelude.◌>>=◌) at h))
  | inl (u, e) ↦ elim (Result-cases (map_tasks f ts)) [
    | inr (e', failed_at) ↦ absurd (err≢ok (rw (e, failed_at, Prelude.◌>>=◌) at h))
    | inl (us', e') ↦
        rw (← ok-injective (rw (e, e', Prelude.◌>>=◌) at h))
          (k t u e, map_tasks-Pointwise R f k ts us' e')
  ]
]

-- After a successful `recover` every running task waits for a further attempt, which it has not
-- used, or has failed with its attempts used up; every other task is as it was.
pub recover-Recovered :
    (env : Env) (now : Timestamp) (s ts s' : List Task)
    → recover env now s ≡ (ok ts, s')
    → Pointwise (Recovered env) s ts × (s' ≡ ts)
unfolding recover
recover-Recovered env now s ts s' h =
    let (_, s₁, ran_assert, h₁) = >>=-ok _ _ s s' h in
    let (_, e₁) = assert_timestamp-ok now s s₁ ran_assert in
    let (tasks, s₂, ran_get, h₂) = >>=-ok _ _ s₁ s' h₁ in
    let (same, e₂) = get_tasks-ok s₁ s₂ tasks ran_get in
    let (changed, s₃, ran_map, h₃) = >>=-ok _ _ s₂ s' h₂ in
    let (mapped, e₃) = lift-ok _ s₂ s₃ ran_map in
    let (_, s₄, ran_publish, h₄) = >>=-ok _ _ s₃ s' h₃ in
    let (stored, _) = publish-ok env changed s₃ s₄ ran_publish in
    let (returned, e₄) = get_tasks-ok s₄ s' ts h₄ in
    let pointwise =
      map_tasks-Pointwise (Recovered env) (recovered_task env now)
        (recovered_task-Recovered env now) tasks changed mapped in
    (
      subst₂ (Pointwise (Recovered env)) (same ∙ e₁) (sym stored ∙ sym returned) pointwise,
      e₄ ∙ sym returned,
    )
