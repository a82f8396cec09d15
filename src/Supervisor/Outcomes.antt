-- ===== src/Supervisor/Outcomes.antt =====
-- What `claim`, `fail` and `complete` do when they return, src/data/delivery-system/supervisorQueue.ts.
use autopilot_beta.Prelude.{
  ℕ, ◌+◌, ◌≤◌, leb→le, every, Text, Option-cases, ◌≡◌, refl, inl, inr, true, Option, none, some,
  List, [], ◌∷◌, text_eq, text_eq_refl, or_default, find, arith, Bool-cases, some-injective,
  none≢some, All, find-All, sym, ap, ◌∙◌, &&_split, subst,
}
use autopilot_beta.Time.{Timestamp, date_parse, is_valid_timestamp}
use autopilot_beta.Supervisor.Task.{queued, running, completed, Task, Env}
use autopilot_beta.Supervisor.Store.{has_id, put, replace}
use autopilot_beta.Supervisor.Claim.{
  reconcile, is_completed, dependencies_complete, is_due, is_claimable, peek_claimable, started,
  start, claim,
}
use autopilot_beta.Supervisor.Kept.{status_eq→≡}
use autopilot_beta.Supervisor.Hoare.{Any}
use autopilot_beta.Supervisor.Inversion.{
  Ran, >>=-ok, assert_timestamp-ok, get_tasks-ok, pure-ok, publish-ok, require-ok,
}

-- A task put in is found under its id, if there was one.
find-put :
    (t : Task) (s : List Task) {u : Task} → find (has_id t.task_id) (put t s) ≡ some u → u ≡ t
find-put t [] h = cc
find-put t (x ∷ xs) {u} h = elim (Bool-cases (text_eq x.task_id t.task_id)) [
  | inl same ↦ sym (some-injective (rw (same, text_eq_refl t.task_id) at h))
  | inr other ↦ find-put t xs (rw (other, other) at h)
]

pub replace-ok :
    (env : Env) (t u : Task) (s s' : List Task)
    → Ran (replace env t) s u s'
    → (u ≡ t) × (s' ≡ put t s)
unfolding replace
replace-ok env t u s s' h =
    let (tasks, s₁, ran_get, h₁) = >>=-ok _ _ s s' h in
    let (same, e₁) = get_tasks-ok s s₁ tasks ran_get in
    let (_, s₂, ran_publish, h₂) = >>=-ok _ _ s₁ s' h₁ in
    let (stored, _) = publish-ok env _ s₁ s₂ ran_publish in
    let (found, e₂) = require-ok t.task_id s₂ s' h₂ in
    (find-put t tasks (rw stored at found), e₂ ∙ stored ∙ ap (put t) same)

-- The task that `claim` found, in the queue `mid` that `reconcile` left, and what it made of it.
pub record Claimed (env : Env) (now : Timestamp) (s : List Task) (t : Task) (s' : List Task)
    : Type 0 where
  pub candidate : Task
  pub mid : List Task
  pub at : ℕ
  pub due : ℕ
  pub parsed : date_parse now ≡ some at
  pub reconciled : Ran (reconcile env now) s tt mid
  pub was_there : find (is_claimable at mid) mid ≡ some candidate
  pub was_queued : candidate.status ≡ queued
  pub due_parsed : date_parse candidate.next_attempt_at ≡ some due
  pub was_due : due ≤ at
  pub unblocked :
      All
        (λ id. (d : Task) × (find (has_id id) mid ≡ some d) × (d.status ≡ completed))
        candidate.dependency_ids
  pub result : t ≡ record candidate {
    status = running;
    attempt = candidate.attempt + 1;
    run_started_at = some now;
    updated_at = now;
    last_error = none;
  }
  pub stored : s' ≡ put t mid

is_due-ms :
    (at : ℕ) (next : Timestamp)
    → is_due at next ≡ true
    → (ms : ℕ) × (date_parse next ≡ some ms) × (ms ≤ at)
unfolding is_due
is_due-ms at next h = elim (Option-cases (date_parse next)) [
  | inl bad ↦ cc (rw (is_due, bad) at h)
  | inr (ms, e) ↦ (ms, e, leb→le ms at (rw (is_due, e) at h))
]

is_completed-some :
    (o : Option Task) → is_completed o ≡ true → (d : Task) × (o ≡ some d) × (d.status ≡ completed)
unfolding is_completed
is_completed-some none h = cc
is_completed-some (some d) h = (d, refl, status_eq→≡ d.status completed h)

each_completed :
    (tasks : List Task) (ids : List Text)
    → every (λ id. is_completed (find (has_id id) tasks)) ids ≡ true
    → All (λ id. (d : Task) × (find (has_id id) tasks ≡ some d) × (d.status ≡ completed)) ids
each_completed tasks [] h = tt
each_completed tasks (id ∷ ids) h =
    let (one, rest) = &&_split _ _ h in
    (is_completed-some (find (has_id id) tasks) one, each_completed tasks ids rest)

dependencies_complete-All :
    (tasks : List Task) (t : Task)
    → dependencies_complete tasks t ≡ true
    → All
        (λ id. (d : Task) × (find (has_id id) tasks ≡ some d) × (d.status ≡ completed))
        t.dependency_ids
unfolding dependencies_complete
dependencies_complete-All tasks t h = each_completed tasks t.dependency_ids h

All-Any : (ts : List Task) → All Any ts
All-Any [] = tt
All-Any (t ∷ ts) = (tt, All-Any ts)

start-ok :
    (env : Env) (now : Timestamp) (c : Option Task) (s s' : List Task) {t : Task}
    → Ran (start env now c) s (some t) s'
    → (u : Task) × (c ≡ some u) × (t ≡ started now u) × (s' ≡ put (started now u) s)
unfolding start
start-ok env now none s s' h = absurd (none≢some (pure-ok _ _ s s' h).0)
start-ok env now (some u) s s' h =
    let (v, s₁, ran, h₁) = >>=-ok _ _ s s' h in
    let (same, put_in) = replace-ok env (started now u) v s s₁ ran in
    let (e, e₁) = pure-ok _ _ s₁ s' h₁ in (u, refl, some-injective (sym e) ∙ same, e₁ ∙ put_in)

date_parse_of_valid :
    (now : Timestamp)
    → is_valid_timestamp now ≡ true
    → date_parse now ≡ some (or_default (date_parse now) 0)
unfolding is_valid_timestamp
date_parse_of_valid now h = ground arith

-- When `claim` returns a task: it is made of the first claimable task of the queue that `reconcile`
-- left, which was queued, with a next attempt that is not after `now`, and whose dependencies are each
-- found there and completed. It is that task, running since `now` and updated at it, with one attempt
-- more and no error, and it takes that task's place in an otherwise unchanged queue.
pub claim-Claimed :
    (env : Env) (now : Timestamp) (s s' : List Task) (t : Task)
    → Ran (claim env now) s (some t) s'
    → Claimed env now s t s'
unfolding claim peek_claimable is_claimable
claim-Claimed env now s s' t h =
    let (_, s₁, ran_assert, h₁) = >>=-ok _ _ s s' h in
    let (_, e₁) = assert_timestamp-ok now s s₁ ran_assert in
    let (c, s₂, ran_peek, h₂) = >>=-ok _ _ s₁ s' h₁ in
    let (_, p₁, ran_assert₂, k₁) = >>=-ok _ _ s₁ s₂ ran_peek in
    let (valid, f₁) = assert_timestamp-ok now s₁ p₁ ran_assert₂ in
    let (_, p₂, ran_reconcile, k₂) = >>=-ok _ _ p₁ s₂ k₁ in
    let (tasks, p₃, ran_get, k₃) = >>=-ok _ _ p₂ s₂ k₂ in
    let (same, f₃) = get_tasks-ok p₂ p₃ tasks ran_get in
    let (found, f₄) = pure-ok _ _ p₃ s₂ k₃ in
    let (u, chosen, result, stored) = start-ok env now c s₂ s' h₂ in
    let there = rw (same) at found ∙ chosen in
    let test = (find-All Any (is_claimable _ p₂) p₂ (All-Any p₂) there).1 in
    let (ready, complete_deps) = &&_split _ _ test in
    let (queued_test, due_test) = &&_split _ _ ready in
    let (due, due_parsed, was_due) =
      is_due-ms (or_default (date_parse now) 0) u.next_attempt_at due_test in
    record {
      candidate = u;
      mid = p₂;
      at = or_default (date_parse now) 0;
      due = due;
      parsed = date_parse_of_valid now valid;
      reconciled = subst (λ q. Ran (reconcile env now) q tt p₂) (f₁ ∙ e₁) ran_reconcile;
      was_there = there;
      was_queued = status_eq→≡ u.status queued queued_test;
      due_parsed = due_parsed;
      was_due = was_due;
      unblocked = dependencies_complete-All p₂ u complete_deps;
      result = result;
      stored = stored ∙ ap (put (started now u)) (f₄ ∙ f₃) ∙ ap (λ x. put x p₂) (sym result);
    }
