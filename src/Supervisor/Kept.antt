-- ===== src/Supervisor/Kept.antt =====
-- Every method of SupervisorQueue keeps what the updates of one task keep: the rules, and the methods
-- that look one task up, src/data/delivery-system/supervisorQueue.ts.
use autopilot_beta.Prelude.{
  ℕ, ◌<◌, ◌≤◌, Bool, true, false, ◌≡◌, refl, inl, inr, Option, some, List, [], ◌∷◌, ◌++◌, All,
  All-append, Text, arith, ltb, leb, find, find-All, Bool-cases, Option-cases, Result, ok, &&_split,
  subst,
}
use autopilot_beta.Time.{Timestamp}
use autopilot_beta.Supervisor.Task.{
  Status, running, blocked, failed, cancelled, Task, Env, EnqueueInput, Error, M, ◌>>=◌, pure,
  throw, require_that, lift, status_eq,
}
use autopilot_beta.Supervisor.Store.{
  bounded, has_id, assert_timestamp, require, replace, transition,
}
use autopilot_beta.Supervisor.Enqueue.{new_task, chosen_dependencies, enqueue, approve}
use autopilot_beta.Supervisor.Run.{
  requeued, requeue, next_attempt, failing, cancelling, fail_for_good, is_retryable, retry_task,
  retry, fail, complete, cancel,
}
use autopilot_beta.Supervisor.Hoare.{
  Keeps, Good, Any, Returns, bind-Keeps, require_that-Keeps, get_tasks-Keeps, lift-Keeps,
  assert_timestamp-Keeps, publish-Keeps, require-Keeps, replace-Keeps, Returns-Any, Returns-bind,
  weaken-Keeps,
}
use autopilot_beta.Supervisor.Update.{Update, approves, requeues, fails, completes, cancels, Stable}

pub status_eq→≡ : (a b : Status) → status_eq a b ≡ true → a ≡ b
status_eq→≡ a b h = ground arith

module _ (env : Env) (P : Task → Type 0) (stable : Stable env P) where
  abbrev pub Kept {ℓ} : {A : Type ℓ} → M A → Type ℓ
  Kept m = Keeps (Good env P) Any m

  pub then-Kept {ℓ κ} :
      {A : Type ℓ} {B : Type κ} (Q : A → Type 0) (m : M A) (f : A → M B)
      → Keeps (Good env P) Q m
      → ((a : A) → Q a → Kept (f a))
      → Kept (m >>= f)
  then-Kept Q m f = bind-Keeps (Good env P) Q Any m f

  new_keeps :
      (input : EnqueueInput) (now : Timestamp) (attempts timeout : ℕ) (deps : List Text)
      → (s : List Task) → All P s
      → All P (s ++ new_task input now attempts timeout deps ∷ [])
  new_keeps input now attempts timeout deps s i =
      All-append P s _ i (stable.fresh input now attempts timeout deps, tt)

  pub guarded-Kept {ℓ} :
      {B : Type ℓ} (test : Bool) (e : Error) (f : Unit {0} → M B)
      → ((u : Unit {0}) → test ≡ true → Kept (f u))
      → Kept (require_that test e >>= f)
  guarded-Kept test e f = then-Kept _ _ f (require_that-Keeps (Good env P) test e)

  pub timed-Kept {ℓ} :
      {B : Type ℓ} (now : Timestamp) (f : Unit {0} → M B)
      → ((u : Unit {0}) → Kept (f u))
      → Kept (assert_timestamp now >>= f)
  timed-Kept now f k = then-Kept _ _ f (assert_timestamp-Keeps (Good env P) now) (λ u _. k u)

  pub found-Kept {ℓ} :
      {B : Type ℓ} (id : Text) (f : Task → M B)
      → ((t : Task) → P t → Kept (f t))
      → Kept (require id >>= f)
  found-Kept id f = then-Kept P _ f (require-Keeps env P id)

  pub lifted-Kept {ℓ κ} :
      {A : Type ℓ} {B : Type κ} (r : Result Error A) (f : A → M B)
      → ((a : A) → Kept (f a))
      → Kept (lift r >>= f)
  lifted-Kept r f k = then-Kept Any _ f (lift-Keeps (Good env P) Any r (Returns-Any r)) (λ a _. k a)

  pub replaced-Kept : (t : Task) → P t → Kept (replace env t)
  replaced-Kept t h = weaken-Keeps (Good env P) P _ (replace-Keeps env P t h)

  pub updated-Kept : (t u : Task) → P t → Update env t u → Kept (replace env u)
  updated-Kept t u h up = replaced-Kept u (stable.update t u h up)

  pub enqueue-Kept : (input : EnqueueInput) (now : Timestamp) → Kept (enqueue env input now)
  unfolding enqueue
  enqueue-Kept input now = then-Kept (Good env P) _ _ (get_tasks-Keeps (Good env P)) λ tasks i.
      guarded-Kept _ _ _ λ _ _. guarded-Kept _ _ _ λ _ _. guarded-Kept _ _ _ λ _ _.
        guarded-Kept _ _ _ λ _ _. timed-Kept now _ λ _. lifted-Kept _ _ λ attempts.
          lifted-Kept _ _ λ timeout. guarded-Kept _ _ _ λ _ _.
            then-Kept Any _ _
              (publish-Keeps (Good env P) env _ (λ g.
                (new_keeps input now attempts timeout (chosen_dependencies input) tasks i.0, g)))
              λ _ _. weaken-Keeps (Good env P) P _ (require-Keeps env P input.task_id)

  pub approve-Kept : (id : Text) (now : Timestamp) → Kept (approve env id now)
  unfolding approve
  approve-Kept id now = timed-Kept now _ λ _. found-Kept id _ λ task h. guarded-Kept _ _ _ λ _ test.
      updated-Kept task _ h (approves now (status_eq→≡ task.status blocked (&&_split _ _ test).0))

  -- Where one method looks the same task up again, what it knows of the task still holds.
  pub Kept-at {ℓ} :
      {A : Type ℓ} (m : M A) → ((s : List Task) → Good env P s → Good env P (m s).1) → Kept m
  Kept-at m k = record { keeps = k; returns = λ s i. Returns-Any (m s).0 }

  pub found_at {ℓ} :
      {B : Type ℓ} (id : Text) (f : Task → M B) (s : List Task)
      → Good env P s
      → ((t : Task) → find (has_id id) s ≡ some t → P t → Good env P (f t s).1)
      → Good env P ((require id >>= f) s).1
  unfolding require ◌>>=◌
  found_at id f s i k = elim (Option-cases (find (has_id id) s)) [
    | inl missing ↦ rw (missing, require) i
    | inr (t, found) ↦ rw (found, require) (k t found (find-All P (has_id id) s i.0 found).0)
  ]

  pub guarded_at {ℓ} :
      {B : Type ℓ} (test : Bool) (e : Error) (f : Unit {0} → M B) (s : List Task)
      → Good env P s
      → (test ≡ true → Good env P (f tt s).1)
      → Good env P ((require_that test e >>= f) s).1
  unfolding require_that ◌>>=◌ throw pure
  guarded_at true e f s i k = k refl
  guarded_at false e f s i k = i

  transition_at :
      (id : Text) (status : Status) (now : Timestamp) (extra : Task → Task) (s : List Task)
      (t : Task)
      → Good env P s
      → find (has_id id) s ≡ some t
      → P (record (extra t) { status = status; updated_at = now })
      → Good env P (transition env id status now extra s).1
  unfolding transition
  transition_at id status now extra s t i found h = guarded_at _ _ _ s i λ _.
      found_at id _ s i λ u found' _.
        (replaced-Kept _ (
            subst (λ v. P (record (extra v) { status = status; updated_at = now }))
              (same_task found found') h)).keeps
          s i
    where
      same_task : {u : Task} → find (has_id id) s ≡ some t → find (has_id id) s ≡ some u → t ≡ u
      same_task p q = cc

  pub complete-Kept : (id : Text) (now : Timestamp) → Kept (complete env id now)
  unfolding complete transition
  complete-Kept id now =
      timed-Kept now _ λ _. found-Kept id _ λ task h. updated-Kept task _ h (completes now)

  fail_for_good_at :
      (id : Text) (reason : Text) (now : Timestamp) (s : List Task) (t : Task)
      → Good env P s
      → find (has_id id) s ≡ some t
      → P t
      → is_retryable t.status ≡ true
      → t.max_attempts ≤ t.attempt
      → Good env P (fail_for_good env id reason now s).1
  unfolding fail_for_good
  fail_for_good_at id reason now s t i found h r l =
      transition_at id failed now (failing reason) s t i found
        (stable.update t _ h (fails (bounded reason) now r l))

  pub cancel-Kept : (id reason : Text) (now : Timestamp) → Kept (cancel env id reason now)
  unfolding cancel
  cancel-Kept id reason now = Kept-at _ λ s i. found_at id _ s i λ t found h.
      guarded_at _ _ _ s i λ test.
        transition_at id cancelled now (cancelling reason) s t i found
          (stable.update t _ h (cancels (bounded reason) now (ground arith)))

  pub requeue-Returns :
      (t : Task) (reason : Text) (now : Timestamp) (delta : Text)
      → P t
      → is_retryable t.status ≡ true
      → t.attempt < t.max_attempts
      → Returns P (requeue env t reason now delta)
  unfolding requeue
  requeue-Returns t reason now delta h r l =
      Returns-bind Any P (next_attempt env now t.attempt)
        (λ next. ok (requeued env t reason now delta next))
        (Returns-Any (next_attempt env now t.attempt))
        λ next _. stable.update t _ h (requeues reason now delta next r l)

  retry_task-Kept :
      (t : Task) (reason : Text) (now : Timestamp) (delta : Option Text)
      → P t
      → is_retryable t.status ≡ true
      → t.attempt < t.max_attempts
      → Kept (retry_task env t reason now delta)
  unfolding retry_task
  retry_task-Kept t reason now delta h r l = guarded-Kept _ _ _ λ _ _.
      then-Kept P _ _ (lift-Keeps (Good env P) P _ (requeue-Returns t _ now _ h r l))
        λ next k. replaced-Kept next k

  retry_at :
      (id reason : Text) (now : Timestamp) (delta : Option Text) (s : List Task)
      → Good env P s
      → Good env P (retry env id reason now delta s).1
  unfolding retry
  retry_at id reason now delta s i = guarded_at _ _ _ s i λ _. found_at id _ s i λ t found h.
      guarded_at _ _ _ s i λ r. elim (Bool-cases (leb t.max_attempts t.attempt)) [
        | inl used_up ↦ rw used_up (fail_for_good_at id reason now s t i found h r (ground arith))
        | inr left ↦ rw left ((retry_task-Kept t reason now delta h r (ground arith)).keeps s i)
      ]

  pub retry-Kept :
      (id reason : Text) (now : Timestamp) (delta : Option Text)
      → Kept (retry env id reason now delta)
  retry-Kept id reason now delta = Kept-at _ (retry_at id reason now delta)

  pub running_retryable :
      (t : Task) → status_eq t.status running ≡ true → is_retryable t.status ≡ true
  unfolding is_retryable
  running_retryable t h = ground arith

  pub fail-Kept :
      (id reason : Text) (now : Timestamp) (delta : Option Text)
      → Kept (fail env id reason now delta)
  unfolding fail
  fail-Kept id reason now delta = Kept-at _ λ s i. guarded_at _ _ _ s i λ _.
      found_at id _ s i λ t found h. guarded_at _ _ _ s i λ r.
        elim (Bool-cases (ltb t.attempt t.max_attempts)) [
          | inl left ↦ rw left (retry_at id reason now delta s i)
          | inr used_up ↦
              rw used_up (
                fail_for_good_at id reason now s t i found h (running_retryable t r) (ground arith))
        ]
