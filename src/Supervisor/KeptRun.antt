-- ===== src/Supervisor/KeptRun.antt =====
-- Every method of SupervisorQueue keeps what the updates of one task keep: the methods that change many
-- tasks or call others, and any sequence of calls, src/data/delivery-system/supervisorQueue.ts.
use autopilot_beta.Prelude.{
  ℕ, Bool, true, false, ◌≡◌, inl, inr, Option, none, some, List, [], ◌∷◌, All, Text, if◌then◌else◌,
  arith, leb, find, find-All, Bool-cases, Option-cases, Result, ok, &&_split,
}
use autopilot_beta.Time.{Timestamp}
use autopilot_beta.Supervisor.Task.{queued, running, Task, Env, Error, M, status_eq}
use autopilot_beta.Supervisor.Store.{publish}
use autopilot_beta.Supervisor.Claim.{
  give_up_or_requeue, map_tasks, is_expired, reconcile_task, reconcile, recovered_task, recover,
  is_claimable, peek_claimable, start, claim,
}
use autopilot_beta.Supervisor.Hoare.{
  Keeps, Good, Any, Returns, bind-Keeps, pure-Keeps, get_tasks-Keeps, lift-Keeps,
  assert_timestamp-Keeps, publish-Keeps, Returns-bind, weaken-Keeps,
}
use autopilot_beta.Supervisor.Update.{starts, fails, Stable}
use autopilot_beta.Supervisor.Kept.{
  status_eq→≡, Kept, then-Kept, timed-Kept, updated-Kept, requeue-Returns, running_retryable,
}

module _ (env : Env) (P : Task → Type 0) (stable : Stable env P) where
  map_tasks-Returns :
      (f : Task → Result Error Task)
      → ((t : Task) → P t → Returns P (f t))
      → (ts : List Task) → All P ts
      → Returns (All P) (map_tasks f ts)
  unfolding map_tasks
  map_tasks-Returns f k [] a = tt
  map_tasks-Returns f k (t ∷ ts) a = Returns-bind P (All P) (f t) _ (k t a.0) λ t' h.
      Returns-bind (All P) (All P) (map_tasks f ts) (λ ts'. ok (t' ∷ ts'))
        (map_tasks-Returns f k ts a.1) λ ts' h'. (h, h')

  give_up_or_requeue-Returns :
      (now : Timestamp) (last reason delta : Text) (t : Task)
      → P t
      → status_eq t.status running ≡ true
      → Returns P (give_up_or_requeue env now last reason delta t)
  unfolding give_up_or_requeue
  give_up_or_requeue-Returns now last reason delta t h r =
      elim (Bool-cases (leb t.max_attempts t.attempt)) [
        | inl used_up ↦ rw used_up (
            stable.update t _ h
              (fails last now (running_retryable env P stable t r) (ground arith)))
        | inr left ↦ rw left (
            requeue-Returns env P stable t reason now delta h (running_retryable env P stable t r)
              (ground arith))
      ]

  reconcile_task-Returns :
      (now : Timestamp) (at : ℕ) (t : Task) → P t → Returns P (reconcile_task env now at t)
  unfolding reconcile_task
  reconcile_task-Returns now at t h = elim (Bool-cases (is_expired at t)) [
    | inl expired ↦ rw expired (give_up_or_requeue-Returns now _ _ _ t h (&&_split _ _ expired).0)
    | inr current ↦ rw current h
  ]

  recovered_task-Returns : (now : Timestamp) (t : Task) → P t → Returns P (recovered_task env now t)
  unfolding recovered_task
  recovered_task-Returns now t h = elim (Bool-cases (status_eq t.status running)) [
    | inl was_running ↦ rw was_running (give_up_or_requeue-Returns now _ _ _ t h was_running)
    | inr other ↦ rw other h
  ]

  choose-Kept {ℓ} :
      {A : Type ℓ} (test : Bool) (m m' : M A)
      → Kept env P stable m
      → Kept env P stable m'
      → Kept env P stable (if test then m else m')
  choose-Kept true m m' h h' = h
  choose-Kept false m m' h h' = h'

  publish-Kept : (next : List Task) → All P next → Kept env P stable (publish env next)
  publish-Kept next a = publish-Keeps (Good env P) env next (λ g. (a, g))

  pub reconcile-Kept : (now : Timestamp) → Kept env P stable (reconcile env now)
  unfolding reconcile
  reconcile-Kept now = timed-Kept env P stable now _ λ _.
      then-Kept env P stable (Good env P) _ _ (get_tasks-Keeps (Good env P)) λ tasks i.
        then-Kept env P stable (All P) _ _
          (lift-Keeps (Good env P) (All P) _
            (map_tasks-Returns _ (reconcile_task-Returns now _) tasks i.0))
          λ changed a.
            choose-Kept _ _ _ (publish-Kept changed a) (pure-Keeps (Good env P) Any tt tt)

  pub recover-Kept : (now : Timestamp) → Kept env P stable (recover env now)
  unfolding recover
  recover-Kept now = timed-Kept env P stable now _ λ _.
      then-Kept env P stable (Good env P) _ _ (get_tasks-Keeps (Good env P)) λ tasks i.
        then-Kept env P stable (All P) _ _
          (lift-Keeps (Good env P) (All P) _
            (map_tasks-Returns _ (recovered_task-Returns now) tasks i.0))
          λ changed a.
            then-Kept env P stable Any _ _ (publish-Kept changed a)
              λ _ _. weaken-Keeps (Good env P) (Good env P) _ (get_tasks-Keeps (Good env P))

  -- A candidate for a claim.
  abbrev Chosen : Option Task → Type 0
  Chosen none = Unit
  Chosen (some t) = P t × (t.status ≡ queued)

  candidate-Chosen :
      (at : ℕ) (tasks s : List Task) → All P s → Chosen (find (is_claimable at tasks) s)
  unfolding is_claimable
  candidate-Chosen at tasks s i = elim (Option-cases (find (is_claimable at tasks) s)) [
    | inl nothing ↦ rw nothing tt
    | inr (t, found) ↦
        let (h, test) = find-All P (is_claimable at tasks) s i found in
        rw found (h, status_eq→≡ t.status queued (&&_split _ _ (&&_split _ _ test).0).0)
  ]

  peek_claimable-Chosen : (now : Timestamp) → Keeps (Good env P) Chosen (peek_claimable env now)
  unfolding peek_claimable
  peek_claimable-Chosen now =
      bind-Keeps (Good env P) _ Chosen _ _ (assert_timestamp-Keeps (Good env P) now) λ _ _.
        bind-Keeps (Good env P) Any Chosen _ _ (reconcile-Kept now) λ _ _.
          bind-Keeps (Good env P) (Good env P) Chosen _ _ (get_tasks-Keeps (Good env P))
            λ tasks i. pure-Keeps (Good env P) Chosen _ (candidate-Chosen _ tasks tasks i.0)

  start-Kept : (now : Timestamp) (c : Option Task) → Chosen c → Kept env P stable (start env now c)
  unfolding start
  start-Kept now none h = pure-Keeps (Good env P) Any none tt
  start-Kept now (some t) (h, q) =
      then-Kept env P stable Any _ _ (updated-Kept env P stable t _ h (starts now q))
        λ u _. pure-Keeps (Good env P) Any (some u) tt

  pub claim-Kept : (now : Timestamp) → Kept env P stable (claim env now)
  unfolding claim
  claim-Kept now =
      timed-Kept env P stable now _
        λ _. then-Kept env P stable Chosen _ _ (peek_claimable-Chosen now) (start-Kept now)
