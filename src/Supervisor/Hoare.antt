-- ===== src/Supervisor/Hoare.antt =====
-- Rules for what the methods of the queue keep: `Keeps I Q m` says that `m` keeps the invariant `I`
-- of the tasks, whether it returns or throws, and that what it returns satisfies `Q`.
use autopilot_beta.Prelude.{
  ℕ, Bool, true, false, not, ◌≡◌, refl, Option, none, some, List, [], ◌∷◌, ◌++◌, map, Text, text_eq,
  All, find, find-All, if◌then◌else◌, arith, ltb, is_some, Bool-cases, Option-cases, ◌⊎◌, inl, inr,
  Result, ok, err, subst, sym, ◌<◌,
}
use autopilot_beta.Prelude
use autopilot_beta.Time.{Timestamp, is_valid_timestamp}
use autopilot_beta.Supervisor.Task.{
  Task, Env, Error, M, ◌>>=◌, pure, throw, require_that, get_tasks, lift, invalid_timestamp,
  max_state_bytes, and_then, state_too_large, invalid_state, write_failed,
}
use autopilot_beta.Supervisor.Valid.{is_supervisor_state}
use autopilot_beta.Supervisor.Store.{has_id, assert_timestamp, publish, require, put, replace}

-- The result of a call satisfies `Q`, if there is one.
abbrev pub Returns {ℓ} : {A : Type ℓ} → (A → Type 0) → Result Error A → Type 0
Returns Q (ok a) = Q a
Returns Q (err e) = Unit

pub record Keeps {ℓ} {A : Type ℓ} (I : List Task → Type 0) (Q : A → Type 0) (m : M A) : Type ℓ where
  pub keeps : (s : List Task) → I s → I (m s).1
  pub returns : (s : List Task) → I s → Returns Q (m s).0

abbrev pub Any {ℓ} : {A : Type ℓ} → A → Type 0
Any a = Unit {0}

-- What `publish` may do: throw and change nothing, or store a state that the validator accepts.
pub publish_cases {ℓ} :
    (P : Result Error (Unit {0}) × List Task → Type ℓ) (env : Env) (next s : List Task)
    → ((e : Error) → P (err e, s))
    → (is_supervisor_state env next ≡ true → P (ok tt, next))
    → P (publish env next s)
unfolding publish
publish_cases P env next s refused stored =
    elim (Bool-cases (ltb max_state_bytes (env.json_bytes next))) [
      | inl large ↦ rw large (refused state_too_large)
      | inr small ↦ elim (Bool-cases (is_supervisor_state env next)) [
        | inr bad ↦ rw (small, bad) (refused invalid_state)
        | inl good ↦ elim (Option-cases (env.write_failure next)) [
          | inl written ↦ rw (small, good, written) (stored good)
          | inr (m, failed) ↦ rw (small, good, failed) (refused (write_failed m))
        ]
      ]
    ]

module _ (I : List Task → Type 0) where
  and_then-Keeps {ℓ κ} :
      {A : Type ℓ} {B : Type κ} (Q : A → Type 0) (R : B → Type 0) (f : A → M B)
      → ((a : A) → Q a → Keeps I R (f a))
      → (r : Result Error A) (s : List Task) → I s
      → Returns Q r
      → I (and_then f r s).1 × Returns R (and_then f r s).0
  and_then-Keeps Q R f k (ok a) s i q = ((k a q).keeps s i, (k a q).returns s i)
  and_then-Keeps Q R f k (err e) s i q = (i, tt)

  pub bind-Keeps {ℓ κ} :
      {A : Type ℓ} {B : Type κ} (Q : A → Type 0) (R : B → Type 0) (m : M A) (f : A → M B)
      → Keeps I Q m
      → ((a : A) → Q a → Keeps I R (f a))
      → Keeps I R (m >>= f)
  unfolding ◌>>=◌
  bind-Keeps Q R m f h k = record {
    keeps = λ s i. (and_then-Keeps Q R f k (m s).0 (m s).1 (h.keeps s i) (h.returns s i)).0;
    returns = λ s i. (and_then-Keeps Q R f k (m s).0 (m s).1 (h.keeps s i) (h.returns s i)).1;
  }

  pub pure-Keeps {ℓ} : {A : Type ℓ} (Q : A → Type 0) (a : A) → Q a → Keeps I Q (pure a)
  unfolding pure
  pure-Keeps Q a h = record { keeps = λ s i. i; returns = λ s i. h }

  pub throw-Keeps {ℓ} : {A : Type ℓ} (Q : A → Type 0) (e : Error) → Keeps I Q (throw e)
  unfolding throw
  throw-Keeps Q e = record { keeps = λ s i. i; returns = λ s i. tt }

  pub require_that-Keeps :
      (test : Bool) (e : Error) → Keeps I (λ _. test ≡ true) (require_that test e)
  unfolding require_that
  require_that-Keeps true e = pure-Keeps (λ _. true ≡ true) tt refl
  require_that-Keeps false e = throw-Keeps (λ _. false ≡ true) e

  pub get_tasks-Keeps : Keeps I I get_tasks
  unfolding get_tasks
  get_tasks-Keeps = record { keeps = λ s i. i; returns = λ s i. i }

  pub lift-Keeps {ℓ} :
      {A : Type ℓ} (Q : A → Type 0) (r : Result Error A) → Returns Q r → Keeps I Q (lift r)
  unfolding lift
  lift-Keeps Q r h = record { keeps = λ s i. i; returns = λ s i. h }

  pub assert_timestamp-Keeps :
      (now : Timestamp) → Keeps I (λ _. is_valid_timestamp now ≡ true) (assert_timestamp now)
  unfolding assert_timestamp
  assert_timestamp-Keeps now = require_that-Keeps (is_valid_timestamp now) invalid_timestamp

  -- Only a state that the validator accepts is published.
  pub publish-Keeps :
      (env : Env) (next : List Task)
      → (is_supervisor_state env next ≡ true → I next)
      → Keeps I Any (publish env next)
  publish-Keeps env next h = record {
    keeps = λ s i. publish_cases (λ r. I r.1) env next s (λ e. i) h;
    returns = λ s i. publish_cases (λ r. Returns Any r.0) env next s (λ e. tt) (λ g. tt);
  }

pub Returns-Any {ℓ} : {A : Type ℓ} (r : Result Error A) → Returns Any r
Returns-Any (ok a) = tt
Returns-Any (err e) = tt

pub Returns-bind {ℓ κ} :
    {A : Type ℓ} {B : Type κ} (Q : A → Type 0) (R : B → Type 0) (r : Result Error A)
    → (f : A → Result Error B) → Returns Q r
    → ((a : A) → Q a → Returns R (f a))
    → Returns R (Prelude.◌>>=◌ r f)
Returns-bind Q R (ok a) f h k = k a h
Returns-bind Q R (err e) f h k = tt

pub weaken-Keeps {ℓ} :
    {A : Type ℓ} (I : List Task → Type 0) (Q : A → Type 0) (m : M A) → Keeps I Q m → Keeps I Any m
weaken-Keeps I Q m h = record { keeps = h.keeps; returns = λ s i. Returns-Any (m s).0 }

put-All : (P : Task → Type 0) (t : Task) (s : List Task) → P t → All P s → All P (put t s)
put-All P t [] h a = tt
put-All P t (x ∷ xs) h a = elim (Bool-cases (text_eq x.task_id t.task_id)) [
  | inl same ↦ rw same (h, put-All P t xs h a.1)
  | inr other ↦ rw other (a.0, put-All P t xs h a.1)
]

-- Every task satisfies `P`, and the validator accepts the state.
abbrev pub Good : Env → (Task → Type 0) → List Task → Type 0
Good env P s = All P s × (is_supervisor_state env s ≡ true)

module _ (env : Env) (P : Task → Type 0) where
  -- `require` finds a task that satisfies what all tasks do.
  pub require-Keeps : (id : Text) → Keeps (Good env P) P (require id)
  unfolding require
  require-Keeps id = record {
    keeps = λ s i. elim (Option-cases (find (has_id id) s)) [
      | inl missing ↦ rw (missing, require) i
      | inr (t, found) ↦ rw (found, require) i
    ];
    returns = λ s i. elim (Option-cases (find (has_id id) s)) [
      | inl missing ↦ rw (missing, require) tt
      | inr (t, found) ↦ rw (found, require) (find-All P (has_id id) s i.0 found).0
    ];
  }

  pub replace-Keeps : (t : Task) → P t → Keeps (Good env P) P (replace env t)
  unfolding replace
  replace-Keeps t h =
      bind-Keeps (Good env P) (Good env P) P get_tasks _ (get_tasks-Keeps (Good env P)) λ tasks i.
        bind-Keeps (Good env P) Any P (publish env (put t tasks)) _
          (publish-Keeps (Good env P) env (put t tasks) (λ g. (put-All P t tasks h i.0, g)))
          λ _ _. require-Keeps t.task_id
