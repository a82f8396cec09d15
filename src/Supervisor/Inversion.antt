-- ===== src/Supervisor/Inversion.antt =====
-- What a successful call of each helper of the queue tells, src/data/delivery-system/supervisorQueue.ts.
use autopilot_beta.Prelude.{
  Bool, true, false, ◌≡◌, refl, inl, inr, some, List, Text, Bool-cases, Option-cases, Result, ok,
  err, ok-injective, err≢ok, find, ap, sym, ltb,
}
use autopilot_beta.Time.{Timestamp, is_valid_timestamp}
use autopilot_beta.Supervisor.Task.{
  Task, Env, Error, M, and_then, ◌>>=◌, pure, throw, require_that, get_tasks, lift, max_state_bytes,
}
use autopilot_beta.Supervisor.Valid.{is_supervisor_state}
use autopilot_beta.Supervisor.Store.{has_id, assert_timestamp, publish, require}

abbrev pub Ran {ℓ} : {A : Type ℓ} → M A → List Task → A → List Task → Type ℓ
Ran m s a s' = m s ≡ (ok a, s')

and_then-ok {ℓ κ} :
    {A : Type ℓ} {B : Type κ} (f : A → M B) (r : Result Error A) (s s' : List Task) {b : B}
    → and_then f r s ≡ (ok b, s')
    → (a : A) × (r ≡ ok a) × Ran (f a) s b s'
and_then-ok f (ok a) s s' h = (a, refl, h)
and_then-ok f (err e) s s' h = absurd (err≢ok (ap (λ p. p.0) h))

-- A block that returned: its first call returned, and so did the rest.
pub >>=-ok {ℓ κ} :
    {A : Type ℓ} {B : Type κ} (m : M A) (f : A → M B) (s s' : List Task) {b : B}
    → Ran (m >>= f) s b s'
    → (a : A) × (t : List Task) × Ran m s a t × Ran (f a) t b s'
unfolding ◌>>=◌
>>=-ok m f s s' h =
    let (a, e, rest) = and_then-ok f (m s).0 (m s).1 s' h in (a, (m s).1, λ i. (e i, (m s).1), rest)

pub require_that-ok :
    (test : Bool) (e : Error) (s s' : List Task) {u : Unit {0}}
    → Ran (require_that test e) s u s'
    → (test ≡ true) × (s' ≡ s)
unfolding require_that pure throw
require_that-ok true e s s' h = (refl, ap (λ p. p.1) (sym h))
require_that-ok false e s s' h = absurd (err≢ok (ap (λ p. p.0) h))

pub assert_timestamp-ok :
    (now : Timestamp) (s s' : List Task) {u : Unit {0}}
    → Ran (assert_timestamp now) s u s'
    → (is_valid_timestamp now ≡ true) × (s' ≡ s)
unfolding assert_timestamp
assert_timestamp-ok now s s' h = require_that-ok _ _ s s' h

pub get_tasks-ok : (s s' ts : List Task) → Ran get_tasks s ts s' → (ts ≡ s) × (s' ≡ s)
unfolding get_tasks
get_tasks-ok s s' ts h = (ok-injective (ap (λ p. p.0) (sym h)), ap (λ p. p.1) (sym h))

pub lift-ok {ℓ} :
    {A : Type ℓ} (r : Result Error A) (s s' : List Task) {a : A}
    → Ran (lift r) s a s'
    → (r ≡ ok a) × (s' ≡ s)
unfolding lift
lift-ok r s s' h = (ap (λ p. p.0) h, ap (λ p. p.1) (sym h))

pub pure-ok {ℓ} :
    {A : Type ℓ} (a b : A) (s s' : List Task) → Ran (pure a) s b s' → (a ≡ b) × (s' ≡ s)
unfolding pure
pure-ok a b s s' h = (ok-injective (ap (λ p. p.0) h), ap (λ p. p.1) (sym h))

-- What is published is stored, and the validator accepts it.
pub publish-ok :
    (env : Env) (next s s' : List Task) {u : Unit {0}}
    → Ran (publish env next) s u s'
    → (s' ≡ next) × (is_supervisor_state env next ≡ true)
unfolding publish
publish-ok env next s s' h = elim (Bool-cases (ltb max_state_bytes (env.json_bytes next))) [
  | inl large ↦ absurd (err≢ok (ap (λ p. p.0) (rw (large, publish) at h)))
  | inr small ↦ elim (Bool-cases (is_supervisor_state env next)) [
    | inr bad ↦ absurd (err≢ok (ap (λ p. p.0) (rw (small, bad, publish) at h)))
    | inl good ↦ elim (Option-cases (env.write_failure next)) [
      | inl written ↦ (ap (λ p. p.1) (sym (rw (small, good, written, publish) at h)), good)
      | inr (m, failed_at) ↦
          absurd (err≢ok (ap (λ p. p.0) (rw (small, good, failed_at, publish) at h)))
    ]
  ]
]

pub require-ok :
    (id : Text) (s s' : List Task) {t : Task}
    → Ran (require id) s t s'
    → (find (has_id id) s ≡ some t) × (s' ≡ s)
unfolding require
require-ok id s s' h = elim (Option-cases (find (has_id id) s)) [
  | inl missing ↦ absurd (err≢ok (ap (λ p. p.0) (rw (missing, require) at h)))
  | inr (u, found) ↦
      let same = rw (found, require) at h in
      (rw found (ap some (ok-injective (ap (λ p. p.0) same))), ap (λ p. p.1) (sym same))
]
