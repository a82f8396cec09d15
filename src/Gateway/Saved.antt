-- ===== src/Gateway/Saved.antt =====
-- The end of the methods of src/data/delivery-system/tokenGateway.ts, which save the state and record
-- what happened: what holds of the new state holds of all that they leave.
use autopilot_beta.Prelude.{
  ◌≡◌, ◌∙◌, false, none, refl, sym, subst, inl, inr, Bool-cases, Option-cases, ltb, ok, err,
}
use autopilot_beta.Gateway.Types.{State, Telemetry}
use autopilot_beta.Gateway.Store.{Env, World, Outcome, record_event, persist, finish}
use autopilot_beta.Gateway.Within.{Both}

-- What a method does behind `persist` changes neither state.
abbrev pub Keeps : (World → World) → Type 0
Keeps after = (w : World) → ((after w).state ≡ w.state) × ((after w).disk ≡ w.disk)

pub record_event-Keeps : (env : Env) (line : Telemetry) → Keeps (record_event env line)
unfolding record_event
record_event-Keeps env line w = elim (Bool-cases (env.log_fails w.log)) [
  | inl e ↦ rw e (refl, refl)
  | inr e ↦ rw e (refl, refl)
]

pub Keeps-Both :
    (P : State → Type 0) (after : World → World) (w : World)
    → Keeps after
    → Both P w
    → Both P (after w)
Keeps-Both P after w k (memory, disk) = (subst P (sym (k w).0) memory, subst P (sym (k w).1) disk)

finish-Both :
    {A : Type 0} (P : State → Type 0) (after : World → World) (a : A) (o : Outcome (Unit {0}))
    → Keeps after
    → Both P o.1
    → Both P (finish after a o).1
finish-Both P after a (ok u, w) k h = Keeps-Both P after w k h
finish-Both P after a (err e, w) k h = h

pub persist-Both :
    (P : State → Type 0) (env : Env) (s : State) (w : World)
    → P s
    → Both P w
    → Both P (persist env s w).1
unfolding persist
persist-Both P env s w h (memory, disk) = elim (Bool-cases (ltb 2097152 (env.json_bytes s))) [
  | inl e ↦ rw e (h, disk)
  | inr e ↦ elim (Option-cases (env.write_failure s)) [
    | inl fine ↦ rw (e, fine) (h, h)
    | inr (m, failed) ↦ rw (e, failed) (h, disk)
  ]
]

-- A method's end: what holds of the new state, and held before, holds of all that it leaves.
pub saved-Both :
    {A : Type 0} (P : State → Type 0) (env : Env) (s : State) (w : World) (after : World → World)
    (a : A)
    → Keeps after
    → P s
    → Both P w
    → Both P (finish after a (persist env s w)).1
saved-Both P env s w after a k h sound =
    finish-Both P after a (persist env s w) k (persist-Both P env s w h sound)

finish-state :
    {A : Type 0} (after : World → World) (a : A) (o : Outcome (Unit {0}))
    → Keeps after
    → (finish after a o).1.state ≡ o.1.state
finish-state after a (ok u, w) k = (k w).0
finish-state after a (err e, w) k = refl

persist-state : (env : Env) (s : State) (w : World) → (persist env s w).1.state ≡ s
unfolding persist
persist-state env s w = elim (Bool-cases (ltb 2097152 (env.json_bytes s))) [
  | inl e ↦ rw e refl
  | inr e ↦ elim (Option-cases (env.write_failure s)) [
    | inl fine ↦ rw (e, fine) refl
    | inr (m, failed) ↦ rw (e, failed) refl
  ]
]

-- The state in memory is the new one, even where it cannot be saved.
pub saved-state :
    {A : Type 0} (env : Env) (s : State) (w : World) (after : World → World) (a : A)
    → Keeps after
    → (finish after a (persist env s w)).1.state ≡ s
saved-state env s w after a k = finish-state after a (persist env s w) k ∙ persist-state env s w

-- A method's end where the state can be saved.
pub saved-ok :
    {A : Type 0} (env : Env) (s : State) (w : World) (after : World → World) (a : A)
    → ltb 2097152 (env.json_bytes s) ≡ false
    → env.write_failure s ≡ none
    → (finish after a (persist env s w)).0 ≡ ok a
unfolding persist
saved-ok env s w after a small writes = rw (small, writes) refl
