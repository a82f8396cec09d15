-- ===== src/Gateway/Charges.antt =====
-- What a reservation costs, src/data/delivery-system/tokenGateway.ts: nothing once it is released, and
-- the tokens used once it is settled.
use autopilot_beta.Prelude.{
  ℕ, ◌+◌, ◌-◌, ◌≡◌, refl, ap, ◌∙◌, inl, inr, Bool, true, false, Option, none, some, Text,
  text_eq_refl, opt_text_eq, includes, if◌then◌else◌, arith, Bool-cases, ok,
}
use autopilot_beta.Dict.{Dict}
use autopilot_beta.Gateway.Types.{Input, Route, Reservation, normalize_request, route_usage_keys}
use autopilot_beta.Gateway.Store.{
  Env, Stamp, World, Outcome, used_of, raise_usage, lower_usage, route_eq, record_event,
}
use autopilot_beta.Gateway.Reserve.{
  admit, new_reservation, with_reservation, place, existing_reservation, reserve_request, reserve,
}
use autopilot_beta.Gateway.Usage.{update_usage-Updates, route_usage_keys-unique}
use autopilot_beta.Gateway.Saved.{record_event-Keeps, saved-state}

pub reserve-fresh :
    (env : Env) (stamp : Stamp) (input : Input) (w : World)
    → existing_reservation w.state (normalize_request input) ≡ none
    → admit env.limits w.state (normalize_request input) ≡ ok tt
    → reserve env stamp input w ≡ place env stamp (normalize_request input) w
unfolding reserve reserve_request
reserve-fresh env stamp input w fresh fits = rw (reserve, reserve_request, fresh, fits) refl

-- The state behind a reservation that is let through, whether or not it can be saved.
pub reserve-state :
    (env : Env) (stamp : Stamp) (input : Input) (w : World)
    → existing_reservation w.state (normalize_request input) ≡ none
    → admit env.limits w.state (normalize_request input) ≡ ok tt
    → (reserve env stamp input w).1.state
      ≡ with_reservation (new_reservation stamp (normalize_request input)) w.state
unfolding place
reserve-state env stamp input w fresh fits =
    let made = new_reservation stamp (normalize_request input) in
    ap (λ (o : Outcome Reservation). o.1.state) (reserve-fresh env stamp input w fresh fits)
    ∙ saved-state env (with_reservation made w.state) w (record_event env _) made
        (record_event-Keeps env _)

opt_text_eq_refl : (o : Option Text) → opt_text_eq o o ≡ true
opt_text_eq_refl none = refl
opt_text_eq_refl (some t) = text_eq_refl t

pub route_eq_refl : (r : Route) → route_eq r r ≡ true
route_eq_refl r =
    rw (text_eq_refl r.provider, opt_text_eq_refl r.model, opt_text_eq_refl r.session_id) refl

raised_then :
    (b : Bool) (u n m : ℕ)
    → ((if b then u + n else u) - (if b then n else 0)) + (if b then m else 0)
      ≡ (if b then u + m else u)
raised_then true u n m = omega arith
raised_then false u n m = omega arith

-- A reservation's tokens held, given back, and others charged.
pub swapped :
    (q : Route) (n m : ℕ) (used : Dict ℕ) (k : Text)
    → used_of
        (raise_usage m
          (route_usage_keys q)
          (lower_usage n (route_usage_keys q) (raise_usage n (route_usage_keys q) used)))
        k
      ≡ (if includes k (route_usage_keys q) then used_of used k + m else used_of used k)
swapped q n m used k =
    let keys = route_usage_keys q in
    let distinct = route_usage_keys-unique q in
    let held = raise_usage n keys used in
    let freed = lower_usage n keys held in
    let a = update_usage-Updates (λ u. u + n) keys used distinct k in
    let b = update_usage-Updates (λ u. u - n) keys held distinct k in
    let c = update_usage-Updates (λ u. u + m) keys freed distinct k in
    elim (Bool-cases (includes k keys)) [
      | inl hit ↦
          let a' : used_of held k ≡ used_of used k + n = rw hit at a in
          let b' : used_of freed k ≡ used_of held k - n = rw hit at b in
          let c' : used_of (raise_usage m keys freed) k ≡ used_of freed k + m = rw hit at c in
          rw hit (omega (arith, a', b', c'))
      | inr miss ↦ rw miss (rw miss at c ∙ rw miss at b ∙ rw miss at a)
    ]
