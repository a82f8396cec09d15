-- ===== src/Gateway/Twice.antt =====
-- A claim for a handoff that has a reservation in flight, src/data/delivery-system/tokenGateway.ts.
use autopilot_beta.Prelude.{
  ◌≡◌, refl, ap, ◌∙◌, subst, inl, inr, Bool, true, false, ◌&&◌, ◌||◌, none, some, List, [], ◌∷◌,
  ◌++◌, Text, text_eq, text_eq_refl, text_eq→≡, includes, unique, Bool-cases, Option-cases, find,
  ok, ltb, arith,
}
use autopilot_beta.Dict.{Dict, lookup, insert, values}
use autopilot_beta.Gateway.Types.{
  Input, Reservation, Slot, Group, State, max_state_bytes, normalize_request,
}
use autopilot_beta.Gateway.Store.{Env, Stamp, World, Outcome, persist}
use autopilot_beta.Gateway.Groups.{
  has_slot_id, fits_slot, slot_reservation, with_claim, admit_claim, take_slot, claim_slot,
  find_slot, claim_group_slot,
}
use autopilot_beta.Gateway.Coherent.{
  handoffs, within_counts, valid_entries, linked, coherent_usage, is_gateway_state, load,
}

-- A claim that passes the tests, of a slot without a reservation, where the state can be saved: the
-- state of the slot is not among the tests.
claimed :
    (env : Env) (stamp : Stamp) (group_id slot_id : Text) (g : Group) (s : Slot) (input : Input)
    (w : World)
    → lookup group_id w.state.groups ≡ some g
    → find (has_slot_id slot_id) g.slots ≡ some s
    → fits_slot input (normalize_request input) s ≡ true
    → s.reservation ≡ none
    → admit_claim env.limits (normalize_request input) ≡ ok tt
    → ltb max_state_bytes (
        env.json_bytes (
          with_claim group_id g s
            (slot_reservation stamp group_id s (normalize_request input))
            w.state))
      ≡ false
    → env.write_failure (
        with_claim group_id g s
          (slot_reservation stamp group_id s (normalize_request input))
          w.state)
      ≡ none
    → let made = slot_reservation stamp group_id s (normalize_request input) in
      let s' = with_claim group_id g s made w.state in
      claim_group_slot env stamp group_id slot_id input w
      ≡ (ok made, record w { state = s'; disk = s' })
unfolding claim_group_slot claim_slot take_slot persist
claimed env stamp group_id slot_id g s input w found at same free caps small writes =
    rw
      (
        claim_group_slot, found, find_slot, at, claim_slot, same, free, take_slot, caps, persist,
        small, writes,
      )
      refl

handoffs-insert :
    (id h : Text) (made : Reservation) (rs : Dict Reservation)
    → made.request.handoff_id ≡ some h
    → lookup id rs ≡ none
    → handoffs (values (insert id made rs)) ≡ handoffs (values rs) ++ h ∷ []
handoffs-insert id h made [] named fresh = rw named refl
handoffs-insert id h made (e ∷ rs) named fresh = elim (Bool-cases (text_eq e.0 id)) [
  | inl same ↦ let bad : some e.1 ≡ none = rw same at fresh in cc
  | inr other ↦
      let rest = handoffs-insert id h made rs named (rw other at fresh) in
      elim (Option-cases e.1.request.handoff_id) [
        | inl unnamed ↦ rw (other, unnamed) rest
        | inr (k, e') ↦ rw (other, e') (ap (λ (ts : List Text). k ∷ ts) rest)
      ]
]

includes-append :
    (h : Text) (xs ys : List Text) → includes h (xs ++ ys) ≡ includes h xs || includes h ys
unfolding includes
includes-append h [] ys = refl
includes-append h (x ∷ xs) ys = ground (arith, includes-append h xs ys)

unique-twice : (h : Text) (xs : List Text) → includes h xs ≡ true → unique (xs ++ h ∷ []) ≡ false
unfolding includes unique
unique-twice h [] e = cc
unique-twice h (x ∷ xs) e = elim (Bool-cases (text_eq x h)) [
  | inl same ↦
      let back : text_eq h x ≡ true =
        subst (λ (t : Text). text_eq t x ≡ true) (text_eq→≡ x h same) (text_eq_refl x) in
      let seen = includes-append x xs (h ∷ []) in ground (arith, seen, back)
  | inr other ↦ ground (arith, unique-twice h xs)
]

all_false : (a b c d : Bool) → c ≡ false → (a && b && c && d) ≡ false
all_false a b c d h = ground arith

-- A state with two reservations for one handoff is none.
refused_twice :
    (canonical : Text → Bool) (s : State)
    → unique (handoffs (values s.reservations)) ≡ false
    → is_gateway_state canonical s ≡ false
unfolding is_gateway_state
refused_twice canonical s h =
    let unlinked : linked s ≡ false = rw h refl in
    all_false (within_counts s) (valid_entries canonical s) (linked s)
      (coherent_usage s.used (values s.reservations) (values s.groups)) unlinked

-- A claim that passes the tests, of a slot without a reservation, under a new id, where the state can
-- be saved, for a handoff that already has a reservation in flight: it is granted, and the state that it
-- saves is refused by the next process that reads it.
pub claim_group_slot-load :
    (env : Env) (canonical : Text → Bool) (stamp : Stamp) (group_id slot_id h : Text) (g : Group)
    (s : Slot) (input : Input) (w : World)
    → lookup group_id w.state.groups ≡ some g
    → find (has_slot_id slot_id) g.slots ≡ some s
    → fits_slot input (normalize_request input) s ≡ true
    → s.reservation ≡ none
    → admit_claim env.limits (normalize_request input) ≡ ok tt
    → ltb max_state_bytes (
        env.json_bytes (
          with_claim group_id g s
            (slot_reservation stamp group_id s (normalize_request input))
            w.state))
      ≡ false
    → env.write_failure (
        with_claim group_id g s
          (slot_reservation stamp group_id s (normalize_request input))
          w.state)
      ≡ none
    → lookup stamp.id w.state.reservations ≡ none
    → (normalize_request input).handoff_id ≡ some h
    → includes h (handoffs (values w.state.reservations)) ≡ true
    → let after = claim_group_slot env stamp group_id slot_id input w in
      (after.0 ≡ ok (slot_reservation stamp group_id s (normalize_request input)))
      × (load canonical after.1 ≡ none)
unfolding load
claim_group_slot-load env canonical stamp group_id slot_id h g s input w found at same free caps
      small writes fresh named twice =
    let made = slot_reservation stamp group_id s (normalize_request input) in
    let run = claimed env stamp group_id slot_id g s input w found at same free caps small writes in
    let s' = with_claim group_id g s made w.state in
    let doubled : unique (handoffs (values s'.reservations)) ≡ false =
      ap unique (handoffs-insert stamp.id h made w.state.reservations named fresh)
      ∙ unique-twice h (handoffs (values w.state.reservations)) twice in
    let wrong = refused_twice canonical s' doubled in
    let refusal : load canonical (record w { state = s'; disk = s' }) ≡ none =
      rw (load, wrong) refl in
    (
      ap (λ (o : Outcome Reservation). o.0) run,
      ap (λ (o : Outcome Reservation). load canonical o.1) run ∙ refusal,
    )
