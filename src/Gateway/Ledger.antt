-- ===== src/Gateway/Ledger.antt =====
-- An abstract token ledger, and that the gateway of src/data/delivery-system/tokenGateway.ts implements it.
use autopilot_beta.Prelude.{
  ℕ, ◌+◌, ◌-◌, ◌≤◌, ◌≡◌, refl, Bool, List, [], ◌∷◌, Text, includes, if◌then◌else◌, ok, bind-ok,
  then-ok, ok-injective, leb, subst, arith,
}
use autopilot_beta.Dict.{Dict}
use autopilot_beta.Owner.Approval.{max_safe_integer}
use autopilot_beta.Gateway.Types.{
  group_mismatch, Limits, Route, Reservation, SlotRequest, State, provider_key, model_key,
  session_key, route_usage_keys,
}
use autopilot_beta.Gateway.Store.{Env, used_of, raise_usage, lower_usage, held_of}
use autopilot_beta.Gateway.Reserve.{with_reservation}
use autopilot_beta.Gateway.Settle.{without_reservation}
use autopilot_beta.Gateway.Groups.{hold_keys, hold_slots, capped_keys}
use autopilot_beta.Gateway.Usage.{update_usage-Updates, route_usage_keys-unique}
use autopilot_beta.Gateway.Within.{Within, HasRoom}
use autopilot_beta.Gateway.Stable.{Stable}
use autopilot_beta.Gateway.Kept.{admit-within, within_budgets-le}
use autopilot_beta.Gateway.Ended.{Swaps, Swaps-HasRoom, settled-Swaps, released-Swaps}
use autopilot_beta.Gateway.GroupsKept.{hold_slot-Updates, admit_group-hold}
use autopilot_beta.Gateway.SlotsKept.{Within-Stable}
use autopilot_beta.Gateway.Calls.{Call, perform_all, perform_all-Both, new_gateway, empty_state}

-- What the ledger knows: the tokens counted under each key.
abbrev pub View : Type 0
View = Text → ℕ

-- The three keys of a route change, and no other.
abbrev pub Moves : (ℕ → ℕ) → Route → View → View → Type 0
Moves f q u u' = (k : Text) → u' k ≡ (if includes k (route_usage_keys q) then f (u k) else u k)

-- A ledger starts empty. Tokens are counted on a route where its three budgets have room for them, and
-- they are taken off a route.
pub data Ledger (limits : Limits) : View → Type 0 where
  opened : {u : View} → ((k : Text) → u k ≡ 0) → Ledger limits u
  counted :
      {u u' : View} (q : Route) (n : ℕ)
      → u (provider_key q) + n ≤ limits.provider_budget
      → u (model_key q) + n ≤ limits.model_budget
      → u (session_key q) + n ≤ limits.session_budget
      → Moves (λ x. x + n) q u u'
      → Ledger limits u
      → Ledger limits u'
  taken_off :
      {u u' : View} (q : Route) (n : ℕ)
      → Moves (λ x. x - n) q u u'
      → Ledger limits u
      → Ledger limits u'

raise-Ledger :
    (limits : Limits) (q : Route) (n : ℕ) (used : Dict ℕ)
    → HasRoom limits q n used
    → Ledger limits (used_of used)
    → Ledger limits (used_of (raise_usage n (route_usage_keys q) used))
raise-Ledger limits q n used (p, m, z) =
    counted q n p m z
      (update_usage-Updates (λ u. u + n) (route_usage_keys q) used (route_usage_keys-unique q))

lower-Ledger :
    (limits : Limits) (q : Route) (n : ℕ) (used : Dict ℕ)
    → Ledger limits (used_of used)
    → Ledger limits (used_of (lower_usage n (route_usage_keys q) used))
lower-Ledger limits q n used =
    taken_off q n
      (update_usage-Updates (λ u. u - n) (route_usage_keys q) used (route_usage_keys-unique q))

-- The held tokens come off, and the used ones are counted.
swap-Ledger :
    (limits : Limits) (r : Reservation) (n : ℕ) (used : Dict ℕ)
    → Swaps limits used r n
    → Ledger limits (used_of used)
    → Ledger limits (
        used_of (
          raise_usage n
            (route_usage_keys r.request.route)
            (lower_usage (held_of r) (route_usage_keys r.request.route) used)))
swap-Ledger limits r n used swaps l =
    let q = r.request.route in
    raise-Ledger limits q n (lower_usage (held_of r) (route_usage_keys q) used)
      (Swaps-HasRoom limits used r n swaps) (lower-Ledger limits q (held_of r) used l)

-- The slots of a group are counted one by one.
hold_slots-Ledger :
    (limits : Limits) (ss : List SlotRequest) (total : ℕ) (used : Dict ℕ) (held : ℕ × Dict ℕ)
    → hold_slots limits ss total used ≡ ok held
    → Ledger limits (used_of used)
    → Ledger limits (used_of held.1)
unfolding hold_slots
hold_slots-Ledger limits [] total used held h l =
    subst (λ (p : ℕ × Dict ℕ). Ledger limits (used_of p.1)) (ok-injective h) l
hold_slots-Ledger limits (s ∷ ss) total used held h l =
    let (_, a) = then-ok (leb (total + s.hold_tokens) max_safe_integer) group_mismatch h in
    let (next, e, b) = bind-ok (hold_keys s.hold_tokens (capped_keys limits s) used) _ a in
    let (up, (p, m, z), _) = hold_slot-Updates limits s used next e in
    hold_slots-Ledger limits ss (total + s.hold_tokens) next held b
      (counted s.route s.hold_tokens p m z up l)

abbrev pub Refines : Limits → State → Type 0
Refines limits s = Within limits s × Ledger limits (used_of s.used)

Refines-Stable : (env : Env) → Stable env (Refines env.limits)
unfolding with_reservation without_reservation
Refines-Stable env =
    let kept = Within-Stable env in
    record {
      placing = λ stamp r s h (w, l). (
        kept.placing stamp r s h w,
        raise-Ledger env.limits r.route (r.input_tokens + r.output_tokens) s.used
            (within_budgets-le env.limits s.used r (admit-within env.limits s r h)) l,
      );
      concluding = λ stamp id active given st s found h (w, l). (
        kept.concluding stamp id active given st s found h w,
        swap-Ledger env.limits active (st.input_tokens + st.output_tokens) s.used
            (settled-Swaps env.limits id active given st s found h w) l,
      );
      giving_back = λ stamp id active s found (w, l). (
        kept.giving_back stamp id active s found w,
        swap-Ledger env.limits active 0 s.used (released-Swaps env.limits active s w) l,
      );
      acknowledging = λ id s (w, l). (kept.acknowledging id s w, l);
      opening = λ spec held s valid fresh h (w, l). (
        kept.opening spec held s valid fresh h w,
        hold_slots-Ledger env.limits spec.slots 0 s.used held
            (admit_group-hold env.limits s spec held h) l,
      );
      claiming = λ stamp group_id slot_id g slot input s found at fits free caps (w, l).
          (kept.claiming stamp group_id slot_id g slot input s found at fits free caps w, l);
      lowering = λ slot s (w, l). (
        kept.lowering slot s w,
        lower-Ledger env.limits slot.request.route slot.request.hold_tokens s.used l,
      );
      storing = λ group_id g ss before s found same (v, _) (w, l).
          (kept.storing group_id g ss before s found same v w, l);
    }

-- The gateway implements the ledger: from an empty directory, after any sequence of calls and restarts,
-- the usage in memory and the usage on disk are those of a ledger, which changes a route's three keys
-- together, counts tokens only where the three budgets of the route have room for them, and otherwise
-- takes tokens off.
pub new_gateway-Ledger :
    (env : Env) (canonical : Text → Bool) (cs : List Call)
    → let w = perform_all env canonical cs new_gateway in
      Ledger env.limits (used_of w.state.used) × Ledger env.limits (used_of w.disk.used)
new_gateway-Ledger env canonical cs =
    let start : Refines env.limits empty_state =
      ((λ r. (ground arith, ground arith, ground arith), tt, tt), opened (λ k. refl)) in
    let (memory, disk) =
      perform_all-Both env canonical (Refines env.limits) (Refines-Stable env) cs new_gateway
        (start, start) in
    (memory.1, disk.1)
