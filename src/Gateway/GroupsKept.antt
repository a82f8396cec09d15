-- ===== src/Gateway/GroupsKept.antt =====
-- The opening of a group, src/data/delivery-system/tokenGateway.ts, keeps the gateway within its budgets.
use autopilot_beta.Prelude.{
  ℕ, ◌+◌, ◌≤◌, ◌≡◌, refl, sym, ap, ◌∙◌, subst, true, List, [], ◌∷◌, map, Text, text_eq,
  text_eq_refl, includes, if◌then◌else◌, arith, All, leb, ok, bind-ok, then-ok, length,
  ok-injective,
}
use autopilot_beta.Dict.{Dict}
use autopilot_beta.Owner.Approval.{max_safe_integer}
use autopilot_beta.Gateway.Types.{
  refused, reservation_limit, group_mismatch, Limits, SlotRequest, GroupSpec, State, max_usage_keys,
  provider_key, model_key, session_key, route_usage_keys,
}
use autopilot_beta.Gateway.Store.{used_of}
use autopilot_beta.Gateway.Groups.{
  hold_keys, hold_slots, capped_keys, has_group_room, admit_group, new_slot,
}
use autopilot_beta.Gateway.Usage.{
  Updates, hold_keys-Updates, hold_keys-capped, route_usage_keys-unique,
}
use autopilot_beta.Gateway.Within.{Budgets, HasRoom, Fits, SlotFits, Updates-Budgets}

-- What a key's usage was raised to.
raised :
    (n : ℕ) (ks : List Text) (used used' : Dict ℕ) (k : Text)
    → Updates (λ u. u + n) ks used used'
    → includes k ks ≡ true
    → used_of used k + n ≡ used_of used' k
raised n ks used used' k up h =
    sym (up k ∙ ap (λ b. if b then used_of used k + n else used_of used k) h)

raised_part : (u n v cap : ℕ) → u + n ≡ v → v ≤ cap → (u + n ≤ cap) × (n ≤ cap)
raised_part u n v cap e h = (omega arith, omega arith)

-- The keys of one slot: each is raised, and there is room for it.
pub hold_slot-Updates :
    (limits : Limits) (s : SlotRequest) (used used' : Dict ℕ)
    → hold_keys s.hold_tokens (capped_keys limits s) used ≡ ok used'
    → Updates (λ u. u + s.hold_tokens) (route_usage_keys s.route) used used'
      × HasRoom limits s.route s.hold_tokens used
      × Fits limits s.hold_tokens
unfolding includes text_eq
hold_slot-Updates limits s used used' h =
    let n = s.hold_tokens in
    let q = s.route in
    let keys = route_usage_keys q in
    let distinct = route_usage_keys-unique q in
    let up : Updates (λ u. u + n) keys used used' =
      hold_keys-Updates n (capped_keys limits s) used used' distinct h in
    let (p, (m, (z, _))) = hold_keys-capped n (capped_keys limits s) used used' distinct h in
    let ip : includes (provider_key q) keys ≡ true = rw (text_eq_refl (provider_key q)) refl in
    let im : includes (model_key q) keys ≡ true = rw (text_eq_refl (model_key q)) refl in
    let iz : includes (session_key q) keys ≡ true = rw (text_eq_refl (session_key q)) refl in
    let (p1, p2) =
      raised_part (used_of used (provider_key q)) n (used_of used' (provider_key q))
        limits.provider_budget (raised n keys used used' (provider_key q) up ip) p in
    let (m1, m2) =
      raised_part (used_of used (model_key q)) n (used_of used' (model_key q)) limits.model_budget
        (raised n keys used used' (model_key q) up im) m in
    let (z1, z2) =
      raised_part (used_of used (session_key q)) n (used_of used' (session_key q))
        limits.session_budget (raised n keys used used' (session_key q) up iz) z in
    (up, (p1, m1, z1), (p2, m2, z2))

hold_slot-Budgets :
    (limits : Limits) (s : SlotRequest) (used used' : Dict ℕ)
    → hold_keys s.hold_tokens (capped_keys limits s) used ≡ ok used'
    → Budgets limits used
    → Budgets limits used' × Fits limits s.hold_tokens
hold_slot-Budgets limits s used used' h low =
    let (up, (p, m, z), fits) = hold_slot-Updates limits s used used' h in
    (Updates-Budgets limits (λ u. u + s.hold_tokens) s.route used used' up low p m z, fits)

pub hold_slots-Budgets :
    (limits : Limits) (ss : List SlotRequest) (total : ℕ) (used : Dict ℕ) (held : ℕ × Dict ℕ)
    → hold_slots limits ss total used ≡ ok held
    → Budgets limits used
    → Budgets limits held.1 × All (SlotFits limits) (map new_slot ss)
unfolding hold_slots
hold_slots-Budgets limits [] total used held h low =
    (subst (λ (p : ℕ × Dict ℕ). Budgets limits p.1) (ok-injective h) low, tt)
hold_slots-Budgets limits (s ∷ ss) total used held h low =
    let (_, a) = then-ok (leb (total + s.hold_tokens) max_safe_integer) group_mismatch h in
    let (next, e, b) = bind-ok (hold_keys s.hold_tokens (capped_keys limits s) used) _ a in
    let (low', fits) = hold_slot-Budgets limits s used next e low in
    let (last, rest) = hold_slots-Budgets limits ss (total + s.hold_tokens) next held b low' in
    (last, (fits, rest))

pub admit_group-hold :
    (limits : Limits) (s : State) (spec : GroupSpec) (held : ℕ × Dict ℕ)
    → admit_group limits s spec ≡ ok held
    → hold_slots limits spec.slots 0 s.used ≡ ok held
unfolding admit_group
admit_group-hold limits s spec held h =
    let (_, a) = then-ok (has_group_room s spec) (refused reservation_limit) h in
    let (held', e, b) = bind-ok (hold_slots limits spec.slots 0 s.used) _ a in
    let (_, c) = then-ok (leb (length held'.1) max_usage_keys) (refused reservation_limit) b in
    e ∙ c
