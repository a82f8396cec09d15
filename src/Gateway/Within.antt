-- ===== src/Gateway/Within.antt =====
-- What the gateway of src/data/delivery-system/tokenGateway.ts never exceeds: the budgets, by the usage
-- that it counts and by what it holds for one reservation or slot.
use autopilot_beta.Prelude.{
  ℕ, ◌+◌, ◌-◌, ◌≤◌, ◌≡◌, refl, sym, ap, ◌∙◌, subst, inl, inr, Bool, true, false, ◌||◌, Text,
  text_eq, text_eq→≡, text_eq_refl, includes, if◌then◌else◌, arith, Bool-cases, All,
}
use autopilot_beta.Dict.{Dict, Each}
use autopilot_beta.Gateway.Types.{
  Limits, Route, Reservation, Slot, Group, State, provider_key, model_key, session_key,
  route_usage_keys,
}
use autopilot_beta.Gateway.Store.{World, used_of, update_usage, raise_usage, lower_usage}
use autopilot_beta.Gateway.Usage.{Updates, update_usage-Updates, route_usage_keys-unique}

-- The usage of every route stays within the three budgets.
abbrev pub Budgets : Limits → Dict ℕ → Type 0
Budgets limits used =
    (r : Route)
    → (used_of used (provider_key r) ≤ limits.provider_budget)
      × (used_of used (model_key r) ≤ limits.model_budget)
      × (used_of used (session_key r) ≤ limits.session_budget)

-- The three budgets have room for more tokens on a route.
abbrev pub HasRoom : Limits → Route → ℕ → Dict ℕ → Type 0
HasRoom limits q n used =
    (used_of used (provider_key q) + n ≤ limits.provider_budget)
    × (used_of used (model_key q) + n ≤ limits.model_budget)
    × (used_of used (session_key q) + n ≤ limits.session_budget)

abbrev pub Fits : Limits → ℕ → Type 0
Fits limits n =
    (n ≤ limits.provider_budget) × (n ≤ limits.model_budget) × (n ≤ limits.session_budget)

abbrev pub SlotFits : Limits → Slot → Type 0
SlotFits limits s = Fits limits s.request.hold_tokens

abbrev pub GroupFits : Limits → Group → Type 0
GroupFits limits g = All (SlotFits limits) g.slots

abbrev pub ReservationFits : Limits → Reservation → Type 0
ReservationFits limits r = Fits limits r.total_tokens

abbrev pub Within : Limits → State → Type 0
Within limits s =
    Budgets limits s.used
    × Each (ReservationFits limits) s.reservations
    × Each (GroupFits limits) s.groups

-- Both the state in memory and the one on disk.
abbrev pub Both : (State → Type 0) → World → Type 0
Both P w = P w.state × P w.disk

abbrev pub Sound : Limits → World → Type 0
Sound limits = Both (Within limits)

-- One key's usage, behind a change of the key `k`.
changed_le :
    (f : ℕ → ℕ) (used used' : Dict ℕ) (k j : Text) (cap : ℕ)
    → used_of used' j ≡ (if text_eq k j then f (used_of used j) else used_of used j)
    → used_of used j ≤ cap
    → f (used_of used k) ≤ cap
    → used_of used' j ≤ cap
changed_le f used used' k j cap e low new = elim (Bool-cases (text_eq k j)) [
  | inl hit ↦
      subst (λ (m : ℕ). m ≤ cap) (sym (rw hit at e))
        (subst (λ (x : Text). f (used_of used x) ≤ cap) (text_eq→≡ k j hit) new)
  | inr miss ↦ subst (λ (m : ℕ). m ≤ cap) (sym (rw miss at e)) low
]

or-false : (b : Bool) → (b || false) ≡ b
or-false true = refl
or-false false = refl

pub Updates-Budgets :
    (limits : Limits) (f : ℕ → ℕ) (q : Route) (used used' : Dict ℕ)
    → Updates f (route_usage_keys q) used used'
    → Budgets limits used
    → f (used_of used (provider_key q)) ≤ limits.provider_budget
    → f (used_of used (model_key q)) ≤ limits.model_budget
    → f (used_of used (session_key q)) ≤ limits.session_budget
    → Budgets limits used'
unfolding includes text_eq
Updates-Budgets limits f q used used' up low p m s r = (
  changed_le f used used' (provider_key q) (provider_key r) limits.provider_budget
      (up (provider_key r)
        ∙ ap (λ b. if b then f (used_of used (provider_key r)) else used_of used (provider_key r))
            (or-false (text_eq (provider_key q) (provider_key r))))
      (low r).0 p,
  changed_le f used used' (model_key q) (model_key r) limits.model_budget
      (up (model_key r)
        ∙ ap (λ b. if b then f (used_of used (model_key r)) else used_of used (model_key r))
            (or-false (text_eq (model_key q) (model_key r))))
      (low r).1 m,
  changed_le f used used' (session_key q) (session_key r) limits.session_budget
      (up (session_key r)
        ∙ ap (λ b. if b then f (used_of used (session_key r)) else used_of used (session_key r))
            (or-false (text_eq (session_key q) (session_key r))))
      (low r).2 s,
)

-- A reservation that fits, and that the usage has room for.
pub raise-Budgets :
    (limits : Limits) (n : ℕ) (q : Route) (used : Dict ℕ)
    → Budgets limits used
    → used_of used (provider_key q) + n ≤ limits.provider_budget
    → used_of used (model_key q) + n ≤ limits.model_budget
    → used_of used (session_key q) + n ≤ limits.session_budget
    → Budgets limits (raise_usage n (route_usage_keys q) used)
raise-Budgets limits n q used low =
    Updates-Budgets limits (λ u. u + n) q used (raise_usage n (route_usage_keys q) used)
      (update_usage-Updates (λ u. u + n) (route_usage_keys q) used (route_usage_keys-unique q)) low

minus_le : (a b c : ℕ) → a ≤ c → a - b ≤ c
minus_le a b c h = omega arith

pub lower-Budgets :
    (limits : Limits) (n : ℕ) (q : Route) (used : Dict ℕ)
    → Budgets limits used
    → Budgets limits (lower_usage n (route_usage_keys q) used)
lower-Budgets limits n q used low =
    let (p, m, s) = low q in
    Updates-Budgets limits (λ u. u - n) q used (lower_usage n (route_usage_keys q) used)
      (update_usage-Updates (λ u. u - n) (route_usage_keys q) used (route_usage_keys-unique q)) low
      (minus_le (used_of used (provider_key q)) n limits.provider_budget p)
      (minus_le (used_of used (model_key q)) n limits.model_budget m)
      (minus_le (used_of used (session_key q)) n limits.session_budget s)

-- The three usages of a route behind a change of the usage.
pub Updates-route :
    (f : ℕ → ℕ) (q : Route) (used : Dict ℕ)
    → let used' = update_usage f (route_usage_keys q) used in
      (used_of used' (provider_key q) ≡ f (used_of used (provider_key q)))
      × (used_of used' (model_key q) ≡ f (used_of used (model_key q)))
      × (used_of used' (session_key q) ≡ f (used_of used (session_key q)))
unfolding includes text_eq
Updates-route f q used =
    let up = update_usage-Updates f (route_usage_keys q) used (route_usage_keys-unique q) in
    let p : includes (provider_key q) (route_usage_keys q) ≡ true =
      rw (text_eq_refl (provider_key q)) refl in
    let m : includes (model_key q) (route_usage_keys q) ≡ true =
      rw (text_eq_refl (model_key q)) refl in
    let s : includes (session_key q) (route_usage_keys q) ≡ true =
      rw (text_eq_refl (session_key q)) refl in
    (
      up (provider_key q)
          ∙ ap (λ b. if b then f (used_of used (provider_key q)) else used_of used (provider_key q))
              (p),
      up (model_key q)
          ∙ ap (λ b. if b then f (used_of used (model_key q)) else used_of used (model_key q)) (m),
      up (session_key q)
          ∙ ap (λ b. if b then f (used_of used (session_key q)) else used_of used (session_key q))
              (s),
    )
