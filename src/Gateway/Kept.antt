-- ===== src/Gateway/Kept.antt =====
-- A new reservation, src/data/delivery-system/tokenGateway.ts, keeps the gateway within its budgets.
use autopilot_beta.Prelude.{
  ℕ, ◌+◌, ◌≤◌, ◌≡◌, true, arith, leb, leb→le, &&_split3, ok, then-ok, guard-ok, length,
}
use autopilot_beta.Dict.{Dict, Each-insert}
use autopilot_beta.Gateway.Types.{
  reservation_limit, input_cap_exceeded, output_cap_exceeded, budget_exhausted, max_usage_keys,
  Limits, Request, Reservation, State, provider_key, model_key, session_key, route_usage_keys,
}
use autopilot_beta.Gateway.Store.{used_of}
use autopilot_beta.Gateway.Reserve.{
  has_room, new_usage_keys, admit, within_budgets, with_reservation,
}
use autopilot_beta.Gateway.Within.{ReservationFits, Within, raise-Budgets}

pub admit-within :
    (limits : Limits) (s : State) (r : Request)
    → admit limits s r ≡ ok tt
    → within_budgets limits s.used r ≡ true
unfolding admit
admit-within limits s r h =
    let room =
      leb (length s.used + new_usage_keys s.used (route_usage_keys r.route)) max_usage_keys in
    let (_, a) = then-ok (has_room s) reservation_limit h in
    let (_, b) = then-ok room reservation_limit a in
    let (_, c) = then-ok (leb r.input_tokens limits.input_cap) input_cap_exceeded b in
    let (_, d) = then-ok (leb r.output_tokens limits.output_cap) output_cap_exceeded c in
    guard-ok (within_budgets limits s.used r) budget_exhausted d

-- What the tests on the budgets say, of numbers.
pub within_budgets-le :
    (limits : Limits) (used : Dict ℕ) (r : Request)
    → within_budgets limits used r ≡ true
    → let total = r.input_tokens + r.output_tokens in
      (used_of used (provider_key r.route) + total ≤ limits.provider_budget)
      × (used_of used (model_key r.route) + total ≤ limits.model_budget)
      × (used_of used (session_key r.route) + total ≤ limits.session_budget)
within_budgets-le limits used r h =
    let total = r.input_tokens + r.output_tokens in
    let p = used_of used (provider_key r.route) + total in
    let m = used_of used (model_key r.route) + total in
    let s = used_of used (session_key r.route) + total in
    let (a, b, c) =
      &&_split3 (leb p limits.provider_budget) (leb m limits.model_budget)
        (leb s limits.session_budget) h in
    (
      leb→le p limits.provider_budget a,
      leb→le m limits.model_budget b,
      leb→le s limits.session_budget c,
    )

part_le : (a n c : ℕ) → a + n ≤ c → n ≤ c
part_le a n c h = omega arith

pub with_reservation-Within :
    (limits : Limits) (made : Reservation) (s : State)
    → (used_of s.used (provider_key made.request.route) + made.total_tokens
        ≤ limits.provider_budget)
      × (used_of s.used (model_key made.request.route) + made.total_tokens ≤ limits.model_budget)
      × (used_of s.used (session_key made.request.route) + made.total_tokens
          ≤ limits.session_budget)
    → Within limits s
    → Within limits (with_reservation made s)
unfolding with_reservation
with_reservation-Within limits made s (p, m, z) (low, held, groups) =
    let n = made.total_tokens in
    let q = made.request.route in
    (
      raise-Budgets limits n q s.used low p m z,
      Each-insert (ReservationFits limits) made.reservation_id made s.reservations held (
        part_le (used_of s.used (provider_key q)) n limits.provider_budget p,
        part_le (used_of s.used (model_key q)) n limits.model_budget m,
        part_le (used_of s.used (session_key q)) n limits.session_budget z,
      ),
      groups,
    )
