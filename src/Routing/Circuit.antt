-- ===== src/Routing/Circuit.antt =====
-- The circuit breakers of the tiers and the tests on routes, src/data/delivery-system/routingGuards.ts.
use autopilot_beta.Prelude.{
  ℕ, ◌+◌, max, Bool, true, false, not, ◌&&◌, ◌||◌, Option, none, some, List, [], ◌∷◌, ◌++◌, map,
  Text, text_eq, includes, find, any, length, leb, ltb, ◌==◌, or_default, is_empty, if◌then◌else◌,
  Result, ok, ◌>>=◌, ◌>>◌, guard, or_throw, map_ok,
}
use autopilot_beta.Time.{Timestamp, date_parse, to_iso}
use autopilot_beta.Routing.Budget.{Provider, provider_eq, is_exhausted, Tier, Budget}

-- CliWorkerFailureSignal of cliWorker.ts.
pub data FailureSignal : Type 0 where
  timeout auth_error provider_executable_missing provider_runtime_denied : FailureSignal
  empty_output invalid_json non_zero_exit : FailureSignal

abbrev pub signal_eq : FailureSignal → FailureSignal → Bool
signal_eq timeout timeout = true
signal_eq auth_error auth_error = true
signal_eq provider_executable_missing provider_executable_missing = true
signal_eq provider_runtime_denied provider_runtime_denied = true
signal_eq empty_output empty_output = true
signal_eq invalid_json invalid_json = true
signal_eq non_zero_exit non_zero_exit = true
signal_eq _ _ = false

-- TierFailureSignalRecord
pub record Signal : Type 0 where
  pub provider : Provider
  pub tier_id : Option Text
  pub failure_signal : FailureSignal
  pub recorded_at : Timestamp

pub record Thresholds : Type 0 where
  pub failure_threshold : ℕ
  pub window_ms : ℕ
  pub cooldown_ms : ℕ
  pub failure_signals : Option (List FailureSignal)

-- TierCircuitState; the status is whether it is open.
pub record CircuitState : Type 0 where
  pub provider : Provider
  pub tier_id : Option Text
  pub is_open : Bool
  pub failure_count : ℕ
  pub cooldown_until : Option Timestamp

pub data RoutingError : Type 0 where
  invalid_threshold invalid_time now_required range_error : RoutingError

abbrev pub circuit_breaker_failure_signals : List FailureSignal
circuit_breaker_failure_signals =
    empty_output ∷ invalid_json ∷ auth_error ∷ FailureSignal.timeout ∷ []

abbrev pub default_thresholds : Thresholds
default_thresholds = record {
  failure_threshold = 3;
  window_ms = 600000;
  cooldown_ms = 900000;
  failure_signals = some circuit_breaker_failure_signals;
}

-- The key of a circuit: the source joins the provider and the tier id, or the empty text, by a NUL.
-- No provider's name holds a NUL, so two keys are the same exactly if both parts are.
abbrev pub Key : Type 0
Key = Provider × Text

abbrev pub key_eq : Key → Key → Bool
key_eq (p, t) (q, u) = provider_eq p q && text_eq t u

abbrev pub circuit_key : Signal → Key
circuit_key s = (s.provider, or_default s.tier_id [])

-- `key.split("\u0000")[1]`: the tier id up to its first NUL.
unfoldable pub before_nul : Text → Text
before_nul [] = []
before_nul (c ∷ t) = if c == 0 then [] else c ∷ before_nul t

-- The tier id of a key, where the empty one is undefined.
unfoldable pub parse_tier : Text → Option Text
unfolding before_nul
parse_tier t = if is_empty (before_nul t) then none else some (before_nul t)

-- Whether a signal counts at `now`: its kind is counted and it was recorded within the window.
unfoldable pub is_counted : Thresholds → ℕ → Signal → Bool
unfolding date_parse
is_counted thresholds now s =
    any (signal_eq s.failure_signal)
      (or_default thresholds.failure_signals circuit_breaker_failure_signals)
    && elim (date_parse s.recorded_at) [
      | none ↦ false
      | some ms ↦ leb ms now && leb now (ms + thresholds.window_ms)
    ]

abbrev pub Groups : Type 0
Groups = List (Key × List Signal)

abbrev pub has_key : Key → Key × List Signal → Bool
has_key k (k', _) = key_eq k k'

abbrev pub push_to : Key → Signal → Key × List Signal → Key × List Signal
push_to k s (k', bucket) = if key_eq k k' then (k', bucket ++ s ∷ []) else (k', bucket)

-- The signal at the end of its bucket, a new one where the map has no such key.
unfoldable pub push_signal : Groups → Signal → Groups
push_signal groups s =
    let k = circuit_key s in
    if any (has_key k) groups then map (push_to k s) groups else groups ++ (k, s ∷ []) ∷ []

-- The loop over the signals.
unfoldable pub group_signals : Thresholds → ℕ → Groups → List Signal → Groups
unfolding push_signal is_counted
group_signals thresholds now groups [] = groups
group_signals thresholds now groups (s ∷ ss) =
    if is_counted thresholds now s
    then group_signals thresholds now (push_signal groups s) ss
    else group_signals thresholds now groups ss

-- `Math.max` over the times of a bucket
unfoldable pub latest : List Signal → ℕ
unfolding date_parse
latest [] = 0
latest (s ∷ ss) = max (or_default (date_parse s.recorded_at) 0) (latest ss)

unfoldable pub opens : Thresholds → ℕ → List Signal → Bool
unfolding latest
opens thresholds now signals =
    leb thresholds.failure_threshold (length signals)
    && ltb now (latest signals + thresholds.cooldown_ms)

-- The time until which an open circuit cools down.
unfoldable pub cooldown_of : Thresholds → ℕ → List Signal → Result RoutingError (Option Timestamp)
unfolding latest to_iso opens
cooldown_of thresholds now signals =
    if opens thresholds now signals
    then or_throw (to_iso (latest signals + thresholds.cooldown_ms)) range_error
      >>= (λ t. ok (some t))
    else ok none

unfoldable pub circuit_state : Thresholds → ℕ → Key × List Signal → Result RoutingError CircuitState
unfolding cooldown_of parse_tier opens
circuit_state thresholds now ((provider, tier), signals) =
    cooldown_of thresholds now signals >>= (λ until. ok (record {
      provider = provider;
      tier_id = parse_tier tier;
      is_open = opens thresholds now signals;
      failure_count = length signals;
      cooldown_until = until;
    }))

-- `.sort(compareCircuitStates)`: a stable sort, which is given its comparison, since that is the
-- host's `localeCompare`. `insert` puts a state before the first one that is not before it.
abbrev pub StateOrder : Type 0
StateOrder = CircuitState → CircuitState → Bool

unfoldable pub insert_state : StateOrder → CircuitState → List CircuitState → List CircuitState
insert_state le s [] = s ∷ []
insert_state le s (t ∷ ts) = if le s t then s ∷ t ∷ ts else t ∷ insert_state le s ts

unfoldable pub sort_states : StateOrder → List CircuitState → List CircuitState
unfolding insert_state
sort_states le [] = []
sort_states le (s ∷ ss) = insert_state le s (sort_states le ss)

unfoldable pub validate_thresholds : Thresholds → Result RoutingError (Unit {0})
validate_thresholds t =
    guard (ltb 0 t.failure_threshold && ltb 0 t.window_ms && ltb 0 t.cooldown_ms) invalid_threshold

unfoldable pub compute_tier_circuit_state :
    StateOrder → List Signal → Thresholds → Timestamp → Result RoutingError (List CircuitState)
unfolding validate_thresholds date_parse group_signals circuit_state sort_states
compute_tier_circuit_state le signals thresholds now = do
  validate_thresholds thresholds
  at ← or_throw (date_parse now) invalid_time
  states ← map_ok (circuit_state thresholds at) (group_signals thresholds at [] signals)
  ok (sort_states le states)

-- `a === undefined || b === undefined || a === b`
abbrev pub may_be_same : Option Text → Option Text → Bool
may_be_same none b = true
may_be_same (some a) none = true
may_be_same (some a) (some b) = text_eq a b

abbrev pub blocks : Provider → Option Text → CircuitState → Bool
blocks p tier s = s.is_open && provider_eq s.provider p && may_be_same s.tier_id tier

unfoldable pub is_tier_circuit_open : List CircuitState → Provider → Option Text → Bool
is_tier_circuit_open states p tier = any (blocks p tier) states

-- Where a step leads.
pub data Target : Type 0 where
  to_provider : Provider → Target
  owner_decision to_blocked : Target

unfoldable pub is_self_fallback_route : Provider → Option Text → Target → Option Text → Bool
is_self_fallback_route p tier (to_provider q) to_tier = provider_eq p q && may_be_same tier to_tier
is_self_fallback_route p tier _ to_tier = false

unfoldable pub is_active_tier_explicitly_unverified : Budget → Bool
is_active_tier_explicitly_unverified b = elim b.active_tier_id [
  | none ↦ false
  | some id ↦ any (λ (t : Tier). text_eq t.tier_id id && not t.verified_locally) b.available_tiers
]

abbrev pub is_verified_tier : Text → Tier → Bool
is_verified_tier id t = text_eq t.tier_id id && t.verified_locally

abbrev pub budget_of : Provider → List Budget → Option Budget
budget_of p = find (λ b. provider_eq b.provider p)

unfoldable pub is_fallback_tier_locally_confirmed : Target → Option Text → List Budget → Bool
is_fallback_tier_locally_confirmed (to_provider p) (some id) budgets = elim (budget_of p budgets) [
  | none ↦ false
  | some b ↦ any (is_verified_tier id) b.available_tiers
]
is_fallback_tier_locally_confirmed _ _ budgets = true

abbrev pub tier_exhausted : Option Tier → Bool
tier_exhausted none = false
tier_exhausted (some t) = is_exhausted t.rate_limit_state

unfoldable pub is_verified_tier_exhausted_or_open : Budget → Text → List CircuitState → Bool
unfolding is_tier_circuit_open includes
is_verified_tier_exhausted_or_open b id states =
    includes id b.exhausted_tier_ids
    || tier_exhausted (find (λ t. text_eq t.tier_id id) b.available_tiers)
    || is_tier_circuit_open states b.provider (some id)
