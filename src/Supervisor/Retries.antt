-- ===== src/Supervisor/Retries.antt =====
-- The delay before a retry, and how `fail` decides between a retry and the end,
-- src/data/delivery-system/supervisorQueue.ts.
use autopilot_beta.Prelude.{ℕ, suc, ◌-◌, ◌*◌, ◌^◌, ◌≤◌, min, ◌≡◌, arith, ap, ◌∙◌}
use native.Mathlib.Nat.{pow-suc, mul_comm}
use autopilot_beta.Supervisor.Task.{Env}
use autopilot_beta.Supervisor.Run.{retry_delay}

pow_double : (n : ℕ) → 2 ^ suc n ≡ 2 * 2 ^ n
pow_double n = pow-suc 2 n ∙ mul_comm (2 ^ n) 2

-- The first delay is the base delay; each further one doubles the last; none exceeds the maximum.
pub retry_delay_backoff :
    (env : Env) (n : ℕ)
    → (retry_delay env 1 ≡ min env.max_retry_delay env.base_retry_delay)
      × (retry_delay env (suc (suc n)) ≡ min env.max_retry_delay (2 * retry_delay env (suc n)))
      × (retry_delay env n ≤ env.max_retry_delay)
unfolding retry_delay
retry_delay_backoff env n =
    let earlier : suc (suc n) - 1 ≡ suc n = omega arith in
    let first : suc n - 1 ≡ n = omega arith in
    let double = ap (λ (p : ℕ). env.base_retry_delay * p) (pow_double n) in
    (omega arith, rw (earlier, first) (omega (arith, double)), omega arith)
