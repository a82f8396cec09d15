-- ===== src/Owner/Envelope.antt =====
-- The sums of a brainstorm's tokens, src/data/delivery-system/brainstormBudget.ts.
use autopilot_beta.Prelude.{
  ℕ, ◌+◌, ◌≤◌, ◌≡◌, refl, sym, ◌∙◌, ◌↔◌, inl, inr, true, List, [], ◌∷◌, leb, leb→le, le→leb, ap,
  arith, ok, ◌>>=◌, guard, bind-ok, guard-ok, ok-injective, err≢ok, Bool-cases,
}
use autopilot_beta.Owner.Approval.{max_safe_integer}
use autopilot_beta.Owner.Brainstorm.{
  Envelope, invalid_brainstorm_token_budget, safe_token_sum, sum_from, counts_accepted,
  estimate_brainstorm_token_envelope,
}

abbrev pub sum : List ℕ → ℕ
sum [] = 0
sum (n ∷ ns) = n + sum ns

-- The envelope that the sums give.
abbrev pub envelope_of : List ℕ → ℕ → ℕ → Envelope
envelope_of routes consolidation arbitration = record {
  fanout_tokens = sum routes;
  consolidation_tokens = consolidation;
  optional_arbitration_tokens = arbitration;
  minimum_tokens = sum routes + consolidation;
  maximum_tokens = sum routes + consolidation + arbitration;
}

safe_token_sum-ok :
    (l r t : ℕ) → safe_token_sum l r ≡ ok t → (l + r ≤ max_safe_integer) × (t ≡ l + r)
unfolding safe_token_sum
safe_token_sum-ok l r t h = elim (Bool-cases (leb (l + r) max_safe_integer)) [
  | inl small ↦ (leb→le (l + r) max_safe_integer small, sym (ok-injective (rw small at h)))
  | inr large ↦ absurd (err≢ok (rw large at h))
]

safe_token_sum-small : (l r : ℕ) → l + r ≤ max_safe_integer → safe_token_sum l r ≡ ok (l + r)
unfolding safe_token_sum
safe_token_sum-small l r small = rw (le→leb (l + r) max_safe_integer small) refl

sum_from-ok : (s : ℕ) (ns : List ℕ) (t : ℕ) → sum_from s ns ≡ ok t → t ≡ s + sum ns
unfolding sum_from
sum_from-ok s [] t h = let e : s ≡ t = ok-injective h in omega (arith, e)
sum_from-ok s (n ∷ ns) t h =
    let (u, first, rest) = bind-ok (safe_token_sum s n) (λ u. sum_from u ns) h in
    let e = (safe_token_sum-ok s n u first).1 in
    let e' = sum_from-ok u ns t rest in omega (arith, e, e')

sum_from-small :
    (s : ℕ) (ns : List ℕ) → s + sum ns ≤ max_safe_integer → sum_from s ns ≡ ok (s + sum ns)
unfolding sum_from
sum_from-small s [] small = ap ok (omega arith)
sum_from-small s (n ∷ ns) small =
    rw (safe_token_sum-small s n (omega (arith, small)), ◌>>=◌)
      (sum_from-small (s + n) ns (omega (arith, small)) ∙ ap ok (omega arith))

sum_from-zero : (ns : List ℕ) → sum ns ≤ max_safe_integer → sum_from 0 ns ≡ ok (sum ns)
sum_from-zero ns small = sum_from-small 0 ns (omega (arith, small)) ∙ ap ok (omega arith)

-- An envelope is given exactly if the counts are accepted and their total is a safe integer; it is
-- then the sum of the routes, with the consolidation, and with the arbitration on top.
pub estimate_brainstorm_token_envelope_iff :
    (routes : List ℕ) (c a : ℕ) (e : Envelope)
    → (estimate_brainstorm_token_envelope routes c a ≡ ok e) ↔ (
        (counts_accepted routes c a ≡ true)
        × (sum routes + c + a ≤ max_safe_integer)
        × (e ≡ envelope_of routes c a))
unfolding estimate_brainstorm_token_envelope
estimate_brainstorm_token_envelope_iff routes c a e = (
  λ h.
      let (_, test, h₁) =
        bind-ok (guard (counts_accepted routes c a) invalid_brainstorm_token_budget) _ h in
      let (f, summed, h₂) = bind-ok (sum_from 0 routes) _ h₁ in
      let (m, lower, h₃) = bind-ok (safe_token_sum f c) _ h₂ in
      let (t, upper, h₄) = bind-ok (safe_token_sum m a) _ h₃ in
      let e₁ : f ≡ sum routes = sum_from-ok 0 routes f summed ∙ omega arith in
      let (_, e₂) = safe_token_sum-ok f c m lower in
      let (small, e₃) = safe_token_sum-ok m a t upper in
      (
        guard-ok (counts_accepted routes c a) invalid_brainstorm_token_budget test,
        omega (arith, e₁, e₂, small),
        sym (ok-injective h₄) ∙ rw (e₃, e₂, e₁) refl,
      ),
  λ (accepted, small, same).
      rw
        (
          accepted,
          sum_from-zero routes (omega (arith, small)),
          safe_token_sum-small (sum routes) c (omega (arith, small)),
          safe_token_sum-small (sum routes + c) a small,
          same,
          ◌>>=◌,
        )
        refl,
)
