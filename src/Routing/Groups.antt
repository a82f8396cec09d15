-- ===== src/Routing/Groups.antt =====
-- The map of computeTierCircuitState (src/data/delivery-system/routingGuards.ts): each bucket holds
-- exactly the counted signals of its key, in order.
use autopilot_beta.Prelude.{
  ℕ, ◌≡◌, refl, sym, ap, ◌∙◌, subst, inl, inr, Bool, true, false, ◌&&◌, ◌||◌, List, [], ◌∷◌, ◌++◌,
  map, text_eq, text_eq_iff, text_eq_refl, any, filter, All, All-map, All-append, any_of_All,
  any-append, filter-append, snoc-append, &&_split, &&_false, false≢true, Bool-cases, if◌then◌else◌,
  arith,
}
use mathlib.Core.List.{append-nil}
use autopilot_beta.Routing.Budget.{provider_eq}
use autopilot_beta.Routing.Circuit.{
  Signal, Thresholds, Key, key_eq, circuit_key, is_counted, Groups, has_key, push_to, push_signal,
  group_signals,
}
use autopilot_beta.Routing.Resolved.{provider_eq_iff}

pub key_eq→≡ : (k k' : Key) → key_eq k k' ≡ true → k ≡ k'
key_eq→≡ (p, t) (q, u) h =
    let (e, e') = &&_split (provider_eq p q) (text_eq t u) h in
    let e₁ = (provider_eq_iff p q).0 e in let e₂ = (text_eq_iff t u).0 e' in λ i. (e₁ i, e₂ i)

pub key_eq_refl : (k : Key) → key_eq k k ≡ true
key_eq_refl (p, t) = rw ((provider_eq_iff p p).1 refl, text_eq_refl t) refl

pub key_eq_sym : (k k' : Key) (b : Bool) → key_eq k k' ≡ b → key_eq k' k ≡ b
key_eq_sym k k' true h = rw (key_eq→≡ k k' h) (key_eq_refl k')
key_eq_sym k k' false h = elim (Bool-cases (key_eq k' k)) [
  | inl same ↦
      let back : key_eq k k' ≡ true =
        subst (λ x. key_eq k x ≡ true) (sym (key_eq→≡ k' k same)) (key_eq_refl k) in
      absurd (false≢true (sym h ∙ back))
  | inr different ↦ different
]

or_split : (a b : Bool) → (a || (b || false)) ≡ false → (a ≡ false) × (b ≡ false)
or_split a b h = ground arith

module _ (thresholds : Thresholds) (now : ℕ) where
  -- The counted signals of a key.
  abbrev pub keyed : Key → Signal → Bool
  keyed k s = is_counted thresholds now s && key_eq k (circuit_key s)

  pub record Grouped (seen : List Signal) (groups : Groups) : Type 0 where
    pub exact : All (λ (e : Key × List Signal). e.1 ≡ filter (keyed e.0) seen) groups
    pub complete : (k : Key) → any (has_key k) groups ≡ false → filter (keyed k) seen ≡ []

  pub empty-Grouped : Grouped [] []
  empty-Grouped = record { exact = tt; complete = λ k missing. refl }

  keyed_snoc :
      (k : Key) (seen : List Signal) (s : Signal)
      → filter (keyed k) (seen ++ s ∷ [])
        ≡ filter (keyed k) seen ++ (if keyed k s then s ∷ [] else [])
  keyed_snoc k seen s = filter-append (keyed k) seen (s ∷ [])

  keyed_other :
      (k : Key) (seen : List Signal) (s : Signal)
      → keyed k s ≡ false
      → filter (keyed k) (seen ++ s ∷ []) ≡ filter (keyed k) seen
  keyed_other k seen s h = keyed_snoc k seen s ∙ rw h (append-nil (filter (keyed k) seen))

  keyed_same :
      (k : Key) (seen : List Signal) (s : Signal)
      → keyed k s ≡ true
      → filter (keyed k) (seen ++ s ∷ []) ≡ filter (keyed k) seen ++ s ∷ []
  keyed_same k seen s h = keyed_snoc k seen s ∙ rw h refl

  -- A signal that does not count changes nothing.
  skip-Grouped :
      (seen : List Signal) (groups : Groups) (s : Signal)
      → Grouped seen groups
      → is_counted thresholds now s ≡ false
      → Grouped (seen ++ s ∷ []) groups
  skip-Grouped seen groups s g h = record {
    exact = All-map _ _ groups (λ e same. same ∙ sym (keyed_other e.0 seen s (rw h refl))) g.exact;
    complete = λ k missing. keyed_other k seen s (rw h refl) ∙ g.complete k missing;
  }

  any-push_to :
      (k k' : Key) (s : Signal) (groups : Groups)
      → any (has_key k') (map (push_to k s) groups) ≡ any (has_key k') groups
  any-push_to k k' s [] = refl
  any-push_to k k' s (e ∷ groups) = elim (Bool-cases (key_eq k e.0)) [
    | inl same ↦ rw (same, any-push_to k k' s groups) refl
    | inr different ↦ rw (different, any-push_to k k' s groups) refl
  ]

  push_to-exact :
      (seen : List Signal) (s : Signal) (groups : Groups)
      → is_counted thresholds now s ≡ true
      → All (λ (e : Key × List Signal). e.1 ≡ filter (keyed e.0) seen) groups
      → All
          (λ (e : Key × List Signal). e.1 ≡ filter (keyed e.0) (seen ++ s ∷ []))
          (map (push_to (circuit_key s) s) groups)
  push_to-exact seen s [] h all = tt
  push_to-exact seen s (e ∷ groups) h all = (
    elim (Bool-cases (key_eq (circuit_key s) e.0)) [
      | inl same ↦ rw same (
          ap (λ b. b ++ s ∷ []) all.0
          ∙ sym (keyed_same e.0 seen s (rw (h, key_eq_sym (circuit_key s) e.0 true same) refl)))
      | inr different ↦ rw different (
          all.0
          ∙ sym (
              keyed_other e.0 seen s (rw (h, key_eq_sym (circuit_key s) e.0 false different) refl)))
    ],
    push_to-exact seen s groups h all.1,
  )

  others-exact :
      (seen : List Signal) (s : Signal) (groups : Groups)
      → All (λ e. has_key (circuit_key s) e ≡ false) groups
      → All (λ (e : Key × List Signal). e.1 ≡ filter (keyed e.0) seen) groups
      → All (λ (e : Key × List Signal). e.1 ≡ filter (keyed e.0) (seen ++ s ∷ [])) groups
  others-exact seen s [] other all = tt
  others-exact seen s (e ∷ groups) other all = (
    all.0
        ∙ sym (
            keyed_other e.0 seen s (
              rw (key_eq_sym (circuit_key s) e.0 false other.0)
                (&&_false (is_counted thresholds now s)))),
    others-exact seen s groups other.1 all.1,
  )

  any_key :
      (k k' : Key) (groups : Groups)
      → key_eq k' k ≡ true
      → any (has_key k') groups ≡ any (has_key k) groups
  any_key k k' groups same = ap (λ x. any (has_key x) groups) (key_eq→≡ k' k same)

  -- A signal that counts goes to the end of its bucket.
  push-Grouped :
      (seen : List Signal) (groups : Groups) (s : Signal)
      → Grouped seen groups
      → is_counted thresholds now s ≡ true
      → Grouped (seen ++ s ∷ []) (push_signal groups s)
  unfolding push_signal
  push-Grouped seen groups s g h = elim (Bool-cases (any (has_key (circuit_key s)) groups)) [
    | inl present ↦ rw present (record {
      exact = push_to-exact seen s groups h g.exact;
      complete = λ k missing.
          let missing' = sym (any-push_to (circuit_key s) k s groups) ∙ missing in
          elim (Bool-cases (key_eq k (circuit_key s))) [
            | inl same ↦
                absurd (false≢true (sym missing' ∙ any_key (circuit_key s) k groups same ∙ present))
            | inr different ↦ keyed_other k seen s (rw (h, different) refl) ∙ g.complete k missing'
          ];
    })
    | inr absent ↦ rw absent (record {
      exact =
          All-append _ groups _ (others-exact seen s groups (any_of_All _ groups absent) g.exact) (
            sym (
                keyed_same (circuit_key s) seen s (rw (h, key_eq_refl (circuit_key s)) refl)
                ∙ ap (λ b. b ++ s ∷ []) (g.complete (circuit_key s) absent)),
            tt,
          );
      complete = λ k missing.
          let both = sym (any-append (has_key k) groups ((circuit_key s, s ∷ []) ∷ [])) ∙ missing in
          let (none_before, different) =
            or_split (any (has_key k) groups) (key_eq k (circuit_key s)) both in
          keyed_other k seen s (rw (h, different) refl) ∙ g.complete k none_before;
    })
  ]

  -- The whole loop.
  pub group_signals-Grouped :
      (seen ss : List Signal) (groups : Groups)
      → Grouped seen groups
      → Grouped (seen ++ ss) (group_signals thresholds now groups ss)
  unfolding group_signals
  group_signals-Grouped seen [] groups g = rw (append-nil seen) g
  group_signals-Grouped seen (s ∷ ss) groups g =
      subst (λ all. Grouped all (group_signals thresholds now groups (s ∷ ss)))
        (snoc-append seen s ss)
        (elim (Bool-cases (is_counted thresholds now s)) [
          | inl counts ↦ rw counts (
              group_signals-Grouped (seen ++ s ∷ []) ss (push_signal groups s)
                (push-Grouped seen groups s g counts))
          | inr skipped ↦ rw skipped (
              group_signals-Grouped (seen ++ s ∷ []) ss groups
                (skip-Grouped seen groups s g skipped))
        ])
