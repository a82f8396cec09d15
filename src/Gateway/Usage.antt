-- ===== src/Gateway/Usage.antt =====
-- How the usage of src/data/delivery-system/tokenGateway.ts changes: each key of a route by the same
-- amount, and no other key.
use autopilot_beta.Prelude.{
  ℕ, ◌+◌, ◌≤◌, ◌≡◌, refl, sym, ap, ◌∙◌, subst, inl, inr, Bool, true, false, not, ◌&&◌, ◌||◌, List,
  [], ◌∷◌, map, Text, text_eq, text_eq→≡, text_eq_refl, includes, unique, ◌==◌, ==_iff,
  if◌then◌else◌, arith, Bool-cases, All, leb, leb→le, &&_split, ok, guard, bind-ok, guard-ok,
  ok-injective,
}
use autopilot_beta.Dict.{Dict, insert, lookup-insert, lookup-erase}
use autopilot_beta.Owner.Approval.{max_safe_integer}
use autopilot_beta.Gateway.Types.{refused, budget_exhausted, Route, route_usage_keys}
use autopilot_beta.Gateway.Store.{used_of, set_usage, update_usage}
use autopilot_beta.Gateway.Groups.{hold_keys}

used_of-insert :
    (used : Dict ℕ) (k j : Text) (n : ℕ)
    → used_of (insert k n used) j ≡ (if text_eq k j then n else used_of used j)
used_of-insert used k j n = elim (Bool-cases (text_eq k j)) [
  | inl hit ↦ rw (lookup-insert j k n used, hit) refl
  | inr miss ↦ rw (lookup-insert j k n used, miss) refl
]

used_of-set_usage :
    (used : Dict ℕ) (k j : Text) (n : ℕ)
    → used_of (set_usage used k n) j ≡ (if text_eq k j then n else used_of used j)
unfolding set_usage
used_of-set_usage used k j n = elim (Bool-cases (n == 0)) [
  | inr other ↦ rw other (used_of-insert used k j n)
  | inl zeroed ↦ elim (Bool-cases (text_eq k j)) [
    | inl hit ↦ rw (zeroed, lookup-erase j k used, hit) (sym ((==_iff n 0).0 zeroed))
    | inr miss ↦ rw (zeroed, lookup-erase j k used, miss) refl
  ]
]

-- The keys of the list change by `f`, once each.
abbrev pub Updates : (ℕ → ℕ) → List Text → Dict ℕ → Dict ℕ → Type 0
Updates f ks used used' =
    (j : Text) → used_of used' j ≡ (if includes j ks then f (used_of used j) else used_of used j)

first_false : (a b : Bool) → a || b ≡ false → a ≡ false
first_false a b h = ground arith

not-true : (b : Bool) → not b ≡ true → b ≡ false
not-true b h = ground arith

update_usage-other :
    (f : ℕ → ℕ) (ks : List Text) (used : Dict ℕ) (j : Text)
    → includes j ks ≡ false
    → used_of (update_usage f ks used) j ≡ used_of used j
unfolding update_usage includes
update_usage-other f [] used j h = refl
update_usage-other f (k ∷ ks) used j h =
    update_usage-other f ks (set_usage used k (f (used_of used k))) j (ground arith)
    ∙ used_of-set_usage used k j (f (used_of used k))
    ∙ rw (first_false (text_eq k j) (includes j ks) h) refl

pub update_usage-Updates :
    (f : ℕ → ℕ) (ks : List Text) (used : Dict ℕ)
    → unique ks ≡ true
    → Updates f ks used (update_usage f ks used)
unfolding update_usage includes unique
update_usage-Updates f [] used h j = refl
update_usage-Updates f (k ∷ ks) used h j =
    let (absent, rest) = &&_split (not (includes k ks)) (unique ks) h in
    let next = set_usage used k (f (used_of used k)) in
    let set = used_of-set_usage used k j (f (used_of used k)) in
    elim (Bool-cases (text_eq k j)) [
      | inl hit ↦
          let same = text_eq→≡ k j hit in
          let gone =
            subst (λ (x : Text). includes x ks ≡ false) same (not-true (includes k ks) absent) in
          rw hit (
            update_usage-other f ks next j gone
            ∙ rw hit at set
            ∙ ap (λ (x : Text). f (used_of used x)) same)
      | inr miss ↦
          let kept : used_of next j ≡ used_of used j = rw miss at set in
          rw (miss, ← kept) (update_usage-Updates f ks next rest j)
    ]

-- The three keys of a route differ, since their prefixes do.
pub route_usage_keys-unique : (r : Route) → unique (route_usage_keys r) ≡ true
unfolding unique includes text_eq
route_usage_keys-unique r = refl

-- The loop of `reserveGroup` over the keys of a slot raises each by the slot's tokens, and no key
-- beyond its cap.
abbrev pub names : List (Text × ℕ) → List Text
names = map (λ (p : Text × ℕ). p.0)

hold_keys-step :
    (n : ℕ) (k : Text) (cap : ℕ) (ks : List (Text × ℕ)) (used used' : Dict ℕ)
    → hold_keys n ((k, cap) ∷ ks) used ≡ ok used'
    → (used_of used k + n ≤ cap) × (hold_keys n ks (insert k (used_of used k + n) used) ≡ ok used')
unfolding hold_keys
hold_keys-step n k cap ks used used' h =
    let next = used_of used k + n in
    let test = leb next max_safe_integer && leb next cap in
    let (_, a, rest) = bind-ok (guard test (refused budget_exhausted)) _ h in
    let (_, below) = &&_split (leb next max_safe_integer) (leb next cap) (guard-ok test _ a) in
    (leb→le next cap below, rest)

hold_keys-other :
    (n : ℕ) (ks : List (Text × ℕ)) (used used' : Dict ℕ) (j : Text)
    → hold_keys n ks used ≡ ok used'
    → includes j (names ks) ≡ false
    → used_of used' j ≡ used_of used j
unfolding hold_keys includes
hold_keys-other n [] used used' j h absent = ap (λ (d : Dict ℕ). used_of d j) (sym (ok-injective h))
hold_keys-other n ((k, cap) ∷ ks) used used' j h absent =
    let (_, rest) = hold_keys-step n k cap ks used used' h in
    hold_keys-other n ks (insert k (used_of used k + n) used) used' j rest (ground arith)
    ∙ used_of-insert used k j (used_of used k + n)
    ∙ rw (first_false (text_eq k j) (includes j (names ks)) absent) refl

pub hold_keys-Updates :
    (n : ℕ) (ks : List (Text × ℕ)) (used used' : Dict ℕ)
    → unique (names ks) ≡ true
    → hold_keys n ks used ≡ ok used'
    → Updates (λ u. u + n) (names ks) used used'
unfolding hold_keys includes unique
hold_keys-Updates n [] used used' h e j = ap (λ (d : Dict ℕ). used_of d j) (sym (ok-injective e))
hold_keys-Updates n ((k, cap) ∷ ks) used used' h e j =
    let (absent, others) = &&_split (not (includes k (names ks))) (unique (names ks)) h in
    let (_, rest) = hold_keys-step n k cap ks used used' e in
    let next = insert k (used_of used k + n) used in
    let set = used_of-insert used k j (used_of used k + n) in
    elim (Bool-cases (text_eq k j)) [
      | inl hit ↦
          let same = text_eq→≡ k j hit in
          let gone =
            subst (λ (x : Text). includes x (names ks) ≡ false) same
              (not-true (includes k (names ks)) absent) in
          rw hit (
            hold_keys-other n ks next used' j rest gone
            ∙ rw hit at set
            ∙ ap (λ (x : Text). used_of used x + n) same)
      | inr miss ↦
          let kept : used_of next j ≡ used_of used j = rw miss at set in
          rw (miss, ← kept) (hold_keys-Updates n ks next used' others rest j)
    ]

-- Each key of the loop ends within its cap.
pub hold_keys-capped :
    (n : ℕ) (ks : List (Text × ℕ)) (used used' : Dict ℕ)
    → unique (names ks) ≡ true
    → hold_keys n ks used ≡ ok used'
    → All (λ (p : Text × ℕ). used_of used' p.0 ≤ p.1) ks
unfolding hold_keys includes unique
hold_keys-capped n [] used used' h e = tt
hold_keys-capped n ((k, cap) ∷ ks) used used' h e =
    let (absent, others) = &&_split (not (includes k (names ks))) (unique (names ks)) h in
    let (below, rest) = hold_keys-step n k cap ks used used' e in
    let next = insert k (used_of used k + n) used in
    let here : used_of used' k ≡ used_of used k + n =
      hold_keys-other n ks next used' k rest (not-true (includes k (names ks)) absent)
      ∙ used_of-insert used k k (used_of used k + n)
      ∙ rw (text_eq_refl k) refl in
    (subst (λ (m : ℕ). m ≤ cap) (sym here) below, hold_keys-capped n ks next used' others rest)
