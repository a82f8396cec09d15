-- ===== src/Dict.antt =====
-- A JavaScript object that is used as a map from texts, in the order of insertion. What an object
-- inherits (`constructor`, `toString`) is left out, and so is the place of keys that look like indices.
use autopilot_beta.Prelude.{
  ℕ, ◌+◌, ◌≤◌, ◌≡◌, refl, sym, ◌∙◌, inl, inr, true, false, Option, none, some, List, [], ◌∷◌, Text,
  text_eq, text_eq_refl, text_eq→≡, if◌then◌else◌, arith, Bool-cases, All, subst, some-injective,
  false≢true,
}

abbrev pub Dict {ℓ} : Type ℓ → Type ℓ
Dict V = List (Text × V)

module _ {ℓ} {V : Type ℓ} where
  -- `d[k]`
  abbrev pub lookup : Text → Dict V → Option V
  lookup k [] = none
  lookup k (e ∷ d) = if text_eq e.0 k then some e.1 else lookup k d

  -- `d[k] = v`: a key that is there keeps its place.
  abbrev pub insert : Text → V → Dict V → Dict V
  insert k v [] = (k, v) ∷ []
  insert k v (e ∷ d) = if text_eq e.0 k then (k, v) ∷ d else e ∷ insert k v d

  -- `delete d[k]`
  abbrev pub erase : Text → Dict V → Dict V
  erase k [] = []
  erase k (e ∷ d) = if text_eq e.0 k then erase k d else e ∷ erase k d

  -- `Object.values(d)`
  abbrev pub values : Dict V → List V
  values [] = []
  values (e ∷ d) = e.1 ∷ values d

  -- `Object.keys(d)`
  abbrev pub keys : Dict V → List Text
  keys [] = []
  keys (e ∷ d) = e.0 ∷ keys d

pub text_eq_other : (h k j : Text) → text_eq h k ≡ true → text_eq k j ≡ false → text_eq h j ≡ false
text_eq_other h k j same other = rw (text_eq→≡ h k same) other

pub text_eq_both : (h k j : Text) → text_eq h j ≡ true → text_eq k j ≡ true → text_eq h k ≡ true
text_eq_both h k j one two = rw (text_eq→≡ h j one, text_eq→≡ k j two) (text_eq_refl j)

module _ {ℓ} {V : Type ℓ} where
  pub lookup-insert :
      (j k : Text) (v : V) (d : Dict V)
      → lookup j (insert k v d) ≡ (if text_eq k j then some v else lookup j d)
  lookup-insert j k v [] = refl
  lookup-insert j k v (e ∷ d) = elim (Bool-cases (text_eq e.0 k)) [
    | inl same ↦ elim (Bool-cases (text_eq k j)) [
      | inl hit ↦ rw (same, hit) refl
      | inr miss ↦ rw (same, miss, text_eq_other e.0 k j same miss) refl
    ]
    | inr different ↦ elim (Bool-cases (text_eq e.0 j)) [
      | inr miss ↦ rw (different, miss) (lookup-insert j k v d)
      | inl hit ↦ elim (Bool-cases (text_eq k j)) [
        | inr other ↦ rw (different, hit, other) refl
        | inl also ↦ absurd (false≢true (sym different ∙ text_eq_both e.0 k j hit also))
      ]
    ]
  ]

  pub lookup-erase :
      (j k : Text) (d : Dict V) → lookup j (erase k d) ≡ (if text_eq k j then none else lookup j d)
  lookup-erase j k [] = elim (Bool-cases (text_eq k j)) [ inl e ↦ rw e refl | inr e ↦ rw e refl ]
  lookup-erase j k (e ∷ d) = elim (Bool-cases (text_eq e.0 k)) [
    | inl same ↦ elim (Bool-cases (text_eq k j)) [
      | inl hit ↦ rw (same, hit) (lookup-erase j k d ∙ rw hit refl)
      | inr miss ↦
          rw (same, miss, text_eq_other e.0 k j same miss) (lookup-erase j k d ∙ rw miss refl)
    ]
    | inr different ↦ elim (Bool-cases (text_eq e.0 j)) [
      | inr miss ↦ rw (different, miss) (lookup-erase j k d)
      | inl hit ↦ elim (Bool-cases (text_eq k j)) [
        | inr other ↦ rw (different, hit, other) refl
        | inl also ↦ absurd (false≢true (sym different ∙ text_eq_both e.0 k j hit also))
      ]
    ]
  ]

  -- The sum of a weight over the values.
  abbrev pub weigh : (V → ℕ) → Dict V → ℕ
  weigh w [] = 0
  weigh w (e ∷ d) = w e.1 + weigh w d

  pub weigh-insert_le :
      (w : V → ℕ) (k : Text) (v : V) (d : Dict V) → weigh w (insert k v d) ≤ weigh w d + w v
  weigh-insert_le w k v [] = omega arith
  weigh-insert_le w k v (e ∷ d) = ground (arith, weigh-insert_le w k v d)

  pub weigh-insert :
      (w : V → ℕ) (k : Text) (v u : V) (d : Dict V)
      → lookup k d ≡ some u
      → weigh w (insert k v d) + w u ≡ weigh w d + w v
  weigh-insert w k v u [] h = cc
  weigh-insert w k v u (e ∷ d) h = ground (arith, weigh-insert w k v u d)

  pub weigh-erase_le : (w : V → ℕ) (k : Text) (d : Dict V) → weigh w (erase k d) ≤ weigh w d
  weigh-erase_le w k [] = omega arith
  weigh-erase_le w k (e ∷ d) = ground (arith, weigh-erase_le w k d)

  pub weigh-erase :
      (w : V → ℕ) (k : Text) (u : V) (d : Dict V)
      → lookup k d ≡ some u
      → weigh w (erase k d) + w u ≤ weigh w d
  weigh-erase w k u [] h = cc
  weigh-erase w k u (e ∷ d) h = ground (arith, weigh-erase w k u d, weigh-erase_le w k d)

  -- What holds of every value.
  abbrev pub Each {κ} : (V → Type κ) → Dict V → Type κ
  Each P d = All (λ e. P e.1) d

  pub Each-insert {κ} :
      (P : V → Type κ) (k : Text) (v : V) (d : Dict V) → Each P d → P v → Each P (insert k v d)
  Each-insert P k v [] h p = (p, tt)
  Each-insert P k v (e ∷ d) h p = elim (Bool-cases (text_eq e.0 k)) [
    | inl same ↦ rw same (p, h.1)
    | inr other ↦ rw other (h.0, Each-insert P k v d h.1 p)
  ]

  pub Each-erase {κ} : (P : V → Type κ) (k : Text) (d : Dict V) → Each P d → Each P (erase k d)
  Each-erase P k [] h = tt
  Each-erase P k (e ∷ d) h = elim (Bool-cases (text_eq e.0 k)) [
    | inl same ↦ rw same (Each-erase P k d h.1)
    | inr other ↦ rw other (h.0, Each-erase P k d h.1)
  ]

  pub Each-lookup {κ} :
      (P : V → Type κ) (k : Text) (d : Dict V) (v : V) → Each P d → lookup k d ≡ some v → P v
  Each-lookup P k [] v h e = cc
  Each-lookup P k (x ∷ d) v h e = elim (Bool-cases (text_eq x.0 k)) [
    | inl same ↦ let found : some x.1 ≡ some v = rw same at e in subst P (some-injective found) h.0
    | inr other ↦ Each-lookup P k d v h.1 (rw other at e)
  ]
