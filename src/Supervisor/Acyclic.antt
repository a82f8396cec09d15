-- ===== src/Supervisor/Acyclic.antt =====
-- What the depth-first search of hasDependencyCycle finds,
-- src/data/delivery-system/supervisorQueue.ts.
use autopilot_beta.Prelude.{
  ℕ, zero, suc, Bool, true, false, List, [], ◌∷◌, ◌≡◌, refl, ◌⊎◌, inl, inr, Text, text_eq→≡,
  text_eq_refl, includes, length, if◌then◌else◌, map, arith, Bool-cases, dedup_from, subst, sym,
  is_some,
}
use mathlib.Core.Bool.{true≢false}
use autopilot_beta.Supervisor.Cycle.{
  Entry, get_entry, dependencies_of, Search, visit_any, leave, visit, keys, has_dependency_cycle,
}

abbrev pub Edge : List Entry → Text → Text → Type 0
Edge es a b = includes b (dependencies_of es a) ≡ true

-- `a` depends on `b`, through one dependency or several.
pub data DependsOn (es : List Entry) : Text → Text → Type 0 where
  edge : {a b : Text} → Edge es a b → DependsOn es a b
  step : {a b c : Text} → Edge es a b → DependsOn es b c → DependsOn es a c

abbrev Subset : List Text → List Text → Type 0
Subset xs ys = (a : Text) → includes a xs ≡ true → includes a ys ≡ true

-- Each id of the list depends only on ids behind it.
abbrev Ordered : List Entry → List Text → Type 0
Ordered es [] = Unit
Ordered es (v ∷ vs) = Subset (dependencies_of es v) vs × Ordered es vs

includes_here : (a : Text) (xs : List Text) → includes a (a ∷ xs) ≡ true
unfolding includes
includes_here a xs = rw (text_eq_refl a)

includes-cons : (a b : Text) (xs : List Text) → includes a xs ≡ true → includes a (b ∷ xs) ≡ true
unfolding includes
includes-cons a b xs h = ground arith

includes_cases :
    (a b : Text) (xs : List Text) → includes a (b ∷ xs) ≡ true → (b ≡ a) ⊎ (includes a xs ≡ true)
unfolding includes
includes_cases a b xs h = ground (arith, text_eq→≡ b a)

Ordered-Edge :
    (es : List Entry) (vs : List Text) (a b : Text)
    → Ordered es vs
    → includes a vs ≡ true
    → Edge es a b
    → includes b vs ≡ true
unfolding includes
Ordered-Edge es [] a b o h e = cc
Ordered-Edge es (v ∷ vs) a b o h e = elim (includes_cases a v vs h) [
  | inl same ↦ includes-cons b v vs (o.0 b (rw same e))
  | inr old ↦ includes-cons b v vs (Ordered-Edge es vs a b o.1 old e)
]

-- From an id of an ordered list, paths lead only to ids of the list.
Ordered-closed :
    (es : List Entry) (vs : List Text) {a b : Text}
    → Ordered es vs
    → includes a vs ≡ true
    → DependsOn es a b
    → includes b vs ≡ true
Ordered-closed es vs {a} {b} o h (edge e) = Ordered-Edge es vs a b o h e
Ordered-closed es vs {a} o h (step {b = b} e p) =
    Ordered-closed es vs o (Ordered-Edge es vs a b o h e) p

-- The first dependency of a path, and what is behind it.
first-Edge :
    (es : List Entry) {a b : Text}
    → DependsOn es a b
    → (d : Text) × (Edge es a d) × ((d ≡ b) ⊎ DependsOn es d b)
first-Edge es {b = b} (edge e) = (b, e, inl refl)
first-Edge es (step {b = d} e p) = (d, e, inr p)

-- A cycle through the first id of an ordered list would lie behind it.
cycle_behind :
    (es : List Entry) (v : Text) (vs : List Text)
    → Ordered es (v ∷ vs)
    → (d : Text) × (Edge es v d) × ((d ≡ v) ⊎ DependsOn es d v)
    → includes v vs ≡ true
cycle_behind es v vs o (d, e, inl back) = rw (← back) (o.0 d e)
cycle_behind es v vs o (d, e, inr q) = Ordered-closed es vs o.1 (o.0 d e) q

-- No id of an ordered list depends on itself: its dependencies lie behind it.
Ordered-no_cycle :
    (es : List Entry) (vs : List Text) (a : Text)
    → Ordered es vs
    → includes a vs ≡ true
    → ¬ DependsOn es a a
unfolding includes
Ordered-no_cycle es [] a o h p = cc
Ordered-no_cycle es (v ∷ vs) a o h p = elim (includes_cases a v vs h) [
  | inr old ↦ Ordered-no_cycle es vs a o.1 old p
  | inl same ↦
      Ordered-no_cycle es vs a o.1
        (rw (← same) (
          cycle_behind es v vs o (
            subst (λ x. (d : Text) × (Edge es x d) × ((d ≡ x) ⊎ DependsOn es d x)) (sym same)
              (first-Edge es p))))
        p
]

-- What a search that found no cycle leaves: `visited` has grown, is ordered, and holds the ids.
record Done (es : List Entry) (ids : List Text) (before after : Search) : Type 0 where
  ordered : Ordered es after.visited
  holds : Subset ids after.visited
  grows : Subset before.visited after.visited

abbrev Sound : List Entry → (Text → Search → Bool × Search) → Type 0
Sound es search_id =
    (id : Text) (st : Search)
    → Ordered es st.visited
    → (search_id id st).0 ≡ false
    → Done es (id ∷ []) st (search_id id st).1

Done-cons :
    (es : List Entry) (id : Text) (ids : List Text) {st st' st'' : Search}
    → Done es (id ∷ []) st st'
    → Done es ids st' st''
    → Done es (id ∷ ids) st st''
Done-cons es id ids one rest = record {
  ordered = rest.ordered;
  holds = λ a k. elim (includes_cases a id ids k) [
    | inl same ↦ rest.grows a (one.holds a (rw same (includes_here a [])))
    | inr later ↦ rest.holds a later
  ];
  grows = λ a k. rest.grows a (one.grows a k);
}

visit_any-Done :
    (es : List Entry) (search_id : Text → Search → Bool × Search)
    → Sound es search_id
    → (ids : List Text) (st : Search) → Ordered es st.visited
    → (visit_any search_id ids st).0 ≡ false
    → Done es ids st (visit_any search_id ids st).1
unfolding visit_any includes
visit_any-Done es f sound [] st o h = record { ordered = o; holds = λ a k. cc; grows = λ a k. k }
visit_any-Done es f sound (id ∷ ids) st o h = elim (Bool-cases (f id st).0) [
  | inl found ↦ absurd (true≢false (rw (found, if◌then◌else◌) at h))
  | inr none_found ↦
      let one = sound id st o none_found in
      let h' = rw (none_found, if◌then◌else◌) at h in
      rw none_found
        (Done-cons es id ids one (visit_any-Done es f sound ids (f id st).1 one.ordered h'))
]

-- To leave an id whose dependencies are all visited keeps `visited` in order.
leave-Done :
    (es : List Entry) (id : Text) (st : Search) (r : Bool × Search)
    → (r.0 ≡ false → Done es (dependencies_of es id) st r.1)
    → (leave id r).0 ≡ false
    → Done es (id ∷ []) st (leave id r).1
unfolding leave includes
leave-Done es id st (true, st') d h = cc
leave-Done es id st (false, st') d h =
    let inner = d refl in
    record {
      ordered = (inner.holds, inner.ordered);
      holds = λ a k. elim (includes_cases a id [] k) [
        | inl same ↦ rw same (includes_here a st'.visited)
        | inr never ↦ cc
      ];
      grows = λ a k. includes-cons a id st'.visited (inner.grows a k);
    }

visited_holds :
    (es : List Entry) (id : Text) (st : Search)
    → (a : Text) → includes id st.visited ≡ true
    → includes a (id ∷ []) ≡ true
    → includes a st.visited ≡ true
unfolding includes
visited_holds es id st a seen k = ground (arith, text_eq→≡ id a)

-- To enter an id changes `active` only.
enter-Done :
    (es : List Entry) (id : Text) (ids : List Text) (st after : Search)
    → Done es ids (record st { active = id ∷ st.active }) after
    → Done es ids st after
enter-Done es id ids st after d = record { ordered = d.ordered; holds = d.holds; grows = d.grows }

-- A search that ends without a cycle has put what it visited in order.
visit-Sound : (es : List Entry) (fuel : ℕ) → Sound es (visit es fuel)
unfolding visit includes
visit-Sound es zero id st o h = cc
visit-Sound es (suc fuel) id st o h = elim (Bool-cases (includes id st.active)) [
  | inl active ↦ absurd (true≢false (rw (active, if◌then◌else◌) at h))
  | inr idle ↦ elim (Bool-cases (includes id st.visited)) [
    | inl seen ↦
        rw (idle, seen)
          (record { ordered = o; holds = λ a k. visited_holds es id st a seen k; grows = λ a k. k })
    | inr fresh ↦
        rw (idle, fresh)
          (leave-Done es id st
            (visit_any (visit es fuel) (dependencies_of es id)
              (record st { active = id ∷ st.active }))
            (λ clear. enter-Done es id (dependencies_of es id) st _ (
              visit_any-Done es (visit es fuel) (visit-Sound es fuel) (dependencies_of es id)
                (record st { active = id ∷ st.active }) o clear))
            (rw (idle, fresh) at h))
  ]
]

-- An id with a dependency is a key of the map.
pub get_entry-key :
    (es : List Entry) (a : Text)
    → is_some (get_entry es a) ≡ true
    → includes a (map (λ e. e.0) es) ≡ true
unfolding get_entry includes
get_entry-key [] a h = cc
get_entry-key ((k, ds) ∷ es) a h = ground (arith, get_entry-key es a)

dedup_from-includes :
    (a : Text) (seen ids : List Text)
    → includes a ids ≡ true
    → (includes a seen ≡ true) ⊎ (includes a (dedup_from seen ids) ≡ true)
unfolding dedup_from includes
dedup_from-includes a seen [] h = cc
dedup_from-includes a seen (id ∷ ids) h =
    ground
      (arith, text_eq→≡ id a, dedup_from-includes a seen ids, dedup_from-includes a (id ∷ seen) ids)

Edge-key : (es : List Entry) (a d : Text) → Edge es a d → includes a (keys es) ≡ true
unfolding dependencies_of includes
Edge-key es a d e =
    ground (arith, get_entry-key es a, dedup_from-includes a [] (map (λ (e : Entry). e.0) es))

-- If the search reports no cycle, no id depends on itself, directly or through others.
pub has_dependency_cycle_sound :
    (es : List Entry) → has_dependency_cycle es ≡ false → (a : Text) → ¬ DependsOn es a a
unfolding has_dependency_cycle includes
has_dependency_cycle_sound es h a p =
    let d = visit_any-Done es _ (visit-Sound es (suc (suc (length es)))) (keys es) _ tt h in
    let (b, e, _) = first-Edge es p in
    Ordered-no_cycle es _ a d.ordered (d.holds a (Edge-key es a b e)) p
