-- ===== src/Supervisor/Search.antt =====
-- The fuel of the depth-first search of hasDependencyCycle, src/data/delivery-system/supervisorQueue.ts,
-- is enough: the search stops at a cycle or where it has seen everything, and never for want of fuel.
use autopilot_beta.Prelude.{
  ℕ, zero, suc, ◌+◌, ◌≤◌, Bool, true, false, not, List, [], ◌∷◌, ◌≡◌, refl, ap, ◌∙◌, subst, inl,
  inr, Text, text_eq, text_eq→≡, text_eq_refl, includes, unique, length, filter, map, arith,
  Bool-cases, false≢true, &&_split,
}
use autopilot_beta.Supervisor.Cycle.{
  Entry, dependencies_of, Search, visit_any, leave, visit, keys, has_dependency_cycle,
}
use autopilot_beta.Supervisor.Acyclic.{Edge, DependsOn, edge, step, get_entry-key}

abbrev IsCyclic : List Entry → Type 0
IsCyclic es = (a : Text) × DependsOn es a a

abbrev without : Text → List Text → List Text
without x = filter (λ a. not (text_eq a x))

without-includes :
    (x a : Text) (ys : List Text)
    → includes a ys ≡ true
    → text_eq a x ≡ false
    → includes a (without x ys) ≡ true
unfolding includes
without-includes x a [] h other = cc
without-includes x a (y ∷ ys) h other = ground (arith, without-includes x a ys, text_eq→≡ y a)

without-absent : (x : Text) (ys : List Text) → includes x ys ≡ false → without x ys ≡ ys
unfolding includes
without-absent x [] h = refl
without-absent x (y ∷ ys) h = elim (Bool-cases (text_eq y x)) [
  | inl same ↦ cc (rw same at h)
  | inr other ↦ rw other (ap (λ (zs : List Text). y ∷ zs) (without-absent x ys (rw other at h)))
]

without-length_le : (x : Text) (ys : List Text) → length (without x ys) ≤ length ys
without-length_le x [] = omega arith
without-length_le x (y ∷ ys) = ground (arith, without-length_le x ys)

without-length :
    (x : Text) (ys : List Text) → includes x ys ≡ true → suc (length (without x ys)) ≤ length ys
unfolding includes
without-length x [] h = cc
without-length x (y ∷ ys) h = ground (arith, without-length x ys, without-length_le x ys)

other_entry :
    (x a : Text) (xs : List Text)
    → not (includes x xs) ≡ true
    → includes a xs ≡ true
    → text_eq a x ≡ false
other_entry x a xs absent h = elim (Bool-cases (text_eq a x)) [
  | inr other ↦ other
  | inl same ↦
      let there : includes x xs ≡ true =
        subst (λ (t : Text). includes t xs ≡ true) (text_eq→≡ a x same) h in
      absurd (false≢true (rw there at absent))
]

Edge-entry :
    (es : List Entry) (a b : Text) → Edge es a b → includes a (map (λ (e : Entry). e.0) es) ≡ true
unfolding dependencies_of includes
Edge-entry es a b e = ground (arith, get_entry-key es a)

-- A list without repetition whose entries are all in another is not longer.
unique-length :
    (xs ys : List Text)
    → unique xs ≡ true
    → ((a : Text) → includes a xs ≡ true → includes a ys ≡ true)
    → length xs ≤ length ys
unfolding unique includes
unique-length [] ys u sub = omega arith
unique-length (x ∷ xs) ys u sub =
    let (absent, rest) = &&_split (not (includes x xs)) (unique xs) u in
    let here : includes x ys ≡ true = sub x (rw (text_eq_refl x) refl) in
    let fewer =
      unique-length xs (without x ys) rest (λ a h.
        without-includes x a ys (sub a (ground (arith, h))) (other_entry x a xs absent h)) in
    omega (arith, fewer, without-length x ys here)

-- The list of the ids that were entered, the last one first, is a path to the id that is entered now.
abbrev IsPath : List Entry → Text → List Text → Type 0
IsPath es id [] = Unit
IsPath es id (a ∷ as') = Edge es a id × IsPath es a as'

-- Each id of a path has a dependency, so it is a key.
IsPath-keys :
    (es : List Entry) (id : Text) (as' : List Text)
    → IsPath es id as'
    → (a : Text) → includes a as' ≡ true
    → includes a (map (λ (e : Entry). e.0) es) ≡ true
unfolding includes dependencies_of
IsPath-keys es id [] p a h = cc
IsPath-keys es id (b ∷ as') p a h = elim (Bool-cases (text_eq b a)) [
  | inl same ↦ rw (← text_eq→≡ b a same) (Edge-entry es b id p.0)
  | inr other ↦ IsPath-keys es b as' p.1 a (rw other at h)
]

DependsOn-Edge :
    (es : List Entry) {a b c : Text} → DependsOn es a b → Edge es b c → DependsOn es a c
DependsOn-Edge es (edge e) last = step e (edge last)
DependsOn-Edge es (step e p) last = step e (DependsOn-Edge es p last)

-- From an id of the path to its end.
IsPath-DependsOn :
    (es : List Entry) (id : Text) (as' : List Text)
    → IsPath es id as'
    → (a : Text) → includes a as' ≡ true
    → DependsOn es a id
unfolding includes
IsPath-DependsOn es id [] p a h = cc
IsPath-DependsOn es id (b ∷ as') p a h = elim (Bool-cases (text_eq b a)) [
  | inl same ↦ edge (rw (← text_eq→≡ b a same) p.0)
  | inr other ↦ DependsOn-Edge es (IsPath-DependsOn es b as' p.1 a (rw other at h)) p.0
]

length-entries : (es : List Entry) → length (map (λ (e : Entry). e.0) es) ≡ length es
length-entries [] = refl
length-entries (e ∷ es) = ap suc (length-entries es)

-- The path is shorter than the fuel at the start.
IsPath-length :
    (es : List Entry) (id : Text) (as' : List Text)
    → IsPath es id as'
    → unique as' ≡ true
    → length as' ≤ length es
IsPath-length es id as' p u =
    subst (λ (n : ℕ). length as' ≤ n) (length-entries es)
      (unique-length as' (map (λ (e : Entry). e.0) es) u (IsPath-keys es id as' p))

-- What the search of an id answers: a cycle where it says so, and otherwise the path as it was.
abbrev Answers : List Entry → List Text → Bool × Search → Type 0
Answers es as' r = (r.0 ≡ true → IsCyclic es) × (r.0 ≡ false → r.1.active ≡ as')

visit_any-Answers :
    (es : List Entry) (f : Text → Search → Bool × Search) (as' ids : List Text)
    → ((id : Text) (st : Search)
        → includes id ids ≡ true
        → st.active ≡ as'
        → Answers es as' (f id st))
    → (st : Search) → st.active ≡ as'
    → Answers es as' (visit_any f ids st)
unfolding visit_any includes
visit_any-Answers es f as' [] answers st e = (λ h. cc, λ h. e)
visit_any-Answers es f as' (id ∷ ids) answers st e =
    let here : includes id (id ∷ ids) ≡ true = rw (text_eq_refl id) refl in
    let (cycle, kept) = answers id st here e in
    elim (Bool-cases (f id st).0) [
      | inl found ↦ rw found (λ h. cycle found, λ h. cc)
      | inr clear ↦ rw clear (
          visit_any-Answers es f as' ids (λ a st' h e'. answers a st' (ground (arith, h)) e')
            (f id st).1 (kept clear))
    ]

leave-Answers :
    (es : List Entry) (id : Text) (as' : List Text) (r : Bool × Search)
    → includes id as' ≡ false
    → Answers es (id ∷ as') r
    → Answers es as' (leave id r)
unfolding leave
leave-Answers es id as' (true, st) absent (cycle, kept) = (λ h. cycle refl, λ h. cc)
leave-Answers es id as' (false, st) absent (cycle, kept) = (
  λ h. cc,
  λ h. ap (without id) (kept refl) ∙ rw (text_eq_refl id) (without-absent id as' absent),
)

visit-Answers :
    (es : List Entry) (fuel : ℕ) (as' : List Text) (id : Text) (st : Search)
    → length as' + fuel ≡ suc (suc (length es))
    → unique as' ≡ true
    → IsPath es id as'
    → st.active ≡ as'
    → Answers es as' (visit es fuel id st)
unfolding visit unique includes
visit-Answers es zero as' id st bound u p e = absurd (omega (arith, IsPath-length es id as' p u))
visit-Answers es (suc fuel) as' id st bound u p e = elim (Bool-cases (includes id as')) [
  | inl back ↦
      let active : includes id st.active ≡ true = rw e back in
      rw (visit, active) (λ h. (id, IsPath-DependsOn es id as' p id back), λ h. e)
  | inr fresh ↦
      let idle : includes id st.active ≡ false = rw e fresh in
      elim (Bool-cases (includes id st.visited)) [
        | inl seen ↦ rw (visit, idle, seen) (λ h. cc, λ h. e)
        | inr unseen ↦
            let path : unique (id ∷ as') ≡ true = rw fresh u in
            rw (visit, idle, unseen)
              (leave-Answers es id as'
                (visit_any (visit es fuel) (dependencies_of es id)
                  (record st { active = id ∷ st.active }))
                fresh
                (visit_any-Answers es (visit es fuel) (id ∷ as') (dependencies_of es id)
                  (λ d st' h e'.
                    visit-Answers es fuel (id ∷ as') d st' (omega (arith, bound)) path (h, p) e')
                  (record st { active = id ∷ st.active }) (ap (λ (ts : List Text). id ∷ ts) e)))
      ]
]

-- If the search reports a cycle there is one: some id depends on itself, directly or through others.
-- So its fuel, two more than the entries of the map, does not run out.
pub has_dependency_cycle-IsCyclic :
    (es : List Entry) → has_dependency_cycle es ≡ true → (a : Text) × DependsOn es a a
unfolding has_dependency_cycle unique
has_dependency_cycle-IsCyclic es h =
    (visit_any-Answers es (visit es (suc (suc (length es)))) [] (keys es)
        (λ id st k e. visit-Answers es (suc (suc (length es))) [] id st (omega arith) refl tt e)
        (record { visited = []; active = [] }) refl).0
      h
