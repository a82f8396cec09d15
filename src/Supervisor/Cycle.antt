-- ===== src/Supervisor/Cycle.antt =====
-- hasDependencyCycle of src/data/delivery-system/supervisorQueue.ts: a depth-first search over
-- the dependency map, with the sets `visited` and `active`. `visit` recurs on fuel; an id in
-- `active` is never entered again, and only a key of the map has dependencies, so two more rounds
-- than there are keys are enough.
use autopilot_beta.Prelude.{
  ℕ, zero, suc, Bool, true, false, not, List, [], ◌∷◌, Option, none, some, Text, text_eq, includes,
  length, if◌then◌else◌, map, filter, or_default, dedup_from,
}

-- One entry of the map: a task's id and its dependencies.
abbrev pub Entry : Type 0
Entry = Text × List Text

-- `dependencies.get(id)`: of two entries with one key the later has replaced the earlier.
unfoldable pub get_entry : List Entry → Text → Option (List Text)
get_entry [] id = none
get_entry ((k, ds) ∷ es) id = elim (get_entry es id) [
  | some later ↦ some later
  | none ↦ if text_eq k id then some ds else none
]

unfoldable pub dependencies_of : List Entry → Text → List Text
unfolding get_entry
dependencies_of es id = or_default (get_entry es id) []

-- The two sets of the search.
pub record Search : Type 0 where
  pub visited : List Text
  pub active : List Text

-- `ids.some(visit)`, over the shared sets.
unfoldable pub visit_any : (Text → Search → Bool × Search) → List Text → Search → Bool × Search
visit_any visit [] st = (false, st)
visit_any visit (id ∷ ids) st =
    let (found, st') = visit id st in
    let rest = visit_any visit ids st' in if found then (true, st') else rest

-- `visit` after its two tests, with the outcome of the dependencies.
unfoldable pub leave : Text → Bool × Search → Bool × Search
leave id (true, st) = (true, st)
leave id (false, st) = (
  false,
  record { visited = id ∷ st.visited; active = filter (λ a. not (text_eq a id)) st.active },
)

unfoldable pub visit : List Entry → ℕ → Text → Search → Bool × Search
unfolding visit_any leave dependencies_of includes
visit es zero id st = (true, st)
visit es (suc fuel) id st =
    let inner =
      visit_any (visit es fuel) (dependencies_of es id) (record st { active = id ∷ st.active }) in
    if includes id st.active
    then (true, st)
    else if includes id st.visited
    then (false, st)
    else leave id inner

abbrev pub keys : List Entry → List Text
keys es = dedup_from [] (map (λ e. e.0) es)

unfoldable pub has_dependency_cycle : List Entry → Bool
unfolding visit dedup_from
has_dependency_cycle es =
    (visit_any (visit es (suc (suc (length es)))) (keys es)
      (record { visited = []; active = [] })).0
