-- ===== src/Gateway/Calls.antt =====
-- Sequences of calls of the gateway of src/data/delivery-system/tokenGateway.ts, a new process among
-- them, which reads the state file again.
use autopilot_beta.Prelude.{inl, inr, Bool, none, some, List, [], ◌∷◌, Text, arith, Bool-cases}
use autopilot_beta.Gateway.Types.{Input, GroupSpec, Reservation, Usage, State}
use autopilot_beta.Gateway.Store.{Env, Stamp, World}
use autopilot_beta.Gateway.Reserve.{reserve}
use autopilot_beta.Gateway.Settle.{settle, release, acknowledge_terminal}
use autopilot_beta.Gateway.Groups.{reserve_group, claim_group_slot, release_group_slots}
use autopilot_beta.Gateway.Coherent.{load, is_gateway_state}
use autopilot_beta.Gateway.Within.{Within, Sound, Both}
use autopilot_beta.Gateway.Stable.{Stable}
use autopilot_beta.Gateway.Preserved.{
  reserve-Both, settle-Both, release-Both, acknowledge_terminal-Both, reserve_group-Both,
  claim_group_slot-Both,
}
use autopilot_beta.Gateway.Freed.{release_group_slots-Both}
use autopilot_beta.Gateway.SlotsKept.{Within-Stable}

pub data Call : Type 0 where
  reserving : Stamp → Input → Call
  grouping : GroupSpec → Call
  claiming : Stamp → Text → Text → Input → Call
  freeing : Stamp → Text → List Text → Call
  settling : Stamp → Reservation → Usage → Call
  releasing : Stamp → Reservation → Call
  acknowledging : Text → Call
  restarting : Call

-- A new gateway on the same directory; where the file is refused, there is none, and the old one stays.
abbrev pub restart : (Text → Bool) → World → World
restart canonical w = elim (load canonical w) [ none ↦ w | some w' ↦ w' ]

unfoldable pub perform : Env → (Text → Bool) → Call → World → World
unfolding reserve reserve_group claim_group_slot release_group_slots settle release
    acknowledge_terminal
perform env canonical (reserving stamp input) w = (reserve env stamp input w).1
perform env canonical (grouping spec) w = (reserve_group env spec w).1
perform env canonical (claiming stamp group_id slot_id input) w =
    (claim_group_slot env stamp group_id slot_id input w).1
perform env canonical (freeing stamp group_id ids) w =
    (release_group_slots env stamp group_id ids w).1
perform env canonical (settling stamp r usage) w = (settle env stamp r usage w).1
perform env canonical (releasing stamp r) w = (release env stamp r w).1
perform env canonical (acknowledging id) w = (acknowledge_terminal env id w).1
perform env canonical restarting w = restart canonical w

unfoldable pub perform_all : Env → (Text → Bool) → List Call → World → World
unfolding perform
perform_all env canonical [] w = w
perform_all env canonical (c ∷ cs) w = perform_all env canonical cs (perform env canonical c w)

abbrev pub empty_state : State
empty_state = record { used = []; reservations = []; terminal = []; groups = [] }

-- The gateway on a directory without a state file.
abbrev pub new_gateway : World
new_gateway = record { state = empty_state; disk = empty_state; log = [] }

restart-Both :
    (P : State → Type 0) (canonical : Text → Bool) (w : World)
    → Both P w
    → Both P (restart canonical w)
unfolding load
restart-Both P canonical w h = elim (Bool-cases (is_gateway_state canonical w.disk)) [
  | inl valid ↦ rw (restart, load, valid) (h.1, h.1)
  | inr wrong ↦ rw (restart, load, wrong) h
]

module _ (env : Env) (canonical : Text → Bool) (P : State → Type 0) (stable : Stable env P) where
  perform-Both : (c : Call) (w : World) → Both P w → Both P (perform env canonical c w)
  unfolding perform
  perform-Both (reserving stamp input) w = reserve-Both env P stable stamp input w
  perform-Both (grouping spec) w = reserve_group-Both env P stable spec w
  perform-Both (claiming stamp g s input) w = claim_group_slot-Both env P stable stamp g s input w
  perform-Both (freeing stamp g ids) w = release_group_slots-Both env P stable stamp g ids w
  perform-Both (settling stamp r usage) w = settle-Both env P stable stamp r usage w
  perform-Both (releasing stamp r) w = release-Both env P stable stamp r w
  perform-Both (acknowledging id) w = acknowledge_terminal-Both env P stable id w
  perform-Both restarting w = restart-Both P canonical w

  pub perform_all-Both :
      (cs : List Call) (w : World) → Both P w → Both P (perform_all env canonical cs w)
  unfolding perform_all
  perform_all-Both [] w h = h
  perform_all-Both (c ∷ cs) w h =
      perform_all-Both cs (perform env canonical c w) (perform-Both c w h)

-- From an empty directory, after any sequence of reservations, group reservations, claims, slot
-- releases, settlements, releases, acknowledgements and restarts, whatever they return or throw (a
-- failed write of the state included): in memory and on disk, the usage of every provider, model and
-- session is within its budget, and so are the tokens of every reservation and the hold of every slot.
pub new_gateway-Sound :
    (env : Env) (canonical : Text → Bool) (cs : List Call)
    → Sound env.limits (perform_all env canonical cs new_gateway)
new_gateway-Sound env canonical cs =
    let empty : Within env.limits empty_state =
      (λ r. (ground arith, ground arith, ground arith), tt, tt) in
    perform_all-Both env canonical (Within env.limits) (Within-Stable env) cs new_gateway
      (empty, empty)
