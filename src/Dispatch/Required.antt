-- ===== src/Dispatch/Required.antt =====
-- What the gates in front of the token budget require of a handoff, src/governed-core/dispatch.ts.
use autopilot_beta.Prelude.{
  is_blank, sym, &&_split3, Result, guard, ◌>>◌, if◌then◌else◌, [], codes, text_eq_refl, &&_split,
  false≢true, ◌≡◌, refl, inl, inr, ◌⊎◌, Bool, true, false, not, ◌||◌, Option, none, some, Text,
  text_eq, text_eq→≡, length, ltb, Option-cases, ok, then-ok, guard-ok, arith,
}
use autopilot_beta.Dispatch.Modes.{
  Mode, idea, spec, build, review, RoutingLane, agy_fast, agy_deep, agy_gpt_oss_120b,
  agy_claude_sonnet_4_6, openrouter_nemotron_planning, openrouter_qwen3_code_draft, qwen_local_lane,
  deterministic_tools, claude_supervisor, codex_lane, has_lane, expensive_lanes,
  expensive_lanes_allowed, is_lane_allowed, is_prep_satisfied,
}
use autopilot_beta.Dispatch.Handoff.{
  missing_required_checks, lane_not_allowed_in_mode, missing_upstream_draft, Handoff, Host,
  routing_no_viable_provider,
}
use autopilot_beta.Dispatch.Gates.{
  live_hash, is_viable, resolve_handoff_lane, resolve_tier, passes_lane, is_expensive, needs_draft,
  has_draft, has_non_empty, pass_checks,
}

-- An expensive lane only in a mode that allows expensive lanes.
abbrev pub keeps_wall : Handoff → Bool
keeps_wall h = elim h.routing_mode [
  | none ↦ true
  | some m ↦ expensive_lanes_allowed m || not (is_expensive (resolve_handoff_lane h))
]

-- A handoff that names a mode has a lane, and the mode allows it.
abbrev pub HasLane : Handoff → Type 0
HasLane h =
    (m : Mode)
    → h.routing_mode ≡ some m
    → (l : RoutingLane) × (resolve_handoff_lane h ≡ some l) × (is_lane_allowed m l ≡ true)

-- The upstream draft: a packet and its hash, which are not blank, and the preparation.
abbrev pub HasDraft : Handoff → Type 0
HasDraft h =
    ((ref : Text) × (h.task_packet_ref ≡ some ref) × (is_blank ref ≡ false))
    × ((hash : Text) × (h.task_package_hash ≡ some hash) × (is_blank hash ≡ false))
    × (is_prep_satisfied h.prep_provenance ≡ true)

-- An expensive lane that builds has the draft.
abbrev pub IsPrepared : Handoff → Type 0
IsPrepared h =
    h.routing_mode ≡ some build
    → (resolve_handoff_lane h ≡ some claude_supervisor) ⊎ (resolve_handoff_lane h ≡ some codex_lane)
    → HasDraft h

-- What is true of a handoff whose worker is started.
abbrev pub IsGoverned : Host → Handoff → Type 0
IsGoverned host h =
    (live_hash host h ≡ h.packet_hash)
    × ((h.has_routing ≡ false)
        ⊎ (¬ ((host.assigned h).0 ≡ []) × ¬ ((host.assigned h).0 ≡ codes "none")))
    × (ltb 0 (length h.required_checks) ≡ true)
    × HasLane h
    × (keeps_wall h ≡ true)
    × IsPrepared h

wall :
    (m : Mode) (l : RoutingLane)
    → is_lane_allowed m l ≡ true
    → (expensive_lanes_allowed m || not (has_lane expensive_lanes l)) ≡ true
unfolding is_lane_allowed
wall spec l h = refl
wall build l h = refl
wall review l h = refl
wall idea agy_fast h = refl
wall idea agy_deep h = refl
wall idea agy_gpt_oss_120b h = refl
wall idea agy_claude_sonnet_4_6 h = refl
wall idea openrouter_nemotron_planning h = refl
wall idea openrouter_qwen3_code_draft h = cc
wall idea qwen_local_lane h = cc
wall idea deterministic_tools h = cc
wall idea claude_supervisor h = cc
wall idea codex_lane h = cc

passes-wall : (h : Handoff) → passes_lane h ≡ true → keeps_wall h ≡ true
unfolding passes_lane
passes-wall h passes = elim (Option-cases h.routing_mode) [
  | inl unset ↦ rw unset refl
  | inr (m, e) ↦
      let allowed = rw (passes_lane, e) at passes in
      elim (Option-cases (resolve_handoff_lane h)) [
        | inl unknown ↦ cc (rw unknown at allowed)
        | inr (l, f) ↦ rw (e, f) (wall m l (rw f at allowed))
      ]
]

passes_lane-HasLane : (h : Handoff) → passes_lane h ≡ true → HasLane h
unfolding passes_lane
passes_lane-HasLane h passes m e =
    let allowed = rw (passes_lane, e) at passes in
    elim (Option-cases (resolve_handoff_lane h)) [
      | inl unknown ↦ absurd (false≢true (rw unknown at allowed))
      | inr (l, f) ↦ (l, f, rw f at allowed)
    ]

or_cases : (a b : Bool) → (not a || b) ≡ true → (a ≡ false) ⊎ (b ≡ true)
or_cases a b h = ground arith

non_empty :
    (o : Option Text) → has_non_empty o ≡ true → (t : Text) × (o ≡ some t) × (is_blank t ≡ false)
unfolding has_non_empty
non_empty none h = cc
non_empty (some t) h = (t, refl, ground arith)

has_draft-HasDraft : (h : Handoff) → has_draft h ≡ true → HasDraft h
unfolding has_draft
has_draft-HasDraft h drafted =
    let (packet, hash, prep) =
      &&_split3 (has_non_empty h.task_packet_ref) (has_non_empty h.task_package_hash)
        (is_prep_satisfied h.prep_provenance) drafted in
    (non_empty h.task_packet_ref packet, non_empty h.task_package_hash hash, prep)

draft-IsPrepared : (h : Handoff) → (not (needs_draft h) || has_draft h) ≡ true → IsPrepared h
unfolding needs_draft
draft-IsPrepared h e building expensive = elim (or_cases (needs_draft h) (has_draft h) e) [
  | inr drafted ↦ has_draft-HasDraft h drafted
  | inl needless ↦ elim expensive [
    | inl lane ↦ absurd (false≢true (sym (rw (needs_draft, building, lane) at needless)))
    | inr lane ↦ absurd (false≢true (sym (rw (needs_draft, building, lane) at needless)))
  ]
]

viable : (p : Text) → is_viable p ≡ true → ¬ (p ≡ []) × ¬ (p ≡ codes "none")
viable p h =
    let (full, other) = &&_split (ltb 0 (length p)) (not (text_eq p (codes "none"))) h in
    (
      λ blank. false≢true (rw blank at full),
      λ none_left.
          let equal = text_eq_refl (codes "none") in
          let other' : not (text_eq (codes "none") (codes "none")) ≡ true = rw none_left at other in
          cc (other', equal),
    )

unrouted_or :
    {A E : Type 0} {tier : A} (none_yet : A) (b : Bool) (r : Result E A)
    → (if b then r else ok none_yet) ≡ ok tier
    → (b ≡ false) ⊎ (r ≡ ok tier)
unrouted_or none_yet true r e = inr e
unrouted_or none_yet false r e = inl refl

-- A handoff with a routing context has a provider assigned.
resolve_tier-viable :
    (host : Host) (h : Handoff) (tier : Option Text)
    → resolve_tier host h ≡ ok tier
    → (h.has_routing ≡ false)
      ⊎ (¬ ((host.assigned h).0 ≡ []) × ¬ ((host.assigned h).0 ≡ codes "none"))
unfolding resolve_tier
resolve_tier-viable host h tier e =
    elim (unrouted_or none h.has_routing
      (guard (is_viable (host.assigned h).0) routing_no_viable_provider >> ok (host.assigned h).1)
      e) [
        | inl unrouted ↦ inl unrouted
        | inr routed ↦
            let (assigned, _) =
              then-ok (is_viable (host.assigned h).0) routing_no_viable_provider routed in
            inr (viable (host.assigned h).0 assigned)
      ]

pub pass_checks-IsGoverned :
    (host : Host) (h : Handoff) (tier : Option Text)
    → text_eq (live_hash host h) h.packet_hash ≡ true
    → resolve_tier host h ≡ ok tier
    → pass_checks h ≡ ok tt
    → IsGoverned host h
unfolding pass_checks
pass_checks-IsGoverned host h tier same resolved e =
    let (checks, a) = then-ok (ltb 0 (length h.required_checks)) missing_required_checks e in
    let (lane, b) = then-ok (passes_lane h) lane_not_allowed_in_mode a in
    let draft = guard-ok (not (needs_draft h) || has_draft h) missing_upstream_draft b in
    (
      text_eq→≡ (live_hash host h) h.packet_hash same,
      resolve_tier-viable host h tier resolved,
      checks,
      passes_lane-HasLane h lane,
      passes-wall h lane,
      draft-IsPrepared h draft,
    )
