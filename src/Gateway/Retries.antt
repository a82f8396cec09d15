-- ===== src/Gateway/Retries.antt =====
-- A second reservation for the same handoff, src/data/delivery-system/tokenGateway.ts.
use autopilot_beta.Prelude.{
  ◌≡◌, refl, ap, ◌∙◌, inl, inr, Bool, true, none, some, [], ◌∷◌, Text, text_eq, text_eq_refl,
  if◌then◌else◌, Bool-cases, find, ok, err,
}
use autopilot_beta.Dict.{Dict, insert, values}
use autopilot_beta.Gateway.Types.{
  refused, route_mismatch, Input, Request, Reservation, State, normalize_request,
}
use autopilot_beta.Gateway.Store.{Env, Stamp, World}
use autopilot_beta.Gateway.Reserve.{
  admit, new_reservation, with_reservation, has_handoff, existing_reservation, same_tokens,
  reserve_request, reserve,
}
use autopilot_beta.Gateway.Charges.{reserve-state}

find-insert :
    {V : Type 0} (p : V → Bool) (k : Text) (v : V) (d : Dict V)
    → find p (values d) ≡ none
    → p v ≡ true
    → find p (values (insert k v d)) ≡ some v
find-insert p k v [] h e = rw e refl
find-insert p k v (x ∷ d) h e = elim (Bool-cases (text_eq x.0 k)) [
  | inl same ↦ rw (same, e) refl
  | inr other ↦ elim (Bool-cases (p x.1)) [
    | inl hit ↦ let bad : some x.1 ≡ none = rw hit at h in cc
    | inr miss ↦ rw (other, miss) (find-insert p k v d (rw miss at h) e)
  ]
]

existing-made :
    (made : Reservation) (s : State) (r : Request) (h : Text)
    → made.request.handoff_id ≡ some h
    → r.handoff_id ≡ some h
    → existing_reservation s made.request ≡ none
    → existing_reservation (with_reservation made s) r ≡ some made
unfolding existing_reservation with_reservation
existing-made made s r h named again fresh =
    let absent : find (has_handoff h) (values s.reservations) ≡ none = rw named at fresh in
    let hit : has_handoff h made ≡ true = rw named (text_eq_refl h) in
    rw again (find-insert (has_handoff h) made.reservation_id made s.reservations absent hit)

-- A request that names a handoff without a reservation in flight and passes the tests, and then a second
-- request with the same handoff: it changes nothing, and returns the first one's reservation where its
-- route and tokens are the same, and throws a route mismatch where they are not. That holds whether or
-- not the first reservation could be saved.
pub reserve-reserve :
    (env other : Env) (stamp later : Stamp) (input again : Input) (h : Text) (w : World)
    → (normalize_request input).handoff_id ≡ some h
    → (normalize_request again).handoff_id ≡ some h
    → existing_reservation w.state (normalize_request input) ≡ none
    → admit env.limits w.state (normalize_request input) ≡ ok tt
    → let made = new_reservation stamp (normalize_request input) in
      reserve other later again (reserve env stamp input w).1 ≡ (
        if same_tokens (normalize_request input) (normalize_request again)
            then ok made
            else err (refused route_mismatch),
        (reserve env stamp input w).1,
      )
unfolding reserve reserve_request
reserve-reserve env other stamp later input again h w named same fresh fits =
    let made = new_reservation stamp (normalize_request input) in
    let w1 = (reserve env stamp input w).1 in
    let found : existing_reservation w1.state (normalize_request again) ≡ some made =
      ap (λ (s : State). existing_reservation s (normalize_request again))
        (reserve-state env stamp input w fresh fits)
      ∙ existing-made made w.state (normalize_request again) h named same fresh in
    let run : reserve_request other later (normalize_request again) w1 ≡ (
      if same_tokens made.request (normalize_request again)
          then ok made
          else err (refused route_mismatch),
      w1,
    ) =
      rw (reserve_request, found) refl in
    run
