-- ===== src/Room/Service/Start.antt =====
-- `startRoomForOwner`, `startRoomMatch`, `createRoomMatch` and `finishRoomMatch` of
-- backend/src/room/room.service.ts: the hand-off of a room to its match.

pub mod Handoff
pub mod Failure
use mobile_final_project.Base.{String, Option, none, some, [], ◌∷◌, str_eq, ◌||◌, not, is_some}
use mobile_final_project.Room.Types.{full, matched, same_status, RoomView}
use mobile_final_project.Room.Store.{
  room_start_match, ClaimReply, claimed, claim_missing, claim_not_full, claim_invalid, claim_held,
  room_match_done, room_match_abort,
}
use mobile_final_project.Room.Requests.{
  RoomError, room_not_found, room_not_waiting, room_owner_only, room_not_full, room_match_starting,
  room_state, Action, pure, throw, access, gets, ask, draw, ◌>>=◌, ◌>>◌, modify, throw_if, or_throw,
  send, on_error,
}
use mobile_final_project.Room.Service.{Outside, load_room_if_exists}

-- A `string` that may be null, in a text
abbrev pub text_or_null : Option String → String
text_or_null none = "null"
text_or_null (some text) = text

-- A room that is matched, with its match.
abbrev pub matched_view : RoomView → String → RoomView
matched_view v match_id = record v {
  guest_id = some (text_or_null v.guest_id);
  status = matched;
  match_id = some match_id;
}

unfoldable pub finish_room_match : RoomView → String → Action RoomView
finish_room_match v match_id = do
  recorded ←
      access (room_match_done v.room_id v.join_code v.owner_id (text_or_null v.guest_id) match_id)
  send (room_state v.room_id (matched_view v recorded) (v.owner_id ∷ text_or_null v.guest_id ∷ []))
  pure (matched_view v recorded)

abbrev pub code_of : Option RoomView → String
code_of none = ""
code_of (some v) = v.join_code

abbrev pub not_claimed : RoomView → RoomError → Action RoomView
not_claimed v e = elim v.match_id [ none ↦ throw e | some match_id ↦ finish_room_match v match_id ]

abbrev pub finish_for : String → String → String → Option RoomView → String → Action RoomView
finish_for room_id owner guest view = finish_room_match (record {
  room_id = room_id;
  join_code = code_of view;
  owner_id = owner;
  guest_id = some guest;
  status = full;
  match_id = none;
})

module _ (outside : Outside) where
  -- `active(owner) ?? active(guest)`
  abbrev pub or_active : Option String → String → Action (Option String)
  or_active none guest = ask (outside.active_match guest)
  or_active (some match_id) guest = pure (some match_id)

  abbrev pub match_for : Option String → String → String → String → String → Action String
  match_for (some orphan) room_id owner guest token = pure orphan
  match_for none room_id owner guest token =
      on_error (ask (outside.pair_players owner guest)) (modify (room_match_abort room_id token))

  -- `findActiveByUserId(ownerId) ?? findActiveByUserId(guestId)`
  unfoldable pub find_orphan : String → String → Action (Option String)
  find_orphan owner guest = do first ← ask (outside.active_match owner); or_active first guest

  abbrev pub with_orphan :
      String → String → String → String → Option RoomView → Option String → Action RoomView
  with_orphan room_id owner guest token view orphan =
      match_for orphan room_id owner guest token >>= finish_for room_id owner guest view

  unfoldable pub create_room_match :
      String → String → String → String → Option RoomView → Action RoomView
  create_room_match room_id owner guest token view =
      find_orphan owner guest >>= with_orphan room_id owner guest token view

  abbrev pub after_claim : String → String → Option RoomView → ClaimReply → Action RoomView
  after_claim room_id token view (claimed owner guest) =
      create_room_match room_id owner guest token view
  after_claim room_id token view claim_missing = throw room_not_found
  after_claim room_id token none claim_not_full = throw room_not_found
  after_claim room_id token none claim_invalid = throw room_not_found
  after_claim room_id token none claim_held = throw room_not_found
  after_claim room_id token (some v) claim_held = not_claimed v room_match_starting
  after_claim room_id token (some v) claim_not_full = not_claimed v room_not_waiting
  after_claim room_id token (some v) claim_invalid = not_claimed v room_not_waiting

  abbrev pub claim_match_for : String → Option RoomView → Action RoomView
  claim_match_for room_id view = do
    token ← draw outside.random_id
    claim ← access (room_start_match room_id token)
    after_claim room_id token view claim

  unfoldable pub start_room_match : String → Action RoomView
  start_room_match room_id = load_room_if_exists (some room_id) >>= claim_match_for room_id

  unfoldable pub start_room_for_owner : String → Action RoomView
  start_room_for_owner owner = do
    key ← gets (λ s. s.users owner)
    view ← load_room_if_exists key
    room ← or_throw view room_not_found
    throw_if (not (str_eq room.owner_id owner)) room_owner_only
    throw_if (not (same_status room.status full) || not (is_some room.guest_id)) room_not_full
    start_room_match room.room_id
