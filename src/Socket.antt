-- ===== src/Socket.antt =====
-- The state of the lobby in frontend/src/components/game-websocket-provider.tsx and the messages that
-- change it, with frontend/src/lib/game-error-messages.ts. A message of the user's language is its
-- key: the text is generated. What `JSON.parse` makes of a message is the record of the properties
-- that the code reads; one that is missing or not of its type is none.
pub mod Errors
pub mod Controller
pub mod Connection
use compositions.Prelude.{
  ℕ, ◌+◌, String, Bool, true, false, ◌&&◌, ◌||◌, ◌>>=◌, Option, none, some, List, [], ◌∷◌, ◌==◌,
  if◌then◌else◌, get_or, is_some, find_index?, contains, first_some, string_eq, option_eq,
}
use compositions.Snapshots.Game.{Game}
use compositions.Snapshots.Room.{
  Player, Room, ActionResult, SocialUser, FriendRequest, GameInvite, SocialState,
}
use compositions.Hand.{◌+++◌}
use compositions.Drafts.{truthy}

abbrev pub error_codes : List String
error_codes =
    "internal_error" ∷ "rate_limit_exceeded" ∷ "auth_required" ∷ "session_not_found"
    ∷ "session_user_mismatch" ∷ "connect_first" ∷ "missing_data" ∷ "invalid_data"
    ∷ "unknown_message_type" ∷ "already_in_room" ∷ "room_not_found" ∷ "room_full" ∷ "game_starting"
    ∷ "game_already_started" ∷ "join_room_first" ∷ "host_only_start" ∷ "not_enough_players"
    ∷ "players_disconnected" ∷ "deal_choice_pending" ∷ "no_deal_choice" ∷ "deal_chooser_only"
    ∷ "cut_size_required" ∷ "invalid_cut_size" ∷ "invalid_game_mode" ∷ "invalid_dealing_type"
    ∷ "invalid_dealing_order" ∷ "lobby_only_leave" ∷ "host_only_next_round" ∷ "player_inactive"
    ∷ "end_request_active" ∷ "end_request_cooldown" ∷ "unknown_end_request"
    ∷ "end_request_not_found" ∷ "vote_ineligible" ∷ "unknown_emote" ∷ "unknown_draw_source"
    ∷ "not_your_turn" ∷ "game_not_initialized" ∷ "game_not_in_progress" ∷ "game_in_progress"
    ∷ "cannot_start_next_round" ∷ "invalid_composition" ∷ "already_drew" ∷ "not_drawn"
    ∷ "cannot_take_discard" ∷ "cards_not_in_hand" ∷ "initial_points" ∷ "initial_own_composition"
    ∷ "keep_final_discard" ∷ "use_drawn_discard" ∷ "player_not_found" ∷ "already_forfeited"
    ∷ "invalid_card" ∷ "invalid_draft" ∷ "name_required" ∷ "problem_required" ∷ "problem_too_long"
    ∷ "connection_failed" ∷ "connection_lost" ∷ "connection_unavailable" ∷ "invalid_server_message"
    ∷ "send_failed" ∷ "command_timeout" ∷ []

-- What an error may carry for its code: a text, or a value that is no text and not null, which stands
-- for itself by its JSON.
pub data ErrorCode : Type 0 where
  string_code other_code : String → ErrorCode

-- The key of the message, `m.error_…`.
unfoldable pub game_error_message : ErrorCode → String
game_error_message (other_code json) = "error_unknown"
game_error_message (string_code code) =
    if contains error_codes code then "error_" +++ code else "error_unknown"

pub data ConnectionStatus : Type 0 where
  idle disconnected connecting connected : ConnectionStatus

pub record CompletedGame : Type 0 where
  pub room : Room
  pub game : Game

pub record LobbyState : Type 0 where
  pub connection_status : ConnectionStatus
  pub session_id : String
  pub player_id : String
  pub room : Option Room
  pub game : Option Game
  pub last_action_result : Option ActionResult
  pub last_error : Option String
  pub last_error_code : Option ErrorCode
  pub last_error_message : Option ErrorCode
  pub last_error_id : ℕ
  pub last_event : Option String
  pub completed_game : Option CompletedGame
  pub is_spectating : Bool
  pub social : SocialState

abbrev pub empty_social_state : SocialState
empty_social_state = record {
  user_id = "";
  friends = [];
  incoming_friend_requests = [];
  outgoing_friend_request_user_ids = [];
  game_invites = [];
}

abbrev pub initial_state : LobbyState
initial_state = record {
  connection_status = idle;
  session_id = "";
  player_id = "";
  room = none;
  game = none;
  last_action_result = none;
  last_error = none;
  last_error_code = none;
  last_error_message = none;
  last_error_id = 0;
  last_event = none;
  completed_game = none;
  is_spectating = false;
  social = empty_social_state;
}

-- `withError(current, code, partial, developerMessage)`, on the state with `partial` in it: no caller
-- puts an error into `partial`.
unfoldable pub with_error : LobbyState → ErrorCode → ErrorCode → LobbyState
unfolding game_error_message
with_error current code developer_message = record current {
  last_error = some (game_error_message code);
  last_error_code = some code;
  last_error_message = some developer_message;
  last_error_id = current.last_error_id + 1;
}

-- `clearError(current, partial)`, in the same way.
unfoldable pub clear_error : LobbyState → LobbyState
clear_error current = record current {
  last_error = none;
  last_error_code = none;
  last_error_message = none;
}

unfoldable pub is_rejected_session_error : ErrorCode → Bool
is_rejected_session_error (other_code json) = false
is_rejected_session_error (string_code code) =
    code == "session_not_found" || code == "session_user_mismatch"

abbrev pub social_actions : List String
social_actions =
    "send_friend_request" ∷ "respond_friend_request" ∷ "remove_friend" ∷ "send_game_invite"
    ∷ "respond_game_invite" ∷ "spectate_game" ∷ "stop_spectating" ∷ []

unfoldable pub is_social_action : Option String → Bool
is_social_action none = false
is_social_action (some action) = contains social_actions action

-- The properties that the code reads of a message's `data`.
pub record Payload : Type 0 where
  pub session_id : Option String
  pub player_id : Option String
  pub room : Option Room
  pub game : Option Game
  pub spectating : Bool
  pub request_id : Option String
  pub action : Option String
  pub ok : Bool
  pub user_id : Option String
  pub friends : Option (List SocialUser)
  pub incoming_friend_requests : Option (List FriendRequest)
  pub outgoing_friend_request_user_ids : Option (List String)
  pub game_invites : Option (List GameInvite)
  pub code : Option ErrorCode
  pub message : Option String

abbrev pub action_result_of : Payload → ActionResult
action_result_of payload = record {
  request_id = payload.request_id;
  action = payload.action;
  player_id = payload.player_id;
  ok = payload.ok;
}

pub data MessageType : Type 0 where
  connected_message room_state game_state spectating_ended action_result left_room social_state
        error_message unknown_message :
      MessageType

unfoldable pub message_type : String → MessageType
message_type type =
    if type == "connected"
    then connected_message
    else if type == "room_state"
    then room_state
    else if type == "game_state"
    then game_state
    else if type == "spectating_ended"
    then spectating_ended
    else if type == "action_result"
    then action_result
    else if type == "left_room"
    then left_room
    else if type == "social_state"
    then social_state
    else if type == "error"
    then error_message
    else unknown_message

abbrev pub has_phase : Option Room → String → Bool
has_phase none phase = false
has_phase (some room) phase = room.phase == phase

-- The game that a room with its game has completed.
abbrev pub completed_by : Option Room → Option Game → Option CompletedGame
completed_by room game = do
  r ← room
  g ← game
  if r.phase == "game_over" then some (record { room = r; game = g }) else none

unfoldable pub reduce_connected : LobbyState → Option Payload → LobbyState
unfolding clear_error
reduce_connected current payload = clear_error (record current {
  connection_status = connected;
  session_id = get_or current.session_id (payload >>= (λ d. d.session_id));
  player_id = get_or current.player_id (payload >>= (λ d. d.player_id));
  is_spectating = false;
  last_event = some "connected";
})

unfoldable pub reduce_room_state : LobbyState → Option Payload → LobbyState
unfolding clear_error
reduce_room_state current payload =
    let room = payload >>= (λ d. d.room) in
    clear_error (record current {
      room = room;
      game = if has_phase room "lobby" then none else current.game;
      completed_game = first_some (completed_by room current.game) current.completed_game;
      last_event = some "room_state";
    })

unfoldable pub reduce_game_state : LobbyState → Option Payload → LobbyState
unfolding clear_error
reduce_game_state current payload =
    let room = payload >>= (λ d. d.room) in
    let game = payload >>= (λ d. d.game) in
    clear_error (record current {
      room = first_some room current.room;
      game = game;
      is_spectating = elim payload [ none ↦ false | some d ↦ d.spectating ];
      completed_game = first_some (completed_by room game) (
          if has_phase room "in_progress" || has_phase room "round_over"
          then none
          else current.completed_game);
      last_event = some "game_state";
    })

unfoldable pub reduce_social_state : LobbyState → Option Payload → LobbyState
unfolding clear_error
reduce_social_state current payload = clear_error (record current {
  social = record {
    user_id = get_or current.social.user_id (payload >>= (λ d. d.user_id));
    friends = get_or [] (payload >>= (λ d. d.friends));
    incoming_friend_requests = get_or [] (payload >>= (λ d. d.incoming_friend_requests));
    outgoing_friend_request_user_ids =
        get_or [] (payload >>= (λ d. d.outgoing_friend_request_user_ids));
    game_invites = get_or [] (payload >>= (λ d. d.game_invites));
  };
  last_event = some "social_state";
})

abbrev pub unless_connecting : ConnectionStatus → ConnectionStatus
unless_connecting connecting = disconnected
unless_connecting idle = idle
unless_connecting disconnected = disconnected
unless_connecting connected = connected

unfoldable pub reduce_error : LobbyState → Option Payload → LobbyState
unfolding clear_error with_error is_social_action is_rejected_session_error
reduce_error current payload =
    let code = get_or (string_code "internal_error") (payload >>= (λ d. d.code)) in
    let message = truthy (payload >>= (λ d. d.message)) in
    let developer_message = get_or code (message >>= (λ m. some (string_code m))) in
    let action = payload >>= (λ d. d.action) in
    if action == some "draft_update" || is_social_action action
    then clear_error (record current { last_event = some "error" })
    else with_error
        (record current {
          connection_status = unless_connecting current.connection_status;
          session_id = if is_rejected_session_error code then "" else current.session_id;
          last_event = some "error";
        })
        code developer_message

unfoldable pub reduce_as : MessageType → LobbyState → Option Payload → LobbyState
unfolding clear_error with_error
reduce_as connected_message current payload = reduce_connected current payload
reduce_as room_state current payload = reduce_room_state current payload
reduce_as game_state current payload = reduce_game_state current payload
reduce_as spectating_ended current payload = clear_error (record current {
  room = none;
  game = none;
  is_spectating = false;
  last_event = some "spectating_ended";
})
reduce_as action_result current payload = clear_error (record current {
  last_action_result = payload >>= (λ d. some (action_result_of d));
  last_event = some "action_result";
})
reduce_as left_room current payload = clear_error (record current {
  room = none;
  game = none;
  completed_game = none;
  is_spectating = false;
  last_event = some "left_room";
})
reduce_as social_state current payload = reduce_social_state current payload
reduce_as error_message current payload = reduce_error current payload
reduce_as unknown_message current payload =
    with_error current (string_code "unknown_message_type") (string_code "unknown_message_type")

unfoldable pub reduce_incoming_message : LobbyState → String → Option Payload → LobbyState
reduce_incoming_message current type payload = reduce_as (message_type type) current payload

unfoldable pub get_dealer_index : Option Room → ℕ
get_dealer_index none = 0
get_dealer_index (some room) = get_or 0 (find_index? (λ player. player.is_host) room.players)

unfoldable pub set_connection_error : LobbyState → String → LobbyState
unfolding with_error
set_connection_error current message =
    with_error (record current { connection_status = disconnected }) (string_code message)
      (string_code message)
