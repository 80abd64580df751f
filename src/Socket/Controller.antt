-- ===== src/Socket/Controller.antt =====
-- The state of `useGameWebSocketController` in frontend/src/components/game-websocket-provider.tsx, and
-- the actions that wait for a result. The state holds the refs of the hook, the lobby's state of the
-- store, and what the browser holds for it: the sockets that it has made, the requests for a session
-- that are not answered, the timers of actions, the promises that are settled, and what was given to
-- sockets to send.
pub mod Sockets
pub mod Steps
pub mod Silent
pub mod Single
pub mod Requests
pub mod Keeps
pub mod Orders
pub mod Final
pub mod Recovery
use compositions.Prelude.{
  ℕ, suc, ◌+◌, ◌*◌, ◌^◌, min, String, Bool, true, false, not, ◌&&◌, ◌||◌, ◌>>=◌, Option, none, some,
  List, [], ◌∷◌, ◌++◌, map, ◌==◌, ◌!=◌, if◌then◌else◌, get_or, is_some, filter, any, find?,
  get_elem?, set, contains, length, nat_eq, string_eq, option_eq,
}
use compositions.Snapshots.Room.{ActionResult}
use compositions.Drafts.{truthy}
use compositions.Socket.{
  ErrorCode, string_code, ConnectionStatus, disconnected, connecting, LobbyState,
  empty_social_state, with_error, clear_error, Payload, action_result_of, reduce_incoming_message,
  set_connection_error,
}

pub record PendingAction : Type 0 where
  pub request_id : String
  pub player_id : Option String
  pub expected_action : String

-- What the promise of an action comes to.
pub data Settlement : Type 0 where
  resolved : ActionResult → Settlement
  rejected : String → Settlement

pub data ReadyState : Type 0 where
  opening live closing closed : ReadyState

-- A socket, with the number of the attempt that its handlers close over.
pub record Socket : Type 0 where
  pub attempt : ℕ
  pub ready_state : ReadyState

-- A message given to a socket: its type, the request id of an action, and the session id of a first
-- message. The other data is passed on as it is.
pub record Sent : Type 0 where
  pub socket : ℕ
  pub type : String
  pub request_id : Option String
  pub session_id : Option String

pub record Controller : Type 0 where
  pub socket : Option ℕ
  pub connect_attempt : ℕ
  pub connect_in_flight : Bool
  pub reconnect_timer : Option ℕ
  pub reconnect_attempt : ℕ
  pub pending_actions : List PendingAction
  pub lobby : LobbyState
  pub sockets : List Socket
  pub awaiting : List ℕ
  pub action_timers : List String
  pub settled : List (String × Settlement)
  pub sent : List Sent

-- `updateState(updater)`
abbrev pub update_state : (LobbyState → LobbyState) → Controller → Controller
update_state updater c = record c { lobby = updater c.lobby }

abbrev pub set_status : ConnectionStatus → LobbyState → LobbyState
set_status status lobby = record lobby { connection_status = status }

-- `window.clearTimeout(pending.timer)`
abbrev pub clear_action_timer : String → List String → List String
clear_action_timer request_id = filter (λ id. id != request_id)

-- The loop over the rejected actions.
unfoldable pub reject_each : String → List PendingAction → Controller → Controller
reject_each message [] c = c
reject_each message (pending ∷ actions) c = reject_each message actions (record c {
  action_timers = clear_action_timer pending.request_id c.action_timers;
  settled = c.settled ++ (pending.request_id, rejected message) ∷ [];
})

-- Without a request id all actions are rejected.
unfoldable pub reject_pending_actions : String → Option String → Controller → Controller
reject_pending_actions message none c =
    reject_each message c.pending_actions (record c { pending_actions = [] })
reject_pending_actions message (some request_id) c =
    reject_each message (filter (λ pending. pending.request_id == request_id) c.pending_actions)
      (record c {
        pending_actions = filter (λ pending. pending.request_id != request_id) c.pending_actions;
      })

-- The test of `resolvePendingAction`.
abbrev pub is_answered_by : ActionResult → PendingAction → Bool
is_answered_by result pending =
    result.request_id == some pending.request_id
    && result.action == some pending.expected_action
    && (not (is_some (truthy pending.player_id)) || result.player_id == pending.player_id)

-- The first action that passes a test, and the others.
unfoldable pub take_first :
    (PendingAction → Bool) → List PendingAction → Option (PendingAction × List PendingAction)
take_first p [] = none
take_first p (pending ∷ actions) =
    let rest = take_first p actions in
    if p pending
    then some (pending, actions)
    else rest >>= (λ found. some (found.0, pending ∷ found.1))

abbrev pub settlement_of : ActionResult → Settlement
settlement_of result = if result.ok then resolved result else rejected "send_failed"

unfoldable pub resolve_pending_action : Option Payload → Controller → Controller
resolve_pending_action none c = c
resolve_pending_action (some payload) c =
    let result = action_result_of payload in
    elim (take_first (is_answered_by result) c.pending_actions) [
      | none ↦ c
      | some found ↦ record c {
        pending_actions = found.1;
        action_timers = clear_action_timer found.0.request_id c.action_timers;
        settled = c.settled ++ (found.0.request_id, settlement_of result) ∷ [];
      }
    ]

-- `typeof data.code === "string" ? data.code : "internal_error"`
abbrev pub code_text : Option ErrorCode → String
code_text (some (string_code code)) = code
code_text _ = "internal_error"

-- The rejection of the action that an error names.
unfoldable pub reject_failed_action : Option Payload → Controller → Controller
reject_failed_action none c = c
reject_failed_action (some payload) c = elim payload.request_id [
  | none ↦ c
  | some request_id ↦
      if any
        (λ pending.
          pending.request_id == request_id && payload.action == some pending.expected_action)
        c.pending_actions
      then reject_pending_actions (get_or (code_text payload.code) payload.message)
          (truthy (some request_id)) c
      else c
]

unfoldable pub apply_incoming_message : String → Option Payload → Controller → Controller
apply_incoming_message type payload c =
    let resolved = if type == "action_result" then resolve_pending_action payload c else c in
    let checked = if type == "error" then reject_failed_action payload resolved else resolved in
    update_state (λ lobby. reduce_incoming_message lobby type payload) checked

-- The actions whose result is for one player.
abbrev pub player_actions : List String
player_actions =
    "play" ∷ "play_and_discard" ∷ "discard" ∷ "forfeit_game" ∷ "request_end_game" ∷ "vote_end_game"
    ∷ "report_issue" ∷ []

abbrev pub is_live : Option Socket → Bool
is_live none = false
is_live (some socket) = elim socket.ready_state [ live ↦ true | _ ↦ false ]

abbrev pub socket_at : Controller → ℕ → Option Socket
socket_at c i = get_elem? c.sockets i

-- A new action waits, with its timer.
unfoldable pub await_result : String → String → Controller → Controller
await_result type request_id c = record c {
  pending_actions =
      c.pending_actions
      ++ record {
        request_id = request_id;
        player_id = if contains player_actions type then some c.lobby.player_id else none;
        expected_action = type;
      }
        ∷ [];
  action_timers = c.action_timers ++ request_id ∷ [];
}

abbrev pub await_result_of : String → Option String → Controller → Controller
await_result_of type none c = c
await_result_of type (some request_id) c = await_result type request_id c

abbrev pub open_socket : Controller → Option ℕ
open_socket c = c.socket >>= (λ i. if is_live (socket_at c i) then some i else none)

-- Without an open socket.
unfoldable pub send_unavailable : Option String → Controller → Controller
send_unavailable awaited c =
    let shown =
      update_state
        (λ lobby.
          with_error lobby (string_code "connection_unavailable")
            (string_code "connection_unavailable"))
        c in
    elim awaited [
      | none ↦ shown
      | some request_id ↦ record shown {
        settled = c.settled ++ (request_id, rejected "connection_unavailable") ∷ [];
      }
    ]

unfoldable pub send_on : ℕ → String → Option String → Option String → Controller → Controller
unfolding await_result reject_pending_actions
send_on i type awaited none c =
    update_state (λ lobby. clear_error (record lobby { last_event = some type }))
      (record (await_result_of type awaited c) {
        sent =
            c.sent
            ++ record { socket = i; type = type; request_id = awaited; session_id = none } ∷ [];
      })
send_on i type none (some message) c =
    update_state (λ lobby. with_error lobby (string_code "send_failed") (string_code "send_failed"))
      c
send_on i type (some request_id) (some message) c =
    reject_pending_actions message (truthy (some request_id)) (await_result type request_id c)

-- `send(type, data, options)`: `awaited` is the new request id where the result is awaited, and
-- `failure` the message of the error that `socket.send` throws, if it throws.
unfoldable pub send : String → Option String → Option String → Controller → Controller
unfolding send_unavailable send_on
send type awaited failure c = elim (open_socket c) [
  | none ↦ send_unavailable awaited c
  | some i ↦ send_on i type awaited failure c
]
