-- ===== src/Tests/Connection.antt =====
-- The theorems on the connection, at a concrete run of the controller.
use compositions.Prelude.{
  ℕ, ◌+◌, ◌*◌, ◌≤◌, ◌≡◌, ◌≢◌, refl, String, true, false, ◌==◌, Option, none, some, [], ◌∷◌, ◌++◌,
  min, suc, if◌then◌else◌, is_some, contains, length, string_eq, nat_eq, option_eq,
}
use compositions.Socket.{
  string_code, other_code, connected, disconnected, initial_state, Payload, message_type,
  reduce_incoming_message, with_error, clear_error, game_error_message, reduce_connected,
  reduce_error, reduce_as, is_rejected_session_error, is_social_action, set_connection_error,
}
use compositions.Socket.Errors.{Outcome, reduce_incoming_message-Outcome}
use compositions.Socket.Controller.{
  Controller, resolved, rejected, opening, live, closing, closed, is_live, socket_at, reject_each,
  reject_pending_actions, take_first, resolve_pending_action, reject_failed_action,
  apply_incoming_message, await_result, send_unavailable, send_on, send,
}
use compositions.Socket.Connection.{
  session, Envelope, reconnect_delay, schedule_reconnect, connect, auth_answered, set_ready,
  on_open, parse_envelope, on_message, handle_connection_loss, on_error, on_close,
  cancel_pending_connect, disconnect, reconnect_timer_fired, action_timer_fired,
}
use compositions.Socket.Controller.Steps.{
  pending_ids, settled_ids, connects, answers, opens, closes, sends, Reach, start, later,
}
use compositions.Socket.Controller.Sockets.{Moves, link}
use compositions.Socket.Controller.Single.{Step-Moves, one_usable_socket}
use compositions.Socket.Controller.Orders.{waiting_times_out}
use compositions.Socket.Controller.Final.{shown, Run, still, next, is_connect, disconnect_is_final}
use compositions.Socket.Controller.Recovery.{reconnect_delay-bounds, connects_again}

connection : Unit {0}
unfolding game_error_message with_error clear_error is_rejected_session_error is_social_action
    message_type reduce_connected reduce_error reduce_as reduce_incoming_message reject_each
    reject_pending_actions take_first resolve_pending_action reject_failed_action
    apply_incoming_message await_result send_unavailable send_on send reconnect_delay
    schedule_reconnect connect auth_answered on_open handle_connection_loss on_error on_close
    cancel_pending_connect disconnect reconnect_timer_fired action_timer_fired is_connect
    parse_envelope on_message set_connection_error
connection = tt

abbrev empty_payload : Payload
empty_payload = record {
  session_id = none;
  player_id = none;
  room = none;
  game = none;
  spectating = false;
  request_id = none;
  action = none;
  ok = false;
  user_id = none;
  friends = none;
  incoming_friend_requests = none;
  outgoing_friend_request_user_ids = none;
  game_invites = none;
  code = none;
  message = none;
}

abbrev played : Payload
played = record empty_payload { request_id = some "id-1"; action = some "draw_card"; ok = true }

abbrev not_your_turn : Payload
not_your_turn = record empty_payload { code = some (string_code "not_your_turn") }

-- A parser that knows two messages.
abbrev json_parse : String → Option Envelope
json_parse text =
    if text == "connected"
    then some (record {
      type = some "connected";
      payload = some (record empty_payload { session_id = some "s-7" });
    })
    else if text == "played"
    then some (record { type = some "action_result"; payload = some played })
    else none

abbrev no_controller : Controller
no_controller = record {
  socket = none;
  connect_attempt = 0;
  connect_in_flight = false;
  reconnect_timer = none;
  reconnect_attempt = 0;
  pending_actions = [];
  lobby = initial_state;
  sockets = [];
  awaiting = [];
  action_timers = [];
  settled = [];
  sent = [];
}

abbrev asked : Controller
asked = connect true no_controller

abbrev made : Controller
made = auth_answered 1 session asked

abbrev up : Controller
up = on_open 0 (set_ready 0 live made)

abbrev waiting : Controller
waiting = send "draw_card" (some "id-1") none up

run_tests :
    (up.socket ≡ some 0)
    × (is_live (socket_at up 0) ≡ true)
    × (pending_ids waiting ≡ "id-1" ∷ [])
    × ((on_message json_parse (some "played") waiting).settled
        ≡ (
          "id-1",
          resolved (record {
            request_id = some "id-1";
            action = some "draw_card";
            player_id = none;
            ok = true;
          }),
        )
          ∷ [])
    × ((action_timer_fired "id-1" waiting).settled ≡ ("id-1", rejected "command_timeout") ∷ [])
    × ((on_message json_parse (some "?") waiting).lobby.last_error_code
        ≡ some (string_code "invalid_server_message"))
    × ((reduce_incoming_message initial_state "error"
          (some (record empty_payload { code = some (other_code "7") }))).last_error
        ≡ some "error_unknown")
    × ((on_close 0 (set_ready 0 closed waiting)).reconnect_timer ≡ some 500)
    × ((send "draw_card" (some "id-2") none no_controller).settled
        ≡ ("id-2", rejected "connection_unavailable") ∷ [])
unfolding connection
run_tests = (refl, refl, refl, refl, refl, refl, refl, refl, refl)

made_reached : Reach json_parse made
unfolding connection
made_reached = later (later start (connects true)) (answers 1 session refl)

up_reached : Reach json_parse up
unfolding connection
up_reached = later made_reached (opens 0 (record { attempt = 1; ready_state = opening }) refl refl)

waiting_reached : Reach json_parse waiting
unfolding connection
waiting_reached = later up_reached (sends "draw_card" (some "id-1") none (refl, refl))

one_usable_socket_example : (◌≡◌ {A = ℕ} 0 0) × (up.socket ≡ some 0)
unfolding connection
one_usable_socket_example = one_usable_socket json_parse up 0 0 up_reached refl refl

Step-Moves_example : Moves (link asked) (link made)
unfolding connection
Step-Moves_example = Step-Moves json_parse asked made (answers 1 session refl)

waiting_times_out_example :
    (contains waiting.action_timers "id-1" ≡ true)
    × (contains (settled_ids (action_timer_fired "id-1" waiting)) "id-1" ≡ true)
    × (contains (pending_ids (action_timer_fired "id-1" waiting)) "id-1" ≡ false)
unfolding connection
waiting_times_out_example = waiting_times_out json_parse waiting "id-1" waiting_reached refl

-- The old socket is closed, and something is sent in vain.
abbrev closed_after : Controller
closed_after = on_close 0 (set_ready 0 closed (disconnect waiting))

abbrev later_on : Controller
later_on = send "draw_card" (some "id-2") none closed_after

is_closing : closing ≢ closed
is_closing = cc

ends_at : Run json_parse (disconnect waiting) later_on
unfolding connection
ends_at =
    next
      (next still (closes 0 (record { attempt = 1; ready_state = closing }) refl is_closing) refl)
      (sends "draw_card" (some "id-2") none (refl, refl)) refl

disconnect_is_final_example :
    (later_on.socket ≡ none)
    × (later_on.reconnect_timer ≡ none)
    × (length later_on.sockets ≡ length waiting.sockets)
    × (later_on.sent ≡ waiting.sent)
    × (shown later_on ≡ (disconnected, none, none))
unfolding connection
disconnect_is_final_example =
    disconnect_is_final json_parse waiting later_on waiting_reached ends_at

reconnect_delay-bounds_example :
    (500 ≤ reconnect_delay 2)
    × (reconnect_delay 2 ≤ 5000)
    × (reconnect_delay 2 ≤ reconnect_delay (suc 2))
    × (reconnect_delay (suc 2) ≡ min (2 * reconnect_delay 2) 5000)
    × (reconnect_delay (2 + 4) ≡ 5000)
reconnect_delay-bounds_example = reconnect_delay-bounds 2

reduce_incoming_message-Outcome_example :
    Outcome
      (message_type "error")
      (some not_your_turn)
      initial_state
      (reduce_incoming_message initial_state "error" (some not_your_turn))
reduce_incoming_message-Outcome_example =
    reduce_incoming_message-Outcome initial_state "error" (some not_your_turn)

abbrev gone : Controller
gone = on_close 0 (set_ready 0 closed waiting)

abbrev asked_again : Controller
asked_again = reconnect_timer_fired true gone

abbrev made_again : Controller
made_again = auth_answered asked_again.connect_attempt session asked_again

abbrev up_again : Controller
up_again = on_open 1 (set_ready 1 live made_again)

abbrev ready : Controller
ready = on_message json_parse (some "connected") up_again

connects_again_example :
    (is_some gone.reconnect_timer ≡ true)
    × (gone.lobby.connection_status ≡ disconnected)
    × (contains asked_again.awaiting asked_again.connect_attempt ≡ true)
    × (socket_at made_again 1
        ≡ some (record { attempt = asked_again.connect_attempt; ready_state = opening }))
    × (ready.sent
        ≡ waiting.sent
          ++ record {
            socket = 1;
            type = "connect";
            request_id = none;
            session_id = some waiting.lobby.session_id;
          }
            ∷ [])
    × (ready.socket ≡ some 1)
    × (is_live (socket_at ready 1) ≡ true)
    × (ready.lobby.connection_status ≡ connected)
unfolding connection
connects_again_example =
    connects_again json_parse (some "connected")
      (some (record empty_payload { session_id = some "s-7" })) waiting 0 refl refl
