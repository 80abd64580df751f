-- ===== src/Socket/Connection.antt =====
-- The connection of `useGameWebSocketController` in frontend/src/components/game-websocket-provider.tsx:
-- connecting, reconnecting and disconnecting, and the handlers of a socket.
use compositions.Prelude.{
  ℕ, ◌+◌, ◌*◌, ◌^◌, min, String, Bool, true, false, not, ◌&&◌, ◌||◌, ◌>>=◌, Option, none, some, [],
  ◌∷◌, ◌++◌, ◌==◌, ◌!=◌, if◌then◌else◌, filter, set, length, nat_eq, string_eq, option_eq,
}
use compositions.Drafts.{truthy}
use compositions.Socket.{
  ConnectionStatus, disconnected, connecting, empty_social_state, clear_error, Payload,
  set_connection_error,
}
use compositions.Socket.Controller.{
  ReadyState, opening, live, closing, closed, Socket, Controller, update_state, set_status,
  clear_action_timer, reject_pending_actions, apply_incoming_message, socket_at,
}

abbrev pub reconnect_base_delay_ms : ℕ
reconnect_base_delay_ms = 500

abbrev pub reconnect_max_delay_ms : ℕ
reconnect_max_delay_ms = 5000

unfoldable pub reconnect_delay : ℕ → ℕ
reconnect_delay attempt = min (reconnect_base_delay_ms * 2 ^ attempt) reconnect_max_delay_ms

unfoldable pub schedule_reconnect : Controller → Controller
unfolding reconnect_delay
schedule_reconnect c = elim c.reconnect_timer [
  | some timer ↦ c
  | none ↦ record c {
    reconnect_attempt = c.reconnect_attempt + 1;
    reconnect_timer = some (reconnect_delay c.reconnect_attempt);
  }
]

-- The socket that is open or about to open.
abbrev pub is_usable : Option Socket → Bool
is_usable none = false
is_usable (some socket) = elim socket.ready_state [ opening ↦ true | live ↦ true | _ ↦ false ]

abbrev pub has_usable_socket : Controller → Bool
has_usable_socket c = elim c.socket [ none ↦ false | some i ↦ is_usable (socket_at c i) ]

abbrev pub start_status : ConnectionStatus → ConnectionStatus
start_status disconnected = disconnected
start_status _ = connecting

-- `connect()` up to the request for a session. `server_url` tells whether one is configured. The
-- second test of the attempt, right after the store is updated, is not modelled: nothing runs in
-- between that starts another.
unfoldable pub connect : Bool → Controller → Controller
connect server_url c =
    let cleared = record c { reconnect_timer = none } in
    if c.connect_in_flight || has_usable_socket c
    then cleared
    else if not server_url
    then update_state (λ lobby. set_connection_error lobby "internal_error") cleared
    else update_state
        (λ lobby. clear_error (record lobby {
          connection_status = start_status lobby.connection_status;
          last_event = none;
        }))
        (record cleared {
          connect_attempt = c.connect_attempt + 1;
          connect_in_flight = true;
          awaiting = c.awaiting ++ (c.connect_attempt + 1) ∷ [];
        })

-- The answer to the request for a session.
pub data ConnectionAuth : Type 0 where
  unavailable no_session session : ConnectionAuth

-- The rest of `connect` for an attempt, from the answer on.
unfoldable pub auth_answered : ℕ → ConnectionAuth → Controller → Controller
auth_answered attempt auth current =
    let c = record current { awaiting = filter (λ a. a != attempt) current.awaiting } in
    if c.connect_attempt != attempt then record c { connect_in_flight = false } else elim auth [
      | unavailable ↦
          schedule_reconnect
            (update_state (set_status disconnected) (record c { connect_in_flight = false }))
      | no_session ↦
          update_state (λ lobby. set_connection_error lobby "auth_required")
            (record c { connect_in_flight = false })
      | session ↦ record c {
        socket = some (length c.sockets);
        sockets = c.sockets ++ record { attempt = attempt; ready_state = opening } ∷ [];
      }
    ]

-- `socket.close()`
abbrev pub closing_state : ReadyState → ReadyState
closing_state closed = closed
closing_state _ = closing

abbrev pub set_ready : ℕ → ReadyState → Controller → Controller
set_ready i state c = elim (socket_at c i) [
  | none ↦ c
  | some socket ↦ record c { sockets = set c.sockets i (record socket { ready_state = state }) }
]

abbrev pub close_socket : ℕ → Controller → Controller
close_socket i c = elim (socket_at c i) [
  | none ↦ c
  | some socket ↦ set_ready i (closing_state socket.ready_state) c
]

-- The tests of `onopen` and `onerror`: the attempt is the current one, and so is the socket.
abbrev pub is_current : ℕ → Controller → Bool
is_current i c =
    c.socket == some i
    && (elim (socket_at c i) [ none ↦ false | some socket ↦ c.connect_attempt == socket.attempt ])

unfoldable pub on_open : ℕ → Controller → Controller
on_open i c =
    if is_current i c
    then record c {
      connect_in_flight = false;
      reconnect_attempt = 0;
      sent =
          c.sent
          ++ record {
            socket = i;
            type = "connect";
            request_id = none;
            session_id = some c.lobby.session_id;
          }
            ∷ [];
    }
    else close_socket i c

-- What `JSON.parse` makes of a message; a type that is no text is none.
pub record Envelope : Type 0 where
  pub type : Option String
  pub payload : Option Payload

module _ (json_parse : String → Option Envelope) where
  -- Data that is no text is none.
  unfoldable pub parse_envelope : Option String → Option (String × Option Payload)
  parse_envelope raw = do
    text ← raw
    envelope ← json_parse text
    type ← truthy envelope.type
    some (type, envelope.payload)

  unfoldable pub on_message : Option String → Controller → Controller
  on_message raw c = elim (parse_envelope raw) [
    | none ↦ update_state (λ lobby. set_connection_error lobby "invalid_server_message") c
    | some (type, payload) ↦ apply_incoming_message type payload c
  ]

unfoldable pub handle_connection_loss : ℕ → String → Controller → Controller
unfolding reject_pending_actions schedule_reconnect
handle_connection_loss i error c =
    if c.socket == some i
    then schedule_reconnect (
        update_state (set_status disconnected) (
          reject_pending_actions error none
            (record c { socket = none; connect_in_flight = false })))
    else c

unfoldable pub on_error : ℕ → Controller → Controller
unfolding handle_connection_loss
on_error i c = if is_current i c then handle_connection_loss i "connection_failed" c else c

unfoldable pub on_close : ℕ → Controller → Controller
unfolding handle_connection_loss
on_close i c = handle_connection_loss i "connection_lost" c

abbrev pub close_at : Option ℕ → Controller → Controller
close_at none c = c
close_at (some i) c = record (close_socket i c) { socket = none }

-- `socketRef.current = null; socket?.close()`
abbrev pub close_current : Controller → Controller
close_current c = close_at c.socket c

-- The page is left: `cancelPendingConnect`.
unfoldable pub cancel_pending_connect : Controller → Controller
unfolding reject_pending_actions
cancel_pending_connect c = reject_pending_actions "connection_lost" none (
    close_current (record c {
      reconnect_timer = none;
      connect_attempt = c.connect_attempt + 1;
      connect_in_flight = false;
    }))

unfoldable pub disconnect : Controller → Controller
unfolding reject_pending_actions
disconnect c =
    update_state
      (λ lobby. record lobby {
        connection_status = disconnected;
        room = none;
        game = none;
        is_spectating = false;
        social = empty_social_state;
        last_event = some "manual_disconnect";
      })
      (reject_pending_actions "connection_lost" none (
        close_current (record c {
          reconnect_timer = none;
          reconnect_attempt = 0;
          connect_attempt = c.connect_attempt + 1;
          connect_in_flight = false;
        })))

-- The timer to reconnect runs out.
unfoldable pub reconnect_timer_fired : Bool → Controller → Controller
unfolding connect
reconnect_timer_fired server_url c = connect server_url (record c { reconnect_timer = none })

-- The timer of an action runs out.
unfoldable pub action_timer_fired : String → Controller → Controller
unfolding reject_pending_actions
action_timer_fired request_id c =
    reject_pending_actions "command_timeout" (truthy (some request_id))
      (record c { action_timers = clear_action_timer request_id c.action_timers })
