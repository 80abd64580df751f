-- ===== src/Socket/Controller/Steps.antt =====
-- What can happen to the controller: the calls of the application and the events of the browser, with
-- what the browser promises of them. The reachable states.
use compositions.Prelude.{
  ℕ, ◌≡◌, ◌≢◌, String, Bool, true, false, Option, none, some, List, ◌++◌, map, ◌==◌, contains,
  string_eq, nat_eq,
}
use compositions.Socket.{initial_state, clear_error}
use compositions.Socket.Controller.{
  opening, live, closing, closed, Socket, Controller, update_state, socket_at, send,
}
use compositions.Socket.Connection.{
  ConnectionAuth, Envelope, set_ready, connect, auth_answered, on_open, on_message, on_error,
  on_close, cancel_pending_connect, disconnect, reconnect_timer_fired, action_timer_fired,
}

abbrev pub pending_ids : Controller → List String
pending_ids c = map (λ pending. pending.request_id) c.pending_actions

abbrev pub settled_ids : Controller → List String
settled_ids c = map (λ entry. entry.0) c.settled

-- The request ids that were given out.
abbrev pub used_ids : Controller → List String
used_ids c = pending_ids c ++ settled_ids c

-- `crypto.randomUUID` gives a text that is not empty and was not given before.
abbrev pub IsFresh : Option String → Controller → Type 0
IsFresh none c = Unit
IsFresh (some id) c = ((id == "") ≡ false) × (contains (used_ids c) id ≡ false)

module _ (json_parse : String → Option Envelope) where
  -- A request for a session is answered once, a socket opens once and is closed once, a message comes
  -- on an open socket, and a timer that was cleared does not run out.
  pub data Step (c : Controller) : Controller → Type 0 where
    connects : (server_url : Bool) → Step c (connect server_url c)
    reconnects :
        (server_url : Bool) (delay : ℕ)
        → c.reconnect_timer ≡ some delay
        → Step c (reconnect_timer_fired server_url c)
    answers :
        (attempt : ℕ) (auth : ConnectionAuth)
        → contains c.awaiting attempt ≡ true
        → Step c (auth_answered attempt auth c)
    opens :
        (i : ℕ) (s : Socket)
        → socket_at c i ≡ some s
        → s.ready_state ≡ opening
        → Step c (on_open i (set_ready i live c))
    receives :
        (i : ℕ) (s : Socket) (raw : Option String)
        → socket_at c i ≡ some s
        → s.ready_state ≡ live
        → Step c (on_message json_parse raw c)
    fails :
        (i : ℕ) (s : Socket)
        → socket_at c i ≡ some s
        → s.ready_state ≢ closed
        → Step c (on_error i (set_ready i closing c))
    closes :
        (i : ℕ) (s : Socket)
        → socket_at c i ≡ some s
        → s.ready_state ≢ closed
        → Step c (on_close i (set_ready i closed c))
    sends :
        (type : String) (awaited failure : Option String)
        → IsFresh awaited c
        → Step c (send type awaited failure c)
    times_out :
        (request_id : String)
        → contains c.action_timers request_id ≡ true
        → Step c (action_timer_fired request_id c)
    leaves : Step c (cancel_pending_connect c)
    disconnects : Step c (disconnect c)
    dismisses_error : Step c (update_state clear_error c)
    dismisses_game : Step c (update_state (λ lobby. record lobby { completed_game = none }) c)

  pub data Reach : Controller → Type 0 where
    start : Reach (record {
      socket = none;
      connect_attempt = 0;
      connect_in_flight = false;
      reconnect_timer = none;
      reconnect_attempt = 0;
      pending_actions = List.[];
      lobby = initial_state;
      sockets = List.[];
      awaiting = List.[];
      action_timers = List.[];
      settled = List.[];
      sent = List.[];
    })
    later : {c d : Controller} → Reach c → Step c d → Reach d
