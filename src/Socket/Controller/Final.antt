-- ===== src/Socket/Controller/Final.antt =====
-- What `disconnect` ends stays ended until `connect` is called.
use compositions.Prelude.{
  ℕ, ◌+◌, ◌≡◌, refl, inl, inr, String, Bool, true, false, Option, none, some, [], ◌==◌, ◌!=◌,
  contains, length, nat_eq, option_eq, Bool-cases, Option-cases, arith, ap, sym, subst, ◌∙◌,
}
use compositions.Drafts.{truthy}
use compositions.Snapshots.Room.{Room}
use compositions.Snapshots.Game.{Game}
use compositions.Socket.{ConnectionStatus, disconnected, with_error, clear_error}
use compositions.Socket.Controller.{
  ReadyState, closing, closed, Socket, Controller, clear_action_timer, reject_pending_actions,
  socket_at, send_unavailable, send,
}
use compositions.Socket.Connection.{
  ConnectionAuth, Envelope, is_usable, auth_answered, set_ready, close_socket, close_at,
  close_current, is_current, handle_connection_loss, on_error, on_close, cancel_pending_connect,
  disconnect, reconnect_timer_fired, action_timer_fired,
}
use compositions.Socket.Controller.Silent.{reject_each_rest, length-set}
use compositions.Socket.Controller.Sockets.{contains-without}
use compositions.Socket.Controller.Single.{Reach-IsSingle}
use compositions.Socket.Controller.Steps.{
  Step, connects, reconnects, answers, opens, receives, fails, closes, sends, times_out, leaves,
  disconnects, dismisses_error, dismisses_game, Reach, later,
}

-- What the application sees of the connection and the game.
abbrev pub shown : Controller → ConnectionStatus × Option Room × Option Game
shown c = (c.lobby.connection_status, c.lobby.room, c.lobby.game)

-- No socket, no timer and no attempt that waits; since `base` no socket was made and nothing was sent.
abbrev IsQuiet : Controller → Controller → Type 0
IsQuiet base c =
    (c.socket ≡ none)
    × (c.reconnect_timer ≡ none)
    × (contains c.awaiting c.connect_attempt ≡ false)
    × (length c.sockets ≡ length base.sockets)
    × (c.sent ≡ base.sent)

-- The controller without what a rejection changes.
abbrev quiet_part : Controller → Controller
quiet_part c = record c { pending_actions = []; action_timers = []; settled = [] }

quiet_part-reject :
    (message : String) (request_id : Option String) (c : Controller)
    → quiet_part (reject_pending_actions message request_id c) ≡ quiet_part c
unfolding reject_pending_actions
quiet_part-reject message none c = ap quiet_part (reject_each_rest message c.pending_actions _)
quiet_part-reject message (some id) c = ap quiet_part (reject_each_rest message _ _)

reject-IsQuiet :
    (base : Controller) (message : String) (request_id : Option String) (c : Controller)
    → IsQuiet base c
    → IsQuiet base (reject_pending_actions message request_id c)
reject-IsQuiet base message request_id c q =
    subst (IsQuiet base) (sym (quiet_part-reject message request_id c)) q

set_ready-IsQuiet :
    (base : Controller) (i : ℕ) (state : ReadyState) (c : Controller)
    → IsQuiet base c
    → IsQuiet base (set_ready i state c)
set_ready-IsQuiet base i state c (socket, timer, attempt, sockets, sent) =
    elim (Option-cases (socket_at c i)) [
      | inl absent ↦ rw (absent, set_ready) (socket, timer, attempt, sockets, sent)
      | inr (s, found) ↦
          rw (found, set_ready) (socket, timer, attempt, length-set c.sockets i _ ∙ sockets, sent)
    ]

-- The socket is let go, after the timer is cleared and the attempt is given up.
close_at-IsQuiet :
    (o : Option ℕ) (c : Controller)
    → c.socket ≡ o
    → c.reconnect_timer ≡ none
    → contains c.awaiting c.connect_attempt ≡ false
    → IsQuiet c (close_at o c)
close_at-IsQuiet none c ours timer attempt = (ours, timer, attempt, refl, refl)
close_at-IsQuiet (some i) c ours timer attempt = elim (Option-cases (socket_at c i)) [
  | inl absent ↦ rw (absent, close_socket) (refl, timer, attempt, refl, refl)
  | inr (s, found) ↦
      rw (found, close_socket)
        (rw (found, set_ready) (refl, timer, attempt, length-set c.sockets i _, refl))
]

-- Nothing is opened or received: no socket is in use.
unused :
    (json_parse : String → Option Envelope) (c : Controller) (i : ℕ) (s : Socket)
    → Reach json_parse c
    → c.socket ≡ none
    → socket_at c i ≡ some s
    → is_usable (some s) ≡ false
unused json_parse c i s reached socket found = elim (Bool-cases (is_usable (some s))) [
  | inr idle ↦ idle
  | inl usable ↦
      absurd
        (ground (arith, socket, (Reach-IsSingle reached).only_one i (ap is_usable found ∙ usable)))
]

-- And the application sees that the connection has ended.
abbrev ended : ConnectionStatus × Option Room × Option Game
ended = (disconnected, none, none)

abbrev IsEnded : Controller → Controller → Type 0
IsEnded base c = IsQuiet base c × (shown c ≡ ended)

reject-IsEnded :
    (base : Controller) (message : String) (request_id : Option String) (c : Controller)
    → IsEnded base c
    → IsEnded base (reject_pending_actions message request_id c)
reject-IsEnded base message request_id c q =
    subst (IsEnded base) (sym (quiet_part-reject message request_id c)) q

shown-set_ready :
    (i : ℕ) (state : ReadyState) (c : Controller) → shown (set_ready i state c) ≡ shown c
shown-set_ready i state c = elim (Option-cases (socket_at c i)) [
  | inl absent ↦ rw (absent, set_ready) refl
  | inr (s, found) ↦ rw (found, set_ready) refl
]

set_ready-IsEnded :
    (base : Controller) (i : ℕ) (state : ReadyState) (c : Controller)
    → IsEnded base c
    → IsEnded base (set_ready i state c)
set_ready-IsEnded base i state c (quiet, same) =
    (set_ready-IsQuiet base i state c quiet, shown-set_ready i state c ∙ same)

stale_answer :
    (base c : Controller) (attempt : ℕ) (auth : ConnectionAuth)
    → contains c.awaiting attempt ≡ true
    → IsEnded base c
    → IsEnded base (auth_answered attempt auth c)
unfolding auth_answered
stale_answer base c attempt auth h ((socket, timer, current, sockets, sent), same) =
    let stale : (c.connect_attempt != attempt) ≡ true =
      elim (Bool-cases (c.connect_attempt != attempt)) [
        | inl different ↦ different
        | inr equal ↦ absurd (
            ground (
              arith,
              subst (λ a. contains c.awaiting a ≡ false)
                  ((nat_eq.equal_iff c.connect_attempt attempt).0 (ground (arith, equal))) current,
              h,
            ))
      ] in
    rw stale (
      (
        socket,
        timer,
        contains-without attempt c.connect_attempt c.awaiting ∙ ground (arith, current),
        sockets,
        sent,
      ),
      same,
    )

not_ours :
    (base c : Controller) (i : ℕ) (error : String)
    → IsEnded base c
    → IsEnded base (handle_connection_loss i error c)
unfolding handle_connection_loss
not_ours base c i error q =
    let other : (c.socket == some i) ≡ false = ground (arith, q.0.0) in rw other q

not_current : (base c : Controller) (i : ℕ) → IsEnded base c → IsEnded base (on_error i c)
unfolding on_error
not_current base c i q = let other : is_current i c ≡ false = ground (arith, q.0.0) in rw other q

unsent :
    (base c : Controller) (type : String) (awaited failure : Option String)
    → IsEnded base c
    → IsEnded base (send type awaited failure c)
unfolding send send_unavailable with_error
unsent base c type none failure q = rw (q.0.0, send) q
unsent base c type (some id) failure q = rw (q.0.0, send) q

-- A step that is a call of `connect`.
unfoldable pub is_connect :
    {json_parse : String → Option Envelope} {c d : Controller} → Step json_parse c d → Bool
is_connect (connects server_url) = true
is_connect _ = false

gives_up_again :
    (base given_up : Controller) (message : String)
    → IsEnded base given_up
    → IsEnded base (reject_pending_actions message none (close_current given_up))
gives_up_again base given_up message q =
    reject-IsEnded base message none (close_current given_up)
      (subst (λ o. IsEnded base (close_at o given_up)) (sym q.0.0) q)

Step-IsEnded :
    {json_parse : String → Option Envelope} (base : Controller) {c d : Controller}
    → Reach json_parse c
    → IsEnded base c
    → (step : Step json_parse c d) → is_connect step ≡ false
    → IsEnded base d
unfolding is_connect reconnect_timer_fired on_close cancel_pending_connect disconnect
    action_timer_fired clear_error
Step-IsEnded base reached q (connects url) h = absurd (cc)
Step-IsEnded base reached q (reconnects url delay e) h = absurd (ground (arith, q.0.1, e))
Step-IsEnded base {c} reached q (answers attempt auth h) h' = stale_answer base c attempt auth h q
Step-IsEnded {json_parse} base {c} reached q (opens i s found at) h =
    absurd (ground (arith, at, unused json_parse c i s reached q.0.0 found))
Step-IsEnded {json_parse} base {c} reached q (receives i s raw found at) h =
    absurd (ground (arith, at, unused json_parse c i s reached q.0.0 found))
Step-IsEnded base {c} reached q (fails i s found at) h =
    not_current base (set_ready i closing c) i (set_ready-IsEnded base i closing c q)
Step-IsEnded base {c} reached q (closes i s found at) h =
    not_ours base (set_ready i closed c) i "connection_lost" (set_ready-IsEnded base i closed c q)
Step-IsEnded base {c} reached q (sends type awaited failure fresh) h =
    unsent base c type awaited failure q
Step-IsEnded base {c} reached q (times_out id h) h' =
    reject-IsEnded base "command_timeout" (truthy (some id))
      (record c { action_timers = clear_action_timer id c.action_timers }) q
Step-IsEnded base {c} reached ((socket, timer, attempt, sockets, sent), same) leaves h =
    let behind = (Reach-IsSingle reached).behind (c.connect_attempt + 1) (omega arith) in
    gives_up_again base
      (record c {
        reconnect_timer = none;
        connect_attempt = c.connect_attempt + 1;
        connect_in_flight = false;
      })
      "connection_lost" ((socket, refl, behind, sockets, sent), same)
Step-IsEnded base {c} reached ((socket, timer, attempt, sockets, sent), same) disconnects h =
    let behind = (Reach-IsSingle reached).behind (c.connect_attempt + 1) (omega arith) in
    let (quiet, seen) =
      gives_up_again base
        (record c {
          reconnect_timer = none;
          reconnect_attempt = 0;
          connect_attempt = c.connect_attempt + 1;
          connect_in_flight = false;
        })
        "connection_lost" ((socket, refl, behind, sockets, sent), same) in
    (quiet, refl)
Step-IsEnded base reached q dismisses_error h = q
Step-IsEnded base reached q dismisses_game h = q

-- Steps of which none is a call of `connect`.
pub data Run (json_parse : String → Option Envelope) (c : Controller) : Controller → Type 0 where
  still : Run json_parse c c
  next :
      {d e : Controller}
      → Run json_parse c d
      → (step : Step json_parse d e) → is_connect step ≡ false
      → Run json_parse c e

Run-Reach :
    {json_parse : String → Option Envelope} {c d : Controller}
    → Reach json_parse c
    → Run json_parse c d
    → Reach json_parse d
Run-Reach reached still = reached
Run-Reach reached (next run step h) = later (Run-Reach reached run) step

Run-IsEnded :
    {json_parse : String → Option Envelope} (base : Controller) {c d : Controller}
    → Reach json_parse c
    → IsEnded base c
    → Run json_parse c d
    → IsEnded base d
Run-IsEnded base reached q still = q
Run-IsEnded base reached q (next run step h) =
    Step-IsEnded base (Run-Reach reached run) (Run-IsEnded base reached q run) step h

disconnect-IsEnded :
    (json_parse : String → Option Envelope) (c : Controller)
    → Reach json_parse c
    → IsEnded c (disconnect c)
unfolding disconnect
disconnect-IsEnded json_parse c reached =
    let given_up = record c {
      reconnect_timer = none;
      reconnect_attempt = 0;
      connect_attempt = c.connect_attempt + 1;
      connect_in_flight = false;
    } in
    let behind = (Reach-IsSingle reached).behind (c.connect_attempt + 1) (omega arith) in
    (
      reject-IsQuiet c "connection_lost" none (close_current given_up)
          (close_at-IsQuiet c.socket given_up refl refl behind),
      refl,
    )

-- After a call of `disconnect` in a state that can be reached, and until `connect` is called, whatever
-- else happens (answers that were on their way, timers, events of the old sockets, calls of `send`):
-- no socket is made and nothing is sent, there is no timer to reconnect, and the application sees no
-- connection, no room and no game.
pub disconnect_is_final :
    (json_parse : String → Option Envelope) (c d : Controller)
    → Reach json_parse c
    → Run json_parse (disconnect c) d
    → (d.socket ≡ none)
      × (d.reconnect_timer ≡ none)
      × (length d.sockets ≡ length c.sockets)
      × (d.sent ≡ c.sent)
      × (shown d ≡ (disconnected, none, none))
disconnect_is_final json_parse c d reached run =
    let ((socket, timer, attempt, sockets, sent), same) =
      Run-IsEnded c (later reached disconnects) (disconnect-IsEnded json_parse c reached) run in
    (socket, timer, sockets, sent, same)
