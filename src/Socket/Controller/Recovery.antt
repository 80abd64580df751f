-- ===== src/Socket/Controller/Recovery.antt =====
-- After a connection that is lost: the delay before the next attempt, and the attempt that connects
-- again.
use compositions.Prelude.{
  ℕ, zero, suc, ◌+◌, ◌*◌, ◌^◌, ◌≤◌, ◌≡◌, refl, inl, inr, min, String, Bool, true, false, Option,
  none, some, List, [], ◌∷◌, ◌++◌, ◌==◌, ◌!=◌, is_some, filter, get_elem?, set, contains,
  contains-append, length, nat_eq, option_eq, Option-cases, arith, ap, sym, subst, ◌∙◌,
}
use native.Mathlib.Nat.{pow-suc}
use compositions.Socket.{
  clear_error, reduce_as, message_type, connected, disconnected, Payload, reduce_incoming_message,
  reduce_connected,
}
use compositions.Socket.Controller.{
  ReadyState, Socket, live, opening, closed, Controller, Sent, update_state, set_status,
  reject_each, reject_pending_actions, apply_incoming_message, is_live, socket_at,
}
use compositions.Socket.Connection.{
  session, Envelope, reconnect_delay, schedule_reconnect, connect, auth_answered, set_ready,
  is_current, on_open, parse_envelope, on_message, handle_connection_loss, on_close,
  reconnect_timer_fired,
}
use compositions.Socket.Controller.Silent.{reject_each_rest, length-set}
use compositions.Socket.Controller.Sockets.{get_elem?-set, get_elem?-append}

two_pow_pos : (n : ℕ) → 1 ≤ 2 ^ n
two_pow_pos zero = omega arith
two_pow_pos (suc n) = omega (arith, two_pow_pos n, pow-suc 2 n)

-- The delay before an attempt to reconnect is from half a second to five seconds, does not shrink from
-- one attempt to the next, doubles while it stays below the bound, and is at the bound from the fifth
-- attempt on.
pub reconnect_delay-bounds :
    (attempt : ℕ)
    → (500 ≤ reconnect_delay attempt)
      × (reconnect_delay attempt ≤ 5000)
      × (reconnect_delay attempt ≤ reconnect_delay (suc attempt))
      × (reconnect_delay (suc attempt) ≡ min (2 * reconnect_delay attempt) 5000)
      × (reconnect_delay (attempt + 4) ≡ 5000)
unfolding reconnect_delay
reconnect_delay-bounds attempt =
    let p = two_pow_pos attempt in
    let next : 2 ^ suc attempt ≡ 2 ^ attempt * 2 = pow-suc 2 attempt in
    let four : attempt + 4 ≡ suc (suc (suc (suc attempt))) = omega arith in
    let later : 2 ^ (attempt + 4) ≡ 2 ^ attempt * 2 * 2 * 2 * 2 =
      ap (λ n. 2 ^ n) four
      ∙ omega (
        arith,
        next,
        pow-suc 2 (suc attempt),
        pow-suc 2 (suc (suc attempt)),
        pow-suc 2 (suc (suc (suc attempt))),
      ) in
    (
      omega (arith, p),
      omega (arith, p),
      omega (arith, next),
      omega (arith, next),
      omega (arith, later, p),
    )

abbrev frame : Controller → Option ℕ × Bool × ℕ × List Sent × String
frame c = (c.socket, c.connect_in_flight, length c.sockets, c.sent, c.lobby.session_id)

frame-set_ready :
    (i : ℕ) (state : ReadyState) (c : Controller) → frame (set_ready i state c) ≡ frame c
frame-set_ready i state c = elim (Option-cases (socket_at c i)) [
  | inl absent ↦ rw (absent, set_ready) refl
  | inr (s, found) ↦
      rw (found, set_ready)
        (ap (λ n. (c.socket, c.connect_in_flight, n, c.sent, c.lobby.session_id))
          (length-set c.sockets i _))
]

scheduled :
    (c : Controller)
    → (frame (schedule_reconnect c) ≡ frame c)
      × (is_some (schedule_reconnect c).reconnect_timer ≡ true)
      × ((schedule_reconnect c).lobby ≡ c.lobby)
unfolding schedule_reconnect
scheduled c = elim (Option-cases c.reconnect_timer) [
  | inl idle ↦ rw (idle, schedule_reconnect) (refl, refl, refl)
  | inr (delay, running) ↦ rw (running, schedule_reconnect) (refl, rw running refl, refl)
]

-- The loss of the controller's socket.
lost :
    (i : ℕ) (error : String) (c : Controller)
    → (c.socket == some i) ≡ true
    → (let d = handle_connection_loss i error c in
        (frame d ≡ (none, false, length c.sockets, c.sent, c.lobby.session_id))
        × (is_some d.reconnect_timer ≡ true)
        × (d.lobby.connection_status ≡ disconnected))
unfolding handle_connection_loss reject_pending_actions
lost i error c ours =
    let freed = record c { socket = none; connect_in_flight = false; pending_actions = [] } in
    let shown =
      update_state (set_status disconnected) (reject_each error c.pending_actions freed) in
    let (same, timer, lobby) = scheduled shown in
    rw ours (
      same
          ∙ ap (λ e. frame (update_state (set_status disconnected) e))
              (reject_each_rest error c.pending_actions freed),
      timer,
      ap (λ l. l.connection_status) lobby,
    )

abbrev greeting : ℕ → String → Sent
greeting i id = record { socket = i; type = "connect"; request_id = none; session_id = some id }

-- The timer asks for a session.
asks :
    (c : Controller)
    → c.socket ≡ none
    → c.connect_in_flight ≡ false
    → (let d = reconnect_timer_fired true c in
        (contains d.awaiting d.connect_attempt ≡ true)
        × (d.sockets ≡ c.sockets)
        × (d.sent ≡ c.sent)
        × (d.lobby.session_id ≡ c.lobby.session_id))
unfolding reconnect_timer_fired connect clear_error
asks c none_now free =
    rw (none_now, free)
      (
        ground (
          arith,
          contains-append c.awaiting ((c.connect_attempt + 1) ∷ []) (c.connect_attempt + 1),
        ),
        refl,
        refl,
        refl,
      )

-- The session makes a socket.
makes :
    (c : Controller)
    → auth_answered c.connect_attempt session c ≡ record c {
      awaiting = filter (λ a. a != c.connect_attempt) c.awaiting;
      socket = some (length c.sockets);
      sockets = c.sockets ++ record { attempt = c.connect_attempt; ready_state = opening } ∷ [];
    }
unfolding auth_answered
makes c =
    let current : (c.connect_attempt != c.connect_attempt) ≡ false = ground arith in rw current refl

-- The controller's socket opens.
opens_up :
    (c : Controller) (i attempt : ℕ)
    → c.socket ≡ some i
    → socket_at c i ≡ some (record { attempt = attempt; ready_state = live })
    → c.connect_attempt ≡ attempt
    → (let d = on_open i c in
        (d.socket ≡ some i)
        × (is_live (socket_at d i) ≡ true)
        × (d.sent
            ≡ c.sent
              ++ record {
                socket = i;
                type = "connect";
                request_id = none;
                session_id = some c.lobby.session_id;
              }
                ∷ []))
unfolding on_open
opens_up c i attempt ours found same =
    let current : is_current i c ≡ true = rw (ours, found, same, is_current) (ground arith) in
    rw current (ours, rw found refl, refl)

-- The server's answer.
answered :
    (json_parse : String → Option Envelope) (raw : Option String) (payload : Option Payload)
    (c : Controller)
    → parse_envelope json_parse raw ≡ some ("connected", payload)
    → (let d = on_message json_parse raw c in
        (d.socket ≡ c.socket)
        × (d.sockets ≡ c.sockets)
        × (d.sent ≡ c.sent)
        × (d.lobby.connection_status ≡ connected))
unfolding on_message apply_incoming_message reduce_incoming_message reduce_connected clear_error
    reduce_as message_type
answered json_parse raw payload c parsed = rw (parsed, on_message) (refl, refl, refl, refl)

-- From the session to the open socket.
goes_up_from :
    (c : Controller) (j : ℕ)
    → c.socket ≡ some j
    → socket_at c j ≡ some (record { attempt = c.connect_attempt; ready_state = opening })
    → (let d = on_open j (set_ready j live c) in
        (d.socket ≡ some j)
        × (is_live (socket_at d j) ≡ true)
        × (d.sent ≡ c.sent ++ greeting j c.lobby.session_id ∷ []))
goes_up_from c j ours found =
    let opened : Socket = record { attempt = c.connect_attempt; ready_state = live } in
    let at =
      get_elem?-set c.sockets j j (record { attempt = c.connect_attempt; ready_state = opening })
        opened found
      ∙ ground arith in
    let up = record c { sockets = set c.sockets j opened } in
    rw (found, set_ready) (opens_up up j c.connect_attempt ours at refl)

goes_up :
    (c : Controller) (j : ℕ)
    → length c.sockets ≡ j
    → (let made = auth_answered c.connect_attempt session c in
        let d = on_open j (set_ready j live made) in
        (socket_at made j ≡ some (record { attempt = c.connect_attempt; ready_state = opening }))
        × (d.socket ≡ some j)
        × (is_live (socket_at d j) ≡ true)
        × (d.sent ≡ c.sent ++ greeting j c.lobby.session_id ∷ []))
goes_up c j e =
    let new : Socket = record { attempt = c.connect_attempt; ready_state = opening } in
    let found : get_elem? (c.sockets ++ new ∷ []) j ≡ some new =
      get_elem?-append c.sockets new j ∙ ground (arith, e) in
    let made = record c {
      awaiting = filter (λ a. a != c.connect_attempt) c.awaiting;
      socket = some (length c.sockets);
      sockets = c.sockets ++ new ∷ [];
    } in
    let (ours, usable, said) = goes_up_from made j (ap some e) found in
    subst
      (λ made.
        (socket_at made j ≡ some new)
        × ((on_open j (set_ready j live made)).socket ≡ some j)
        × (is_live (socket_at (on_open j (set_ready j live made)) j) ≡ true)
        × ((on_open j (set_ready j live made)).sent ≡ c.sent ++ greeting j c.lobby.session_id ∷ []))
      (sym (makes c)) (found, ours, usable, said)

closed_lost :
    (i : ℕ) (c : Controller)
    → (c.socket == some i) ≡ true
    → (let d = on_close i c in
        (frame d ≡ (none, false, length c.sockets, c.sent, c.lobby.session_id))
        × (is_some d.reconnect_timer ≡ true)
        × (d.lobby.connection_status ≡ disconnected))
unfolding on_close
closed_lost i c ours = lost i "connection_lost" c ours

-- When the controller loses its socket, the timer for an attempt to reconnect runs. The attempt asks
-- for a session; with the session it makes a socket; when that opens, the session id of the lobby is
-- sent on it in a "connect" message; and with the "connected" message of the server the lobby is
-- connected, on that socket.
pub connects_again :
    (json_parse : String → Option Envelope) (raw : Option String) (payload : Option Payload)
    (c : Controller) (i : ℕ)
    → (c.socket == some i) ≡ true
    → parse_envelope json_parse raw ≡ some ("connected", payload)
    → (let j = length c.sockets in
        let gone = on_close i (set_ready i closed c) in
        let asked = reconnect_timer_fired true gone in
        let made = auth_answered asked.connect_attempt session asked in
        let up = on_open j (set_ready j live made) in
        let ready = on_message json_parse raw up in
        (is_some gone.reconnect_timer ≡ true)
        × (gone.lobby.connection_status ≡ disconnected)
        × (contains asked.awaiting asked.connect_attempt ≡ true)
        × (socket_at made j
            ≡ some (record { attempt = asked.connect_attempt; ready_state = opening }))
        × (ready.sent
            ≡ c.sent
              ++ record {
                socket = j;
                type = "connect";
                request_id = none;
                session_id = some c.lobby.session_id;
              }
                ∷ [])
        × (ready.socket ≡ some j)
        × (is_live (socket_at ready j) ≡ true)
        × (ready.lobby.connection_status ≡ connected))
connects_again json_parse raw payload c i ours parsed =
    let shut = set_ready i closed c in
    let gone = on_close i shut in
    let asked = reconnect_timer_fired true gone in
    let before = frame-set_ready i closed c in
    let (now, timer, status) = closed_lost i shut (ap (λ f. f.0 == some i) before ∙ ours) in
    let kept = now ∙ ap (λ f. (none, false, f.2, f.3, f.4)) before in
    let (awaits, sockets, sent, id) = asks gone (ap (λ f. f.0) kept) (ap (λ f. f.1) kept) in
    let (made, at, is_up, said) =
      goes_up asked (length c.sockets) (ap length sockets ∙ ap (λ f. f.2) kept) in
    let (same, all, still, status') = answered json_parse raw payload _ parsed in
    (
      timer,
      status,
      awaits,
      made,
      still
          ∙ said
          ∙ ap (λ xs. xs ++ greeting (length c.sockets) asked.lobby.session_id ∷ [])
              (sent ∙ ap (λ f. f.3) kept)
          ∙ ap (λ text. c.sent ++ greeting (length c.sockets) text ∷ []) (id ∙ ap (λ f. f.4) kept),
      same ∙ at,
      ap (λ xs. is_live (get_elem? xs (length c.sockets))) all ∙ is_up,
      status',
    )
