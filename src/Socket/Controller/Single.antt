-- ===== src/Socket/Controller/Single.antt =====
-- Every step of the controller refines some moves of its sockets, so there is never more than one
-- socket in use.
use compositions.Prelude.{
  ℕ, ◌+◌, ◌≡◌, inl, inr, refl, String, Bool, true, false, ◌||◌, Option, none, some, ◌==◌, ap, ◌!=◌,
  contains, nat_eq, string_eq, option_eq, Bool-cases, Option-cases, arith, sym, subst, ◌∙◌,
}
use compositions.Drafts.{truthy}
use compositions.Socket.{disconnected}
use compositions.Socket.Controller.{
  ReadyState, opening, live, closing, closed, Socket, Controller, update_state,
  reject_pending_actions, socket_at, await_result, open_socket, send_on, send, set_status,
}
use compositions.Socket.Connection.{
  ConnectionAuth, unavailable, no_session, session, Envelope, schedule_reconnect, is_usable,
  has_usable_socket, connect, auth_answered, closing_state, set_ready, close_socket, close_current,
  close_at, is_current, on_open, handle_connection_loss, on_error, on_close, cancel_pending_connect,
  disconnect, reconnect_timer_fired, action_timer_fired,
}
use compositions.Socket.Controller.Silent.{outer-reject, outer-on_message, outer-send_unavailable}
use compositions.Socket.Controller.Sockets.{
  Link, link, usable_current, Move, request, answer, create, open_up, shut, let_go, give_up, Moves,
  done, ◌after◌, IsSingle, Moves-IsSingle, get_elem?-set,
}
use compositions.Socket.Controller.Steps.{
  Step, connects, reconnects, answers, opens, receives, fails, closes, sends, times_out, leaves,
  disconnects, dismisses_error, dismisses_game, Reach, start, later,
}

pub link-reject :
    (message : String) (request_id : Option String) (c : Controller)
    → link (reject_pending_actions message request_id c) ≡ link c
link-reject message request_id c = ap link (outer-reject message request_id c)

link-send_on :
    (i : ℕ) (type : String) (awaited failure : Option String) (c : Controller)
    → link (send_on i type awaited failure c) ≡ link c
unfolding send_on await_result
link-send_on i type none none c = refl
link-send_on i type (some id) none c = refl
link-send_on i type none (some message) c = refl
link-send_on i type (some id) (some message) c =
    link-reject message (truthy (some id)) (await_result type id c)

link-send :
    (type : String) (awaited failure : Option String) (c : Controller)
    → link (send type awaited failure c) ≡ link c
unfolding send
link-send type awaited failure c = elim (Option-cases (open_socket c)) [
  | inl no_socket ↦ rw (no_socket, send) (ap link (outer-send_unavailable awaited c))
  | inr (i, usable) ↦ rw (usable, send) (link-send_on i type awaited failure c)
]

pub link-schedule : (c : Controller) → link (schedule_reconnect c) ≡ link c
unfolding schedule_reconnect
link-schedule c = elim (Option-cases c.reconnect_timer) [
  | inl idle ↦ rw (idle, schedule_reconnect) refl
  | inr (delay, running) ↦ rw (running, schedule_reconnect) refl
]

some_inj : {i j : ℕ} → some i ≡ some j → i ≡ j
some_inj e = cc

stays : {l m : Link} → m ≡ l → Moves l m
stays {l} same = subst (Moves l) (sym same) done

connect-Moves : (server_url : Bool) (c : Controller) → Moves (link c) (link (connect server_url c))
unfolding connect
connect-Moves server_url c = elim (Bool-cases (c.connect_in_flight || has_usable_socket c)) [
  | inl busy ↦ rw busy done
  | inr free ↦ elim (Bool-cases server_url) [
    | inr missing ↦ rw (free, missing) done
    | inl present ↦ rw (free, present) (request (ground (arith, free)) after done)
  ]
]

auth_current-Moves :
    (auth : ConnectionAuth) (c : Controller)
    → contains c.awaiting c.connect_attempt ≡ true
    → (c.connect_attempt != c.connect_attempt) ≡ false
    → Moves (link c) (link (auth_answered c.connect_attempt auth c))
unfolding auth_answered
auth_current-Moves unavailable c h current =
    rw current (answer c.connect_attempt after stays (link-schedule _))
auth_current-Moves no_session c h current = rw current (answer c.connect_attempt after done)
auth_current-Moves session c h current = rw current (create h after done)

auth_answered-Moves :
    (attempt : ℕ) (auth : ConnectionAuth) (c : Controller)
    → contains c.awaiting attempt ≡ true
    → Moves (link c) (link (auth_answered attempt auth c))
unfolding auth_answered
auth_answered-Moves attempt auth c h = elim (Bool-cases (c.connect_attempt != attempt)) [
  | inl stale ↦ rw (stale, auth_answered) (answer attempt after done)
  | inr current ↦
      let same : c.connect_attempt ≡ attempt = ground (arith, current) in
      subst
        (λ a.
          contains c.awaiting a ≡ true
          → (c.connect_attempt != a) ≡ false
          → Moves (link c) (link (auth_answered a auth c)))
        same (auth_current-Moves auth c) h current
]

-- The sockets' own events.
join : {l m n : Link} → Moves l m → Moves m n → Moves l n
join done moves = moves
join (move after rest) moves = move after join rest moves

closing_idle :
    (s : Socket) → is_usable (some (record s { ready_state = closing_state s.ready_state })) ≡ false
closing_idle s = ground arith

close_socket-Moves : (i : ℕ) (c : Controller) → Moves (link c) (link (close_socket i c))
close_socket-Moves i c = elim (Option-cases (socket_at c i)) [
  | inl absent ↦ rw (absent, close_socket) done
  | inr (s, found) ↦
      rw (found, close_socket)
        (rw (found, set_ready)
          (shut i s (closing_state s.ready_state) found (closing_idle s) after done))
]

on_open-Moves :
    (i : ℕ) (s : Socket) (c : Controller)
    → socket_at c i ≡ some s
    → s.ready_state ≡ opening
    → Moves (link c) (link (on_open i (set_ready i live c)))
unfolding on_open
on_open-Moves i s c found at =
    let opened : Moves (link c) (link (set_ready i live c)) =
      rw (found, set_ready) (open_up i s found at after done) in
    elim (Bool-cases (is_current i (set_ready i live c))) [
      | inl current ↦ rw current opened
      | inr stale ↦ rw stale (join opened (close_socket-Moves i (set_ready i live c)))
    ]

shut-Moves :
    (i : ℕ) (s : Socket) (state : ReadyState) (c : Controller)
    → socket_at c i ≡ some s
    → is_usable (some (record s { ready_state = state })) ≡ false
    → Moves (link c) (link (set_ready i state c))
      × (is_usable (socket_at (set_ready i state c) i) ≡ false)
shut-Moves i s state c found idle = (
  rw (found, set_ready) (shut i s state found idle after done),
  rw (found, set_ready)
      (ground
        (arith, idle, get_elem?-set c.sockets i i s (record s { ready_state = state }) found)),
)

handle_connection_loss-Moves :
    (i : ℕ) (error : String) (c : Controller)
    → is_usable (socket_at c i) ≡ false
    → Moves (link c) (link (handle_connection_loss i error c))
unfolding handle_connection_loss
handle_connection_loss-Moves i error c idle = elim (Bool-cases (c.socket == some i)) [
  | inr other ↦ rw other done
  | inl ours ↦
      let at : c.socket ≡ some i = (option_eq.equal_iff c.socket (some i)).0 ours in
      let freed = record c { socket = none; connect_in_flight = false } in
      let free : usable_current (link c) ≡ false = rw (at, usable_current) idle in
      rw ours (
        subst (Moves (link c))
          (sym (
            link-schedule
              (update_state (set_status disconnected) (reject_pending_actions error none freed))
            ∙ link-reject error none freed))
          (let_go free after done))
]

on_error-Moves :
    (i : ℕ) (c : Controller)
    → is_usable (socket_at c i) ≡ false
    → Moves (link c) (link (on_error i c))
unfolding on_error
on_error-Moves i c idle = elim (Bool-cases (is_current i c)) [
  | inl current ↦ rw current (handle_connection_loss-Moves i "connection_failed" c idle)
  | inr stale ↦ rw stale done
]

close_socket-idle :
    (i : ℕ) (c : Controller)
    → (is_usable (socket_at (close_socket i c) i) ≡ false) × ((close_socket i c).socket ≡ c.socket)
close_socket-idle i c = elim (Option-cases (socket_at c i)) [
  | inl absent ↦ rw (absent, close_socket) (rw absent (refl, refl))
  | inr (s, found) ↦ (
    rw (found, close_socket)
        (shut-Moves i s (closing_state s.ready_state) c found (closing_idle s)).1,
    rw (found, close_socket) (rw (found, set_ready) refl),
  )
]

close_at-Moves :
    (o : Option ℕ) (c : Controller) → c.socket ≡ o → Moves (link c) (link (close_at o c))
close_at-Moves none c e = done
close_at-Moves (some i) c ours =
    let (idle, same) = close_socket-idle i c in
    let free : usable_current (link (close_socket i c)) ≡ false =
      rw (same ∙ ours, usable_current) idle in
    join (close_socket-Moves i c) (let_go free after done)

-- Giving up: the attempt, then the socket, then the actions.
gives_up :
    (c given_up : Controller) (message : String)
    → Move (link c) (link given_up)
    → Moves (link c) (link (reject_pending_actions message none (close_current given_up)))
gives_up c given_up message move =
    subst (Moves (link c)) (sym (link-reject message none (close_current given_up)))
      (move after close_at-Moves given_up.socket given_up refl)

step_moves :
    {json_parse : String → Option Envelope} {c d : Controller}
    → Step json_parse c d
    → Moves (link c) (link d)
unfolding reconnect_timer_fired on_close cancel_pending_connect disconnect action_timer_fired
step_moves {c = c} (connects url) = connect-Moves url c
step_moves {c = c} (reconnects url delay e) =
    connect-Moves url (record c { reconnect_timer = none })
step_moves {c = c} (answers attempt auth h) = auth_answered-Moves attempt auth c h
step_moves {c = c} (opens i s found at) = on_open-Moves i s c found at
step_moves {json_parse} {c} (receives i s raw found at) =
    stays (ap link (outer-on_message json_parse raw c))
step_moves {c = c} (fails i s found at) =
    let (moves, idle) = shut-Moves i s closing c found refl in
    join moves (on_error-Moves i (set_ready i closing c) idle)
step_moves {c = c} (closes i s found at) =
    let (moves, idle) = shut-Moves i s closed c found refl in
    join moves (handle_connection_loss-Moves i "connection_lost" (set_ready i closed c) idle)
step_moves {c = c} (sends type awaited failure fresh) = stays (link-send type awaited failure c)
step_moves {c = c} (times_out id h) = stays (link-reject "command_timeout" (truthy (some id)) _)
step_moves {c = c} leaves =
    gives_up c
      (record c {
        reconnect_timer = none;
        connect_attempt = c.connect_attempt + 1;
        connect_in_flight = false;
      })
      "connection_lost" give_up
step_moves {c = c} disconnects =
    gives_up c
      (record c {
        reconnect_timer = none;
        reconnect_attempt = 0;
        connect_attempt = c.connect_attempt + 1;
        connect_in_flight = false;
      })
      "connection_lost" give_up
step_moves dismisses_error = done
step_moves dismisses_game = done

-- Every step of the controller is a sequence of moves of its sockets.
pub Step-Moves :
    (json_parse : String → Option Envelope) (c d : Controller)
    → Step json_parse c d
    → Moves (link c) (link d)
Step-Moves json_parse c d step = step_moves step

pub Reach-IsSingle :
    {json_parse : String → Option Envelope} {c : Controller}
    → Reach json_parse c
    → IsSingle (link c)
Reach-IsSingle start = record {
  only_one = λ i u. absurd (cc);
  none_yet = λ h. absurd (cc);
  behind = λ a lt. refl;
}
Reach-IsSingle (later r st) = Moves-IsSingle (step_moves st) (Reach-IsSingle r)

-- In every state that the application and the browser can bring about, however they interleave, at
-- most one socket is open or about to open, and it is the one that the controller holds.
pub one_usable_socket :
    (json_parse : String → Option Envelope) (c : Controller) (i j : ℕ)
    → Reach json_parse c
    → is_usable (socket_at c i) ≡ true
    → is_usable (socket_at c j) ≡ true
    → (i ≡ j) × (c.socket ≡ some i)
one_usable_socket json_parse c i j r in_use in_use' =
    let v = Reach-IsSingle r in
    (some_inj (sym (v.only_one i in_use) ∙ v.only_one j in_use'), v.only_one i in_use)
