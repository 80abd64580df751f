-- ===== src/Socket/Controller/Orders.antt =====
-- Every step of the controller keeps the promises of the actions in order: each is settled at most
-- once, none is lost, and each that waits has a timer that settles it.
use compositions.Prelude.{
  ℕ, ◌+◌, ◌≤◌, ◌≡◌, refl, inl, inr, String, true, false, not, Option, none, some, List, [], ◌∷◌,
  ◌++◌, map, ◌==◌, if◌then◌else◌, contains, count, count-append, count_absent, nat_eq, string_eq,
  option_eq, Option-cases, arith, ap, sym, ◌∙◌, subst,
}
use compositions.Drafts.{truthy}
use compositions.Socket.Controller.{
  PendingAction, rejected, Controller, live, closing, closed, clear_action_timer, await_result,
  open_socket, send_unavailable, send_on, send,
}
use compositions.Socket.Connection.{
  Envelope, connect, auth_answered, set_ready, on_open, on_message, handle_connection_loss,
  on_error, on_close, cancel_pending_connect, disconnect, reconnect_timer_fired, action_timer_fired,
}
use compositions.Socket.Controller.Steps.{
  pending_ids, settled_ids, used_ids, IsFresh, Step, connects, reconnects, answers, opens, receives,
  fails, closes, sends, times_out, leaves, disconnects, dismisses_error, dismisses_game, Reach,
  start, later,
}
use compositions.Socket.Controller.Requests.{
  Tally, tally, IsOrderly, Advances, count-settle, reject-gone,
}
use compositions.Socket.Controller.Keeps.{
  Keeps, same-Keeps, trans-Keeps, reject-Keeps, on_message-Keeps, tally-connect,
  tally-auth_answered, tally-set_ready, tally-on_open, connection_loss-Keeps, on_error-Keeps,
  gives_up-Keeps, times_out-Keeps,
}

-- A call of `send`.
map-append_actions :
    (actions : List PendingAction) (new : PendingAction)
    → map (λ pending. pending.request_id) (actions ++ new ∷ [])
      ≡ map (λ pending. pending.request_id) actions ++ new.request_id ∷ []
map-append_actions [] new = refl
map-append_actions (pending ∷ actions) new =
    ap (λ rest. pending.request_id ∷ rest) (map-append_actions actions new)

await_result-tally :
    (r type id : String) (c : Controller)
    → (let t = tally r c in
        let u = tally r (await_result type id c) in
        let new : ℕ = if id == r then 1 else 0 in
        (u.waiting ≡ t.waiting + new) × (u.over ≡ t.over) × (u.timed ≡ t.timed + new))
unfolding await_result
await_result-tally r type id c = (
  ap (count r) (map-append_actions c.pending_actions _)
      ∙ ground (arith, count-append r (pending_ids c) (id ∷ [])),
  refl,
  ground (arith, count-append r c.action_timers (id ∷ [])),
)

count_fresh :
    (r id : String) (c : Controller)
    → contains (used_ids c) id ≡ false
    → (id == r) ≡ true
    → (tally r c).waiting + (tally r c).over ≡ 0
count_fresh r id c fresh same =
    let at : id ≡ r = (string_eq.equal_iff id r).0 same in
    let absent = subst (λ x. contains (used_ids c) x ≡ false) at fresh in
    ground
      (arith, count_absent r (used_ids c) absent, count-append r (pending_ids c) (settled_ids c))

-- What every step does to the tally.
Follows : Tally → Tally → Type 0
Follows t u = (t.waiting + t.over ≤ u.waiting + u.over) × (t.over ≤ u.over) × IsOrderly u

follows :
    (c d : Controller) (r : String)
    → Keeps c d
    → IsOrderly (tally r c)
    → Follows (tally r c) (tally r d)
unfolding Follows Advances
follows c d r k h = let ((sum, more), orderly) = k r in (omega (arith, sum), more, orderly h)

untouched :
    (c d : Controller) (r : String)
    → tally r d ≡ tally r c
    → IsOrderly (tally r c)
    → Follows (tally r c) (tally r d)
unfolding Follows
untouched c d r same h = subst (Follows (tally r c)) (sym same) (omega arith, omega arith, h)

send_on-Follows :
    (i : ℕ) (type : String) (awaited failure : Option String) (c : Controller) (r : String)
    → IsFresh awaited c
    → IsOrderly (tally r c)
    → Follows (tally r c) (tally r (send_on i type awaited failure c))
unfolding send_on Follows IsOrderly Advances
send_on-Follows i type none none c r fresh h = (omega arith, omega arith, h)
send_on-Follows i type none (some message) c r fresh h = (omega arith, omega arith, h)
send_on-Follows i type (some id) none c r (full, fresh) (one, run) =
    let (waiting, over, timed) = await_result-tally r type id c in
    ground (arith, waiting, over, timed, one, run, count_fresh r id c fresh)
send_on-Follows i type (some id) (some message) c r (full, fresh) (one, run) =
    let (waiting, over, timed) = await_result-tally r type id c in
    let ((sum, more), orderly) =
      reject-Keeps message (truthy (some id)) (await_result type id c) r in
    ground (arith, waiting, over, timed, one, run, count_fresh r id c fresh, sum, more, orderly)

send_unavailable-Follows :
    (awaited : Option String) (c : Controller) (r : String)
    → IsFresh awaited c
    → IsOrderly (tally r c)
    → Follows (tally r c) (tally r (send_unavailable awaited c))
unfolding send_unavailable Follows IsOrderly
send_unavailable-Follows none c r fresh h = (omega arith, omega arith, h)
send_unavailable-Follows (some id) c r (full, fresh) (one, run) = ground (
  arith,
  one,
  run,
  count_fresh r id c fresh,
  count-settle r c.settled id (rejected "connection_unavailable"),
)

send-Follows :
    (type : String) (awaited failure : Option String) (c : Controller) (r : String)
    → IsFresh awaited c
    → IsOrderly (tally r c)
    → Follows (tally r c) (tally r (send type awaited failure c))
unfolding send
send-Follows type awaited failure c r fresh h = elim (Option-cases (open_socket c)) [
  | inl no_socket ↦ rw (no_socket, send) (send_unavailable-Follows awaited c r fresh h)
  | inr (i, usable) ↦ rw (usable, send) (send_on-Follows i type awaited failure c r fresh h)
]

-- A promise that waits or is over stays so, one that is over stays over, and all is in order.
Step-Follows :
    {json_parse : String → Option Envelope} {c d : Controller}
    → Step json_parse c d
    → ((r : String) → IsOrderly (tally r c))
    → (r : String) → Follows (tally r c) (tally r d)
unfolding reconnect_timer_fired on_close cancel_pending_connect disconnect Follows Advances
Step-Follows {c = c} (connects url) v r =
    untouched c (connect url c) r (tally-connect r url c) (v r)
Step-Follows {c = c} (reconnects url delay e) v r =
    let rung = record c { reconnect_timer = none } in
    untouched c (connect url rung) r (tally-connect r url rung) (v r)
Step-Follows {c = c} (answers attempt auth h) v r =
    untouched c (auth_answered attempt auth c) r (tally-auth_answered r attempt auth c) (v r)
Step-Follows {c = c} (opens i s found at) v r =
    let opened = set_ready i live c in
    untouched c (on_open i opened) r (tally-on_open r i opened ∙ tally-set_ready r i live c) (v r)
Step-Follows {json_parse} {c} (receives i s raw found at) v r =
    follows c (on_message json_parse raw c) r (on_message-Keeps json_parse raw c) (v r)
Step-Follows {c = c} (fails i s found at) v r =
    let shut = set_ready i closing c in
    follows c (on_error i shut) r
      (trans-Keeps c shut (on_error i shut)
        (same-Keeps c shut (λ r'. tally-set_ready r' i closing c)) (on_error-Keeps i shut))
      (v r)
Step-Follows {c = c} (closes i s found at) v r =
    let shut = set_ready i closed c in
    let lost = handle_connection_loss i "connection_lost" shut in
    follows c lost r
      (trans-Keeps c shut lost (same-Keeps c shut (λ r'. tally-set_ready r' i closed c))
        (connection_loss-Keeps i "connection_lost" shut))
      (v r)
Step-Follows {c = c} (sends type awaited failure fresh) v r =
    send-Follows type awaited failure c r fresh (v r)
Step-Follows {c = c} (times_out id h) v r =
    let ((sum, more), orderly) = times_out-Keeps id c v r in (omega (arith, sum), more, orderly)
Step-Follows {c = c} leaves v r =
    follows c (cancel_pending_connect c) r
      (gives_up-Keeps "connection_lost" c
        (record c {
          reconnect_timer = none;
          connect_attempt = c.connect_attempt + 1;
          connect_in_flight = false;
        })
        (cancel_pending_connect c) (λ r'. refl) (λ r'. refl))
      (v r)
Step-Follows {c = c} disconnects v r =
    follows c (disconnect c) r
      (gives_up-Keeps "connection_lost" c
        (record c {
          reconnect_timer = none;
          reconnect_attempt = 0;
          connect_attempt = c.connect_attempt + 1;
          connect_in_flight = false;
        })
        (disconnect c) (λ r'. refl) (λ r'. refl))
      (v r)
Step-Follows dismisses_error v r = (omega arith, omega arith, v r)
Step-Follows dismisses_game v r = (omega arith, omega arith, v r)

-- In every state that can be reached, each request id waits for its result or has it, not both and at
-- most once, and its timer runs exactly while it waits.
pub Reach-IsOrderly :
    (json_parse : String → Option Envelope) (c : Controller) (r : String)
    → Reach json_parse c
    → IsOrderly (tally r c)
unfolding IsOrderly Follows
Reach-IsOrderly json_parse _ r start = (omega arith, refl)
Reach-IsOrderly json_parse _ r (later {c} {d} reached step) =
    (Step-Follows step (λ r'. Reach-IsOrderly json_parse c r' reached) r).2

contains-count : (r : String) (xs : List String) → contains xs r ≡ not (count r xs == 0)
contains-count r [] = refl
contains-count r (x ∷ xs) = ground (arith, contains-count r xs)

-- For a request that waits in a state that can be reached a timer runs, and when it runs out the
-- request is settled and does not wait any more.
pub waiting_times_out :
    (json_parse : String → Option Envelope) (c : Controller) (r : String)
    → Reach json_parse c
    → contains (pending_ids c) r ≡ true
    → (contains c.action_timers r ≡ true)
      × (contains (settled_ids (action_timer_fired r c)) r ≡ true)
      × (contains (pending_ids (action_timer_fired r c)) r ≡ false)
unfolding IsOrderly Advances action_timer_fired
waiting_times_out json_parse c r reached h =
    let cleared = record c { action_timers = clear_action_timer r c.action_timers } in
    let orderly = λ (r' : String). Reach-IsOrderly json_parse c r' reached in
    let (one, run) = orderly r in
    let ((sum, more), after) = times_out-Keeps r c orderly r in
    let waits = contains-count r (pending_ids c) in
    let gone = reject-gone "command_timeout" r cleared in
    (
      ground (arith, h, run, waits, contains-count r c.action_timers),
      ground (arith, h, sum, gone, waits, contains-count r (settled_ids (action_timer_fired r c))),
      contains-count r (pending_ids (action_timer_fired r c)) ∙ ground (arith, gone),
    )
