-- ===== src/Socket/Controller/Keeps.antt =====
-- What each operation of the controller that gives out no request id does to a request's tally.
use compositions.Prelude.{
  ℕ, ◌≡◌, refl, inl, inr, String, Bool, true, false, ◌||◌, ◌&&◌, Option, none, some, ◌==◌, ◌!=◌,
  if◌then◌else◌, any, count, count-filter_ne, nat_eq, string_eq, option_eq, Bool-cases,
  Option-cases, arith, sym, ◌∙◌, subst,
}
use compositions.Drafts.{truthy}
use compositions.Socket.{disconnected, Payload, action_result_of}
use compositions.Socket.Controller.{
  Controller, ReadyState, update_state, set_status, clear_action_timer, reject_pending_actions,
  is_answered_by, take_first, settlement_of, resolve_pending_action, reject_failed_action,
  apply_incoming_message, socket_at,
}
use compositions.Socket.Connection.{
  ConnectionAuth, unavailable, no_session, session, Envelope, schedule_reconnect, has_usable_socket,
  connect, auth_answered, set_ready, close_socket, close_at, close_current, is_current, on_open,
  parse_envelope, on_message, handle_connection_loss, on_error, action_timer_fired,
}
use compositions.Socket.Controller.Steps.{pending_ids}
use compositions.Socket.Controller.Requests.{
  tally, IsOrderly, Advances, count-settle, count-take_first, reject-tally, reject-gone,
}

-- An operation that gives out no request id.
abbrev pub Keeps : Controller → Controller → Type 0
Keeps c d =
    (r : String)
    → Advances (tally r c) (tally r d) × (IsOrderly (tally r c) → IsOrderly (tally r d))

pub same-Keeps : (c d : Controller) → ((r : String) → tally r d ≡ tally r c) → Keeps c d
unfolding Advances IsOrderly
same-Keeps c d same r =
    subst (λ u. Advances (tally r c) u × (IsOrderly (tally r c) → IsOrderly u)) (sym (same r))
      ((refl, omega arith), λ h. h)

pub trans-Keeps : (c d e : Controller) → Keeps c d → Keeps d e → Keeps c e
unfolding Advances
trans-Keeps c d e k l r =
    let ((sum, more), orderly) = k r in
    let ((sum', more'), orderly') = l r in ((sum' ∙ sum, omega arith), λ h. orderly' (orderly h))

pub reject-Keeps :
    (message : String) (request_id : Option String) (c : Controller)
    → Keeps c (reject_pending_actions message request_id c)
unfolding Advances IsOrderly
reject-Keeps message request_id c r =
    let (sum, more, timed) = reject-tally r message request_id c in
    ((sum, more), λ (one, run). (omega arith, ground (arith, sum, more, timed, one, run)))

resolve-Keeps :
    (payload : Option Payload) (c : Controller) → Keeps c (resolve_pending_action payload c)
unfolding resolve_pending_action Advances IsOrderly
resolve-Keeps none c = same-Keeps c c (λ r. refl)
resolve-Keeps (some payload) c =
    let result = action_result_of payload in
    elim (Option-cases (take_first (is_answered_by result) c.pending_actions)) [
      | inl unanswered ↦ rw (unanswered, resolve_pending_action) (same-Keeps c c (λ r. refl))
      | inr (found, answered) ↦ λ r.
          let fewer = count-take_first r (is_answered_by result) c.pending_actions found answered in
          let over = count-settle r c.settled found.0.request_id (settlement_of result) in
          let timed = count-filter_ne r found.0.request_id c.action_timers in
          rw (answered, resolve_pending_action)
            (
              (ground (arith, fewer, over), ground (arith, over)),
              λ (one, run).
                  (ground (arith, fewer, over, one), ground (arith, fewer, timed, one, run)),
            )
    ]

reject_failed-Keeps :
    (payload : Option Payload) (c : Controller) → Keeps c (reject_failed_action payload c)
unfolding reject_failed_action
reject_failed-Keeps none c = same-Keeps c c (λ r. refl)
reject_failed-Keeps (some payload) c = elim (Option-cases payload.request_id) [
  | inl unnamed ↦ rw (unnamed, reject_failed_action) (same-Keeps c c (λ r. refl))
  | inr (id, named) ↦
      elim (Bool-cases (
        any (λ pending. pending.request_id == id && payload.action == some pending.expected_action)
          c.pending_actions)) [
            | inl failed ↦
                rw (named, reject_failed_action) (rw failed (reject-Keeps _ (truthy (some id)) c))
            | inr other ↦ rw (named, reject_failed_action) (rw other (same-Keeps c c (λ r. refl)))
          ]
]

cond-Keeps : (b : Bool) (c d : Controller) → Keeps c d → Keeps c (if b then d else c)
cond-Keeps true c d k = k
cond-Keeps false c d k = same-Keeps c c (λ r. refl)

apply-Keeps :
    (type : String) (payload : Option Payload) (c : Controller)
    → Keeps c (apply_incoming_message type payload c)
unfolding apply_incoming_message
apply-Keeps type payload c =
    let resolved = if type == "action_result" then resolve_pending_action payload c else c in
    let checked = if type == "error" then reject_failed_action payload resolved else resolved in
    trans-Keeps c resolved (apply_incoming_message type payload c)
      (cond-Keeps (type == "action_result") c _ (resolve-Keeps payload c))
      (trans-Keeps resolved checked (apply_incoming_message type payload c)
        (cond-Keeps (type == "error") resolved _ (reject_failed-Keeps payload resolved))
        (same-Keeps checked (apply_incoming_message type payload c) (λ r. refl)))

pub on_message-Keeps :
    (json_parse : String → Option Envelope) (raw : Option String) (c : Controller)
    → Keeps c (on_message json_parse raw c)
unfolding on_message
on_message-Keeps json_parse raw c = elim (Option-cases (parse_envelope json_parse raw)) [
  | inl invalid ↦ rw (invalid, on_message) (same-Keeps c c (λ r. refl))
  | inr ((type, payload), valid) ↦ rw (valid, on_message) (apply-Keeps type payload c)
]

-- What does not touch the actions.
tally-schedule : (r : String) (c : Controller) → tally r (schedule_reconnect c) ≡ tally r c
unfolding schedule_reconnect
tally-schedule r c = elim (Option-cases c.reconnect_timer) [
  | inl idle ↦ rw (idle, schedule_reconnect) refl
  | inr (delay, running) ↦ rw (running, schedule_reconnect) refl
]

pub tally-connect : (r : String) (url : Bool) (c : Controller) → tally r (connect url c) ≡ tally r c
unfolding connect
tally-connect r url c = elim (Bool-cases (c.connect_in_flight || has_usable_socket c)) [
  | inl busy ↦ rw busy refl
  | inr free ↦ elim (Bool-cases url) [
    | inr missing ↦ rw (free, missing) refl
    | inl present ↦ rw (free, present) refl
  ]
]

tally-auth_current :
    (r : String) (attempt : ℕ) (auth : ConnectionAuth) (c : Controller)
    → (c.connect_attempt != attempt) ≡ false
    → tally r (auth_answered attempt auth c) ≡ tally r c
unfolding auth_answered
tally-auth_current r attempt unavailable c current = rw current (tally-schedule r _)
tally-auth_current r attempt no_session c current = rw current refl
tally-auth_current r attempt session c current = rw current refl

pub tally-auth_answered :
    (r : String) (attempt : ℕ) (auth : ConnectionAuth) (c : Controller)
    → tally r (auth_answered attempt auth c) ≡ tally r c
unfolding auth_answered
tally-auth_answered r attempt auth c = elim (Bool-cases (c.connect_attempt != attempt)) [
  | inl stale ↦ rw (stale, auth_answered) refl
  | inr current ↦ tally-auth_current r attempt auth c current
]

pub tally-set_ready :
    (r : String) (i : ℕ) (state : ReadyState) (c : Controller)
    → tally r (set_ready i state c) ≡ tally r c
tally-set_ready r i state c = elim (Option-cases (socket_at c i)) [
  | inl absent ↦ rw (absent, set_ready) refl
  | inr (s, found) ↦ rw (found, set_ready) refl
]

tally-close_socket : (r : String) (i : ℕ) (c : Controller) → tally r (close_socket i c) ≡ tally r c
tally-close_socket r i c = elim (Option-cases (socket_at c i)) [
  | inl absent ↦ rw (absent, close_socket) refl
  | inr (s, found) ↦ rw (found, close_socket) (tally-set_ready r i _ c)
]

tally-close_at : (r : String) (o : Option ℕ) (c : Controller) → tally r (close_at o c) ≡ tally r c
tally-close_at r none c = refl
tally-close_at r (some i) c = tally-close_socket r i c

pub tally-on_open : (r : String) (i : ℕ) (c : Controller) → tally r (on_open i c) ≡ tally r c
unfolding on_open
tally-on_open r i c = elim (Bool-cases (is_current i c)) [
  | inl current ↦ rw current refl
  | inr stale ↦ rw stale (tally-close_socket r i c)
]

-- The operations that reject what waits.
pub connection_loss-Keeps :
    (i : ℕ) (error : String) (c : Controller) → Keeps c (handle_connection_loss i error c)
unfolding handle_connection_loss
connection_loss-Keeps i error c =
    let freed = record c { socket = none; connect_in_flight = false } in
    let rejected_all = reject_pending_actions error none freed in
    let shown = update_state (set_status disconnected) rejected_all in
    cond-Keeps (c.socket == some i) c (schedule_reconnect shown) (
      trans-Keeps c rejected_all (schedule_reconnect shown) (reject-Keeps error none freed)
        (same-Keeps rejected_all (schedule_reconnect shown) (λ r. tally-schedule r shown)))

pub on_error-Keeps : (i : ℕ) (c : Controller) → Keeps c (on_error i c)
unfolding on_error
on_error-Keeps i c =
    cond-Keeps (is_current i c) c (handle_connection_loss i "connection_failed" c)
      (connection_loss-Keeps i "connection_failed" c)

pub gives_up-Keeps :
    (message : String) (c given_up d : Controller)
    → ((r : String) → tally r given_up ≡ tally r c)
    → ((r : String)
        → tally r d ≡ tally r (reject_pending_actions message none (close_current given_up)))
    → Keeps c d
gives_up-Keeps message c given_up d before after =
    let shut = close_current given_up in
    let rejected_all = reject_pending_actions message none shut in
    trans-Keeps c shut d
      (same-Keeps c shut (λ r. tally-close_at r given_up.socket given_up ∙ before r))
      (trans-Keeps shut rejected_all d (reject-Keeps message none shut)
        (same-Keeps rejected_all d after))

-- A timer that runs out.
pub times_out-Keeps :
    (id : String) (c : Controller)
    → ((r : String) → IsOrderly (tally r c))
    → (r : String)
    → Advances (tally r c) (tally r (action_timer_fired id c))
      × IsOrderly (tally r (action_timer_fired id c))
unfolding action_timer_fired Advances IsOrderly
times_out-Keeps id c v r =
    let cleared = record c { action_timers = clear_action_timer id c.action_timers } in
    let (sum, more, timed) = reject-tally r "command_timeout" (truthy (some id)) cleared in
    let gone = reject-gone "command_timeout" id cleared in
    let (one, run) = v r in
    (
      (sum, more),
      (
        omega (arith, sum, one),
        elim (Bool-cases (id == r)) [
          | inl same ↦
              let at : id ≡ r = (string_eq.equal_iff id r).0 same in
              ground (
                arith,
                timed,
                count-filter_ne r id c.action_timers,
                same,
                subst
                    (λ x.
                      count x (
                        pending_ids
                          (reject_pending_actions "command_timeout" (truthy (some id)) cleared))
                      ≡ 0)
                    at gone,
              )
          | inr other ↦
              ground
                (arith, sum, more, timed, one, run, count-filter_ne r id c.action_timers, other)
        ],
      ),
    )
