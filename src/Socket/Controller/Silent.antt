-- ===== src/Socket/Controller/Silent.antt =====
-- The operations of the controller that settle promises and change the lobby, and touch neither the
-- sockets, nor the attempts, nor the timer to reconnect.
use compositions.Prelude.{
  ℕ, zero, suc, length, set, ◌≡◌, inl, inr, refl, String, Bool, true, false, ◌&&◌, Option, none,
  some, List, [], ◌∷◌, ◌==◌, if◌then◌else◌, ap, any, nat_eq, string_eq, option_eq, Bool-cases,
  Option-cases, ◌∙◌,
}
use compositions.Drafts.{truthy}
use compositions.Socket.{initial_state, Payload, action_result_of}
use compositions.Socket.Controller.{
  PendingAction, Controller, reject_each, reject_pending_actions, is_answered_by, take_first,
  resolve_pending_action, reject_failed_action, apply_incoming_message, send_unavailable,
}
use compositions.Socket.Connection.{Envelope, parse_envelope, on_message}

-- The loop over rejected actions changes their timers and their promises only.
pub reject_each_rest :
    (message : String) (actions : List PendingAction) (c : Controller)
    → (let d = reject_each message actions c in
        d ≡ record c { action_timers = d.action_timers; settled = d.settled })
unfolding reject_each
reject_each_rest message [] c = refl
reject_each_rest message (pending ∷ actions) c = reject_each_rest message actions _

module _ {ℓ} {A : Type ℓ} where
  pub length-set : (xs : List A) (i : ℕ) (x : A) → length (set xs i x) ≡ length xs
  length-set [] i x = refl
  length-set (y ∷ xs) zero x = refl
  length-set (y ∷ xs) (suc i) x = ap suc (length-set xs i x)

-- The controller without the actions and the lobby.
abbrev pub outer : Controller → Controller
outer c = record c { pending_actions = []; lobby = initial_state; action_timers = []; settled = [] }

pub outer-reject_each :
    (message : String) (actions : List PendingAction) (c : Controller)
    → outer (reject_each message actions c) ≡ outer c
unfolding reject_each
outer-reject_each message [] c = refl
outer-reject_each message (pending ∷ actions) c = outer-reject_each message actions _

pub outer-reject :
    (message : String) (request_id : Option String) (c : Controller)
    → outer (reject_pending_actions message request_id c) ≡ outer c
unfolding reject_pending_actions
outer-reject message none c = outer-reject_each message c.pending_actions _
outer-reject message (some id) c = outer-reject_each message _ _

pub outer-resolve :
    (payload : Option Payload) (c : Controller) → outer (resolve_pending_action payload c) ≡ outer c
unfolding resolve_pending_action
outer-resolve none c = refl
outer-resolve (some payload) c =
    elim (Option-cases (take_first (is_answered_by (action_result_of payload)) c.pending_actions)) [
      | inl unanswered ↦ rw (unanswered, resolve_pending_action) refl
      | inr (found, answered) ↦ rw (answered, resolve_pending_action) refl
    ]

pub outer-reject_failed :
    (payload : Option Payload) (c : Controller) → outer (reject_failed_action payload c) ≡ outer c
unfolding reject_failed_action
outer-reject_failed none c = refl
outer-reject_failed (some payload) c = elim (Option-cases payload.request_id) [
  | inl unnamed ↦ rw (unnamed, reject_failed_action) refl
  | inr (id, named) ↦
      elim (Bool-cases (
        any (λ pending. pending.request_id == id && payload.action == some pending.expected_action)
          c.pending_actions)) [
            | inl failed ↦
                rw (named, reject_failed_action) (rw failed (outer-reject _ (truthy (some id)) c))
            | inr other ↦ rw (named, reject_failed_action) (rw other refl)
          ]
]

pub outer-if :
    (b : Bool) (c d : Controller) → outer d ≡ outer c → outer (if b then d else c) ≡ outer c
outer-if true c d same = same
outer-if false c d same = refl

pub outer-apply :
    (type : String) (payload : Option Payload) (c : Controller)
    → outer (apply_incoming_message type payload c) ≡ outer c
unfolding apply_incoming_message
outer-apply type payload c =
    outer-if (type == "error") _ _ (outer-reject_failed payload _)
    ∙ outer-if (type == "action_result") c _ (outer-resolve payload c)

pub outer-on_message :
    (json_parse : String → Option Envelope) (raw : Option String) (c : Controller)
    → outer (on_message json_parse raw c) ≡ outer c
unfolding on_message
outer-on_message json_parse raw c = elim (Option-cases (parse_envelope json_parse raw)) [
  | inl invalid ↦ rw (invalid, on_message) refl
  | inr ((type, payload), valid) ↦ rw (valid, on_message) (outer-apply type payload c)
]

pub outer-send_unavailable :
    (awaited : Option String) (c : Controller) → outer (send_unavailable awaited c) ≡ outer c
unfolding send_unavailable
outer-send_unavailable none c = refl
outer-send_unavailable (some id) c = refl
