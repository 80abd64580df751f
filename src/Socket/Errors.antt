-- ===== src/Socket/Errors.antt =====
-- When a message of the server shows an error to the player.
use compositions.Prelude.{
  suc, ◌≡◌, ◌≢◌, ◌⊎◌, ap, eq_iff, get_or, if◌then◌else◌, inl, inr, refl, String, Bool, true, false,
  not, ◌||◌, ◌>>=◌, Option, none, some, ◌==◌, string_eq, option_eq, arith, Bool-cases,
}
use compositions.Drafts.{truthy}
use compositions.Socket.{
  ErrorCode, string_code, other_code, is_rejected_session_error, LobbyState, Payload,
  game_error_message, with_error, clear_error, is_social_action, MessageType, connected_message,
  room_state, game_state, spectating_ended, action_result, left_room, social_state, error_message,
  unknown_message, message_type, reduce_connected, reduce_room_state, reduce_game_state,
  reduce_social_state, reduce_error, reduce_as, reduce_incoming_message,
}

-- The code that an error message shows is its own, where it has one.
abbrev pub IsNamed : Option ErrorCode → ErrorCode → Type 0
IsNamed none shown = shown ≡ string_code "internal_error"
IsNamed (some code) shown = shown ≡ code

-- The developer's message is the one of the error message, where that is not empty, or the code.
abbrev pub IsDescribed : Option String → ErrorCode → ErrorCode → Type 0
IsDescribed none code shown = shown ≡ code
IsDescribed (some message) code shown =
    ((message ≡ "") × (shown ≡ code)) ⊎ ((message ≢ "") × (shown ≡ string_code message))

-- What a message shows for its code and for the developer.
abbrev pub Tells : MessageType → Option Payload → ErrorCode → ErrorCode → Type 0
Tells error_message payload code message =
    IsNamed (payload >>= (λ d. d.code)) code
    × IsDescribed (payload >>= (λ d. d.message)) code message
Tells type payload code message = (code ≡ string_code "unknown_message_type") × (message ≡ code)

abbrev pub RejectsSession : ErrorCode → Type 0
RejectsSession code =
    (code ≡ string_code "session_not_found") ⊎ (code ≡ string_code "session_user_mismatch")

-- A session that is rejected is forgotten, any other is kept.
abbrev pub IsSessionAfter : ErrorCode → String → String → Type 0
IsSessionAfter code old new =
    (RejectsSession code × (new ≡ "")) ⊎ ((¬ RejectsSession code) × (new ≡ old))

-- An error is shown: the code and the message are those that the message tells, the text goes by the
-- code, and its id is a new one. The room and the game stay.
abbrev pub IsShown : MessageType → Option Payload → LobbyState → LobbyState → Type 0
IsShown type payload current next =
    (code : ErrorCode) × (message : ErrorCode) × Tells type payload code message
    × (next.last_error_code ≡ some code)
    × (next.last_error ≡ some (game_error_message code))
    × (next.last_error_message ≡ some message)
    × (next.last_error_id ≡ suc current.last_error_id)
    × IsSessionAfter code current.session_id next.session_id
    × (next.room ≡ current.room)
    × (next.game ≡ current.game)

abbrev pub IsCleared : LobbyState → LobbyState → Type 0
IsCleared current next =
    (next.last_error_code ≡ none)
    × (next.last_error ≡ none)
    × (next.last_error_message ≡ none)
    × (next.last_error_id ≡ current.last_error_id)

-- The messages that show an error: an error, unless it is about a draft or a social action, and a
-- message of an unknown type.
abbrev pub is_alarming : MessageType → Option Payload → Bool
is_alarming unknown_message payload = true
is_alarming error_message payload =
    let action = payload >>= (λ d. d.action) in
    not (action == some "draft_update" || is_social_action action)
is_alarming type payload = false

abbrev pub Outcome : MessageType → Option Payload → LobbyState → LobbyState → Type 0
Outcome type payload current next =
    if is_alarming type payload then IsShown type payload current next else IsCleared current next

named : (o : Option ErrorCode) → IsNamed o (get_or (string_code "internal_error") o)
named none = refl
named (some code) = refl

described :
    (o : Option String) (code : ErrorCode)
    → IsDescribed o code (get_or code (truthy o >>= (λ m. some (string_code m))))
described none code = refl
described (some message) code = elim (Bool-cases (message == "")) [
  | inl empty ↦ inl ((eq_iff message "").0 empty, rw empty refl)
  | inr given ↦ inr (λ same. absurd (ground (arith, given, same, eq_iff message "")), rw given refl)
]

string_code_inj : (a b : String) → string_code a ≡ string_code b → a ≡ b
string_code_inj a b e = cc

session_after :
    (code : ErrorCode) (old : String)
    → IsSessionAfter code old (if is_rejected_session_error code then "" else old)
unfolding is_rejected_session_error
session_after (other_code json) old = inr (λ e. elim e [ inl a ↦ cc | inr b ↦ cc ], refl)
session_after (string_code code) old = elim (Bool-cases (code == "session_not_found")) [
  | inl gone ↦ inl (inl (ap string_code ((eq_iff code _).0 gone)), rw gone refl)
  | inr not_gone ↦ elim (Bool-cases (code == "session_user_mismatch")) [
    | inl other ↦ inl (inr (ap string_code ((eq_iff code _).0 other)), rw (not_gone, other) refl)
    | inr kept ↦ inr (
      λ e. elim e [
        | inl a ↦
            absurd
              (ground (arith, not_gone, string_code_inj _ _ a, eq_iff code "session_not_found"))
        | inr b ↦
            absurd
              (ground (arith, kept, string_code_inj _ _ b, eq_iff code "session_user_mismatch"))
      ],
      rw (not_gone, kept) refl,
    )
  ]
]

reduce_error-Outcome :
    (current : LobbyState) (payload : Option Payload)
    → Outcome error_message payload current (reduce_error current payload)
unfolding reduce_error with_error clear_error
reduce_error-Outcome current payload =
    let action = payload >>= (λ d. d.action) in
    let code = get_or (string_code "internal_error") (payload >>= (λ d. d.code)) in
    elim (Bool-cases (action == some "draft_update" || is_social_action action)) [
      | inl background ↦ rw background (refl, refl, refl, refl)
      | inr foreground ↦ rw foreground (
        code,
        _,
        (named (payload >>= (λ d. d.code)), described (payload >>= (λ d. d.message)) code),
        refl,
        refl,
        refl,
        omega arith,
        session_after code current.session_id,
        refl,
        refl,
      )
    ]

reduce_as-Outcome :
    (type : MessageType) (current : LobbyState) (payload : Option Payload)
    → Outcome type payload current (reduce_as type current payload)
unfolding reduce_as reduce_connected reduce_room_state reduce_game_state reduce_social_state
    with_error clear_error is_rejected_session_error
reduce_as-Outcome connected_message current payload = (refl, refl, refl, refl)
reduce_as-Outcome room_state current payload = (refl, refl, refl, refl)
reduce_as-Outcome game_state current payload = (refl, refl, refl, refl)
reduce_as-Outcome spectating_ended current payload = (refl, refl, refl, refl)
reduce_as-Outcome action_result current payload = (refl, refl, refl, refl)
reduce_as-Outcome left_room current payload = (refl, refl, refl, refl)
reduce_as-Outcome social_state current payload = (refl, refl, refl, refl)
reduce_as-Outcome error_message current payload = reduce_error-Outcome current payload
reduce_as-Outcome unknown_message current payload = (
  _,
  _,
  (refl, refl),
  refl,
  refl,
  refl,
  omega arith,
  session_after (string_code "unknown_message_type") current.session_id,
  refl,
  refl,
)

-- An error of the server that is not about a draft or a social action, and a message of an unknown
-- type, show an error: the code of the error ("internal_error" where it has none) or
-- "unknown_message_type", the text that goes by that code, for the developer the error's message or
-- else the code, and an id that is one more; the room and the game stay, and the session is forgotten
-- exactly if the code rejects it. Every other message, errors about drafts and social actions
-- included, clears the error and keeps the id.
pub reduce_incoming_message-Outcome :
    (current : LobbyState) (type : String) (payload : Option Payload)
    → Outcome (message_type type) payload current (reduce_incoming_message current type payload)
unfolding reduce_incoming_message
reduce_incoming_message-Outcome current type payload =
    reduce_as-Outcome (message_type type) current payload
