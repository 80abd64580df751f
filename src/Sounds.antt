-- ===== src/Sounds.antt =====
-- The sounds of a change of the lobby's state: frontend/src/lib/game-sound-events.ts. The text that
-- `JSON.stringify` makes of activities is a parameter.
pub mod Counts
pub mod Heard
use compositions.Prelude.{
  ℕ, ◌<◌, String, Bool, true, false, not, ◌&&◌, ◌||◌, Option, none, some, List, [], ◌∷◌, ◌++◌, map,
  ◌==◌, ◌!=◌, if◌then◌else◌, get_or, any, contains, length, is_empty, is_some, ltb, nat_eq,
  string_eq, option_eq,
}
use compositions.Snapshots.Game.{Game, CompositionActivity}
use compositions.Snapshots.Room.{Room, Player}
use compositions.Drafts.{truthy}
use compositions.Socket.{LobbyState, has_phase}

abbrev pub room_player_ids : LobbyState → List String
room_player_ids state = elim state.room [
  | none ↦ []
  | some room ↦ map (λ player. player.player_id) room.players
]

-- `state.game?.turnActivity?.compositionActivities ?? []`
abbrev pub activities_of : Game → List CompositionActivity
activities_of game = elim game.turn_activity [
  | none ↦ []
  | some activity ↦ get_or [] activity.composition_activities
]

unfoldable pub has_joker_reclaim_activity : Game → Bool
has_joker_reclaim_activity game =
    any
      (λ composition.
        composition.kind == some "joker_reclaim"
        || any (λ entry. entry.1.kind == "joker_reclaim") (get_or [] composition.card_activities))
      (activities_of game)

abbrev pub code_of : LobbyState → Option String
code_of state = elim state.room [ none ↦ none | some room ↦ truthy (some room.code) ]

abbrev pub is_same_room : LobbyState → LobbyState → Bool
is_same_room previous current =
    is_some (code_of previous) && is_some (code_of current) && code_of previous == code_of current

-- A sound where a test holds.
abbrev pub when : Bool → String → List String
when test sound = if test then sound ∷ [] else []

abbrev pub has_newcomer : List String → List String → Bool
has_newcomer old new = any (λ player_id. not (contains old player_id)) new

abbrev pub is_turn_of : Option Game → String → Bool
is_turn_of none player_id = false
is_turn_of (some game) player_id = game.turn.player_id == some player_id

abbrev pub my_turn_starts : LobbyState → Bool
my_turn_starts current =
    has_phase current.room "in_progress" && is_turn_of current.game current.player_id

abbrev pub win_sounds : LobbyState → LobbyState → List String
win_sounds previous current =
    if has_phase current.room "game_over" && not (has_phase previous.room "game_over")
    then "game-win" ∷ []
    else when (has_phase current.room "round_over" && not (has_phase previous.room "round_over"))
        "round-win"

module _ (json_stringify : List CompositionActivity → String) where
  unfoldable pub composition_sounds : Game → Game → List String
  unfolding has_joker_reclaim_activity
  composition_sounds before after =
      let created = ltb (length before.active_compositions) (length after.active_compositions) in
      let reclaimed = has_joker_reclaim_activity after in
      if not (is_empty (activities_of after))
        && json_stringify (activities_of before) != json_stringify (activities_of after)
      then when created "composition-create"
        ++ when reclaimed "joker-reclaim"
        ++ when (not created && not reclaimed) "card-place"
      else []

  -- The sounds of a round that goes on.
  unfoldable pub turn_sounds : LobbyState → Game → Game → List String
  unfolding composition_sounds
  turn_sounds current before after =
      when
        (before.turn.number == after.turn.number
          && not before.turn.has_drawn
          && after.turn.has_drawn)
        "card-draw"
      ++ (if before.turn.number != after.turn.number
          then "card-discard" ∷ when (my_turn_starts current) "turn-start"
          else [])
      ++ composition_sounds before after

  unfoldable pub game_sounds : LobbyState → LobbyState → List String
  unfolding turn_sounds
  game_sounds previous current =
      let starts = when (my_turn_starts current) "turn-start" in
      elim previous.game [
        | none ↦ starts
        | some before ↦ elim current.game [
          | none ↦ starts
          | some after ↦
              if before.round != after.round then starts else turn_sounds current before after
        ]
      ]

  unfoldable pub game_sounds_for_state_change : LobbyState → LobbyState → List String
  unfolding game_sounds
  game_sounds_for_state_change previous current =
      let errors =
        when
          (is_some (truthy current.last_error) && current.last_error_id != previous.last_error_id)
          "invalid-action" in
      if not (is_same_room previous current)
      then errors
      else errors
        ++ when (has_newcomer (room_player_ids previous) (room_player_ids current)) "player-joined"
        ++ when (has_newcomer (room_player_ids current) (room_player_ids previous)) "player-left"
        ++ win_sounds previous current
        ++ game_sounds previous current
