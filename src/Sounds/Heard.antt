-- ===== src/Sounds/Heard.antt =====
-- Which sounds a change makes.
use compositions.Prelude.{
  ◌≡◌, inl, inr, refl, String, Bool, false, not, ◌&&◌, Option, none, some, List, ◌==◌, ◌!=◌,
  if◌then◌else◌, count, length, is_empty, is_some, ltb, nat_eq, string_eq, option_eq, Option-cases,
}
use compositions.Snapshots.Game.{Game, CompositionActivity}
use compositions.Drafts.{truthy}
use compositions.Socket.{LobbyState, has_phase}
use compositions.Sounds.{
  room_player_ids, activities_of, has_joker_reclaim_activity, is_same_room, when, has_newcomer,
  my_turn_starts, composition_sounds, turn_sounds, game_sounds, game_sounds_for_state_change,
}
use compositions.Sounds.Counts.{
  once_if, all_sounds, round_sounds, IsOfChange, round_sounds-IsOfRound, all_sounds-IsOfChange,
}

-- A test on the games before and after, in one round.
abbrev pub in_round : (Game → Game → Bool) → Option Game → Option Game → Bool
in_round test none current = false
in_round test (some before) none = false
in_round test (some before) (some after) = before.round == after.round && test before after

abbrev pub turn_stays : Game → Game → Bool
turn_stays before after = before.turn.number == after.turn.number

abbrev pub draws : Game → Game → Bool
draws before after = turn_stays before after && not before.turn.has_drawn && after.turn.has_drawn

module _ (json_stringify : List CompositionActivity → String) where
  abbrev pub composes : Game → Game → Bool
  composes before after =
      not (is_empty (activities_of after))
      && json_stringify (activities_of before) != json_stringify (activities_of after)

  abbrev pub creates : Game → Game → Bool
  creates before after =
      composes before after
      && ltb (length before.active_compositions) (length after.active_compositions)

  abbrev pub reclaims : Game → Game → Bool
  reclaims before after = composes before after && has_joker_reclaim_activity after

  abbrev pub places : Game → Game → Bool
  places before after =
      composes before after && not (creates before after) && not (reclaims before after)

  -- Each sound comes once or not at all: `fails` is a new error, `same` the same room, and the others
  -- are what happened in it.
  unfoldable pub IsHeard :
      (fails same joins leaves wins ends mine : Bool) (before after : Option Game)
      → List String
      → Type 0
  IsHeard fails same joins leaves wins ends mine before after sounds =
      (count "invalid-action" sounds ≡ once_if fails)
      × (count "player-joined" sounds ≡ once_if (same && joins))
      × (count "player-left" sounds ≡ once_if (same && leaves))
      × (count "game-win" sounds ≡ once_if (same && wins))
      × (count "round-win" sounds ≡ once_if (same && not wins && ends))
      × (count "turn-start" sounds
          ≡ once_if (same && mine && not (in_round turn_stays before after)))
      × (count "card-draw" sounds ≡ once_if (same && in_round draws before after))
      × (count "card-discard" sounds
          ≡ once_if (same && in_round (λ g h. not (turn_stays g h)) before after))
      × (count "composition-create" sounds ≡ once_if (same && in_round creates before after))
      × (count "joker-reclaim" sounds ≡ once_if (same && in_round reclaims before after))
      × (count "card-place" sounds ≡ once_if (same && in_round places before after))

  sounds_between : LobbyState → Option Game → Option Game → List String
  sounds_between current none after = when (my_turn_starts current) "turn-start"
  sounds_between current (some before) none = when (my_turn_starts current) "turn-start"
  sounds_between current (some before) (some after) =
      if before.round != after.round
      then when (my_turn_starts current) "turn-start"
      else turn_sounds json_stringify current before after

  all_sounds-IsHeard :
      (fails same joins leaves wins ends : Bool) (current : LobbyState) (before after : Option Game)
      → IsHeard fails same joins leaves wins ends
          (my_turn_starts current)
          before
          after
          (all_sounds fails same joins leaves wins ends (sounds_between current before after))
  unfolding IsHeard IsOfChange sounds_between round_sounds turn_sounds composition_sounds
  all_sounds-IsHeard fails same joins leaves wins ends current none after =
      let mine = my_turn_starts current in
      all_sounds-IsOfChange fails same joins leaves wins ends false mine false false false false
        false (when mine "turn-start")
        (round_sounds-IsOfRound false mine false false false false false)
  all_sounds-IsHeard fails same joins leaves wins ends current (some before) none =
      let mine = my_turn_starts current in
      all_sounds-IsOfChange fails same joins leaves wins ends false mine false false false false
        false (when mine "turn-start")
        (round_sounds-IsOfRound false mine false false false false false)
  all_sounds-IsHeard fails same joins leaves wins ends current (some before) (some after) =
      all_sounds-IsOfChange fails same joins leaves wins ends (before.round == after.round)
        (my_turn_starts current) (draws before after) (turn_stays before after)
        (composes before after)
        (ltb (length before.active_compositions) (length after.active_compositions))
        (has_joker_reclaim_activity after) _
        (round_sounds-IsOfRound (before.round == after.round) (my_turn_starts current)
          (draws before after) (turn_stays before after) (composes before after)
          (ltb (length before.active_compositions) (length after.active_compositions))
          (has_joker_reclaim_activity after))

  same_sounds :
      (previous current : LobbyState)
      → game_sounds json_stringify previous current
        ≡ sounds_between current previous.game current.game
  unfolding sounds_between game_sounds
  same_sounds previous current = elim (Option-cases previous.game) [
    | inl no_game ↦ rw (no_game, game_sounds, sounds_between) refl
    | inr (before, was) ↦ elim (Option-cases current.game) [
      | inl no_game ↦ rw (was, game_sounds, sounds_between) (rw no_game refl)
      | inr (after, now) ↦ rw (was, game_sounds, sounds_between) (rw now refl)
    ]
  ]

  -- A change of the lobby's state makes each sound once or not at all: "invalid-action" for a new error
  -- that has a message; and, if the room is the same, the others: for a player who is new or gone, for
  -- the end of the game or else of the round, for the start of the player's own turn, and, within a
  -- round, for a card that was drawn or discarded and for the compositions that the turn has changed.
  pub game_sounds_for_state_change-IsHeard :
      (previous current : LobbyState)
      → IsHeard
          (is_some (truthy current.last_error) && current.last_error_id != previous.last_error_id)
          (is_same_room previous current)
          (has_newcomer (room_player_ids previous) (room_player_ids current))
          (has_newcomer (room_player_ids current) (room_player_ids previous))
          (has_phase current.room "game_over" && not (has_phase previous.room "game_over"))
          (has_phase current.room "round_over" && not (has_phase previous.room "round_over"))
          (my_turn_starts current)
          previous.game
          current.game
          (game_sounds_for_state_change json_stringify previous current)
  unfolding game_sounds_for_state_change all_sounds
  game_sounds_for_state_change-IsHeard previous current =
      rw (same_sounds previous current)
        (all_sounds-IsHeard _ _ _ _ _ _ current previous.game current.game)
