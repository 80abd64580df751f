-- ===== src/Tests/Sounding.antt =====
-- The theorem on the sounds, at two states of one room.
use compositions.Prelude.{
  ℕ, ◌≡◌, refl, String, true, false, none, some, List, [], ◌∷◌, if◌then◌else◌, is_empty, string_eq,
  nat_eq, option_eq,
}
use compositions.Prelude.Int.{pos, negsuc}
use compositions.Snapshots.Game.{Game, Turn, CompositionActivity}
use compositions.Snapshots.Room.{Room, Player}
use compositions.Socket.{LobbyState, initial_state}
use compositions.Sounds.{
  has_joker_reclaim_activity, composition_sounds, turn_sounds, game_sounds,
  game_sounds_for_state_change,
}
use compositions.Sounds.Heard.{IsHeard, game_sounds_for_state_change-IsHeard}

abbrev player : String → Player
player player_id = record {
  player_id = player_id;
  user_id = none;
  session_id = none;
  name = player_id;
  image_url = none;
  connected = true;
  seat = 0;
  is_host = false;
  can_reconnect = true;
  forfeited = false;
  active_emote = none;
}

abbrev room : List Player → Room
room players = record {
  code = "ABCD";
  phase = "in_progress";
  game_mode = none;
  host_player_id = "ann";
  dealer_index = none;
  pending_deal_choice = none;
  end_proposal = none;
  conclusion = none;
  spectator_count = none;
  players = players;
}

abbrev turn : ℕ → String → Turn
turn number player_id = record {
  number = number;
  player_index = pos 0;
  player_id = some player_id;
  has_drawn = true;
  must_use_discard_draw = false;
}

-- Bob's turn, of which Ann has seen that a card was put on a composition.
abbrev bobs_turn : Game
bobs_turn = record {
  game_mode = none;
  phase = 1;
  round = 1;
  dealer_index = pos 0;
  round_winner_index = negsuc 0;
  turn = turn 3 "bob";
  players = [];
  hand = [];
  draw_pile_count = 20;
  discard_pile = [];
  active_compositions = [];
  turn_activity = none;
}

abbrev placed : CompositionActivity
placed = record {
  table_index = 0;
  kind = some "joker_reclaim";
  player_id = some "bob";
  card_activities = none;
}

abbrev anns_turn : Game
anns_turn = record bobs_turn {
  turn = turn 4 "ann";
  turn_activity = some (record {
    player_id = "bob";
    round = 1;
    turn_number = 3;
    draw_source = none;
    baseline_compositions = none;
    draft_compositions = none;
    composition_activities = some (placed ∷ []);
  });
}

abbrev previous : LobbyState
previous = record initial_state {
  player_id = "ann";
  room = some (room (player "ann" ∷ player "bob" ∷ []));
  game = some bobs_turn;
}

abbrev current : LobbyState
current = record previous {
  room = some (room (player "ann" ∷ player "cid" ∷ []));
  game = some anns_turn;
}

abbrev text_of : List CompositionActivity → String
text_of activities = if is_empty activities then "[]" else "[{}]"

sounds_test :
    game_sounds_for_state_change text_of previous current
    ≡ "player-joined" ∷ "player-left" ∷ "card-discard" ∷ "turn-start" ∷ "joker-reclaim" ∷ []
unfolding game_sounds_for_state_change game_sounds turn_sounds composition_sounds
    has_joker_reclaim_activity
sounds_test = refl

game_sounds_for_state_change-IsHeard_example :
    IsHeard text_of false true true true false false true
      (some bobs_turn)
      (some anns_turn)
      ("player-joined" ∷ "player-left" ∷ "card-discard" ∷ "turn-start" ∷ "joker-reclaim" ∷ [])
unfolding game_sounds_for_state_change game_sounds turn_sounds composition_sounds
    has_joker_reclaim_activity
game_sounds_for_state_change-IsHeard_example =
    game_sounds_for_state_change-IsHeard text_of previous current
