-- ===== src/Tests/Transfers.antt =====
-- The theorems on card transfers, at concrete snapshots.
use compositions.Prelude.{
  ◌↔◌, ℕ, ◌≡◌, refl, Bool, true, false, none, some, [], ◌∷◌, string_eq, nat_eq, option_eq,
}
use compositions.Prelude.Int.{pos, negsuc}
use compositions.Snapshots.Game.{Game, Turn, PlayerState}
use compositions.Reclaims.{bool_beq, cards_equal}
use compositions.Transfers.{
  deck, discard, player, CardTransfer, CompletedCollection, face_down_card, card_lists_equal,
  player_hand_count, same_turn, infer_completed_composition_collection, is_draw, draw_source_of,
  drawn_transfer, discard_transfer, infer_card_transfer,
}
use compositions.Transfers.Shown.{Shows}
use compositions.Transfers.Moved.{infer_card_transfer_iff}
use compositions.Transfers.Collected.{
  IsCollected, infer_completed_composition_collection-IsCollected,
}
use compositions.Tests.{natural}

transfers : Unit {0}
unfolding bool_beq cards_equal card_lists_equal player_hand_count same_turn
    infer_completed_composition_collection is_draw draw_source_of drawn_transfer discard_transfer
    infer_card_transfer
transfers = tt

abbrev player_with : ℕ → PlayerState
player_with hand_count = record {
  player_id = "ann";
  hand_count = hand_count;
  hand = none;
  total_points = pos 12;
  points_gained = pos 0;
  unadjusted_total_points = none;
  has_opened = true;
  forfeited = false;
}

abbrev turn_of : ℕ → Bool → Turn
turn_of number has_drawn = record {
  number = number;
  player_index = pos 0;
  player_id = some "ann";
  has_drawn = has_drawn;
  must_use_discard_draw = false;
}

-- Ann has seven cards and is to draw.
abbrev before : Game
before = record {
  game_mode = none;
  phase = 1;
  round = 1;
  dealer_index = pos 1;
  round_winner_index = negsuc 0;
  turn = turn_of 4 false;
  players = player_with 7 ∷ [];
  hand = [];
  draw_pile_count = 30;
  discard_pile = natural 9 1 ∷ natural 2 2 ∷ [];
  active_compositions = [];
  turn_activity = none;
}

abbrev drawn : Game
drawn = record before { turn = turn_of 4 true; players = player_with 8 ∷ []; draw_pile_count = 29 }

abbrev taken : Game
taken = record drawn { draw_pile_count = 30; discard_pile = natural 2 2 ∷ [] }

-- A full set is collected below the discarded three.
abbrev collected : Game
collected = record before {
  turn = turn_of 5 false;
  discard_pile =
      natural 3 3
      ∷ natural 7 0
      ∷ natural 7 1
      ∷ natural 7 2
      ∷ natural 7 3
      ∷ natural 9 1
      ∷ natural 2 2
      ∷ [];
}

abbrev deck_draw : CardTransfer
deck_draw = record {
  actor_player_id = "ann";
  card = face_down_card;
  face_down = true;
  source = deck;
  target = player;
}

abbrev collection : CompletedCollection
collection = record {
  actor_player_id = "ann";
  collected_cards = natural 7 0 ∷ natural 7 1 ∷ natural 7 2 ∷ natural 7 3 ∷ [];
  discard_card = natural 3 3;
  previous_top_discard = some (natural 9 1);
}

transfer_tests :
    (infer_card_transfer before drawn "bob" ≡ some deck_draw)
    × (infer_card_transfer before drawn "ann" ≡ none)
    × (infer_card_transfer before taken "bob"
        ≡ some (record deck_draw { card = natural 9 1; face_down = false; source = discard }))
    × (infer_card_transfer before collected "bob"
        ≡ some (record {
          actor_player_id = "ann";
          card = natural 3 3;
          face_down = false;
          source = player;
          target = discard;
        }))
    × (infer_completed_composition_collection before collected ≡ some collection)
    × (infer_completed_composition_collection before drawn ≡ none)
unfolding transfers
transfer_tests = (refl, refl, refl, refl, refl, refl)

infer_card_transfer_iff_example :
    (infer_card_transfer before drawn "bob" ≡ some deck_draw) ↔ Shows before drawn "bob" deck_draw
infer_card_transfer_iff_example = infer_card_transfer_iff before drawn "bob" deck_draw

infer_completed_composition_collection-IsCollected_example : IsCollected before collected collection
unfolding transfers
infer_completed_composition_collection-IsCollected_example =
    infer_completed_composition_collection-IsCollected before collected collection refl
