-- ===== src/Transfers.antt =====
-- frontend/src/components/game/card-transfer-state.ts: the move of cards that a change of the game's
-- snapshot shows, for its animation.
pub mod Collected
pub mod Shown
pub mod Moved
use compositions.Prelude.{
  ℕ, ◌+◌, ◌-◌, String, Bool, true, false, not, ◌&&◌, ◌||◌, ◌>>=◌, Option, none, some, List, [], ◌∷◌,
  ltb, leb, ◌==◌, ◌!=◌, if◌then◌else◌, get_or, find?, take, drop, head?, length, nat_eq, string_eq,
  option_eq,
}
use compositions.Snapshots.{Card}
use compositions.Snapshots.Game.{Game, DrawSource, from_deck, from_discard}
use compositions.Drafts.{truthy}
use compositions.Reclaims.{cards_equal}

pub data Place : Type 0 where
  deck discard player : Place

pub record CardTransfer : Type 0 where
  pub actor_player_id : String
  pub card : Card
  pub face_down : Bool
  pub source : Place
  pub target : Place

pub record CompletedCollection : Type 0 where
  pub actor_player_id : String
  pub collected_cards : List Card
  pub discard_card : Card
  pub previous_top_discard : Option Card

-- The card with no field set.
abbrev pub face_down_card : Card
face_down_card = record { rank = none; suit = none; is_joker = false }

unfoldable pub card_lists_equal : List Card → List Card → Bool
card_lists_equal [] [] = true
card_lists_equal (a ∷ left) (b ∷ right) = cards_equal a b && card_lists_equal left right
card_lists_equal left right = false

unfoldable pub player_hand_count : Game → String → Option ℕ
player_hand_count game player_id =
    find? (λ player. player.player_id == player_id) game.players
    >>= (λ player. some player.hand_count)

unfoldable pub same_turn : Game → Game → Bool
same_turn previous current =
    previous.round == current.round
    && previous.turn.number == current.turn.number
    && previous.turn.player_id == current.turn.player_id

unfoldable pub infer_completed_composition_collection : Game → Game → Option CompletedCollection
infer_completed_composition_collection previous current =
    let added = length current.discard_pile - length previous.discard_pile in
    elim (truthy previous.turn.player_id) [
      | none ↦ none
      | some actor ↦ elim (head? current.discard_pile) [
        | none ↦ none
        | some discard_card ↦
            if leb added 1
              || not (card_lists_equal (drop added current.discard_pile) previous.discard_pile)
            then none
            else some (record {
              actor_player_id = actor;
              collected_cards = drop 1 (take added current.discard_pile);
              discard_card = discard_card;
              previous_top_discard = head? previous.discard_pile;
            })
      ]
    ]

-- The first test of `inferCardTransfer`, of the player whose turn it is.
unfoldable pub is_draw : Game → Game → String → String → Bool
is_draw previous current viewer actor =
    actor != viewer
    && same_turn previous current
    && not previous.turn.has_drawn
    && current.turn.has_drawn
    && player_hand_count current actor == some (get_or 0 (player_hand_count previous actor) + 1)

unfoldable pub draw_source_of : Game → Game → DrawSource
draw_source_of previous current =
    get_or
      (if ltb current.draw_pile_count previous.draw_pile_count then from_deck else from_discard)
      (current.turn_activity >>= (λ activity. activity.draw_source))

unfoldable pub drawn_transfer : Game → Game → String → Option CardTransfer
drawn_transfer previous current actor = elim (draw_source_of previous current) [
  | from_discard ↦ head? previous.discard_pile >>= (λ card. some (record {
    actor_player_id = actor;
    card = card;
    face_down = false;
    source = discard;
    target = player;
  }))
  | from_deck ↦ some (record {
    actor_player_id = actor;
    card = face_down_card;
    face_down = true;
    source = deck;
    target = player;
  })
]

-- The second test of it, of the player whose turn it was.
unfoldable pub discard_transfer : Game → Game → String → Option CardTransfer
discard_transfer previous current viewer = elim (truthy previous.turn.player_id) [
  | none ↦ none
  | some actor ↦ elim (head? current.discard_pile) [
    | none ↦ none
    | some placed ↦
        if actor != viewer
          && not (same_turn previous current)
          && ltb (length previous.discard_pile) (length current.discard_pile)
        then some (record {
          actor_player_id = actor;
          card = placed;
          face_down = false;
          source = player;
          target = discard;
        })
        else none
  ]
]

unfoldable pub infer_card_transfer : Game → Game → String → Option CardTransfer
infer_card_transfer previous current viewer =
    let discarded = discard_transfer previous current viewer in
    elim (truthy current.turn.player_id) [
      | none ↦ discarded
      | some actor ↦
          if is_draw previous current viewer actor
          then drawn_transfer previous current actor
          else discarded
    ]
