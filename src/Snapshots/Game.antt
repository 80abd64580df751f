-- ===== src/Snapshots/Game.antt =====
-- The snapshot of a game in frontend/src/components/game-websocket-provider.tsx. The indices of the
-- dealer and of the winner are -1 where there is none, and points may go down.
use compositions.Prelude.{ℕ, String, Bool, Option, List}
use compositions.Prelude.Int.{ℤ}
use compositions.Snapshots.{Card, Composition, DraftSnapshot}

pub record CardActivity : Type 0 where
  pub kind : String
  pub player_id : String

pub record CompositionActivity : Type 0 where
  pub table_index : ℕ
  pub kind : Option String
  pub player_id : Option String
  pub card_activities : Option (List (ℕ × CardActivity))

pub data DrawSource : Type 0 where
  from_deck from_discard : DrawSource

pub record TurnActivity : Type 0 where
  pub player_id : String
  pub round : ℕ
  pub turn_number : ℕ
  pub draw_source : Option DrawSource
  pub baseline_compositions : Option (List Composition)
  pub draft_compositions : Option (List DraftSnapshot)
  pub composition_activities : Option (List CompositionActivity)

pub record PlayerState : Type 0 where
  pub player_id : String
  pub hand_count : ℕ
  pub hand : Option (List Card)
  pub total_points : ℤ
  pub points_gained : ℤ
  pub unadjusted_total_points : Option ℤ
  pub has_opened : Bool
  pub forfeited : Bool

pub record Turn : Type 0 where
  pub number : ℕ
  pub player_index : ℤ
  pub player_id : Option String
  pub has_drawn : Bool
  pub must_use_discard_draw : Bool

pub data GameMode : Type 0 where
  quick full : GameMode

pub record Game : Type 0 where
  pub game_mode : Option GameMode
  pub phase : ℕ
  pub round : ℕ
  pub dealer_index : ℤ
  pub round_winner_index : ℤ
  pub turn : Turn
  pub players : List PlayerState
  pub hand : List Card
  pub draw_pile_count : ℕ
  pub discard_pile : List Card
  pub active_compositions : List Composition
  pub turn_activity : Option TurnActivity
