-- ===== src/Snapshots.antt =====
-- The wire types of frontend/src/components/game-websocket-provider.tsx that the card table reads.
-- Ranks, suits, indices and counts are the Go server's integers, which are never negative there. An
-- optional field is an `Option`; an absent flag reads as false, which is all that the code asks.
pub mod Game
pub mod Room
use compositions.Prelude.{ℕ, String, Bool, Option, List}

pub record Card : Type 0 where
  pub rank : Option ℕ
  pub suit : Option ℕ
  pub is_joker : Bool

pub record Composition : Type 0 where
  pub type : String
  pub cards : List Card
  -- in the order of `Object.entries`, each index once
  pub joker_representations : List (ℕ × List Card)
  pub points : ℕ
  pub complete : Bool

pub record CardPlacement : Type 0 where
  pub insert_index : Option ℕ
  pub reclaim_joker_index : Option ℕ

pub record DraftSnapshot : Type 0 where
  pub id : String
  pub table_index : Option ℕ
  pub insert_index : Option ℕ
  pub card_placements : Option (List CardPlacement)
  pub cards : List Card

pub record Addition : Type 0 where
  pub composition_index : ℕ
  pub insert_index : ℕ
  pub cards : List Card

pub record Reclaim : Type 0 where
  pub composition_index : ℕ
  pub joker_index : ℕ
  pub replacement_card : Card

pub record TablePlay : Type 0 where
  pub compositions : List (List Card)
  pub additions : List Addition
  pub reclaims : List Reclaim
