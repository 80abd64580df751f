-- ===== src/Tests.antt =====
-- Concrete cards, hands, drafts and compositions, and the theorems at them.
pub mod Cards
pub mod Hands
pub mod Moves
pub mod Staging
pub mod Dragging
pub mod Tables
pub mod Plays
pub mod Zones
pub mod Transfers
pub mod Ranking
pub mod Connection
pub mod Sounding
use compositions.Prelude.{ℕ, Bool, true, false, Option, none, some}
use compositions.Snapshots.{Card}

abbrev pub natural : ℕ → ℕ → Card
natural rank suit = record { rank = some rank; suit = some suit; is_joker = false }

abbrev pub joker : Card
joker = record { rank = none; suit = none; is_joker = true }
