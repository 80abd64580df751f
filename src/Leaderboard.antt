-- ===== src/Leaderboard.antt =====
-- frontend/src/lib/leaderboard-pages.ts: the ranking that is shown of the pages fetched so far, with
-- the types of frontend/src/lib/leaderboard.ts.
pub mod Visible
use compositions.Prelude.{
  ℕ, suc, ◌+◌, String, Bool, Option, none, some, List, [], ◌∷◌, ◌++◌, map, ◌>>=◌, if◌then◌else◌,
  get_or, drop, head?, string_eq,
}
use compositions.Prelude.Maps.{of_entries}

pub data LeaderboardMetric : Type 0 where
  elo wins games playtime rounds points : LeaderboardMetric

pub data LeaderboardScope : Type 0 where
  friends global : LeaderboardScope

pub record LeaderboardPlayer : Type 0 where
  pub tier : Option String
  pub rank : ℕ
  pub score : ℕ
  pub player_id : String
  pub name : String
  pub image_url : String
  pub wins : ℕ
  pub games_played : ℕ
  pub rounds_won : ℕ
  pub points_inflicted : ℕ
  pub total_playtime_seconds : ℕ

pub record LeaderboardPage : Type 0 where
  pub reset : Bool
  pub metric : LeaderboardMetric
  pub scope : LeaderboardScope
  pub players : List LeaderboardPlayer
  pub next_cursor : Option String
  pub placement : Option LeaderboardPlayer

-- none stands for the index -1.
pub record VisibleLeaderboard : Type 0 where
  pub players : List LeaderboardPlayer
  pub placement : Option LeaderboardPlayer
  pub reset_index : Option ℕ

-- `pages.findLastIndex((page) => page.reset)`
unfoldable pub last_reset : List LeaderboardPage → Option ℕ
last_reset [] = none
last_reset (page ∷ pages) = elim (last_reset pages) [
  | some i ↦ some (suc i)
  | none ↦ if page.reset then some 0 else none
]

abbrev pub current_pages : List LeaderboardPage → List LeaderboardPage
current_pages pages = drop (get_or 0 (last_reset pages)) pages

unfoldable pub players_of : List LeaderboardPage → List LeaderboardPlayer
players_of [] = []
players_of (page ∷ pages) = page.players ++ players_of pages

abbrev pub by_player_id : List LeaderboardPlayer → List (String × LeaderboardPlayer)
by_player_id = map (λ player. (player.player_id, player))

unfoldable pub visible_leaderboard : List LeaderboardPage → VisibleLeaderboard
visible_leaderboard pages = record {
  players = map (λ entry. entry.1) (of_entries (by_player_id (players_of (current_pages pages))));
  placement = head? (current_pages pages) >>= (λ page. page.placement);
  reset_index = last_reset pages;
}
