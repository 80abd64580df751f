-- ===== src/Tests/Ranking.antt =====
-- The theorem on the ranking, at pages with a reset among them.
use compositions.Prelude.{
  any, ℕ, ◌≡◌, refl, String, Bool, true, false, none, some, List, [], ◌∷◌, get_or, drop, contains,
  IsDistinct, string_eq,
}
use compositions.Leaderboard.{
  elo, global, LeaderboardPlayer, LeaderboardPage, last_reset, players_of, visible_leaderboard,
}
use compositions.Leaderboard.Visible.{player_ids, StartsOver, visible_leaderboard-IsDistinct}

ranking : Unit {0}
unfolding last_reset players_of visible_leaderboard
ranking = tt

abbrev ranked : String → ℕ → LeaderboardPlayer
ranked player_id rank = record {
  tier = none;
  rank = rank;
  score = 1000;
  player_id = player_id;
  name = "";
  image_url = "";
  wins = 1;
  games_played = 2;
  rounds_won = 3;
  points_inflicted = 4;
  total_playtime_seconds = 5;
}

abbrev page_of : Bool → List LeaderboardPlayer → LeaderboardPage
page_of reset players = record {
  reset = reset;
  metric = elo;
  scope = global;
  players = players;
  next_cursor = none;
  placement = none;
}

abbrev pages : List LeaderboardPage
pages =
    page_of false (ranked "a" 1 ∷ ranked "b" 2 ∷ [])
    ∷ page_of true (ranked "b" 1 ∷ ranked "c" 2 ∷ [])
    ∷ page_of false (ranked "c" 2 ∷ ranked "d" 3 ∷ [])
    ∷ []

ranking_tests :
    (player_ids (visible_leaderboard pages).players ≡ "b" ∷ "c" ∷ "d" ∷ [])
    × ((visible_leaderboard pages).reset_index ≡ some 1)
unfolding ranking
ranking_tests = (refl, refl)

visible_leaderboard-IsDistinct_example :
    StartsOver pages (visible_leaderboard pages).reset_index
    × IsDistinct (player_ids (visible_leaderboard pages).players)
    × (contains (player_ids (visible_leaderboard pages).players) "d"
        ≡ any
            (λ page. contains (player_ids page.players) "d")
            (drop (get_or 0 (visible_leaderboard pages).reset_index) pages))
visible_leaderboard-IsDistinct_example = visible_leaderboard-IsDistinct pages "d"
