-- ===== src/Leaderboard/Visible.antt =====
-- The shown ranking has no player twice and starts over at the last reset.
use compositions.Prelude.{
  ℕ, suc, true, Option, ◌++◌, ◌||◌, any, get_elem?, subst, ◌≡◌, refl, String, false, none, some,
  List, [], ◌∷◌, map, ◌==◌, get_or, drop, contains, IsDistinct, All, string_eq, eq_iff, Bool-cases,
  Option-cases, inl, inr, arith, ap, sym, ◌∙◌,
}
use mathlib.Core.Path.{ap₂}
use compositions.Prelude.Maps.{
  insert, insert_all, of_entries, keys, insert_all-IsDistinct, contains-keys-insert_all,
}
use compositions.Leaderboard.{
  LeaderboardPlayer, LeaderboardPage, last_reset, current_pages, players_of, by_player_id,
  visible_leaderboard,
}

abbrev pub player_ids : List LeaderboardPlayer → List String
player_ids = map (λ player. player.player_id)

-- Each entry stands under its player's id.
abbrev IsKeyed : List (String × LeaderboardPlayer) → Type 0
IsKeyed = All (λ entry. entry.1.player_id ≡ entry.0)

insert-IsKeyed :
    (player : LeaderboardPlayer) (m : List (String × LeaderboardPlayer))
    → IsKeyed m
    → IsKeyed (insert player.player_id player m)
insert-IsKeyed player [] h = (refl, tt)
insert-IsKeyed player ((id, other) ∷ m) (at, h) = elim (Bool-cases (id == player.player_id)) [
  | inl same ↦ rw same (sym ((eq_iff id player.player_id).0 same), h)
  | inr different ↦ rw different (at, insert-IsKeyed player m h)
]

insert_all-IsKeyed :
    (players : List LeaderboardPlayer) (m : List (String × LeaderboardPlayer))
    → IsKeyed m
    → IsKeyed (insert_all m (by_player_id players))
insert_all-IsKeyed [] m h = h
insert_all-IsKeyed (player ∷ players) m h =
    insert_all-IsKeyed players (insert player.player_id player m) (insert-IsKeyed player m h)

ids-keys :
    (m : List (String × LeaderboardPlayer))
    → IsKeyed m
    → player_ids (map (λ entry. entry.1) m) ≡ keys m
ids-keys [] h = refl
ids-keys ((id, player) ∷ m) (at, h) = ap₂ (λ x xs. x ∷ xs) at (ids-keys m h)

keys-by_player_id :
    (players : List LeaderboardPlayer) → keys (by_player_id players) ≡ player_ids players
keys-by_player_id [] = refl
keys-by_player_id (player ∷ players) = ap (λ xs. player.player_id ∷ xs) (keys-by_player_id players)

contains-append_ids :
    (xs ys : List LeaderboardPlayer) (id : String)
    → contains (player_ids (xs ++ ys)) id
      ≡ (contains (player_ids xs) id || contains (player_ids ys) id)
contains-append_ids [] ys id = refl
contains-append_ids (x ∷ xs) ys id = ground (arith, contains-append_ids xs ys id)

players_of-contains :
    (pages : List LeaderboardPage) (id : String)
    → contains (player_ids (players_of pages)) id
      ≡ any (λ page. contains (player_ids page.players) id) pages
unfolding players_of
players_of-contains [] id = refl
players_of-contains (page ∷ pages) id =
    ground
      (arith, contains-append_ids page.players (players_of pages) id, players_of-contains pages id)

-- Where the ranking starts over: at no page, and then no page is a reset; or at a reset, and then no
-- later page is one.
abbrev pub StartsOver : List LeaderboardPage → Option ℕ → Type 0
StartsOver pages none = All (λ page. page.reset ≡ false) pages
StartsOver pages (some i) =
    (page : LeaderboardPage) × (get_elem? pages i ≡ some page)
    × (page.reset ≡ true)
    × All (λ later. later.reset ≡ false) (drop (suc i) pages)

last_reset-StartsOver : (pages : List LeaderboardPage) → StartsOver pages (last_reset pages)
unfolding last_reset
last_reset-StartsOver [] = tt
last_reset-StartsOver (page ∷ pages) = elim (Option-cases (last_reset pages)) [
  | inl none_later ↦
      let rest = subst (StartsOver pages) none_later (last_reset-StartsOver pages) in
      elim (Bool-cases page.reset) [
        | inl here ↦
            let first : last_reset (page ∷ pages) ≡ some 0 = ground (arith, none_later, here) in
            subst (StartsOver (page ∷ pages)) (sym first) (page, refl, here, rest)
        | inr not_here ↦
            let absent : last_reset (page ∷ pages) ≡ none = ground (arith, none_later, not_here) in
            subst (StartsOver (page ∷ pages)) (sym absent) (not_here, rest)
      ]
  | inr (i, later) ↦ rw later (subst (StartsOver pages) later (last_reset-StartsOver pages))
]

-- The ranking starts over at the last page that is a reset, which is the reported one, or at the first
-- page where no page is a reset and none is reported. A player is shown exactly if a page from there on
-- has the player, and no player is shown twice.
pub visible_leaderboard-IsDistinct :
    (pages : List LeaderboardPage) (id : String)
    → StartsOver pages (visible_leaderboard pages).reset_index
      × IsDistinct (player_ids (visible_leaderboard pages).players)
      × (contains (player_ids (visible_leaderboard pages).players) id
          ≡ any
              (λ page. contains (player_ids page.players) id)
              (drop (get_or 0 (visible_leaderboard pages).reset_index) pages))
unfolding visible_leaderboard
visible_leaderboard-IsDistinct pages id =
    let players = players_of (current_pages pages) in
    let ids = ids-keys (of_entries (by_player_id players)) (insert_all-IsKeyed players [] tt) in
    (
      last_reset-StartsOver pages,
      rw ids (insert_all-IsDistinct (by_player_id players) [] tt),
      rw ids (
          contains-keys-insert_all id (by_player_id players) []
          ∙ rw (keys-by_player_id players) (players_of-contains (current_pages pages) id)),
    )
