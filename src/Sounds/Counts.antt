-- ===== src/Sounds/Counts.antt =====
-- How often a sound is in the sounds of a round and of a change, by the tests alone.
use compositions.Prelude.{
  ℕ, ◌+◌, ◌≡◌, refl, String, Bool, true, false, not, ◌&&◌, List, [], ◌∷◌, ◌++◌, if◌then◌else◌,
  count, count-append, nat_eq, string_eq, option_eq, arith, ◌∙◌, ap,
}
use compositions.Sounds.{when}

abbrev pub once_if : Bool → ℕ
once_if test = if test then 1 else 0

-- The sounds of a change, and of a round, by their tests.
unfoldable pub all_sounds : (fails same joins leaves wins ends : Bool) → List String → List String
all_sounds fails same joins leaves wins ends games =
    if not same
    then when fails "invalid-action"
    else when fails "invalid-action"
      ++ when joins "player-joined"
      ++ when leaves "player-left"
      ++ (if wins then "game-win" ∷ [] else when ends "round-win")
      ++ games

unfoldable pub round_sounds : (same mine drew stays composed created reclaimed : Bool) → List String
round_sounds same mine drew stays composed created reclaimed =
    if not same
    then when mine "turn-start"
    else when drew "card-draw"
      ++ (if not stays then "card-discard" ∷ when mine "turn-start" else [])
      ++ (if composed
          then when created "composition-create"
            ++ when reclaimed "joker-reclaim"
            ++ when (not created && not reclaimed) "card-place"
          else [])

-- What every list of sounds of a round has.
unfoldable pub IsOfRound :
    (same mine drew stays composed created reclaimed : Bool) → List String → Type 0
IsOfRound same mine drew stays composed created reclaimed sounds =
    (count "turn-start" sounds ≡ once_if (mine && not (same && stays)))
    × (count "card-draw" sounds ≡ once_if (same && drew))
    × (count "card-discard" sounds ≡ once_if (same && not stays))
    × (count "composition-create" sounds ≡ once_if (same && composed && created))
    × (count "joker-reclaim" sounds ≡ once_if (same && composed && reclaimed))
    × (count "card-place" sounds
        ≡ once_if (same && composed && not (composed && created) && not (composed && reclaimed)))
    × (count "invalid-action" sounds ≡ 0)
    × (count "player-joined" sounds ≡ 0)
    × (count "player-left" sounds ≡ 0)
    × (count "game-win" sounds ≡ 0)
    × (count "round-win" sounds ≡ 0)

pub round_sounds-IsOfRound :
    (same mine drew stays composed created reclaimed : Bool)
    → IsOfRound same mine drew stays composed created reclaimed
        (round_sounds same mine drew stays composed created reclaimed)
unfolding IsOfRound round_sounds
round_sounds-IsOfRound false false drew stays composed created reclaimed =
    (refl, refl, refl, refl, refl, refl, refl, refl, refl, refl, refl)
round_sounds-IsOfRound false true drew stays composed created reclaimed =
    (refl, refl, refl, refl, refl, refl, refl, refl, refl, refl, refl)
round_sounds-IsOfRound true mine drew stays composed created reclaimed = ground arith

-- What every list of sounds has.
unfoldable pub IsOfChange :
    (fails same joins leaves wins ends : Bool)
    (round mine drew stays composed created reclaimed : Bool)
    → List String
    → Type 0
IsOfChange fails same joins leaves wins ends round mine drew stays composed created reclaimed
      sounds =
    (count "invalid-action" sounds ≡ once_if fails)
    × (count "player-joined" sounds ≡ once_if (same && joins))
    × (count "player-left" sounds ≡ once_if (same && leaves))
    × (count "game-win" sounds ≡ once_if (same && wins))
    × (count "round-win" sounds ≡ once_if (same && not wins && ends))
    × (count "turn-start" sounds ≡ once_if (same && mine && not (round && stays)))
    × (count "card-draw" sounds ≡ once_if (same && (round && drew)))
    × (count "card-discard" sounds ≡ once_if (same && (round && not stays)))
    × (count "composition-create" sounds ≡ once_if (same && (round && (composed && created))))
    × (count "joker-reclaim" sounds ≡ once_if (same && (round && (composed && reclaimed))))
    × (count "card-place" sounds
        ≡ once_if (
            same
            && (round && (composed && not (composed && created) && not (composed && reclaimed)))))

all_counts :
    (x : String) (fails joins leaves wins ends : Bool) (games : List String)
    → count x (all_sounds fails true joins leaves wins ends games)
      ≡ count x (when fails "invalid-action")
        + count x (when joins "player-joined")
        + count x (when leaves "player-left")
        + count x (if wins then "game-win" ∷ [] else when ends "round-win")
        + count x games
unfolding all_sounds
all_counts x fails joins leaves wins ends games =
    let first = when fails "invalid-action" in
    let joined = when joins "player-joined" in
    let left = when leaves "player-left" in
    let last = if wins then "game-win" ∷ [] else when ends "round-win" in
    count-append x (first ++ joined ++ left ++ last) games
    ∙ ap (λ n. n + count x games)
        (count-append x (first ++ joined ++ left) last
          ∙ ap (λ n. n + count x last)
              (count-append x (first ++ joined) left
                ∙ ap (λ n. n + count x left) (count-append x first joined)))

pub all_sounds-IsOfChange :
    (fails same joins leaves wins ends : Bool)
    (round mine drew stays composed created reclaimed : Bool) (games : List String)
    → IsOfRound round mine drew stays composed created reclaimed games
    → IsOfChange fails same joins leaves wins ends round mine drew stays composed created reclaimed
        (all_sounds fails same joins leaves wins ends games)
unfolding IsOfChange IsOfRound all_sounds
all_sounds-IsOfChange true false joins leaves wins ends round mine drew stays composed created
      reclaimed games h =
    (refl, refl, refl, refl, refl, refl, refl, refl, refl, refl, refl)
all_sounds-IsOfChange false false joins leaves wins ends round mine drew stays composed created
      reclaimed games h =
    (refl, refl, refl, refl, refl, refl, refl, refl, refl, refl, refl)
all_sounds-IsOfChange fails true joins leaves wins ends round mine drew stays composed created
      reclaimed games (a, b, c, d, e, f, g, h, i, j, k) =
    let total = λ (x : String). all_counts x fails joins leaves wins ends games in
    (
      total "invalid-action" ∙ ground (arith, g),
      total "player-joined" ∙ ground (arith, h),
      total "player-left" ∙ ground (arith, i),
      total "game-win" ∙ ground (arith, j),
      total "round-win" ∙ ground (arith, k),
      total "turn-start" ∙ ground (arith, a),
      total "card-draw" ∙ ground (arith, b),
      total "card-discard" ∙ ground (arith, c),
      total "composition-create" ∙ ground (arith, d),
      total "joker-reclaim" ∙ ground (arith, e),
      total "card-place" ∙ ground (arith, f),
    )
