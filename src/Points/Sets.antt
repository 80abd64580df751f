-- ===== src/Points/Sets.antt =====
-- Which lists of cards `draftSetPointTotal` accepts, and at what value.
use compositions.Prelude.{
  ℕ, ◌*◌, ◌≤◌, ◌≡◌, refl, ◌↔◌, false, true, some, List, [], ◌∷◌, map, length, All, all, IsDistinct,
  contains, is_some, get_or, nat_eq, option_eq, arith, Option-cases, inl, inr,
}
use compositions.Snapshots.{Card}
use compositions.Points.{
  rank_point_value, has_valid_natural_identity, naturals, first_rank, suits_fit,
  draft_set_point_total,
}

-- A set of the given rank: three or four cards, each a joker or a card of the deck, in which the
-- natural cards have that rank and different suits. Jokers alone count as aces.
pub record IsSetOf (rank : ℕ) (cards : List Card) : Type 0 where
  pub enough : 3 ≤ length cards
  pub few : length cards ≤ 4
  pub real : all has_valid_natural_identity cards ≡ true
  pub rank_of : rank ≡ get_or 1 (first_rank (naturals cards))
  pub ranked : All (λ card. card.rank ≡ some rank) (naturals cards)
  pub suited : All (λ card. is_some card.suit ≡ true) (naturals cards)
  pub distinct : IsDistinct (map (λ card. card.suit) (naturals cards))

contains-map-some :
    (seen : List ℕ) (suit : ℕ) → contains (map some seen) (some suit) ≡ contains seen suit
contains-map-some [] suit = refl
contains-map-some (s ∷ seen) suit = ground (arith, contains-map-some seen suit)

-- What the loop checks of the cards that are left, given the suits seen before them.
abbrev Fits : ℕ → List ℕ → List Card → Type 0
Fits rank seen cards =
    All (λ card. card.rank ≡ some rank) cards
    × All (λ card. is_some card.suit ≡ true) cards
    × All (λ card. contains (map some seen) card.suit ≡ false) cards
    × IsDistinct (map (λ card. card.suit) cards)

unseen_cons :
    (seen : List ℕ) (suit : ℕ) (cards : List Card)
    → All (λ card. contains (map some (suit ∷ seen)) card.suit ≡ false) cards ↔ (
        All (λ card. contains (map some seen) card.suit ≡ false) cards
        × (contains (map (λ card. card.suit) cards) (some suit) ≡ false))
unseen_cons seen suit [] = ground arith
unseen_cons seen suit (card ∷ cards) = ground (arith, unseen_cons seen suit cards)

suits_fit_iff :
    (rank : ℕ) (seen : List ℕ) (cards : List Card)
    → (suits_fit (some rank) seen cards ≡ true) ↔ Fits rank seen cards
unfolding suits_fit
suits_fit_iff rank seen [] = ground arith
suits_fit_iff rank seen (card ∷ cards) = elim (Option-cases card.suit) [
  | inl absent ↦ ground (arith, absent)
  | inr (suit, present) ↦ ground (
    arith,
    present,
    suits_fit_iff rank (suit ∷ seen) cards,
    unseen_cons seen suit cards,
    contains-map-some seen suit,
    option_eq.equal_iff card.rank (some rank),
  )
]

nothing_seen : (cards : List Card) → All (λ card. contains [] card.suit ≡ false) cards
nothing_seen [] = tt
nothing_seen (card ∷ cards) = (refl, nothing_seen cards)

-- `draftSetPointTotal` accepts exactly the sets, and a set is worth the value of its rank (an ace
-- being worth ten) once for each card, its jokers included.
pub draft_set_point_total_iff :
    (cards : List Card) (n : ℕ)
    → (draft_set_point_total cards ≡ some n)
      ↔ ((rank : ℕ) × IsSetOf rank cards × (n ≡ length cards * rank_point_value rank false))
unfolding draft_set_point_total
draft_set_point_total_iff cards n = (
  λ e. (
    get_or 1 (first_rank (naturals cards)),
    record {
      enough = ground arith;
      few = ground arith;
      real = ground arith;
      rank_of = refl;
      ranked = (fits e).0;
      suited = (fits e).1;
      distinct = (fits e).3;
    },
    ground arith,
  ),
  λ (rank, s, worth).
      let unseen = nothing_seen (naturals cards) in
      let fit =
        (suits_fit_iff rank [] (naturals cards)).1 (s.ranked, s.suited, unseen, s.distinct) in
      ground (arith, s.enough, s.few, s.real, s.rank_of),
)
  where
    fits :
        draft_set_point_total cards ≡ some n
        → Fits (get_or 1 (first_rank (naturals cards))) [] (naturals cards)
    fits e = (suits_fit_iff _ [] (naturals cards)).0 (ground arith)
