-- ===== src/Reclaims/Options.antt =====
-- How often a joker is among the options for reclaims, and among those that are taken.
use compositions.Prelude.{
  ℕ, Bool, sym, ◌+◌, ◌≤◌, ◌≡◌, refl, String, true, false, some, List, [], ◌∷◌, map, ◌==◌,
  if◌then◌else◌, count, nat_eq, string_eq, option_eq, Bool-cases, Option-cases, inl, inr, arith,
}
use compositions.Prelude.Maps.{lookup, insert, insert_all, erase, keys}
use compositions.Snapshots.{Card, Composition}
use compositions.Hand.{HandEntry}
use compositions.Reclaims.{
  ReclaimOption, bool_beq, cards_equal, card_key, joker_at, options_from, match_options,
}
use compositions.Reclaims.Explicit.{joker_indices}

abbrev pub offered : List ReclaimOption → List ℕ
offered = map (λ o. o.joker_index)

abbrev indices_of : List (String × ReclaimOption) → List ℕ
indices_of = map (λ entry. entry.1.joker_index)

-- A joker index of a composition, once at most.
abbrev pub once_at : List Card → ℕ → ℕ
once_at cards j = if joker_at cards j then 1 else 0

count-erase :
    (j : ℕ) (key : String) (options : List (String × ReclaimOption))
    → count j (indices_of (erase key options)) ≤ count j (indices_of options)
count-erase j key [] = omega arith
count-erase j key ((k, o) ∷ options) = ground (arith, count-erase j key options)

count-found :
    (j : ℕ) (key : String) (o : ReclaimOption) (options : List (String × ReclaimOption))
    → lookup key options ≡ some o
    → (if o.joker_index == j then 1 else 0) + count j (indices_of (erase key options))
      ≤ count j (indices_of options)
count-found j key o [] e = absurd (cc)
count-found j key o ((k, x) ∷ options) e = elim (Bool-cases (k == key)) [
  | inl here ↦
      let same : x ≡ o = ground (arith, here, e) in
      rw (here, ← same) (ground (arith, count-erase j key options))
  | inr later ↦
      let found : lookup key options ≡ some o = ground (arith, later, e) in
      rw later (ground (arith, count-found j key o options found))
]

count-insert :
    (j : ℕ) (key : String) (o : ReclaimOption) (m : List (String × ReclaimOption))
    → count j (indices_of (insert key o m))
      ≤ count j (indices_of m) + (if o.joker_index == j then 1 else 0)
count-insert j key o [] = ground arith
count-insert j key o ((k, x) ∷ m) = ground (arith, count-insert j key o m)

pub count-by_card_key :
    (j : ℕ) (options : List ReclaimOption) (m : List (String × ReclaimOption))
    → count j (indices_of (insert_all m (map (λ o. (card_key o.replacement_card, o)) options)))
      ≤ count j (indices_of m) + count j (offered options)
count-by_card_key j [] m = omega arith
count-by_card_key j (o ∷ options) m = ground (
  arith,
  count-by_card_key j options (insert (card_key o.replacement_card) o m),
  count-insert j (card_key o.replacement_card) o m,
)

bool_beq_eq : (a b : Bool) → bool_beq a b ≡ true → a ≡ b
unfolding bool_beq
bool_beq_eq true b e = sym e
bool_beq_eq false true e = cc
bool_beq_eq false false e = refl

same_key : (a b : Card) → cards_equal a b ≡ true → card_key a ≡ card_key b
unfolding cards_equal bool_beq card_key
same_key a b h =
    let joker = bool_beq_eq a.is_joker b.is_joker (ground (arith, h)) in
    let rank : a.rank ≡ b.rank = (option_eq.equal_iff a.rank b.rank).0 (ground (arith, h)) in
    let suit : a.suit ≡ b.suit = (option_eq.equal_iff a.suit b.suit).0 (ground (arith, h)) in
    cc (joker, rank, suit)

-- Each option is taken once at most.
pub match_options-count :
    (j : ℕ) (options : List (String × ReclaimOption)) (entries : List HandEntry)
    → count j (joker_indices (match_options options entries).reclaims)
      ≤ count j (indices_of options)
unfolding match_options
match_options-count j options [] = omega arith
match_options-count j options (entry ∷ entries) =
    elim (Option-cases (lookup (card_key entry.card) options)) [
      | inl absent ↦ rw (absent, match_options) (match_options-count j options entries)
      | inr (o, found) ↦ elim (Bool-cases (cards_equal o.replacement_card entry.card)) [
        | inr unequal ↦
            rw (found, match_options) (rw unequal (match_options-count j options entries))
        | inl equal ↦
            let key = same_key o.replacement_card entry.card equal in
            let rest =
              match_options-count j (erase (card_key o.replacement_card) options) entries in
            rw (found, match_options)
              (rw equal (
                ground (
                  arith,
                  rest,
                  count-found j (card_key o.replacement_card) o options (rw key found),
                )))
      ]
    ]

pub options_from-count :
    (j : ℕ) (composition : Composition) (representations : List (ℕ × List Card))
    → count j (offered (options_from composition representations))
      ≤ (if joker_at composition.cards j then count j (keys representations) else 0)
unfolding options_from
options_from-count j composition [] = ground arith
options_from-count j composition ((i, []) ∷ rest) =
    ground (arith, options_from-count j composition rest)
options_from-count j composition ((i, a ∷ b ∷ cards) ∷ rest) =
    ground (arith, options_from-count j composition rest)
options_from-count j composition ((i, card ∷ []) ∷ rest) = elim (Bool-cases (i == j)) [
  | inl here ↦
      rw ((nat_eq.equal_iff i j).0 here) (ground (arith, options_from-count j composition rest))
  | inr other ↦ elim (Bool-cases (joker_at composition.cards i)) [
    | inl joker ↦ rw joker (ground (arith, other, options_from-count j composition rest))
    | inr plain ↦ rw plain (ground (arith, other, options_from-count j composition rest))
  ]
]
