-- ===== src/Table/Replaced.antt =====
-- The cards of a composition with some of them replaced, and those that were replaced.
use compositions.Prelude.{
  ℕ, zero, suc, ◌+◌, ◌<◌, ◌≡◌, refl, true, false, Option, none, some, List, [], ◌∷◌, ◌++◌, map, leb,
  ◌==◌, if◌then◌else◌, get_or, is_some, contains, filter, length, All, IsDistinct, nat_eq, Perm,
  Bool-cases, Option-cases, inl, inr, arith, ap, subst,
}
use mathlib.Core.List.Perm
use compositions.Prelude.Maps.{lookup, of_entries, keys, lookup-of_entries}
use compositions.Prelude.Perms.{Perm_behind}
use compositions.Snapshots.{Card}
use compositions.Points.{replace_from}
use compositions.Reclaims.{joker_at}

-- The cards at some indices, of cards that are counted from an index on.
unfoldable pub cards_at : ℕ → List ℕ → List Card → List Card
cards_at i indices [] = []
cards_at i indices (card ∷ cards) =
    if contains indices i
    then card ∷ cards_at (i + 1) indices cards
    else cards_at (i + 1) indices cards

pub length-replace_from :
    (i : ℕ) (cards : List Card) (replacements : List (ℕ × Card))
    → length (replace_from i replacements cards) ≡ length cards
unfolding replace_from
length-replace_from i [] replacements = refl
length-replace_from i (card ∷ cards) replacements =
    ap suc (length-replace_from (i + 1) cards replacements)

replace_from-same :
    (i : ℕ) (cards : List Card) (m n : List (ℕ × Card))
    → ((j : ℕ) → lookup j m ≡ lookup j n)
    → replace_from i m cards ≡ replace_from i n cards
unfolding replace_from
replace_from-same i [] m n h = refl
replace_from-same i (card ∷ cards) m n h =
    rw (h i) (ap (λ rest. get_or card (lookup i n) ∷ rest) (replace_from-same (i + 1) cards m n h))

-- The replacements from an index on.
abbrev behind : ℕ → List (ℕ × Card) → List Card
behind i entries = map (λ e. e.1) (filter (λ e. leb i e.0) entries)

abbrev listed : Option Card → List Card
listed none = []
listed (some card) = card ∷ []

behind-absent :
    (i : ℕ) (entries : List (ℕ × Card))
    → contains (keys entries) i ≡ false
    → behind i entries ≡ behind (i + 1) entries
behind-absent i [] h = refl
behind-absent i ((j, card) ∷ entries) h =
    let rest = behind-absent i entries (ground (arith, h)) in
    elim (Bool-cases (leb i j)) [
      | inl here ↦
          let later : leb (i + 1) j ≡ true = ground (arith, here, h) in
          rw (here, later) (ap (λ cards. card ∷ cards) rest)
      | inr before ↦
          let still : leb (i + 1) j ≡ false = ground (arith, before) in rw (before, still) rest
    ]

behind-perm :
    (i : ℕ) (entries : List (ℕ × Card)) (found : Option Card)
    → IsDistinct (keys entries)
    → lookup i entries ≡ found
    → Perm (behind i entries) (listed found ++ behind (i + 1) entries)
behind-perm i [] found h e = subst (λ o. Perm [] (listed o ++ [])) e Perm.rfl
behind-perm i ((j, card) ∷ entries) found (new, h) e = elim (Bool-cases (j == i)) [
  | inl here ↦
      let same : j ≡ i = (nat_eq.equal_iff j i).0 here in
      let from : leb i j ≡ true = ground (arith, same) in
      let past : leb (i + 1) j ≡ false = ground (arith, same) in
      let absent =
        behind-absent i entries (subst (λ k. contains (keys entries) k ≡ false) same new) in
      let it_is : some card ≡ found = ground (arith, here, e) in
      subst
        (λ o.
          Perm (behind i ((j, card) ∷ entries)) (listed o ++ behind (i + 1) ((j, card) ∷ entries)))
        it_is (rw (from, past, absent) Perm.rfl)
  | inr other ↦
      let rest = behind-perm i entries found h (ground (arith, other, e)) in
      elim (Bool-cases (leb i j)) [
        | inl later ↦
            let past : leb (i + 1) j ≡ true = ground (arith, later, other) in
            rw (later, past)
              (Perm.symm (
                Perm_behind card (listed found) (behind (i + 1) entries) (behind i entries)
                  (Perm.symm rest)))
        | inr before ↦
            let still : leb (i + 1) j ≡ false = ground (arith, before) in rw (before, still) rest
      ]
]

-- Nothing is behind the last index.
behind-end :
    (i : ℕ) (entries : List (ℕ × Card))
    → ((j : ℕ) → contains (keys entries) j ≡ true → j < i)
    → behind i entries ≡ []
behind-end i [] h = refl
behind-end i ((j, card) ∷ entries) h =
    let past : leb i j ≡ false = ground (arith, h j (ground (arith, nat_eq.equal_iff j j))) in
    rw past (behind-end i entries (λ k c. h k (ground (arith, c))))

behind-all : (entries : List (ℕ × Card)) → behind 0 entries ≡ map (λ e. e.1) entries
behind-all [] = refl
behind-all ((j, card) ∷ entries) =
    let here : leb 0 j ≡ true = ground arith in
    rw here (ap (λ cards. card ∷ cards) (behind-all entries))

lookup-contains :
    (i : ℕ) (entries : List (ℕ × Card)) → contains (keys entries) i ≡ is_some (lookup i entries)
lookup-contains i [] = refl
lookup-contains i ((j, card) ∷ entries) = ground (arith, lookup-contains i entries)

-- The cards after a replacement and those that were replaced are the cards before it and the
-- replacements, where each index is replaced once at most and is one of a card.
replace_from-behind :
    (i : ℕ) (cards : List Card) (entries : List (ℕ × Card))
    → IsDistinct (keys entries)
    → ((j : ℕ) → contains (keys entries) j ≡ true → j < i + length cards)
    → Perm
        (replace_from i entries cards ++ cards_at i (keys entries) cards)
        (cards ++ behind i entries)
unfolding replace_from cards_at
replace_from-behind i [] entries distinct within =
    rw (behind-end i entries (λ j c. omega (arith, within j c))) Perm.rfl
replace_from-behind i (card ∷ cards) entries distinct within =
    let rest =
      replace_from-behind (i + 1) cards entries distinct (λ j c. omega (arith, within j c)) in
    elim (Option-cases (lookup i entries)) [
      | inl absent ↦
          let kept : contains (keys entries) i ≡ false =
            ground (arith, lookup-contains i entries, absent) in
          rw (absent, kept)
            (Perm.cons card (
              Perm.trans rest
                (Perm.append_left cards (Perm.symm (behind-perm i entries none distinct absent)))))
      | inr (new, found) ↦
          let taken : contains (keys entries) i ≡ true =
            ground (arith, lookup-contains i entries, found) in
          let changed = replace_from (i + 1) entries cards in
          let old = cards_at (i + 1) (keys entries) cards in
          let later = behind (i + 1) entries in
          let put = Perm.cons new (Perm_behind card changed old (cards ++ later) rest) in
          let front = Perm_behind card (new ∷ []) (cards ++ later) _ Perm.rfl in
          let back =
            Perm.trans (Perm.append_left cards (behind-perm i entries (some new) distinct found))
              (Perm_behind new cards later _ Perm.rfl) in
          rw (found, taken) (Perm.trans put (Perm.trans front (Perm.cons card (Perm.symm back))))
    ]

-- The cards at indices that are all of jokers.
pub cards_at-jokers :
    (i : ℕ) (indices : List ℕ) (cards : List Card)
    → ((j : ℕ) → contains indices (i + j) ≡ true → joker_at cards j ≡ true)
    → All (λ card. card.is_joker ≡ true) (cards_at i indices cards)
unfolding cards_at
cards_at-jokers i indices [] h = tt
cards_at-jokers i indices (card ∷ cards) h =
    let rest =
      cards_at-jokers (i + 1) indices cards
        (λ j c. h (suc j) (subst (λ k. contains indices k ≡ true) (omega arith) c)) in
    elim (Bool-cases (contains indices i)) [
      | inl here ↦ rw here (h 0 (subst (λ k. contains indices k ≡ true) (omega arith) here), rest)
      | inr not_here ↦ rw not_here rest
    ]

pub joker_at-lt-length : (cards : List Card) (j : ℕ) → joker_at cards j ≡ true → j < length cards
joker_at-lt-length [] j h = absurd (cc)
joker_at-lt-length (card ∷ cards) zero h = omega arith
joker_at-lt-length (card ∷ cards) (suc j) h = omega (arith, joker_at-lt-length cards j h)

-- The same of the entries of a map, which replace cards from the first on.
pub replace_from-perm :
    (cards : List Card) (entries : List (ℕ × Card))
    → IsDistinct (keys entries)
    → ((j : ℕ) → contains (keys entries) j ≡ true → j < length cards)
    → Perm
        (replace_from 0 (of_entries entries) cards ++ cards_at 0 (keys entries) cards)
        (cards ++ map (λ e. e.1) entries)
replace_from-perm cards entries distinct within =
    rw
      (
        replace_from-same 0 cards (of_entries entries) entries
            (λ j. lookup-of_entries j entries distinct),
        ← behind-all entries,
      )
      (replace_from-behind 0 cards entries distinct (λ j c. omega (arith, within j c)))
