-- ===== src/Hand/Keys.antt =====
-- No two cards of a hand get one key.
use compositions.Prelude.{
  ℕ, zero, suc, All, ◌+◌, ◌≤◌, ◌<◌, ◌≡◌, refl, String, false, List, [], ◌∷◌, map, length, eq_iff,
  arith, ◌==◌, get_or, contains, IsDistinct, string_eq, Bool-cases, inl, inr, ap, sym, subst,
}
use compositions.Prelude.Int.{pos}
use compositions.Prelude.Maps.{lookup, insert, lookup-insert}
use compositions.Prelude.Text.{show, show_inj, show-IsDashFree, dash_inj}
use native.Mathlib.Nat.{le_refl}
use text.Mathlib.TextPositions.{eq_refl}
use compositions.Snapshots.{Card}
use compositions.Hand.{
  hand_card_key, hand_entries_from, build_hand_entries, hand_entry_order, ◌+++◌,
}

-- The key of an occurrence of a card.
abbrev occurrence_key : String → ℕ → String
occurrence_key base n = base +++ "-" +++ show n

occurrence_key_inj :
    (s t : String) (n m : ℕ) → occurrence_key s n ≡ occurrence_key t m → (s ≡ t) × (n ≡ m)
occurrence_key_inj s t n m e =
    let (bases, numbers) =
      dash_inj s t (show n) (show m) (show-IsDashFree n) (show-IsDashFree m) e in
    (bases, show_inj n m numbers)

occurrence_key_ne :
    (s t : String) (n m : ℕ) → (s ≡ t → n < m) → (occurrence_key t m == occurrence_key s n) ≡ false
occurrence_key_ne s t n m later = elim (Bool-cases (occurrence_key t m == occurrence_key s n)) [
  | inl same ↦
      let (bases, numbers) = occurrence_key_inj t s m n ((eq_iff _ _).0 same) in
      absurd (let h : n < m = later (sym bases) in omega arith)
  | inr different ↦ different
]

-- A key whose number was counted before does not come again.
counted_absent :
    (i : ℕ) (counts : List (String × ℕ)) (hand : List Card) (base : String) (n : ℕ)
    → n ≤ get_or 0 (lookup base counts)
    → contains (hand_entry_order (hand_entries_from i counts hand)) (occurrence_key base n) ≡ false
unfolding hand_entries_from hand_entry_order
counted_absent i counts [] base n h = refl
counted_absent i counts (card ∷ hand) base n h =
    let key = hand_card_key card in
    let occurrence = get_or 0 (lookup key counts) + 1 in
    let front =
      occurrence_key_ne base key n occurrence
        (λ e. let h' = subst (λ (b : String). n ≤ get_or 0 (lookup b counts)) e h in omega arith) in
    let back = counted_absent (i + 1) (insert key occurrence counts) hand base n (still key h) in
    rw front back
  where
    still :
        (key : String)
        → n ≤ get_or 0 (lookup base counts)
        → n ≤ get_or 0 (lookup base (insert key (get_or 0 (lookup key counts) + 1) counts))
    still key h =
        rw (lookup-insert key base (get_or 0 (lookup key counts) + 1) counts)
          (elim (Bool-cases (key == base)) [
            | inl same ↦
                let h' =
                  subst (λ (b : String). n ≤ get_or 0 (lookup b counts))
                    (sym ((eq_iff key base).0 same)) h in
                rw same (omega arith)
            | inr different ↦ rw different h
          ])

hand_entries_from-IsDistinct :
    (i : ℕ) (counts : List (String × ℕ)) (hand : List Card)
    → IsDistinct (hand_entry_order (hand_entries_from i counts hand))
unfolding hand_entries_from hand_entry_order
hand_entries_from-IsDistinct i counts [] = tt
hand_entries_from-IsDistinct i counts (card ∷ hand) =
    let key = hand_card_key card in
    let occurrence = get_or 0 (lookup key counts) + 1 in
    (
      counted_absent (i + 1) (insert key occurrence counts) hand key occurrence
          (rw (lookup-insert key key occurrence counts, eq_refl key) (le_refl occurrence)),
      hand_entries_from-IsDistinct (i + 1) (insert key occurrence counts) hand,
    )

abbrev pub range_from : ℕ → ℕ → List ℕ
range_from i zero = []
range_from i (suc n) = i ∷ range_from (i + 1) n

cards_from :
    (i : ℕ) (counts : List (String × ℕ)) (hand : List Card)
    → map (λ entry. entry.card) (hand_entries_from i counts hand) ≡ hand
unfolding hand_entries_from
cards_from i counts [] = refl
cards_from i counts (card ∷ hand) = ap (λ cards. card ∷ cards) (cards_from (i + 1) _ hand)

sources_from :
    (i : ℕ) (counts : List (String × ℕ)) (hand : List Card)
    → map (λ entry. entry.source_index) (hand_entries_from i counts hand)
      ≡ map pos (range_from i (length hand))
unfolding hand_entries_from
sources_from i counts [] = refl
sources_from i counts (card ∷ hand) = ap (λ indices. pos i ∷ indices) (sources_from (i + 1) _ hand)

real_from :
    (i : ℕ) (counts : List (String × ℕ)) (hand : List Card)
    → All (λ entry. entry.is_virtual ≡ false) (hand_entries_from i counts hand)
unfolding hand_entries_from
real_from i counts [] = tt
real_from i counts (card ∷ hand) = (refl, real_from (i + 1) _ hand)

-- `buildHandEntries` keeps the cards in their order, numbers them from 0, marks none as virtual, and
-- gives no two of them the same key, however many equal cards and jokers the hand holds.
pub build_hand_entries-IsDistinct :
    (hand : List Card)
    → IsDistinct (hand_entry_order (build_hand_entries hand))
      × (map (λ entry. entry.card) (build_hand_entries hand) ≡ hand)
      × (map (λ entry. entry.source_index) (build_hand_entries hand)
          ≡ map pos (range_from 0 (length hand)))
      × All (λ entry. entry.is_virtual ≡ false) (build_hand_entries hand)
unfolding build_hand_entries
build_hand_entries-IsDistinct hand = (
  hand_entries_from-IsDistinct 0 [] hand,
  cards_from 0 [] hand,
  sources_from 0 [] hand,
  real_from 0 [] hand,
)
