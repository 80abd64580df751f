-- ===== src/Table/Grouping.antt =====
-- Grouping the staged entries by their insert index neither loses nor adds an entry.
use compositions.Prelude.{
  ℕ, true, List, [], ◌∷◌, ◌++◌, map, leb, ◌==◌, get_or, take, drop, is_empty, nat_eq, Bool-cases,
  inl, inr, Perm, ◌≡◌, refl, ◌∙◌, arith, take-append-drop,
}
use mathlib.Core.List.Perm
use mathlib.Core.List.{
  append-nil, append_assoc, map-append, perm_middle, perm_append_comm, reverse_perm,
}
use compositions.Prelude.Maps.{lookup, insert}
use compositions.Snapshots.{Card, Addition}
use compositions.Hand.{HandEntry}
use compositions.Table.{
  Groups, card_of, group_from, in_group_order, insert_descending, sort_descending, splice_in,
  splice_groups, ordered_groups, additions_of,
}

-- The entries of the groups.
abbrev pub flat : Groups → List HandEntry
flat [] = []
flat ((insert_index, entries) ∷ groups) = entries ++ flat groups

insert_group-perm :
    (i : ℕ) (entry : HandEntry) (old : List HandEntry) (groups : Groups)
    → get_or [] (lookup i groups) ≡ old
    → Perm (flat (insert i (old ++ entry ∷ []) groups)) (entry ∷ flat groups)
insert_group-perm i entry old [] e = rw (← e) Perm.rfl
insert_group-perm i entry old ((j, entries) ∷ groups) e = elim (Bool-cases (j == i)) [
  | inl same ↦
      let found : entries ≡ old = ground (arith, e) in
      rw same (
        rw (← found) (
          rw (append_assoc entries (entry ∷ []) (flat groups)) (perm_middle entries (flat groups))))
  | inr other ↦ rw other (
      Perm.trans
        (Perm.append_left entries (insert_group-perm i entry old groups (ground (arith, e))))
        (perm_middle entries (flat groups)))
]

pub group_from-perm :
    (index : HandEntry → ℕ) (entries : List HandEntry) (groups : Groups)
    → Perm (flat (group_from index groups entries)) (flat groups ++ entries)
unfolding group_from
group_from-perm index [] groups = rw (append-nil (flat groups)) Perm.rfl
group_from-perm index (entry ∷ entries) groups = Perm.trans (group_from-perm index entries _) (
    Perm.trans (Perm.append_right entries (insert_group-perm (index entry) entry _ groups refl))
      (Perm.symm (perm_middle (flat groups) entries)))

in_group_order-perm : (i : ℕ) (entries : List HandEntry) → Perm (in_group_order i entries) entries
unfolding in_group_order
in_group_order-perm i entries = elim (Bool-cases (i == 0)) [
  | inl front ↦ rw front (reverse_perm entries)
  | inr inside ↦ rw inside Perm.rfl
]

pub ordered_groups-perm : (groups : Groups) → Perm (ordered_groups groups) (flat groups)
unfolding ordered_groups
ordered_groups-perm [] = Perm.rfl
ordered_groups-perm ((i, entries) ∷ groups) =
    Perm.append (in_group_order-perm i entries) (ordered_groups-perm groups)

insert_descending-perm :
    (i : ℕ) (entries : List HandEntry) (groups : Groups)
    → Perm (flat (insert_descending (i, entries) groups)) (entries ++ flat groups)
unfolding insert_descending
insert_descending-perm i entries [] = Perm.rfl
insert_descending-perm i entries ((j, others) ∷ groups) = elim (Bool-cases (leb j i)) [
  | inl first ↦ rw first Perm.rfl
  | inr later ↦ rw later (
      Perm.trans (Perm.append_left others (insert_descending-perm i entries groups)) (
        rw
          (← append_assoc others entries (flat groups), ← append_assoc entries others (flat groups))
          (Perm.append_right (flat groups) (perm_append_comm others entries))))
]

pub sort_descending-perm : (groups : Groups) → Perm (flat (sort_descending groups)) (flat groups)
unfolding sort_descending
sort_descending-perm [] = Perm.rfl
sort_descending-perm ((i, entries) ∷ groups) =
    Perm.trans (insert_descending-perm i entries (sort_descending groups))
      (Perm.append_left entries (sort_descending-perm groups))

splice_in-perm : (i : ℕ) (added cards : List Card) → Perm (splice_in i added cards) (cards ++ added)
splice_in-perm i added cards =
    Perm.trans (Perm.append_left (take i cards) (perm_append_comm added (drop i cards)))
      (rw (← append_assoc (take i cards) (drop i cards) added, take-append-drop i cards) Perm.rfl)

pub splice_groups-perm :
    (groups : Groups) (cards : List Card)
    → Perm (splice_groups groups cards) (cards ++ map card_of (flat groups))
unfolding splice_groups
splice_groups-perm [] cards = rw (append-nil cards) Perm.rfl
splice_groups-perm ((i, entries) ∷ groups) cards = Perm.trans (splice_groups-perm groups _) (
    Perm.trans
      (Perm.append_right (map card_of (flat groups)) (
        Perm.trans (splice_in-perm i (map card_of (in_group_order i entries)) cards)
          (Perm.append_left cards (Perm.map card_of (in_group_order-perm i entries)))))
      (rw
        (
          append_assoc cards (map card_of entries) (map card_of (flat groups)),
          map-append card_of entries (flat groups),
        )
        Perm.rfl))

is_empty-nil : (entries : List HandEntry) → is_empty entries ≡ true → entries ≡ []
is_empty-nil [] e = refl
is_empty-nil (entry ∷ entries) e = absurd (cc)

-- The cards of some additions.
abbrev pub added_cards : List Addition → List Card
added_cards [] = []
added_cards (addition ∷ additions) = addition.cards ++ added_cards additions

pub additions_of-cards :
    (table_index : ℕ) (groups : Groups)
    → added_cards (additions_of table_index groups) ≡ map card_of (ordered_groups groups)
unfolding additions_of ordered_groups
additions_of-cards table_index [] = refl
additions_of-cards table_index ((i, entries) ∷ groups) =
    let rest = additions_of-cards table_index groups in
    elim (Bool-cases (is_empty (in_group_order i entries))) [
      | inl nothing ↦
          let empty : in_group_order i entries ≡ [] = is_empty-nil _ nothing in
          rw nothing (rest ∙ rw empty refl)
      | inr cards ↦
          rw cards
            (rw (rest, map-append card_of (in_group_order i entries) (ordered_groups groups)) refl)
    ]
