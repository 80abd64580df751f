-- ===== src/Tests/Hands.antt =====
-- The theorems on the hand, at concrete hands.
use compositions.Prelude.{
  ℕ, ◌≡◌, refl, String, true, false, none, some, List, [], ◌∷◌, map, length, All, take, IsDistinct,
  Perm, nat_eq, string_eq, filter,
}
use compositions.Prelude.Int.{pos, negsuc, int_eq}
use compositions.Prelude.Text.{show, digits}
use compositions.Snapshots.{Card}
use compositions.Hand.{
  HandEntry, hand_card_key, hand_entries_from, build_hand_entries, hand_entry_order,
  map_hand_keys_to_entries, apply_hand_entry_order, played_source_indices, next_index_of,
  hand_index_after_submitted_drafts, find_new_hand_entry,
}
use compositions.Hand.Keys.{range_from, build_hand_entries-IsDistinct}
use compositions.Hand.Order.{apply_hand_entry_order-perm}
use compositions.Hand.Played.{stays, IsAt, hand_index_after_submitted_drafts-IsAt}
use compositions.Tests.{natural, joker}

unfoldable pub hand : Unit {0}
unfolding show digits hand_card_key hand_entries_from build_hand_entries hand_entry_order
    map_hand_keys_to_entries apply_hand_entry_order played_source_indices next_index_of
    hand_index_after_submitted_drafts find_new_hand_entry
hand = tt

abbrev pub entry : String → Card → ℕ → HandEntry
entry key card index = record {
  key = key;
  card = card;
  source_index = pos index;
  is_virtual = false;
}

abbrev cards : List Card
cards = natural 4 0 ∷ joker ∷ natural 4 0 ∷ joker ∷ []

abbrev pub entries : List HandEntry
entries =
    entry "4-0-1" (natural 4 0) 0
    ∷ entry "joker-1" joker 1
    ∷ entry "4-0-2" (natural 4 0) 2
    ∷ entry "joker-2" joker 3
    ∷ []

abbrev virtual_entry : HandEntry
virtual_entry = record {
  key = "reclaimed-joker-0-1";
  card = joker;
  source_index = negsuc 0;
  is_virtual = true;
}

-- The second four is staged, together with a reclaimed joker.
abbrev drafted : List (List HandEntry)
drafted = (entry "4-0-1" (natural 4 0) 0 ∷ virtual_entry ∷ []) ∷ []

hand_tests :
    (build_hand_entries cards ≡ entries)
    × (hand_entry_order (apply_hand_entry_order entries ("joker-2" ∷ "gone" ∷ "4-0-1" ∷ []))
        ≡ "joker-2" ∷ "4-0-1" ∷ "joker-1" ∷ "4-0-2" ∷ [])
    × (hand_index_after_submitted_drafts entries "joker-2" drafted ≡ some 2)
    × (hand_index_after_submitted_drafts entries "4-0-1" drafted ≡ none)
    × (find_new_hand_entry (take 2 entries) entries ≡ some (entry "4-0-2" (natural 4 0) 2))
unfolding hand
hand_tests = (refl, refl, refl, refl, refl)

build_hand_entries-IsDistinct_example :
    IsDistinct (hand_entry_order (build_hand_entries cards))
    × (map (λ entry. entry.card) (build_hand_entries cards) ≡ cards)
    × (map (λ entry. entry.source_index) (build_hand_entries cards)
        ≡ map pos (range_from 0 (length cards)))
    × All (λ entry. entry.is_virtual ≡ false) (build_hand_entries cards)
build_hand_entries-IsDistinct_example = build_hand_entries-IsDistinct cards

apply_hand_entry_order-perm_example :
    Perm (apply_hand_entry_order entries ("joker-2" ∷ "gone" ∷ "4-0-1" ∷ [])) entries
unfolding hand
apply_hand_entry_order-perm_example =
    apply_hand_entry_order-perm entries ("joker-2" ∷ "gone" ∷ "4-0-1" ∷ [])
      (refl, (refl, (refl, (refl, tt)))) (refl, (refl, (refl, tt)))

hand_index_after_submitted_drafts-IsAt_example :
    (i : ℕ) × (hand_index_after_submitted_drafts entries "joker-2" drafted ≡ some i)
    × IsAt (filter (stays (played_source_indices drafted)) entries) i (pos 3)
unfolding hand
hand_index_after_submitted_drafts-IsAt_example =
    hand_index_after_submitted_drafts-IsAt entries "joker-2" drafted (entry "joker-2" joker 3) refl
      refl refl
