-- ===== src/Table/After.antt =====
-- The cards of a table composition after the draft that is staged on it.
use compositions.Prelude.{
  ℕ, ◌≤◌, ◌≡◌, refl, true, none, List, [], ◌∷◌, ◌++◌, map, get_or, contains, count, count_present,
  length, length-append, length-map, All, IsDistinct, counts-IsDistinct, string_eq, nat_eq, Perm,
  arith, ap, subst, sym,
}
use mathlib.Core.List.Perm
use mathlib.Core.List.{append_assoc, map-append, perm_append_comm}
use compositions.Prelude.Perms.{length-Perm}
use compositions.Prelude.Maps.{of_entries, keys}
use compositions.Snapshots.{Card, Composition}
use compositions.Points.{replace_from}
use compositions.Hand.{hand_entry_order}
use compositions.Drafts.{DraftedComposition}
use compositions.Reclaims.{PlannedReclaim, TablePlan, joker_at, plan_table_joker_reclaims}
use compositions.Reclaims.Explicit.{joker_indices}
use compositions.Reclaims.Inferred.{replacing}
use compositions.Reclaims.Options.{once_at}
use compositions.Reclaims.Jokers.{plan_table_joker_reclaims-count}
use compositions.Reclaims.Rest.{left_of, plan_table_joker_reclaims-perm}
use compositions.Table.{
  card_of, group_from, insert_index_of, sort_descending, replacements, without_excluded,
  cards_after_table_draft,
}
use compositions.Table.Replaced.{
  cards_at, length-replace_from, replace_from-perm, cards_at-jokers, joker_at-lt-length,
}
use compositions.Table.Grouping.{group_from-perm, sort_descending-perm, splice_groups-perm}

-- The plan for a draft that is staged on a composition.
abbrev pub plan_for : Composition → DraftedComposition → TablePlan
plan_for composition drafted =
    plan_table_joker_reclaims composition drafted.entries
      (get_or (length composition.cards) drafted.draft.insert_index) drafted.draft.reclaim_targets

-- The composition with its reclaimed jokers replaced.
abbrev pub replaced_cards : Composition → DraftedComposition → List Card
replaced_cards composition drafted =
    replace_from 0 (of_entries (replacements (plan_for composition drafted).reclaims))
      composition.cards

-- The jokers of the composition that the draft takes.
abbrev pub taken_jokers : Composition → DraftedComposition → List Card
taken_jokers composition drafted =
    cards_at 0 (joker_indices (plan_for composition drafted).reclaims) composition.cards

keys-replacements :
    (reclaims : List PlannedReclaim) → keys (replacements reclaims) ≡ joker_indices reclaims
keys-replacements [] = refl
keys-replacements (r ∷ reclaims) = ap (λ js. r.joker_index ∷ js) (keys-replacements reclaims)

cards-replacements :
    (reclaims : List PlannedReclaim)
    → map (λ e. e.1) (replacements reclaims) ≡ map card_of (replacing reclaims)
cards-replacements [] = refl
cards-replacements (r ∷ reclaims) =
    ap (λ cards. r.replacement_entry.card ∷ cards) (cards-replacements reclaims)

module _ (composition : Composition) (drafted : DraftedComposition)
    (once : IsDistinct (keys composition.joker_representations)) where
  abbrev reclaims : List PlannedReclaim
  reclaims = (plan_for composition drafted).reclaims

  taken_at : (j : ℕ) → count j (joker_indices reclaims) ≤ once_at composition.cards j
  taken_at j =
      plan_table_joker_reclaims-count j composition drafted.entries
        (get_or (length composition.cards) drafted.draft.insert_index) drafted.draft.reclaim_targets
        once

  taken-is_joker :
      (j : ℕ) → contains (joker_indices reclaims) j ≡ true → joker_at composition.cards j ≡ true
  taken-is_joker j h = ground (arith, taken_at j, count_present j (joker_indices reclaims) h)

  taken-IsDistinct : IsDistinct (joker_indices reclaims)
  taken-IsDistinct = counts-IsDistinct (joker_indices reclaims) (λ j. ground (arith, taken_at j))

  replaced-perm :
      Perm
        (replaced_cards composition drafted ++ taken_jokers composition drafted)
        (composition.cards ++ map card_of (replacing reclaims))
  replaced-perm =
      let p =
        replace_from-perm composition.cards (replacements reclaims)
          (subst IsDistinct (sym (keys-replacements reclaims)) taken-IsDistinct)
          (λ j c. joker_at-lt-length composition.cards j (
            taken-is_joker j
              (subst (λ js. contains js j ≡ true) (keys-replacements reclaims) c))) in
      rw (← keys-replacements reclaims, ← cards-replacements reclaims) p

-- From how the additions lie among the changed cards to how all the cards do.
regrouped :
    (after changed taken before used additions staged : List Card)
    → Perm after (changed ++ additions)
    → Perm (changed ++ taken) (before ++ used)
    → Perm (used ++ additions) staged
    → Perm (after ++ taken) (before ++ staged)
regrouped after changed taken before used additions staged p q r =
    Perm.trans (Perm.append_right taken p) (
      rw (append_assoc changed additions taken) (
        Perm.trans (Perm.append_left changed (perm_append_comm additions taken)) (
          rw (← append_assoc changed taken additions) (
            Perm.trans (Perm.append_right additions q)
              (rw (append_assoc before used additions) (Perm.append_left before r))))))

-- Where the staged entries have different keys, and each joker index of the composition has its
-- representation once, the cards after a draft and the jokers that it takes are, in some order, the
-- cards of the composition and all the staged ones. What is taken are jokers, as many as there are
-- reclaims.
pub cards_after_table_draft-perm :
    (composition : Composition) (drafted : DraftedComposition)
    → IsDistinct (hand_entry_order drafted.entries)
    → IsDistinct (keys composition.joker_representations)
    → Perm
        (cards_after_table_draft composition drafted none ++ taken_jokers composition drafted)
        (composition.cards ++ map card_of drafted.entries)
      × All (λ card. card.is_joker ≡ true) (taken_jokers composition drafted)
      × (length (taken_jokers composition drafted) ≡ length (plan_for composition drafted).reclaims)
unfolding cards_after_table_draft without_excluded
cards_after_table_draft-perm composition drafted distinct once =
    let additions = left_of (plan_for composition drafted).reclaimed_entry_keys drafted.entries in
    let index =
      insert_index_of drafted.draft.card_insert_indices
        (get_or (length composition.cards) drafted.draft.insert_index) in
    let grouped =
      Perm.trans (sort_descending-perm (group_from index [] additions))
        (group_from-perm index additions []) in
    let cards =
      Perm.trans
        (splice_groups-perm (sort_descending (group_from index [] additions))
          (replaced_cards composition drafted))
        (Perm.append_left (replaced_cards composition drafted) (Perm.map card_of grouped)) in
    let used = (plan_for composition drafted).reclaims in
    let taken = taken_jokers composition drafted in
    let staged = Perm.map card_of (
      plan_table_joker_reclaims-perm composition drafted.entries
        (get_or (length composition.cards) drafted.draft.insert_index) drafted.draft.reclaim_targets
        distinct) in
    let replaced = replaced-perm composition drafted once in
    (
      regrouped _ (replaced_cards composition drafted) taken composition.cards
          (map card_of (replacing used)) (map card_of additions) (map card_of drafted.entries) cards
          replaced
          (subst (λ cards. Perm cards (map card_of drafted.entries))
            (map-append card_of (replacing used) additions) staged),
      cards_at-jokers 0 (joker_indices used) composition.cards (λ j c.
          taken-is_joker composition drafted once j
            (subst (λ k. contains (joker_indices used) k ≡ true) (omega arith) c)),
      omega (
        arith,
        length-Perm replaced,
        length-append (replaced_cards composition drafted) taken,
        length-append composition.cards (map card_of (replacing used)),
        length-map card_of (replacing used),
        length-map (λ r. r.replacement_entry) used,
        length-replace_from 0 composition.cards (of_entries (replacements used)),
      ),
    )
