-- ===== src/Table/Play.antt =====
-- The play that is sent to the server holds every staged card once.
use compositions.Prelude.{
  ℕ, ◌≡◌, refl, Option, none, some, List, [], ◌∷◌, ◌++◌, map, filter_all, get_elem?, not, contains,
  All, IsDistinct, string_eq, nat_eq, Option-cases, inl, inr, Perm, ap, sym, ◌∙◌,
}
use mathlib.Core.List.Perm
use mathlib.Core.List.{append-nil, append_assoc, map-append, perm_append_comm}
use compositions.Snapshots.{Card, Composition, Addition, Reclaim, TablePlay}
use compositions.Hand.{HandEntry, hand_entry_order}
use compositions.Drafts.{DraftedComposition}
use compositions.Reclaims.{PlannedReclaim}
use compositions.Reclaims.Inferred.{replacing}
use compositions.Reclaims.Rest.{left_of, plan_table_joker_reclaims-perm}
use compositions.Table.{
  card_of, group_from, plan_of, reclaims_of, additions_of, play_of, build_table_play_request,
}
use compositions.Table.Grouping.{
  group_from-perm, ordered_groups-perm, added_cards, additions_of-cards,
}

-- The cards of some new compositions, of some reclaims, and of a whole play.
abbrev pub composed_cards : List (List Card) → List Card
composed_cards [] = []
composed_cards (cards ∷ compositions) = cards ++ composed_cards compositions

abbrev pub reclaiming_cards : List Reclaim → List Card
reclaiming_cards = map (λ r. r.replacement_card)

abbrev pub played_cards : TablePlay → List Card
played_cards play =
    composed_cards play.compositions
    ++ (added_cards play.additions ++ reclaiming_cards play.reclaims)

-- The cards that are staged, draft by draft.
abbrev pub staged_cards : List DraftedComposition → List Card
staged_cards [] = []
staged_cards (drafted ∷ drafts) = map card_of drafted.entries ++ staged_cards drafts

plan_of-perm :
    (composition : Option Composition) (drafted : DraftedComposition)
    → IsDistinct (hand_entry_order drafted.entries)
    → Perm
        (replacing (plan_of composition drafted).reclaims
          ++ left_of (plan_of composition drafted).reclaimed_entry_keys drafted.entries)
        drafted.entries
unfolding plan_of
plan_of-perm none drafted distinct =
    rw (filter_all (λ entry. not (contains [] entry.key)) drafted.entries (λ entry. refl)) Perm.rfl
plan_of-perm (some composition) drafted distinct =
    plan_table_joker_reclaims-perm composition drafted.entries _ drafted.draft.reclaim_targets
      distinct

reclaims_of-cards :
    (table_index : ℕ) (reclaims : List PlannedReclaim)
    → reclaiming_cards (reclaims_of table_index reclaims) ≡ map card_of (replacing reclaims)
unfolding reclaims_of
reclaims_of-cards table_index [] = refl
reclaims_of-cards table_index (r ∷ reclaims) =
    ap (λ cards. r.replacement_entry.card ∷ cards) (reclaims_of-cards table_index reclaims)

additions-perm :
    (table_index : ℕ) (index : HandEntry → ℕ) (entries : List HandEntry)
    → Perm
        (added_cards (additions_of table_index (group_from index [] entries)))
        (map card_of entries)
additions-perm table_index index entries =
    rw (additions_of-cards table_index (group_from index [] entries)) (
      Perm.map card_of (
        Perm.trans (ordered_groups-perm (group_from index [] entries))
          (group_from-perm index entries [])))

play_of-perm :
    (active : List Composition) (drafted : DraftedComposition)
    → IsDistinct (hand_entry_order drafted.entries)
    → Perm (played_cards (play_of active drafted)) (map card_of drafted.entries)
unfolding play_of
play_of-perm active drafted distinct = elim (Option-cases drafted.draft.table_index) [
  | inl new ↦
      rw (new, play_of)
        (rw
          (append-nil (map card_of drafted.entries ++ []), append-nil (map card_of drafted.entries))
          Perm.rfl)
  | inr (table_index, staged) ↦
      let plan = plan_of (get_elem? active table_index) drafted in
      let reclaiming : Perm (reclaiming_cards (reclaims_of table_index plan.reclaims))
          (map card_of (replacing plan.reclaims)) =
        rw (reclaims_of-cards table_index plan.reclaims) Perm.rfl in
      rw (staged, play_of)
        (Perm.trans
          (Perm.append
            (additions-perm table_index _ (left_of plan.reclaimed_entry_keys drafted.entries))
            reclaiming)
          (rw
            (← map-append card_of (left_of plan.reclaimed_entry_keys drafted.entries)
              (replacing plan.reclaims))
            (Perm.map card_of (
              Perm.trans
                (perm_append_comm (left_of plan.reclaimed_entry_keys drafted.entries)
                  (replacing plan.reclaims))
                (plan_of-perm (get_elem? active table_index) drafted distinct)))))
]

composed_cards-append :
    (a b : List (List Card)) → composed_cards (a ++ b) ≡ composed_cards a ++ composed_cards b
composed_cards-append [] b = refl
composed_cards-append (cards ∷ a) b =
    ap (λ x. cards ++ x) (composed_cards-append a b)
    ∙ sym (append_assoc cards (composed_cards a) (composed_cards b))

added_cards-append : (a b : List Addition) → added_cards (a ++ b) ≡ added_cards a ++ added_cards b
added_cards-append [] b = refl
added_cards-append (addition ∷ a) b =
    ap (λ x. addition.cards ++ x) (added_cards-append a b)
    ∙ sym (append_assoc addition.cards (added_cards a) (added_cards b))

-- Two pairs of lists, side by side.
interleave-perm : (a b c d : List Card) → Perm ((a ++ b) ++ (c ++ d)) ((a ++ c) ++ (b ++ d))
interleave-perm a b c d =
    rw (append_assoc a b (c ++ d), append_assoc a c (b ++ d))
      (Perm.append_left a (
        rw (← append_assoc b c d, ← append_assoc c b d)
          (Perm.append_right d (perm_append_comm b c))))

-- Every staged card is in the play once, and the play has no other: together the cards of its new
-- compositions, of its additions and of its reclaims are the cards of the drafts, whatever the
-- table, where no draft has two entries of one key.
pub build_table_play_request-perm :
    (active : List Composition) (drafts : List DraftedComposition)
    → All (λ drafted. IsDistinct (hand_entry_order drafted.entries)) drafts
    → Perm (played_cards (build_table_play_request active drafts)) (staged_cards drafts)
unfolding build_table_play_request
build_table_play_request-perm active [] h = Perm.rfl
build_table_play_request-perm active (drafted ∷ drafts) (distinct, h) =
    let here = play_of active drafted in
    let rest = build_table_play_request active drafts in
    let later : Perm
        (added_cards (here.additions ++ rest.additions)
          ++ reclaiming_cards (here.reclaims ++ rest.reclaims))
        ((added_cards here.additions ++ reclaiming_cards here.reclaims)
          ++ (added_cards rest.additions ++ reclaiming_cards rest.reclaims)) =
      rw
        (
          added_cards-append here.additions rest.additions,
          map-append (λ (r : Reclaim). r.replacement_card) here.reclaims rest.reclaims,
        )
        (interleave-perm (added_cards here.additions) (added_cards rest.additions)
          (reclaiming_cards here.reclaims) (reclaiming_cards rest.reclaims)) in
    Perm.trans
      (rw (composed_cards-append here.compositions rest.compositions) (
        Perm.trans (Perm.append_left _ later) (
          interleave-perm (composed_cards here.compositions) (composed_cards rest.compositions)
            (added_cards here.additions ++ reclaiming_cards here.reclaims)
            (added_cards rest.additions ++ reclaiming_cards rest.reclaims))))
      (Perm.append (play_of-perm active drafted distinct)
        (build_table_play_request-perm active drafts h))
