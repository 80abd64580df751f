-- ===== src/Reclaims/Inferred.antt =====
-- The inferred plans use every staged entry exactly once, as an addition or as a replacement.
use compositions.Prelude.{
  ℕ, zero, suc, String, ◌||◌, List, [], ◌∷◌, ◌++◌, map, ◌==◌, is_empty, get_elem?, string_eq,
  Bool-cases, Option-cases, inl, inr, Perm,
}
use mathlib.Core.List.Perm
use mathlib.Core.List.{append-nil, append_assoc}
use compositions.Prelude.Maps.{lookup, erase}
use compositions.Prelude.Perms.{Perm_behind}
use compositions.Snapshots.{Composition}
use compositions.Points.{naturals, first_rank}
use compositions.Hand.{HandEntry}
use compositions.Reclaims.{
  PlannedReclaim, ReclaimPlan, ReclaimOption, card_key, cards_equal, joining_suit,
  split_set_entries, match_options, match_run_options, remove_at, infer_set_planned_joker_reclaims,
  infer_planned_joker_reclaims_for_insert_index, joker_reclaim_options, is_ambiguous_run_insertion,
}

abbrev pub replacing : List PlannedReclaim → List HandEntry
replacing = map (λ r. r.replacement_entry)

-- The entries that a plan uses.
abbrev pub used_by : ReclaimPlan → List HandEntry
used_by plan = plan.additions ++ replacing plan.reclaims

split_set_entries-perm :
    (rank : ℕ) (suits : List ℕ) (room : ℕ) (entries : List HandEntry)
    → Perm
        ((split_set_entries rank suits room entries).additions
          ++ (split_set_entries rank suits room entries).remaining_entries)
        entries
unfolding split_set_entries
split_set_entries-perm rank suits room [] = Perm.rfl
split_set_entries-perm rank suits zero (entry ∷ entries) =
    Perm_behind entry _ _ _ (split_set_entries-perm rank suits zero entries)
split_set_entries-perm rank suits (suc room) (entry ∷ entries) =
    elim (Option-cases (joining_suit rank suits entry.card)) [
      | inl stays ↦
          rw (stays, split_set_entries)
            (Perm_behind entry _ _ _ (split_set_entries-perm rank suits (suc room) entries))
      | inr (suit, joins) ↦
          rw (joins, split_set_entries)
            (Perm.cons entry (split_set_entries-perm rank (suit ∷ suits) room entries))
    ]

match_options-perm :
    (options : List (String × ReclaimOption)) (entries : List HandEntry)
    → Perm (used_by (match_options options entries)) entries
unfolding match_options
match_options-perm options [] = Perm.rfl
match_options-perm options (entry ∷ entries) =
    elim (Option-cases (lookup (card_key entry.card) options)) [
      | inl absent ↦
          rw (absent, match_options) (Perm.cons entry (match_options-perm options entries))
      | inr (o, found) ↦ elim (Bool-cases (cards_equal o.replacement_card entry.card)) [
        | inl same ↦
            rw (found, match_options)
              (rw same (
                Perm_behind entry _ _ _
                  (match_options-perm (erase (card_key o.replacement_card) options) entries)))
        | inr other ↦
            rw (found, match_options)
              (rw other (Perm.cons entry (match_options-perm options entries)))
      ]
    ]

match_run_options-perm :
    (available : List ReclaimOption) (indices : List (String × ℕ)) (entries : List HandEntry)
    → Perm (used_by (match_run_options available indices entries)) entries
unfolding match_run_options
match_run_options-perm available indices [] = Perm.rfl
match_run_options-perm available indices (entry ∷ entries) =
    elim (Option-cases (lookup (card_key entry.card) indices)) [
      | inl absent ↦
          rw (absent, match_run_options)
            (Perm.cons entry (match_run_options-perm available indices entries))
      | inr (index, found) ↦ elim (Option-cases (get_elem? available index)) [
        | inl gone ↦
            rw (found, match_run_options)
              (rw gone (Perm.cons entry (match_run_options-perm available indices entries)))
        | inr (o, at) ↦
            rw (found, match_run_options)
              (rw at (
                Perm_behind entry _ _ _ (
                  match_run_options-perm (remove_at index available)
                    (erase (card_key entry.card) indices) entries)))
      ]
    ]

infer_set-perm :
    (composition : Composition) (entries : List HandEntry)
    → Perm (used_by (infer_set_planned_joker_reclaims composition entries)) entries
unfolding infer_set_planned_joker_reclaims
infer_set-perm composition entries = elim (Option-cases (first_rank (naturals composition.cards))) [
  | inl absent ↦ rw (absent, infer_set_planned_joker_reclaims) (rw (append-nil entries) Perm.rfl)
  | inr (rank, found) ↦
      rw (found, infer_set_planned_joker_reclaims)
        (rw append_assoc (
          Perm.trans (Perm.append_left _ (match_options-perm _ _))
            (split_set_entries-perm rank _ _ entries)))
]

-- Whatever the composition, its type and the insert index, the inferred plan uses every staged entry
-- exactly once: each is an addition or replaces a joker, none is lost and none is used twice.
pub infer_planned_joker_reclaims-perm :
    (composition : Composition) (entries : List HandEntry) (insert_index : ℕ)
    → Perm
        (used_by (infer_planned_joker_reclaims_for_insert_index composition entries insert_index))
        entries
unfolding infer_planned_joker_reclaims_for_insert_index
infer_planned_joker_reclaims-perm composition entries insert_index =
    elim (Bool-cases (composition.type == "set")) [
      | inl set ↦ rw set (infer_set-perm composition entries)
      | inr run ↦
          elim (Bool-cases (
            is_empty (joker_reclaim_options composition)
            || is_ambiguous_run_insertion composition insert_index)) [
              | inl idle ↦ rw (run, idle) (rw (append-nil entries) Perm.rfl)
              | inr busy ↦ rw (run, busy) (match_run_options-perm _ _ entries)
            ]
    ]
