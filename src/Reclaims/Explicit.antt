-- ===== src/Reclaims/Explicit.antt =====
-- The explicit plans, and the split of the staged entries that every plan makes.
use compositions.Prelude.{
  ℕ, ◌≡◌, ◌⊎◌, refl, String, true, false, not, ◌||◌, Option, some, List, [], ◌∷◌, ◌++◌, map, ◌==◌,
  ◌!=◌, contains, filter, find?, is_empty, All, IsDistinct, nat_eq, string_eq, Bool-cases,
  Option-cases, inl, inr, Perm, arith, ap, eq_iff,
}
use mathlib.Core.List.Perm
use mathlib.Core.List.{Memᴰ, perm_append_comm}
use compositions.Prelude.Perms.{Perm_behind, filter-partition-perm}
use compositions.Snapshots.{Card, Composition}
use compositions.Hand.{HandEntry}
use compositions.Drafts.{index_of}
use compositions.Reclaims.{
  PlannedReclaim, ReclaimOption, ReclaimPlan, TablePlan, cards_equal, joker_at, options_from,
  joker_reclaim_options, can_reclaim_joker_with_card, explicit_from, reclaimed_keys,
  build_explicit_reclaims, is_targeted, plan_table_joker_reclaims,
  infer_planned_joker_reclaims_for_insert_index,
}
use compositions.Reclaims.Inferred.{replacing, infer_planned_joker_reclaims-perm}

-- The joker at an index stands for exactly one card, and that is the given one.
abbrev pub StandsFor : Composition → ℕ → Card → Type 0
StandsFor composition i card =
    (joker_at composition.cards i ≡ true)
    × ((represented : Card) × Memᴰ (i, represented ∷ []) composition.joker_representations
        × (cards_equal represented card ≡ true))

option_sound :
    (composition : Composition) (representations : List (ℕ × List Card)) (i : ℕ) (o : ReclaimOption)
    → find? (λ x. x.joker_index == i) (options_from composition representations) ≡ some o
    → (joker_at composition.cards i ≡ true) × Memᴰ (i, o.replacement_card ∷ []) representations
unfolding options_from
option_sound composition [] i o e = absurd (cc)
option_sound composition ((j, []) ∷ rest) i o e =
    let (joker, m) = option_sound composition rest i o e in (joker, Memᴰ.tail m)
option_sound composition ((j, a ∷ b ∷ cards) ∷ rest) i o e =
    let (joker, m) = option_sound composition rest i o e in (joker, Memᴰ.tail m)
option_sound composition ((j, card ∷ []) ∷ rest) i o e =
    elim (Bool-cases (joker_at composition.cards j)) [
      | inr plain ↦
          let (joker, m) = option_sound composition rest i o (rw plain at e) in (joker, Memᴰ.tail m)
      | inl joker ↦ elim (Bool-cases (j == i)) [
        | inl here ↦
            let index : j ≡ i = (nat_eq.equal_iff j i).0 here in
            let same : record { joker_index = j; replacement_card = card } ≡ o =
              ground (arith, joker) in
            (rw index at joker, Memᴰ.head (cc (index, ap (λ x. x.replacement_card) same)))
        | inr later ↦
            let (joker', m) = option_sound composition rest i o (ground (arith, joker)) in
            (joker', Memᴰ.tail m)
      ]
    ]

can_reclaim-StandsFor :
    (composition : Composition) (i : ℕ) (card : Card)
    → can_reclaim_joker_with_card composition i card ≡ true
    → StandsFor composition i card
unfolding can_reclaim_joker_with_card joker_reclaim_options
can_reclaim-StandsFor composition i card h =
    elim (Option-cases (find? (λ o. o.joker_index == i) (joker_reclaim_options composition))) [
      | inl absent ↦ absurd (cc)
      | inr (o, found) ↦
          let (joker, m) = option_sound composition composition.joker_representations i o found in
          (joker, (o.replacement_card, m, ground (arith, found)))
    ]

-- What an explicit reclaim has checked.
abbrev pub IsAsked : Composition → Option (List (String × ℕ)) → PlannedReclaim → Type 0
IsAsked composition targets r =
    (index_of targets r.replacement_entry.key ≡ some r.joker_index)
    × StandsFor composition r.joker_index r.replacement_entry.card

abbrev pub joker_indices : List PlannedReclaim → List ℕ
joker_indices = map (λ r. r.joker_index)

abbrev Unused : List ℕ → List PlannedReclaim → Type 0
Unused used = All (λ r. contains used r.joker_index ≡ false)

Unused-cons :
    (j : ℕ) (used : List ℕ) (rs : List PlannedReclaim)
    → Unused (j ∷ used) rs
    → Unused used rs × (contains (joker_indices rs) j ≡ false)
Unused-cons j used [] h = (tt, refl)
Unused-cons j used (r ∷ rs) (h, hs) =
    let (unused, absent) = Unused-cons j used rs hs in
    ((ground arith, unused), ground (arith, absent, nat_eq.equal_iff r.joker_index j))

explicit_from-IsAsked :
    (composition : Composition) (targets : Option (List (String × ℕ))) (used : List ℕ)
    (entries : List HandEntry)
    → All (IsAsked composition targets) (explicit_from composition targets used entries)
      × Unused used (explicit_from composition targets used entries)
      × IsDistinct (joker_indices (explicit_from composition targets used entries))
unfolding explicit_from
explicit_from-IsAsked composition targets used [] = (tt, tt, tt)
explicit_from-IsAsked composition targets used (entry ∷ entries) =
    elim (Option-cases (index_of targets entry.key)) [
      | inl untargeted ↦
          rw (untargeted, explicit_from) (explicit_from-IsAsked composition targets used entries)
      | inr (j, targeted) ↦
          elim (Bool-cases
            (contains used j || not (can_reclaim_joker_with_card composition j entry.card))) [
              | inl refused ↦
                  rw (targeted, explicit_from)
                    (rw refused (explicit_from-IsAsked composition targets used entries))
              | inr taken ↦
                  let (asked, unused, distinct) =
                    explicit_from-IsAsked composition targets (j ∷ used) entries in
                  let (still, absent) =
                    Unused-cons j used (explicit_from composition targets (j ∷ used) entries)
                      unused in
                  let fits = can_reclaim-StandsFor composition j entry.card (ground arith) in
                  let free : contains used j ≡ false = ground arith in
                  rw (targeted, explicit_from)
                    (rw taken (((targeted, fits), asked), (free, still), (absent, distinct)))
            ]
    ]

-- Every reclaim of `buildExplicitReclaims` is one that its card is targeted at: the joker at that
-- index of the composition stands for one card only, which is the replacing card, and no joker is
-- reclaimed twice.
pub build_explicit_reclaims-IsAsked :
    (composition : Composition) (entries : List HandEntry) (targets : Option (List (String × ℕ)))
    → All
        (IsAsked composition targets)
        (build_explicit_reclaims composition entries targets).reclaims
      × IsDistinct (joker_indices (build_explicit_reclaims composition entries targets).reclaims)
unfolding build_explicit_reclaims
build_explicit_reclaims-IsAsked composition entries targets =
    let (asked, _, distinct) = explicit_from-IsAsked composition targets [] entries in
    (asked, distinct)

-- The entries that a plan does not use to reclaim jokers.
explicit_from-rest :
    (composition : Composition) (targets : Option (List (String × ℕ))) (used : List ℕ)
    (entries : List HandEntry)
    → (rest : List HandEntry) × Perm
        (replacing (explicit_from composition targets used entries) ++ rest)
        entries
unfolding explicit_from
explicit_from-rest composition targets used [] = ([], Perm.rfl)
explicit_from-rest composition targets used (entry ∷ entries) =
    elim (Option-cases (index_of targets entry.key)) [
      | inl untargeted ↦
          let (rest, p) = explicit_from-rest composition targets used entries in
          (entry ∷ rest, rw (untargeted, explicit_from) (Perm_behind entry _ rest entries p))
      | inr (j, targeted) ↦
          elim (Bool-cases
            (contains used j || not (can_reclaim_joker_with_card composition j entry.card))) [
              | inl refused ↦
                  let (rest, p) = explicit_from-rest composition targets used entries in
                  (
                    entry ∷ rest,
                    rw (targeted, explicit_from) (rw refused (Perm_behind entry _ rest entries p)),
                  )
              | inr taken ↦
                  let (rest, p) = explicit_from-rest composition targets (j ∷ used) entries in
                  (rest, rw (targeted, explicit_from) (rw taken (Perm.cons entry p)))
            ]
    ]

module _ (composition : Composition) (entries : List HandEntry) (insert_index : ℕ)
    (targets : Option (List (String × ℕ))) where
  -- The entries in the order in which a set infers its reclaims.
  abbrev pub in_play_order : List HandEntry
  in_play_order =
      filter (λ entry. not (is_targeted targets entry)) entries
      ++ filter (is_targeted targets) entries

  abbrev pub inferred : ReclaimPlan
  inferred = infer_planned_joker_reclaims_for_insert_index composition in_play_order insert_index

  abbrev pub plan : TablePlan
  plan = plan_table_joker_reclaims composition entries insert_index targets

  pub plan-cases :
      (plan ≡ build_explicit_reclaims composition entries targets)
      ⊎ ((composition.type ≡ "set")
          × (plan.reclaims ≡ inferred.reclaims)
          × (plan.reclaimed_entry_keys ≡ reclaimed_keys inferred.reclaims))
  unfolding plan_table_joker_reclaims
  plan-cases =
      elim (Bool-cases (
        not (is_empty (build_explicit_reclaims composition entries targets).reclaims)
        || composition.type != "set")) [
          | inl explicit ↦ inl (rw explicit refl)
          | inr implicit ↦
              inr (
                (eq_iff composition.type "set").0 (ground arith),
                rw implicit refl,
                rw implicit refl,
              )
        ]

  -- The keys that a plan reports are those of its reclaims, and its reclaims use each staged entry
  -- at most once.
  pub plan-split :
      (plan.reclaimed_entry_keys ≡ reclaimed_keys plan.reclaims)
      × ((rest : List HandEntry) × Perm (replacing plan.reclaims ++ rest) entries)
  unfolding build_explicit_reclaims
  plan-split = elim plan-cases [
    | inl explicit ↦
        let (rest, p) = explicit_from-rest composition targets [] entries in
        (rw explicit refl, (rest, rw explicit p))
    | inr (_, same, keys) ↦ (
      rw (same, keys) refl,
      (
        inferred.additions,
        rw same (
            Perm.trans (perm_append_comm (replacing inferred.reclaims) inferred.additions) (
              Perm.trans (infer_planned_joker_reclaims-perm composition in_play_order insert_index)
                (filter-partition-perm (is_targeted targets) entries))),
      ),
    )
  ]
