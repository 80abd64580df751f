-- ===== src/Transfers/Shown.antt =====
-- What a transfer shows, and the parts of its inference: who moves a card, and where it comes from.
use compositions.Prelude.{
  ◌+◌, ◌<◌, ◌≤◌, ap, ◌>>=◌, ◌==◌, get_or, Bool, ◌≡◌, ◌≢◌, ◌⊎◌, refl, String, true, false, Option,
  none, some, head?, length, nat_eq, string_eq, option_eq, eq_iff, Bool-cases, Option-cases, inl,
  inr, arith, ltb,
}
use compositions.Snapshots.{Card}
use compositions.Snapshots.Game.{Game, DrawSource, from_deck, from_discard}
use compositions.Drafts.{truthy}
use compositions.Transfers.{
  Place, deck, discard, player, CardTransfer, player_hand_count, face_down_card, same_turn,
  draw_source_of,
}

-- Where the server says that the card was drawn from.
abbrev pub reported_source : Game → Option DrawSource
reported_source game = game.turn_activity >>= (λ activity. activity.draw_source)

-- The source is the reported one; where none is, it is the deck exactly if the draw pile has shrunk.
abbrev pub CameFrom : DrawSource → Game → Game → Type 0
CameFrom from_deck previous current =
    (reported_source current ≡ some from_deck)
    ⊎ ((reported_source current ≡ none) × (current.draw_pile_count < previous.draw_pile_count))
CameFrom from_discard previous current =
    (reported_source current ≡ some from_discard)
    ⊎ ((reported_source current ≡ none) × (previous.draw_pile_count ≤ current.draw_pile_count))

-- The player whose turn it is, not the viewer, has drawn in this turn and holds one card more.
abbrev pub HasDrawn : Game → Game → String → String → Type 0
HasDrawn previous current viewer actor =
    (current.turn.player_id ≡ some actor)
    × (actor ≢ "")
    × (actor ≢ viewer)
    × (same_turn previous current ≡ true)
    × (previous.turn.has_drawn ≡ false)
    × (current.turn.has_drawn ≡ true)
    × (player_hand_count current actor ≡ some (get_or 0 (player_hand_count previous actor) + 1))

-- The player whose turn it was, not the viewer, has ended it with a card on a discard pile that grew.
abbrev pub HasDiscarded : Game → Game → String → String → Type 0
HasDiscarded previous current viewer actor =
    (previous.turn.player_id ≡ some actor)
    × (actor ≢ "")
    × (actor ≢ viewer)
    × (same_turn previous current ≡ false)
    × (length previous.discard_pile < length current.discard_pile)

abbrev pub moved : String → Card → Bool → Place → Place → CardTransfer
moved actor card face_down source target = record {
  actor_player_id = actor;
  card = card;
  face_down = face_down;
  source = source;
  target = target;
}

-- A draw from the deck is shown face down and without its card; a draw from the discard pile shows the
-- card that lay on its top; and a discard shows the card that lies there now.
abbrev pub Shows : Game → Game → String → CardTransfer → Type 0
Shows previous current viewer t =
    (HasDrawn previous current viewer t.actor_player_id
      × CameFrom from_deck previous current
      × (t ≡ moved t.actor_player_id face_down_card true deck player))
    ⊎ ((HasDrawn previous current viewer t.actor_player_id
          × CameFrom from_discard previous current
          × (head? previous.discard_pile ≡ some t.card)
          × (t ≡ moved t.actor_player_id t.card false discard player))
        ⊎ (HasDiscarded previous current viewer t.actor_player_id
            × (head? current.discard_pile ≡ some t.card)
            × (t ≡ moved t.actor_player_id t.card false player discard)))

pub some_inj : (a b : CardTransfer) → some a ≡ some b → a ≡ b
some_inj a b e = cc

pub none_some : (t : CardTransfer) → ◌≢◌ {A = Option CardTransfer} none (some t)
none_some t e = cc

pub DrawSource-cases : (source : DrawSource) → (source ≡ from_deck) ⊎ (source ≡ from_discard)
DrawSource-cases from_deck = inl refl
DrawSource-cases from_discard = inr refl

pub truthy-some : (o : Option String) (s : String) → truthy o ≡ some s → (o ≡ some s) × (s ≢ "")
truthy-some none s e = absurd (cc)
truthy-some (some x) s e = elim (Bool-cases (x == "")) [
  | inl empty ↦ absurd (ground (arith, empty, e))
  | inr given ↦
      let same : x ≡ s = ground (arith, given, e) in
      (ap some same, λ is_empty. absurd (ground (arith, given, same, is_empty, eq_iff x "")))
]

pub some-truthy : (o : Option String) (s : String) → o ≡ some s → s ≢ "" → truthy o ≡ some s
some-truthy none s e h = absurd (cc)
some-truthy (some x) s e h = elim (Bool-cases (x == "")) [
  | inl empty ↦ absurd (h (cc ((eq_iff x "").0 empty, e)))
  | inr given ↦ rw given e
]

pub source-CameFrom :
    (previous current : Game) → CameFrom (draw_source_of previous current) previous current
unfolding draw_source_of
source-CameFrom previous current = elim (Option-cases (reported_source current)) [
  | inr (from_deck, reported) ↦ rw reported (inl reported)
  | inr (from_discard, reported) ↦ rw reported (inl reported)
  | inl unreported ↦ elim (Bool-cases (ltb current.draw_pile_count previous.draw_pile_count)) [
    | inl shrunk ↦ rw (unreported, shrunk) (inr (unreported, ground (arith, shrunk)))
    | inr not_shrunk ↦ rw (unreported, not_shrunk) (inr (unreported, ground (arith, not_shrunk)))
  ]
]

pub CameFrom-source :
    (s : DrawSource) (previous current : Game)
    → CameFrom s previous current
    → draw_source_of previous current ≡ s
unfolding draw_source_of
CameFrom-source from_deck previous current (inl reported) = rw reported refl
CameFrom-source from_deck previous current (inr (unreported, shrunk)) =
    rw unreported (ground (arith, shrunk))
CameFrom-source from_discard previous current (inl reported) = rw reported refl
CameFrom-source from_discard previous current (inr (unreported, grown)) =
    rw unreported (ground (arith, grown))
