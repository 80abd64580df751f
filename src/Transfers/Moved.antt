-- ===== src/Transfers/Moved.antt =====
-- What an inferred transfer shows, and of whom.
use compositions.Prelude.{
  ◌+◌, ◌↔◌, sym, ◌∙◌, ap, get_or, ◌≡◌, ◌≢◌, refl, String, true, false, not, some, head?, length,
  nat_eq, string_eq, option_eq, eq_iff, Bool-cases, Option-cases, inl, inr, arith, subst, ◌&&◌,
  ◌!=◌, ltb,
}
use compositions.Snapshots.Game.{Game, DrawSource, from_deck, from_discard}
use compositions.Drafts.{truthy}
use compositions.Transfers.{
  CardTransfer, player_hand_count, same_turn, is_draw, draw_source_of, drawn_transfer,
  discard_transfer, infer_card_transfer,
}
use compositions.Transfers.Shown.{
  CameFrom, HasDrawn, Shows, some_inj, none_some, DrawSource-cases, truthy-some, some-truthy,
  source-CameFrom, CameFrom-source,
}

is_draw-HasDrawn :
    (previous current : Game) (viewer actor : String)
    → truthy current.turn.player_id ≡ some actor
    → is_draw previous current viewer actor ≡ true
    → HasDrawn previous current viewer actor
unfolding is_draw
is_draw-HasDrawn previous current viewer actor present drew =
    let (at, given) = truthy-some current.turn.player_id actor present in
    let count = player_hand_count current actor in
    let one_more = some (get_or 0 (player_hand_count previous actor) + 1) in
    (
      at,
      given,
      λ same. absurd (ground (arith, drew, same, eq_iff actor viewer)),
      ground (arith, drew),
      ground (arith, drew),
      ground (arith, drew),
      (option_eq.equal_iff count one_more).0 (ground (arith, drew)),
    )

HasDrawn-is_draw :
    (previous current : Game) (viewer actor : String)
    → HasDrawn previous current viewer actor
    → is_draw previous current viewer actor ≡ true
unfolding is_draw
HasDrawn-is_draw previous current viewer actor (at, given, other, turn, before, after, count) =
    ground (
      arith,
      other,
      turn,
      before,
      after,
      eq_iff actor viewer,
      (option_eq.equal_iff (player_hand_count current actor)
            (some (get_or 0 (player_hand_count previous actor) + 1))).1
          count,
    )

drawn_transfer-Shows :
    (previous current : Game) (viewer actor : String) (t : CardTransfer)
    → HasDrawn previous current viewer actor
    → drawn_transfer previous current actor ≡ some t
    → Shows previous current viewer t
unfolding drawn_transfer
drawn_transfer-Shows previous current viewer actor t drew e =
    let from = source-CameFrom previous current in
    let Came = λ (s : DrawSource). CameFrom s previous current in
    elim (DrawSource-cases (draw_source_of previous current)) [
      | inl at_deck ↦
          let same = some_inj _ t (rw (at_deck, drawn_transfer) at e) in
          subst (Shows previous current viewer) same (inl (drew, subst Came at_deck from, refl))
      | inr at_discard ↦ elim (Option-cases (head? previous.discard_pile)) [
        | inl empty ↦ absurd (none_some t (rw empty at (rw (at_discard, drawn_transfer) at e)))
        | inr (card, top) ↦
            let same = some_inj _ t (rw top at (rw (at_discard, drawn_transfer) at e)) in
            subst (Shows previous current viewer) same
              (inr (inl (drew, subst Came at_discard from, top, refl)))
      ]
    ]

discard_transfer-Shows :
    (previous current : Game) (viewer : String) (t : CardTransfer)
    → discard_transfer previous current viewer ≡ some t
    → Shows previous current viewer t
unfolding discard_transfer
discard_transfer-Shows previous current viewer t e =
    elim (Option-cases (truthy previous.turn.player_id)) [
      | inl absent ↦ absurd (none_some t (rw (absent, discard_transfer) at e))
      | inr (actor, present) ↦ elim (Option-cases (head? current.discard_pile)) [
        | inl empty ↦ absurd (none_some t (rw empty at (rw (present, discard_transfer) at e)))
        | inr (card, top) ↦
            let e' = rw top at (rw (present, discard_transfer) at e) in
            elim (Bool-cases (
              actor != viewer
              && not (same_turn previous current)
              && ltb (length previous.discard_pile) (length current.discard_pile))) [
                | inr refused ↦ absurd (none_some t (rw refused at e'))
                | inl placed ↦
                    let same = some_inj _ t (rw placed at e') in
                    let (at, given) = truthy-some previous.turn.player_id actor present in
                    let other : actor ≢ viewer =
                      λ same. absurd (ground (arith, placed, same, eq_iff actor viewer)) in
                    subst (Shows previous current viewer) same (
                      inr (
                        inr (
                          (at, given, other, ground (arith, placed), ground (arith, placed)),
                          top,
                          refl,
                        )))
              ]
      ]
    ]

-- What a player who has drawn shows.
infer-drawn :
    (previous current : Game) (viewer actor : String)
    → HasDrawn previous current viewer actor
    → infer_card_transfer previous current viewer ≡ drawn_transfer previous current actor
unfolding infer_card_transfer
infer-drawn previous current viewer actor drew =
    let present = some-truthy current.turn.player_id actor drew.0 drew.1 in
    rw (present, infer_card_transfer)
      (rw (HasDrawn-is_draw previous current viewer actor drew) refl)

infer-discarded :
    (previous current : Game) (viewer : String)
    → same_turn previous current ≡ false
    → infer_card_transfer previous current viewer ≡ discard_transfer previous current viewer
unfolding infer_card_transfer is_draw
infer-discarded previous current viewer ended =
    elim (Option-cases (truthy current.turn.player_id)) [
      | inl absent ↦ rw (absent, infer_card_transfer) refl
      | inr (actor, present) ↦ rw (present, infer_card_transfer) (ground (arith, ended))
    ]

Shows-infer :
    (previous current : Game) (viewer : String) (t : CardTransfer)
    → Shows previous current viewer t
    → infer_card_transfer previous current viewer ≡ some t
unfolding drawn_transfer discard_transfer
Shows-infer previous current viewer t (inl (drew, came, same)) =
    infer-drawn previous current viewer t.actor_player_id drew
    ∙ rw (CameFrom-source from_deck previous current came, drawn_transfer) (ap some (sym same))
Shows-infer previous current viewer t (inr (inl (drew, came, top, same))) =
    infer-drawn previous current viewer t.actor_player_id drew
    ∙ rw (CameFrom-source from_discard previous current came, drawn_transfer)
        (rw top (ap some (sym same)))
Shows-infer previous current viewer t (inr (inr ((at, given, other, ended, grown), top, same))) =
    infer-discarded previous current viewer ended
    ∙ rw (some-truthy previous.turn.player_id t.actor_player_id at given, discard_transfer)
        (rw top (ground (arith, other, ended, grown, eq_iff t.actor_player_id viewer, same)))

-- A transfer is inferred exactly in three cases, and never of the viewer: within a turn, the player
-- whose turn it is had not drawn, has drawn now and holds one card more, and the card came from the
-- deck and is shown face down without its rank and suit, or it came from the discard pile and is the
-- card that lay on top; or across turns, the player whose turn it was left a card on top of a discard
-- pile that has grown. A card comes from where the server says, or else from the deck exactly if the
-- draw pile has shrunk.
pub infer_card_transfer_iff :
    (previous current : Game) (viewer : String) (t : CardTransfer)
    → (infer_card_transfer previous current viewer ≡ some t) ↔ Shows previous current viewer t
unfolding infer_card_transfer
infer_card_transfer_iff previous current viewer t = (
  λ e. elim (Option-cases (truthy current.turn.player_id)) [
    | inl absent ↦
        discard_transfer-Shows previous current viewer t (rw (absent, infer_card_transfer) at e)
    | inr (actor, present) ↦
        let e' = rw (present, infer_card_transfer) at e in
        elim (Bool-cases (is_draw previous current viewer actor)) [
          | inl drew ↦
              drawn_transfer-Shows previous current viewer actor t
                (is_draw-HasDrawn previous current viewer actor present drew) (rw drew at e')
          | inr not_drawn ↦ discard_transfer-Shows previous current viewer t (rw not_drawn at e')
        ]
  ],
  Shows-infer previous current viewer t,
)
