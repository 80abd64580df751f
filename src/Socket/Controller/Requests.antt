-- ===== src/Socket/Controller/Requests.antt =====
-- The promises of the actions: where a request id is, from the call that gives it out to the result.
use compositions.Prelude.{
  ℕ, ◌+◌, ◌≤◌, ◌≡◌, refl, inl, inr, String, Bool, Option, none, some, List, [], ◌∷◌, ◌++◌, map,
  ◌==◌, ◌!=◌, if◌then◌else◌, filter, contains, count, count-append, count_absent, count_present,
  count-filter_ne, nat_eq, string_eq, option_eq, Bool-cases, Option-cases, arith, ap, ◌∙◌,
}
use compositions.Drafts.{truthy}
use compositions.Socket.Controller.{
  PendingAction, Settlement, rejected, Controller, clear_action_timer, reject_each,
  reject_pending_actions, take_first,
}
use compositions.Socket.Controller.Steps.{pending_ids, settled_ids}

abbrev ids : List PendingAction → List String
ids actions = map (λ pending. pending.request_id) actions

-- Where one request id stands: how often it waits, is settled, and has a timer.
pub record Tally : Type 0 where
  pub waiting : ℕ
  pub over : ℕ
  pub timed : ℕ

abbrev pub tally : String → Controller → Tally
tally r c = record {
  waiting = count r (pending_ids c);
  over = count r (settled_ids c);
  timed = count r c.action_timers;
}

-- A request id waits or is over, at most once, and has a timer exactly while it waits.
unfoldable pub IsOrderly : Tally → Type 0
IsOrderly t = (t.waiting + t.over ≤ 1) × (t.timed ≡ t.waiting)

-- A request that waits may be settled; it is not lost, and none is settled again.
unfoldable pub Advances : Tally → Tally → Type 0
Advances t u = (u.waiting + u.over ≡ t.waiting + t.over) × (t.over ≤ u.over)

map-append_id :
    (entries : List (String × Settlement)) (id : String) (s : Settlement)
    → map (λ entry. entry.0) (entries ++ (id, s) ∷ []) ≡ map (λ entry. entry.0) entries ++ id ∷ []
map-append_id [] id s = refl
map-append_id (entry ∷ entries) id s = ap (λ rest. entry.0 ∷ rest) (map-append_id entries id s)

pub count-settle :
    (r : String) (entries : List (String × Settlement)) (id : String) (s : Settlement)
    → count r (map (λ entry. entry.0) (entries ++ (id, s) ∷ []))
      ≡ count r (map (λ entry. entry.0) entries) + (if id == r then 1 else 0)
count-settle r entries id s =
    ap (count r) (map-append_id entries id s)
    ∙ ground (arith, count-append r (map (λ entry. entry.0) entries) (id ∷ []))

count-partition :
    (r id : String) (actions : List PendingAction)
    → count r (ids (filter (λ pending. pending.request_id == id) actions))
        + count r (ids (filter (λ pending. pending.request_id != id) actions))
      ≡ count r (ids actions)
count-partition r id [] = refl
count-partition r id (pending ∷ actions) = ground (arith, count-partition r id actions)

pub count-take_first :
    (r : String) (p : PendingAction → Bool) (actions : List PendingAction)
    (found : PendingAction × List PendingAction)
    → take_first p actions ≡ some found
    → count r (ids actions) ≡ count r (ids found.1) + (if found.0.request_id == r then 1 else 0)
unfolding take_first
count-take_first r p [] found e = absurd (cc)
count-take_first r p (pending ∷ actions) found e = elim (Bool-cases (p pending)) [
  | inl here ↦ ground (arith, here, e)
  | inr not_here ↦ elim (Option-cases (take_first p actions)) [
    | inl none_there ↦ absurd (ground (arith, not_here, none_there, e))
    | inr (later, there) ↦
        ground (arith, not_here, there, e, count-take_first r p actions later there)
  ]
]

-- The tally after the loop over rejected actions.
reject_each-tally :
    (r message : String) (actions : List PendingAction) (c : Controller)
    → (let t = tally r c in
        let u = tally r (reject_each message actions c) in
        (u.waiting ≡ t.waiting)
        × (u.over ≡ t.over + count r (ids actions))
        × (u.timed ≡ (if contains (ids actions) r then 0 else t.timed)))
unfolding reject_each
reject_each-tally r message [] c = (refl, omega arith, refl)
reject_each-tally r message (pending ∷ actions) c =
    let id = pending.request_id in
    let (waiting, over, timed) = reject_each-tally r message actions (record c {
      action_timers = clear_action_timer id c.action_timers;
      settled = c.settled ++ (id, rejected message) ∷ [];
    }) in
    (
      waiting,
      ground (arith, over, count-settle r c.settled id (rejected message)),
      ground (arith, timed, count-filter_ne r id c.action_timers),
    )

-- What a rejection does to the tally: `timed` is the tally's field before it.
pub reject-tally :
    (r message : String) (request_id : Option String) (c : Controller)
    → (let t = tally r c in
        let u = tally r (reject_pending_actions message request_id c) in
        (u.waiting + u.over ≡ t.waiting + t.over)
        × (t.over ≤ u.over)
        × (u.timed ≡ (if u.over == t.over then t.timed else 0)))
unfolding reject_pending_actions
reject-tally r message none c =
    let (waiting, over, timed) =
      reject_each-tally r message c.pending_actions (record c { pending_actions = [] }) in
    (
      ground (arith, waiting, over),
      ground (arith, over),
      ground (arith, over, timed, count_absent r (pending_ids c), count_present r (pending_ids c)),
    )
reject-tally r message (some id) c =
    let gone = filter (λ pending. pending.request_id == id) c.pending_actions in
    let (waiting, over, timed) = reject_each-tally r message gone (record c {
      pending_actions = filter (λ pending. pending.request_id != id) c.pending_actions;
    }) in
    (
      ground (arith, waiting, over, count-partition r id c.pending_actions),
      ground (arith, over),
      ground (arith, over, timed, count_absent r (ids gone), count_present r (ids gone)),
    )

reject_each-pending_actions :
    (message : String) (actions : List PendingAction) (c : Controller)
    → (reject_each message actions c).pending_actions ≡ c.pending_actions
unfolding reject_each
reject_each-pending_actions message [] c = refl
reject_each-pending_actions message (pending ∷ actions) c =
    reject_each-pending_actions message actions _

count-filter_other :
    (id : String) (actions : List PendingAction)
    → count id (ids (filter (λ pending. pending.request_id != id) actions)) ≡ 0
count-filter_other id [] = refl
count-filter_other id (pending ∷ actions) = ground (arith, count-filter_other id actions)

-- A request id that is rejected does not wait any more.
pub reject-gone :
    (message id : String) (c : Controller)
    → count id (pending_ids (reject_pending_actions message (truthy (some id)) c)) ≡ 0
unfolding reject_pending_actions
reject-gone message id c = elim (Option-cases (truthy (some id))) [
  | inl empty ↦ rw empty (
      ap (λ actions. count id (ids actions))
        (reject_each-pending_actions message c.pending_actions _))
  | inr (other, given) ↦
      let same : other ≡ id = ground (arith, given) in
      rw (given, same)
        (ap (λ actions. count id (ids actions)) (reject_each-pending_actions message _ _)
          ∙ count-filter_other id c.pending_actions)
]
