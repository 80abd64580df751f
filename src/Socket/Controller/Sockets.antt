-- ===== src/Socket/Controller/Sockets.antt =====
-- The sockets alone: what the controller and the browser know of them, the moves that change it, and
-- the invariant of the moves. The moves are the specification that the controller's steps refine.
use compositions.Prelude.{
  ℕ, zero, suc, ◌+◌, ◌<◌, ◌≡◌, inl, inr, refl, Bool, true, false, Option, none, some, List, [], ◌∷◌,
  ◌++◌, ◌==◌, ◌!=◌, if◌then◌else◌, filter, get_elem?, set, contains, contains-append, length,
  nat_eq, Bool-cases, arith, ◌∙◌,
}
use compositions.Socket.Controller.{ReadyState, opening, live, Socket, Controller}
use compositions.Socket.Connection.{is_usable}

pub record Link : Type 0 where
  pub socket : Option ℕ
  pub attempt : ℕ
  pub awaiting : List ℕ
  pub sockets : List Socket

abbrev pub link : Controller → Link
link c = record {
  socket = c.socket;
  attempt = c.connect_attempt;
  awaiting = c.awaiting;
  sockets = c.sockets;
}

abbrev pub usable_at : Link → ℕ → Bool
usable_at l i = is_usable (get_elem? l.sockets i)

abbrev pub usable_current : Link → Bool
usable_current l = elim l.socket [ none ↦ false | some i ↦ usable_at l i ]

abbrev pub without : ℕ → List ℕ → List ℕ
without attempt = filter (λ a. a != attempt)

-- A new attempt asks for a session, only while there is no usable socket; the answer to the current
-- attempt makes a socket; a socket opens, or is on its way to be closed; the controller lets go of a
-- socket that is not usable; and it gives up the current attempt.
pub data Move (l : Link) : Link → Type 0 where
  request :
      usable_current l ≡ false
      → Move l (record l { attempt = l.attempt + 1; awaiting = l.awaiting ++ (l.attempt + 1) ∷ [] })
  answer : (a : ℕ) → Move l (record l { awaiting = without a l.awaiting })
  create :
      contains l.awaiting l.attempt ≡ true
      → Move l (record l {
        awaiting = without l.attempt l.awaiting;
        socket = some (length l.sockets);
        sockets = l.sockets ++ record { attempt = l.attempt; ready_state = opening } ∷ [];
      })
  open_up :
      (i : ℕ) (s : Socket)
      → get_elem? l.sockets i ≡ some s
      → s.ready_state ≡ opening
      → Move l (record l { sockets = set l.sockets i (record s { ready_state = live }) })
  shut :
      (i : ℕ) (s : Socket) (state : ReadyState)
      → get_elem? l.sockets i ≡ some s
      → is_usable (some (record s { ready_state = state })) ≡ false
      → Move l (record l { sockets = set l.sockets i (record s { ready_state = state }) })
  let_go : usable_current l ≡ false → Move l (record l { socket = none })
  give_up : Move l (record l { attempt = l.attempt + 1 })

infixr 20 ◌after◌
pub data Moves : Link → Link → Type 0 where
  done : {l : Link} → Moves l l
  ◌after◌ : {l m n : Link} → Move l m → Moves m n → Moves l n

-- Each usable socket is the controller's, there is none while the current attempt waits for its
-- session, and no attempt is ahead of the current one.
pub record IsSingle (l : Link) : Type 0 where
  pub only_one : (i : ℕ) → usable_at l i ≡ true → l.socket ≡ some i
  pub none_yet : contains l.awaiting l.attempt ≡ true → (i : ℕ) → usable_at l i ≡ false
  pub behind : (a : ℕ) → l.attempt < a → contains l.awaiting a ≡ false

pub contains-without :
    (a j : ℕ) (awaiting : List ℕ)
    → contains (without a awaiting) j ≡ (if a == j then false else contains awaiting j)
contains-without a j [] = ground arith
contains-without a j (b ∷ awaiting) = ground (arith, contains-without a j awaiting)

pub get_elem?-set :
    (sockets : List Socket) (i j : ℕ) (old new : Socket)
    → get_elem? sockets i ≡ some old
    → get_elem? (set sockets i new) j ≡ (if i == j then some new else get_elem? sockets j)
get_elem?-set [] i j old new e = absurd (cc)
get_elem?-set (s ∷ sockets) zero zero old new e = refl
get_elem?-set (s ∷ sockets) zero (suc j) old new e = ground arith
get_elem?-set (s ∷ sockets) (suc i) zero old new e = ground arith
get_elem?-set (s ∷ sockets) (suc i) (suc j) old new e =
    get_elem?-set sockets i j old new e ∙ ground arith

pub get_elem?-append :
    (sockets : List Socket) (new : Socket) (j : ℕ)
    → get_elem? (sockets ++ new ∷ []) j
      ≡ (if length sockets == j then some new else get_elem? sockets j)
get_elem?-append [] new zero = refl
get_elem?-append [] new (suc j) = ground arith
get_elem?-append (s ∷ sockets) new zero = ground arith
get_elem?-append (s ∷ sockets) new (suc j) = get_elem?-append sockets new j ∙ ground arith

no_usable : (l : Link) → IsSingle l → usable_current l ≡ false → (i : ℕ) → usable_at l i ≡ false
no_usable l v h i = elim (Bool-cases (usable_at l i)) [
  | inr idle ↦ idle
  | inl usable ↦ absurd (ground (arith, v.only_one i usable, h, usable))
]

Move-IsSingle : {l m : Link} → Move l m → IsSingle l → IsSingle m
Move-IsSingle {l} (request h) v = record {
  only_one = v.only_one;
  none_yet = λ _. no_usable l v h;
  behind =
      λ a lt. ground (arith, lt, v.behind a, contains-append l.awaiting ((l.attempt + 1) ∷ []) a);
}
Move-IsSingle {l} (answer b) v = record {
  only_one = v.only_one;
  none_yet = λ h. v.none_yet (ground (arith, h, contains-without b l.attempt l.awaiting));
  behind = λ a lt. ground (arith, lt, v.behind a, contains-without b a l.awaiting);
}
Move-IsSingle {l} (create h) v = record {
  only_one = λ i u. ground (
    arith,
    u,
    v.none_yet h i,
    get_elem?-append l.sockets (record { attempt = l.attempt; ready_state = opening }) i,
  );
  none_yet = λ h' i. absurd (ground (arith, h', contains-without l.attempt l.attempt l.awaiting));
  behind = λ a lt. ground (arith, lt, v.behind a, contains-without l.attempt a l.awaiting);
}
Move-IsSingle {l} (open_up i s e o) v =
    let at = λ (j : ℕ). get_elem?-set l.sockets i j s (record s { ready_state = live }) e in
    record {
      only_one = λ j u. ground (arith, u, at j, e, o, v.only_one i, v.only_one j);
      none_yet = λ h j. absurd (ground (arith, e, o, v.none_yet h i));
      behind = v.behind;
    }
Move-IsSingle {l} (shut i s state e idle) v =
    let at = λ (j : ℕ). get_elem?-set l.sockets i j s (record s { ready_state = state }) e in
    record {
      only_one = λ j u. ground (arith, u, at j, idle, v.only_one j);
      none_yet = λ h j. ground (arith, at j, idle, v.none_yet h j);
      behind = v.behind;
    }
Move-IsSingle {l} (let_go h) v = record {
  only_one = λ i u. absurd (ground (arith, u, no_usable l v h i));
  none_yet = v.none_yet;
  behind = v.behind;
}
Move-IsSingle {l} give_up v = record {
  only_one = v.only_one;
  none_yet = λ h i. absurd (ground (arith, h, v.behind (l.attempt + 1)));
  behind = λ a lt. v.behind a (omega arith);
}

pub Moves-IsSingle : {l m : Link} → Moves l m → IsSingle l → IsSingle m
Moves-IsSingle done v = v
Moves-IsSingle (move after moves) v = Moves-IsSingle moves (Move-IsSingle move v)
