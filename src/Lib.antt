-- ===== src/Lib.antt =====
-- The card table of the web client: what a player's hand, drafts and table are while a turn is being
-- put together, before the server sees the play. It models the pure part of
--   frontend/src/components/game/game-card-utils.ts,
--   frontend/src/components/game/game-board-view-state.ts,
--   frontend/src/components/game/game-board-table-state.ts and
--   frontend/src/components/game/card-transfer-state.ts,
-- the controller of the board in frontend/src/components/game/game-board-view.tsx that composes them,
-- and the connection that feeds it, frontend/src/components/game-websocket-provider.tsx.
--
-- How the parts work together. The server's snapshot gives a hand and the table's compositions. The
-- hand becomes entries with keys (buildHandEntries), in the player's order (applyHandEntryOrder).
-- useGameBoardController holds the order and the drafts and handles the drags: they move hand keys
-- between draft compositions (insertHandKeyIntoDraft and the others), each a new composition or
-- staged on one of the table. resolveDraftViews drops what the hand no longer
-- holds, plans which staged cards take the place of jokers, and lends the reclaimed jokers to the
-- hand as virtual entries. The drafts are validated by the rules for sets and runs, and
-- buildTablePlayRequest makes the play out of them. Other players see the drafts by their snapshots,
-- which draftPreviewForComposition plans again; what a player drew or discarded is inferred from two
-- snapshots of the game. The ranking of the players is kept apart, in frontend/src/lib.
--
-- The snapshots come over one socket. useGameWebSocketController connects (connect asks for a session
-- and makes the socket), sends the actions of the player and keeps a promise for each that has a
-- result, reduces each message of the server into the state of the lobby (reduceIncomingMessage), and
-- connects again, after a delay that grows, when the socket is lost.
--
-- The files:
--   Prelude     shared names, Boolean tests, lists, maps as association lists, permutations, text
--   Snapshots   the wire types CardSnapshot, CompositionSnapshot and the requests, and in
--               Snapshots/Game the GameSnapshot, in Snapshots/Room the rooms and the social state
--   Points      game-card-utils.ts: point values, sets, runs, completeness, previews
--   Hand        HandEntry, buildHandEntries, applyHandEntryOrder, moveHandEntry,
--               handIndexAfterSubmittedDrafts
--   Drafts      DraftComposition, removeHandKeyFromDrafts, pruneDraftCompositions,
--               insertHandKeyIntoDraft, the placing of cards, buildDraftCompositionSnapshot
--   Reclaims    jokerReclaimOptions, the inferred and the explicit plans, planTableJokerReclaims
--   Table       cardsAfterTableDraft, validateDraftedCompositions, buildTablePlayRequest,
--               validateOpeningTablePlay, buildTableCompositionViews, resolveDraftViews
--   Preview     game-board-table-state.ts: draftPreviewForComposition
--   Board       useGameBoardController and game-hand-order-store.ts: the state, the hand order and
--               the drafts; in Board/Drags handleDragStart and handleDragOver, in Board/Drops
--               handleDragEnd, handleDragCancel and the submission, in Board/Run lists of events
--   DropIds     the ids of the drop zones and their parsing
--   Transfers   card-transfer-state.ts: inferCardTransfer, inferCompletedCompositionCollection
--   Leaderboard frontend/src/lib/leaderboard-pages.ts: visibleLeaderboard
--   Socket      the state of the lobby, reduceIncomingMessage, and the codes of errors of
--               frontend/src/lib/game-error-messages.ts
--   Socket/Controller  the refs of useGameWebSocketController and the actions that wait for a result;
--               in Socket/Connection connecting, reconnecting, and the handlers of a socket; in
--               Controller/Steps what the application and the browser can make happen, and the states
--               that can be reached; in Controller/Sockets the specification of the sockets alone
--   Sounds      gameSoundsForStateChange of frontend/src/lib/game-sound-events.ts
--   Tests       runs at concrete values, and the theorems at them
-- The children of a file hold its theorems. A function has the name of the source's, in snake case.
--
-- How values correspond. Ranks, suits, indices and the points of cards are natural numbers; those of
-- the source come from the Go server, which sends no others. A player's points, the source index of
-- an entry and the indices of players are integers. An absent field is none. A Map or a record of
-- indices is an association list in the order of its entries, with each key once; a Set is the list
-- of what was added, so the ids and keys of a validation may be listed twice where the source's set
-- has them once. The loop over the windows of a run counts down the windows that are left, so it
-- needs no fuel; every other loop goes down its list. arrayMove of @dnd-kit/sortable is a parameter
-- of moveHandEntry and of insertHandKeyIntoDraft; where a theorem needs it, the hypothesis is that
-- it reorders its list when both indices are in range. Number(text) is a parameter of the parsing of
-- drop ids, the integer that a text stands for; the hypothesis is that it reads back the decimal
-- text of a natural number.
--
-- The controller is a state that each call and each event changes. What JSON.parse makes of a message
-- is a parameter, and so is the message of an error that socket.send throws. The browser's part is in
-- the premises of the steps: a request for a session is answered once, a socket opens once, is closed
-- once and receives only while it is open, a timer that was cleared does not run out, and
-- crypto.randomUUID gives a new text that is not empty. The error texts of the interface are keys. The
-- code of an error is a text or the JSON of another value, as the server may send either.
--
-- The sounds of a change of the lobby's state are those that the source pushes, in their order; what
-- JSON.stringify makes of the activities of a turn is a parameter.
--
-- A render derives the order and the drafts from the state of the board; each event is handled after
-- the render of the one before. The calls of the board, with the sounds, are a list in its state.
--
-- Not modelled: the React components, the collision detection of drags, the guidance of new players,
-- localStorage, the server, and the labels of cards.
pub mod Prelude
pub mod Snapshots
pub mod Points
pub mod Hand
pub mod Drafts
pub mod Reclaims
pub mod Table
pub mod Preview
pub mod DropIds
pub mod Transfers
pub mod Leaderboard
pub mod Board
pub mod Socket
pub mod Sounds
pub mod Tests
