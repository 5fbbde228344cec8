-- ===== src/Lib.antt =====
-- Filenymous: a model of the parts of the program that hold its own logic, with the theorems that
-- make them correct. Filenymous sends files between browsers without accounts; its Sharewall is a
-- live wall that one tab, the host, keeps in memory and that people and AI agents join over sealed
-- data channels. The host is authoritative: peers send operations, the host validates and applies
-- them to the stores below and relays what changed. The stores do not know each other; they share
-- the labels of members ("host", "peer:N") and ids.
--
-- Files and the code they model (paths from the root of the repository):
--   Prelude, Prelude/*   shared: Boolean tests on the native numbers, lists, texts, values of type
--                        `unknown` (Json), a stable sort; the language's own operations.
--   JsMap, JsMap/Count   a JavaScript Map with string keys, in the order of insertion.
--   Wall/Collab          ui/src/wall/collab.ts: `clean`, and the tests on labels and ids.
--   Wall/Scope           ui/src/wall/collab.ts: `AgentScope`, cleanScope, parseScopeArg, scopeAllows,
--                        visibleTo.
--   Wall/Notes           ui/src/wall/notes.ts: shared notes, `NoteBoard` with create, edit, remove,
--                        pin, lock, lockOf, releaseAll, clear.
--   Wall/Tasks           ui/src/wall/collab.ts: the checklist, `TaskBoard` with create, update,
--                        remove, clear, list.
--   Wall/TaskWire        ui/src/wall/collab.ts: `cleanTask`.
--   Wall/Board           ui/src/wall/collab.ts: the whiteboard, `cleanBoardElement`, `BoardStore`
--                        with merge and clear, `boardBatches`, `mergeScene`.
--   Wall/Threads         ui/src/wall/threads.ts: private threads of two agents, `ThreadBoard` with
--                        open, setState, say, closeAllOf.
--   Wall/ThreadWire      ui/src/wall/threads.ts: `cleanThread` and `parseThreadMessage`.
--   Wall/Model           ui/src/wall/model.ts: `ItemMeta`.
--   Wall/Feed            ui/src/wall/feed.ts: posts, `castVote`, `pollTotals`, `toggleReaction`.
--   Wall/FeedWire        ui/src/wall/feed.ts: `cleanName`, `cleanMessage`, `makePoll`, `cleanMember`,
--                        `cleanLive`.
--   Wall/PostWire        ui/src/wall/feed.ts: `cleanReactions` and `cleanPost`.
--   Wall/ItemWire        ui/src/wall/model.ts: `cleanMeta`.
--   Wall/NotesWire       ui/src/wall/notes.ts: `cleanSharedNote` and `cleanNoteLock`.
--   Wall/SearchWire      ui/src/wall/wallsearch.ts: `parseSearchMessage`.
--   Wall/RtcWire         ui/src/wall/model.ts: `cleanCandidate` and the messages of a live stream.
--   Wall/Messages        ui/src/wall/model.ts: `WallMessage`, and the shape of each kind (Shape).
--   Wall/Requests        ui/src/wall/model.ts: the cases of `parseWallMessage` of a peer's messages.
--   Wall/Updates         ui/src/wall/model.ts: its cases of the host's messages; and `sanitizeWallTitle`
--                        of ui/src/wall/link.ts.
--   Wall/MessageWire     ui/src/wall/model.ts: `parseWallMessage`, the switch over those cases.
--   Wall/Store           ui/src/wall/model.ts: `admitItem` and `WallStore`; and `safeFileName` of
--                        ui/src/p2p/protocol.ts.
--   Wall/Link            ui/src/wall/link.ts: the links of a wall for the host and for its peers.
--   P2p/Stream           ui/src/p2p/stream.ts: `missingRuns` and `StreamReader.request`.
--   P2p/Reader           ui/src/p2p/stream.ts: `StreamReader`, as steps on its cache, its waiting
--                        reads and what it has asked for.
--   P2p/Media            ui/src/p2p/media.ts: `parseRange`, `chunksForRange`.
--   P2p/Expiry           ui/src/p2p/expiry.ts: the choice of an expiry, and what is left of it.
--   P2p/Chunks           ui/src/p2p/protocol.ts: `frameIv`, `sealChunk`, `openChunk`.
--   P2p/Control          ui/src/p2p/protocol.ts: `parseControl`, against what P2p/Stream sends.
--   P2p/Links            ui/src/p2p/protocol.ts: share codes and share links.
--   Optical/Checksum     ui/src/qrferry/protocol.ts: `crc32`.
--   Optical/Frames       ui/src/qrferry/protocol.ts: `encodeDescriptor`, `encodeDataFrame`,
--                        `decodeFrame`.
--   Optical/Source       ui/src/qrferry/protocol.ts: `raptorQEncode` around the library,
--                        `createTransferSource`, `getDroplet`.
--   Optical/Decoder      ui/src/qrferry/protocol.ts: `RaptorQDecoder` around the library.
--   Optical/Bundle       ui/src/qrferry/bundle.ts: `packBundle`, `isBundle`, `unpackBundle`.
-- Below each stand its proofs, named for what they prove, and its tests (Tests).
--
-- State and errors. A store is a record, an operation a function from the store and its arguments
-- to the new store and the result; errors are values of a data type, and an exception that the code
-- could throw is a constructor of its own or none. `Date.now()` and random ids are arguments, so the
-- theorems hold for any clock and any ids. A run is a list of calls from the empty store, in any
-- order, which is what concurrent peers come to at the host. An object that the code writes in place
-- is a new value here; no theorem depends on the aliasing.
--
-- Numbers and texts. Counts, sizes and times are natural numbers; the code's stay far below 2^53. A
-- text is its list of UTF-16 code units, so that `length` and `slice` are the language's.
--
-- Bounds and fuel. Loops are recursion on the list or on the number of rounds left. The one loop on
-- fuel is the choice of a note's id in Wall/Notes, where the fuel is the number of notes plus one;
-- the results say that it is enough. `digits` has one round for each unit of the number, which is
-- more than its digits, and `to_base36` has eleven, which is enough for a safe integer.
--
-- Parameters: `isEmoji` and `toLowerCase`, which read the tables of Unicode, and the rounding of a
-- score to thousandths, which is arithmetic of floating point, are arguments of what uses them. So
-- are the platform's `TextEncoder` and `TextDecoder`, of which a round trip supposes that they give
-- the names in question back, `decodeURIComponent`, of which one supposes that it keeps a text without
-- a percent sign, `btoa`, `atob` and
-- SHA-256, of which nothing is supposed, AES-GCM, of which one supposes that it decrypts what it has encrypted and that a
-- ciphertext is longer by the tag, and the decoder of RaptorQ (`Solver`), of which nothing is supposed.
--
-- Not modelled: the connections, the encryption and the browser (ui/src/wall/host.ts and peer.ts
-- where they speak to them), the camera and the codes of the optical transfer, rooms,
-- wallet, vault and safe, the user interface, the command line, the extension, the servers and the
-- Holochain zomes.
pub mod JsMap
pub mod Optical
pub mod P2p
pub mod Prelude
pub mod Wall
