-- ===== src/Lib.antt =====
-- GA-Hub: the chat side of the web interface, webui/src.
--
-- A chat page shows one session. Its transcript is made of three sources: the archive, which comes
-- in pages over HTTP, snapshots of the streams that are running, and single frames of a socket that
-- repeats what was missed since a cursor. webui/src/stores/chatStore.ts joins them into one list of
-- bubbles; webui/src/utils/replySegments.ts keeps the cumulative text of each stream of an answer.
--
-- Prelude: the library's names, lists over machine numbers, texts, a stable sort.
-- Reply: replySegments.ts and archiveTurnSegments.ts. Reply/Laws and Reply/Replay are about
-- updateReplySegments.
-- Chat/Message and Chat/Event: ChatMsg and ChatWSOut. An optional field of ChatMsg is a Slot: an
-- absent property and one that is undefined differ under object spread.
-- Chat/Notice, Chat/Logical, Chat/Reducer: upsertRetryNotice, updateLogicalReply, mergeRunReply and
-- applyEvent. The state of the reducer is the list of bubbles with the keys of abortedStreams.
-- Chat/Reducer/Faults has its branches for retries, errors, aborted and rewound.
-- Chat/Order: orderConversationTurns. Chat/History: historyToMessages. Chat/Merge: mergeLive.
-- Chat/Snapshot: mergeSessionSnapshot and the whole of applyEvent. Chat/Snapshot/Streams:
-- applySnapshot.
-- Chat/State: the store's record, the cache of session views, the cursors. Chat/Actions: the
-- actions that change the transcript alone.
-- Chat/Live: the connection, what the closures of start share, and its frame handlers; Chat/Live/Laws
-- is about the connection that takes frames, Chat/Live/Waiting about partial replies that wait. Chat/Session:
-- start, the answers of its history request, teardown and dropSessionView. Chat/Session/Shown: what
-- start shows at once. Chat/Pages: older pages. Chat/Pages/AllHistory: the loop of loadAllHistory, with
-- what others do to the store while it waits as an argument: a function of each round, so that every wait
-- and every page request settles.
-- Draft: webui/src/stores/draftStore.ts, the unsent drafts and the submissions on their way.
-- Dialog: webui/src/stores/dialogStore.ts, the queue of dialogs.
-- Socket: webui/src/runtime/managedJsonSocket.ts, the reconnecting socket below the chat socket.
-- Socket/Laws is about its lifetime, Socket/Recovery about its reconnections.
-- HubEvents: webui/src/runtime/hubEventClient.ts, the control stream's client. HubEvents/Client has
-- the client alone; HubEvents joins it to the model of its socket: a step of the hub is a step of the
-- socket followed by the client's handling of the new calls of onState and onMessage.
-- HubEvents/Duplicates is about events that come twice, HubEvents/Barrier about the replay.
-- Conductor: webui/src/stores/conductorStore.ts, the store that its events and HTTP answers fill.
-- Conductor/Timeline has the merges by id, Conductor/Rows the records and the rows made of events;
-- Conductor/Laws is about snapshots, Conductor/Bounds about the timelines.
-- Transcript: webui/src/utils/transcriptProtocol.ts, scanTranscript. Transcript/Match has its regular
-- expressions, Transcript/Fence fence and balancedCall, Transcript/Find what one round of the loop
-- finds, Transcript the loop, Transcript/Display what is made of the nodes. Transcript/Progress,
-- Transcript/Calls, Transcript/Places, Transcript/Tiling and Transcript/Ranges are about how much of
-- the source is read and what the nodes hold of it, Transcript/Glued and Transcript/Repairs about the
-- offsets of missing line breaks.
-- SessionUi: webui/src/utils/sessionUi.ts, labels, the preview of a group and the texts of errors.
-- VirtualList: webui/src/utils/virtualList.ts, which rows of a long list are rendered.
-- MarkdownCache: webui/src/utils/markdownRenderCache.ts. MarkdownCache/Laws is about its limits,
-- MarkdownCache/Keys about what it keeps.
-- Tests: runs at concrete data.
--
-- A callback that outlives its connection names the start call that made it, and a request names its
-- generation, as the source's captured variables do; microtasks are a queue. The clock is an argument
-- of each handler, read once for all that the handler does.
-- Numbers are natural: time stamps, counters and lengths are never negative, and an optional number
-- stands where the source tests for finiteness. Text lengths count UTF-16 units.
--
-- Fuel: the loop of scanTranscript takes as many rounds as the source has units, that of a call's
-- blocks one more than there are units left, since a round takes at least one unit; the binary search
-- of virtualIndexAtOffset takes as many as there are offsets, since a round shortens its interval.
-- These return `none` where the fuel runs out. loadAllHistory has the 600 rounds that the source sets
-- itself. All other recursion is on lists and texts.
--
-- What belongs to other code is a parameter: DateParser (Date.parse), Backoff (a socket owner's delay
-- function), JSON.parse of a frame, JSON.stringify and the trees of react-markdown. The reply segments take
-- the turn offsets of any scanner, TurnScanner; transcript_turns of Transcript/Display is the one of
-- the program.
-- Not modelled: the draft receipt subscription, development traces, the WebSocket itself, HTTP, the
-- presentation of nodes and of the conductor, rendering and the Python server.
pub mod Prelude
pub mod Reply
pub mod Chat
pub mod Draft
pub mod Dialog
pub mod Socket
pub mod SessionUi
pub mod Transcript
pub mod VirtualList
pub mod HubEvents
pub mod Conductor
pub mod MarkdownCache
pub mod Tests
