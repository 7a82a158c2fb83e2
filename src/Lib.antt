-- ===== src/Lib.antt =====
-- croton-mcp: a mail and Drive server for tools. This library models the parts of it that carry its
-- own logic, and proves what they promise.
--
-- Quarantine (bridge/structure_quarantine.go) is the reader that stands between an established IMAP
-- connection and the client library while the structure of one message is fetched. It frames the
-- peer's bytes, admits a closed grammar of control lines, scans FETCH responses within fixed budgets
-- and releases whole responses only.
--   * Quarantine/Lexical and Quarantine/Control: quarantineAtom, quarantineNumber, quarantineText,
--     quarantineFlat, quarantineControl and fetchPrefix.
--   * Quarantine/State: the fields of structureQuarantine and the limits.
--   * Quarantine/Fetch and Quarantine/Feed: the scanner of a FETCH and feedLocked.
--   * Quarantine/Reader: newStructureQuarantine, beginDispatch, abort and Read. One iteration of the
--     loop of Read is `at_once`, where it returns, or `source_turn`, where it waits for the source; the
--     calls that take the lock while it waits are an explicit sequence.
--   * Quarantine/Session: a life of the reader, as a sequence of events.
--   * The other files of Quarantine are proofs.
-- The source of the reader is a parameter: what it answers to a read of some size. Go ints are ℕ,
-- since the budgets keep them far below 2^63; the literal size keeps its wrap-around.
--
-- Triage (bridge/seen.go, bridge/move.go) changes flags and moves messages, one command for each UID.
--   * Triage/Result: TriageResult and mapIMAPError (bridge/imapclient.go). An error is what errors.As
--     and errors.Is show of it.
--   * Triage/Server: the interfaces seenSession and moveSession as a record of operations on a world,
--     with the context as it stands at each answer; `logged` also records the writes.
--   * Triage/Source: the retained session of the adapter (bridge/bridge.go) and openTriageSource.
--   * Triage/Seen, Triage/Destination and Triage/Move: the requests. The gate of the adapter admits one
--     request at a time, so a request is one function of the adapter's state.
--   * Triage/Execute: execute and Close, with the gate held. The other files of Triage are proofs.
-- The server, with the network behind it, is a parameter.
--
-- Bounds (bridge/bounds.go, bridge/types.go) merges a caller's limits with the defaults.
--
-- Wire (bridge/imapclient.go) is what stands around the connection of a mail session: the observer of
-- SEARCH answers, the budget of input bytes of a command, and the guard of a MOVE.
--   * Wire/Grammar, Wire/Lines, Wire/Sets and Wire/ESearch: the line grammar the observer reads by, from
--     classifyIMAPResponse to sequenceSetOverlaps and eSearchAllOverlaps.
--   * Wire/Observer: observeSearchResponseLocked, on fuel: every turn of its loop but the last consumes
--     a byte. The walk of Wire/ESearch has one turn for each byte.
--   * Wire/Budget: readBudgetConn; Read locks before and behind the read of the connection, so it is two
--     operations, `request` and `receive`. Wire/BudgetSteps interleaves them with the commands.
--   * Wire/Guard: dispatchGuardConn. The other files of Wire are proofs, and Wire/Spaces is the part of
--     strings.Fields and strings.TrimSpace that is used.
--
-- Search (bridge/search.go, and what it uses of bridge/imapclient.go) pages through the messages of a
-- mailbox and makes their opaque identifiers.
--   * Search/Page: SearchMailPage, its guards and the operation it executes. The loop runs over the
--     eight windows a page may take.
--   * Search/Ranges, Search/Select and Search/Fetched: boundedSearchUIDs, selectHighestUIDs and
--     validateFetchedMetadataUIDs.
--   * Search/Identifier: encodeMessageID and decodeMessageID. The other files of Search are proofs.
-- The session, JSON, the HMAC and base64 are parameters. UIDs and bounds are ℕ, with the wrap-around
-- of the counters of boundedSearchUIDs written out.
--
-- Threads (bridge/threads.go) builds a thread of the messages that belong together.
--   * Threads/Select: earliestThreadMessages, with Less and Push of latestThreadMessageHeap. container/heap
--     is a parameter: its functions take the slice and the order, and Swap, Len and Pop of the slice are
--     left to it. Threads/Selection says what it promises.
--   * Threads/Keys: stableThreadKey and BuildThread. The loop of stableThreadKey has one turn of fuel
--     more than keys are taken, and no two of its candidates are the same.
--   * Threads/Links: the links, depths and nodes, with parentFor, wouldCycle and resolveThreadDepth.
--     Slices are functions of the index. The walk along parents has two turns more of fuel than there
--     are messages, and that for a depth one more: a chain of parents among n messages has fewer than n
--     links. The other files of Threads are proofs.
--
-- Projection (bridge/attachment_projection.go, with truncateUTF8 of bridge/mime.go) lists the
-- attachments of a message from the structure its server declares: Projection/Entity normalizes one
-- node and Projection/Visit walks over all. Projection/Enumerate has the attachments of a structure
-- without any limits, and Projection/Complete the proofs. mime.ParseMediaType, strings.ToValidUTF8 and strconv.ParseInt are
-- parameters.
--
-- Output (internal/mcpserver/output.go, internal/drivemcp/output.go) encodes what the tools return.
--   * Output/Encode: encodeBounded, over what a result is marshalled to and how it shrinks. The fuel is
--     one turn more than the size of the result, by the measure that shrinking makes smaller.
--   * Output/Mail and Output/Drive: the results of the tools (internal/mcpserver/handlers.go,
--     internal/drivemcp/tools.go) with shrinkForOutput and fallbackForOutput of each. MailResults and
--     DriveResults show that each shrinks. json.Marshal is a parameter.
--
-- Strict (internal/strictjson/object.go) refuses ambiguous JSON: Strict/Decode is validateObject and
-- validateArray over the tokens of the decoder of encoding/json, and Strict/Clean says the same of the
-- tree of a value. The recursion has two turns of fuel for each token and two more. The decoder and
-- strings.EqualFold are parameters.
--
-- Frames (internal/stdioframe/stdioframe.go) is boundedFrameReader, which hands the frames of standard
-- input to the SDK. Its source, ReadSlice of a buffered reader, is a parameter; the checks of a frame are
-- an interface, one of them that of Strict.
--
-- Gate (internal/drivemcp/gate.go) lets data commands of the Drive server run behind one handshake.
-- Gate/Ensure has `ensure` as turns of a request, one for each access to the gate, and a schedule of the
-- turns of any number of requests (internal/drivemcp/tools.go), with what the handshakes and contexts do.
-- Gate/Phases says in which order handshakes and commands may be seen; the other files are proofs.
--
-- Drive/Copy (internal/drivefs/bounded_copy.go) is the copy of a download with a byte limit, over
-- streams that are parameters. Its loop runs on fuel: a hundred turns for each byte of the limit and a
-- hundred more, which are enough, since a hundred empty reads in a row end it.
-- Drive/Confined (internal/drivefs/confined.go) is withConfinedParent and WriteFresh, and
-- Drive/Transaction (internal/drivefs/transaction.go) WriteTransactional, over system calls that are
-- parameters. The calls that matter are recorded with their success. Joined errors are a list, and the
-- deferred calls are functions around what they are deferred behind. The hooks for tests are left out.
-- Drive/Path (internal/drivemcp/path.go) is the form of a remote path.
--
-- Base, Codes and Text hold the shared types: bytes are numbers below 256, a string its bytes, and
-- the codes are those of bridge/errors.go. Base is the helpers and passes on the libraries' names.
--
-- Not modelled: the operations of the IMAP session (bridge/imapclient.go), which wrap a third-party
-- client; the rest of MIME normalization (bridge/mime.go); the header fields of the messages of a thread
-- (bridge/thread_fields.go); folders (bridge/folders.go); the connection, TLS and credentials;
-- validProtocolAliases (internal/stdioframe); the servers and the handlers of their tools; the test kit.
mod Base
pub mod Codes
pub mod Text
pub mod Quarantine
pub mod Triage
pub mod Bounds
pub mod Drive
pub mod Wire
pub mod Search
pub mod Threads
pub mod Strict
pub mod Frames
pub mod Output
pub mod Projection
pub mod Gate
