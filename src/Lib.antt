-- ===== src/Lib.antt =====
-- The SDK for plugins: the wire formats between a plugin and its host, the JSON that crosses them,
-- and the package format. Paths are from the repository's root.
--
-- Prelude: Go's values. Bytes are natural numbers, strings are lists of bytes, `int` is an integer
--   that every sum wraps to 64 bits (Prelude/Int), a `(value, error)` pair is a `Result`, and a
--   value with a boolean is an `Option`.
-- Wire: Wire/Frame is pkg/aiiosdk/frame.go (`WriteFrame`, `ReadFrame`) and Wire/Audio is
--   pkg/aiiosdk/audio.go (`WriteAudioFrame`, `ReadAudioFrame`). A reader is the bytes it has yet
--   to give and the error that ends it (Wire/Io); a writer is any state with a write operation.
-- Json: Json/Text, Json/Number and Json/Scanner are the scanner of pkg/aiiosdk/strictjson.go, each
--   of its methods a function from the unread bytes to what it leaves, `none` where the method
--   returns false. Json/Members is `objectMembers`, `memberByKey` and `decodeJSONString` of that
--   file, `arrayElements` of arrays.go and the accessors of object.go. Json/Print is
--   `appendJSONString` of plugin.go. `strconv.ParseFloat` is a parameter, with no assumption on
--   it.
-- Session: Session/Lane is the outbound lane of pkg/aiiosdk/session.go: `tryEnqueue`, `admitOne`,
--   `Control.Answer`, the writer (`writeQueued`, `write`), the claim of a frame and a host call
--   that gives up on it (`HostCallTo`), `setFault`, `end` and what `Flush` tests. An operation
--   that the source runs under a mutex or as one atomic is one function on the state; a step
--   relation lets them follow each other in any order, so that it has every interleaving of the
--   goroutines. Session/Pending is the table of host calls that wait for a reply, and
--   `deliverReply`, with its history in Session/Pending/History; Session/Frames is the frames that answer a control.
-- Plugin: Plugin/Dispatch is `Plugin.respond` of pkg/aiiosdk/plugin.go, with a function for each of
--   its early returns; a handler is any function on the state of the world, and the writer of its
--   value is a parameter, which Plugin/Marshal fills: `marshalValue` of marshal.go. Plugin/Responses
--   is the frames that are answered with. Plugin/Serve is the loop of `serve` in serve.go, on fuel
--   of one for each frame and one for the end. Plugin/Reply is `decodeHostReply` of hostcall.go, and
--   Plugin/SendWindow is sendwindow.go, over any store with the two operations of the host.
-- Pkg: Pkg/Versions is pkg/aiiospkg/semver.go and variant_preference.go; Pkg/Declarations is
--   schedule.go, subscriptions.go and webhooks.go, with the check of their operations that all
--   three share, and the check of an entry of revocation.go; Webhooks/Forms says what the forms of
--   a webhook are. Pkg/Tree is `validateMembers` of tree.go and what it calls; Pkg/Runtimes is
--   `ValidateRuntimes` and `ExceededCeilings` of runtime.go; Pkg/Archive is `tarSplitPath` and
--   `writeBlockPadding` of tar.go. The regular expressions of the source are Boolean functions.
--   Pkg/Canon is canonjson.go: Canon/Numbers is `canonicalNumberOK`, Canon/Escapes
--   `validateUnicodeEscapes`, Canon/Values the values and `emitCanonValue`, and Canon/Parse
--   `parseCanonValue` and `CanonicalizeV1`. The decoder of encoding/json is a parameter there:
--   what `Token` and `More` give in a state. The fuel is twice the length of the input and two,
--   for at most one token to a byte and one round to leave a list. Pkg/Checks is validation.go:
--   Checks/Pointers is `validPointer` and `Pointer`, Checks/Refs the resolver of "$ref" with its
--   three maps, over any reader of members and any decoder of their bytes, and Checks/Package is
--   `ValidatePackageChecks`. Prelude/Fold and Prelude/Each say what the tests of the source are
--   compared with: texts that differ in case only, and what holds of each entry of a list.
--   Prelude/Keyed is `sort.Strings` with what is filed under the keys, which Plugin/Marshal and
--   Pkg/Canon share.
--
-- The scanner's `for` loops are `scan` of Json/Loop, with one more round of fuel than there are
-- unread bytes; every round reads a byte, so more fuel changes nothing. The depth of the source
-- counts up to `maxScanDepth`; here `room` counts down from it, and `value` is by recursion on it.
--
-- Not modelled: the grammar of a package's checks (`resolver.check`) and `decodeStrict`, the numbers and float arrays of object.go and arrays.go (strconv), the mutex and
-- files of `AudioPair`, the text of error messages, the reading and printing of declaration files
-- (encoding/json), the session's reader and timeouts, the clients of single host operations, the
-- packing of runtimes, the archive's headers, compression and signatures, and the command line tool
-- in cmd/aiisdk.
pub mod Json
pub mod Pkg
pub mod Plugin
pub mod Prelude
pub mod Session
pub mod Wire
