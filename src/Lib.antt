-- ===== src/Lib.antt =====
-- Synchrono City, the web client (apps/web/src): its scheduler of relay queries, its pool of relay
-- connections, and the data model from which its views are derived.
--
-- * Rollup.antt and Rollup/ model pulse-relay-rollup.ts. `Rollup` is the state in the closure of
--   startPulseRelayRollup; `pump`, `on_timeout`, `on_then`, `on_catch`, `on_finally` and `stop` are
--   its functions and callbacks, with the clock's readings as arguments and the queries and callbacks
--   as effects in their result. Run.antt has the interleavings: a world is the state, the promise
--   chains that are pending and the clock, and `Step` lets any handler run that JavaScript may run.
-- * Pool/ models relay-pool.ts. The connection objects, which the map and the listeners share, stand
--   in a heap (`objects`), a socket is its object's position, and the map holds positions. Each
--   method of RelayConnectionPool is a function that also gives the sockets it opens and closes;
--   Events.antt has the socket's listeners, and Steps.antt lets calls and events come in any order.
-- * Data/ models data.ts: types, comparators, lists of notes, threads and tiles, the merge of feeds,
--   the grouping and ranking of the pulse feed, and the export as text. RelayListEntry and GeoNote
--   are also what the scheduler works on; NostrUtils.antt and NostrUtils/ model the public key
--   formats of nostr-utils.ts, by which the pulse feed knows followed authors.
-- * Social.antt and Social/ model social-payload.ts: values from outside, as a tree of JavaScript
--   values, and their normalization into the types of data.ts. Social/Laws.antt, Social/Notes.antt,
--   Social/Objects.antt and Social/Payload.antt write the types as objects in the two spellings of their keys.
-- * Beacon.antt models the members, texts, pictures and tags of a beacon in beacon-projection.ts and
--   beacon-metadata.ts, and RelayUrl.antt models relay-url-diagnostics.ts.
-- * Nostr.antt and Nostr/ model nostr.ts. Tags.antt and Events.antt are the tags and events that
--   come from relays and go to them; reading them may throw, which `none` stands for. Session.antt is
--   what the five queries and publishSignedEvent do alike with a socket and a timer: a session, and
--   `handle` for the events of both. What differs is a `Protocol`; Queries/ and Publishing.antt have
--   one per query, and the checks before the socket opens. Signing.antt is the client's signatures.
--   The notes that come out are those of data.ts, the keys go through nostr-utils.ts, and the scheduler
--   of pulse-relay-rollup.ts is what calls queryRecentKindOneNotes.
-- * AppState/ models the functions at the end of app-state.tsx, which compute the application's state
--   anew: notes and reactions (AppState/Notes.antt), places, the list of relays, participants, and the
--   followed keys that are stored. They work on the types and the default relay of data.ts, and on the
--   notes and beacons that the queries of nostr.ts return.
-- * Keys/ models key-manager.ts: the keyring that the user signs with, its operations, and how the
--   stored keyring is read (Keys/Stored.antt, with the test on encrypted data of crypto.ts). The keys
--   are those of nostr-utils.ts, and what the signatures of nostr.ts are made with.
-- * LiveKit.antt and LiveKit/ model livekit-session.ts: the audio elements of the participants under
--   the events of the room and the user's calls, and the order of the video streams. What is read of
--   livekit-client's room is an argument.
-- * Prelude/ has what these share: strings as lists of UTF-16 code units, integers, maps and sets
--   in insertion order, and the sort of ECMAScript.
--
-- Parameters: `Runtime` is toLowerCase, Date.parse and localeCompare of the engine (Prelude/
-- Runtime.antt), where theorems on sorted lists assume of localeCompare what ECMA-402 asks of it;
-- `is_socket_url` says which URLs the WebSocket constructor takes; `new URL` is an argument of the
-- diagnosis of relay URLs; `Bech32` is the code of @scure/base, of which the theorem on keys assumes
-- what BIP 173 says of keys of 32 bytes; `Platform` and `Signer` (Nostr/Platform.antt) are JSON,
-- toISOString, `new URL`, SHA-256 and Schnorr signatures. Prelude/Sample.antt has a concrete runtime for tests.
--
-- Numbers are exact: times, counts and scores are integers, where the program has doubles, which are
-- exact up to 2^53. An array's sort is the stable ascending permutation that ECMAScript prescribes for
-- a consistent comparator, computed by insertion. Loops are recursion on the list that they read;
-- the loop over pages of the pulse ranking (Data/Pulse.antt) has the number of groups as fuel, and
-- each page takes at least one group; a number's decimal digits (Data/Story.antt) have the number as
-- fuel, which has no more digits.
--
-- Not modelled: the network and what relays answer, the log, callbacks that call back into the
-- scheduler or the pool while they run, deliveries to error handlers, the storage, locking and
-- unlocking of the keyring, the connection to a LiveKit room, and the parts of the client that are
-- React components, encryption or HTTP.
pub mod Prelude
pub mod NostrUtils
pub mod Data
pub mod Social
pub mod Beacon
pub mod RelayUrl
pub mod Nostr
pub mod AppState
pub mod Keys
pub mod LiveKit
pub mod Rollup
pub mod Pool
