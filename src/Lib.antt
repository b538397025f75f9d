-- ===== src/Lib.antt =====
-- A library of the game server's transports and matching rules, for the Go code of this repository.
-- Every definition follows one function of the source, under the function's name in snake case.
--
-- Rudp is internal/frpg/rudp, the reliable transport over UDP of the game service. Sequence follows
-- sequence.go and Packet packet.go. Session is the state of the struct Session of session.go;
-- Session.Sending, Session.Incoming and Session.Outgoing are its operations: Feed hands a datagram
-- through decodePacket and handleIncomingPacket to consumeIncoming, and Pump runs handleOutgoing
-- with the retransmission, the heartbeats and the closing. The transport's send function,
-- crypto/rand and the clock are parameters: send takes a count of the datagrams so far, the bytes
-- and the connection-prefix flag, and says whether it fails. Times are nanoseconds, and 0 is the
-- zero time. Session.Bounds, Session.Invariant and Session.Calls hold the invariant, Session.Window
-- and Session.Acks what the sender does with its queues, and Delivery the receiver against the
-- peer's numbered stream.
--
-- Message and Fragments follow the codecs and the reassembler of message.go, and Connection its
-- MessageConn; compress/zlib is a parameter. Transport puts the receiver and the message layer
-- together.
--
-- Tcp is the transport of the login and auth services: Framing is internal/frpg/packet/packet.go,
-- and Messaging internal/frpg/message/message.go, with the ciphers as parameters. A connection is
-- the bytes that will arrive and those written, and what a failing Write leaves on the wire is not
-- modelled.
--
-- Matchmaking is internal/server/game/matchmaking.go: Status holds the protobuf fields that are
-- read, Profile the merging of updates, Merging what two updates do, Pools who may be summoned or
-- invaded, Moving the pools of a player who moves, and Tiers the soul memory bands. protobuf's
-- Unmarshal is a parameter, and the environment variables that override tables are not modelled.
--
-- QuickMatch is internal/server/game/quickmatch.go, the arena registrations: Store is
-- quickMatchStore, whose map is a list of entries that is ranged in any order, and Handlers the
-- request handlers over the state Service, which keeps the registrations, the sessions and what has
-- been pushed. Searching is about what a search returns, Registrations and Requests follow the
-- players' entries through runs of requests, LastWord compares such a run with one entry for each
-- player that the player's own last event sets, Removal who is told when a registration goes, and
-- Aliases the push ids. It takes the sessions that sessionForPlayerLocked looks up
-- (internal/server/game/bloodmessage.go) as a list, and proto.Marshal and Unmarshal as parameters.
--
-- AuthToken is internal/server/authtoken/authtoken.go: Registry is the registry with Add, Lookup
-- and prune as functions of the clock's value, Lifetime its lemmas, Deadlines the specification by
-- one deadline for each token, and Refinement the two side by side. The janitor's goroutine is not
-- modelled.
--
-- Crypto.Cwc is internal/crypto/cwc, the cipher mode of the stream and the datagrams: Hash follows
-- hash.go and Context cwc.go, with the block cipher of crypto/aes as a parameter and the panics of
-- an index or a slice out of range as an error. HashLaws relates a step of the hash to arithmetic
-- modulo 2^127-1, Absorbing the streaming to the bytes one by one, KeyStream and Tag are the lemmas
-- on the counter and on what the tag depends on, and RoundTrip puts them together. Crypto.Frpg is
-- internal/crypto/frpgcipher: Stream follows cwc_tcp.go and Datagram cwc_udp.go, with what
-- rand.Read gives as a parameter; Layout cuts a packet into its parts, Sealing and Tokens are about
-- the two layouts, and Messages uses the stream cipher in the messages of Tcp. Crypto.X931 is
-- internal/crypto/x931: Padding follows x931.go, PaddingLaws is about the padding, Numbers about
-- bytes as numbers and odd powers, and Recovery about the two operations of a key.
--
-- Signs is internal/server/game/sign.go and internal/server/game/mirrorknight.go, two systems over
-- one kind of store: Store is signStore, Service the state that both read and write, Handlers and
-- MirrorKnight the request handlers. Entries, Pushes, Ranges, Steps and Requests follow the ids
-- through runs of requests, Claims the summoners of one sign, Listing and Answers what a listing
-- says, and Removal and Departure who is told that a sign is gone. The sessions are those of
-- QuickMatch, and each is known by its address.
--
-- BreakIn is internal/server/game/breakin.go, the invasions: State holds the sessions, the requests
-- and the configuration's switches, and Handlers follows the request handlers; Targets is about
-- whom a list offers, by the rules of Matchmaking, and Rejections about the mode of a rejection.
--
-- Base holds the names of the library that all parts use, the Boolean tests on native numbers,
-- lists, bits, words of 16 and 32 bits and the result type.
--
-- Loops on fuel: consume_loop has the length of the pending list, since a round takes one packet
-- off; recv_loop has one round more than the payloads of the session, since each round takes one;
-- the send loop of handle_outgoing has the 8 packets that one Pump may send; the fragments are
-- counted before they are cut; absorb_loop and crypt_loop have the length of their input, and a
-- round takes at least one byte. So no fuel runs out before the loop ends.
--
-- Mutexes, goroutines, logging, the OAEP of crypto/rsa, key files, the database and the other
-- request handlers of the game service are not modelled.
pub mod Base
pub mod Rudp
pub mod Tcp
pub mod Matchmaking
pub mod QuickMatch
pub mod AuthToken
pub mod Crypto
pub mod Signs
pub mod BreakIn
