-- ===== src/Lib.antt =====
-- The yammer library (src/*.c): peers that share one connection through a plexer.
--
-- Parts and their files. A YMDictionary (src/YMDictionary.c) is a linked list of key and value
-- pointers; Dictionary.antt has one function per YMDictionary function, in snake case without
-- the prefix (YMDictionaryGetItem is `get_item`). A YMArray (src/YMArray.c) keeps its values in
-- a dictionary whose keys are the indices; Array.antt calls the operations of Dictionary.antt
-- the way the code does. A YMPlexer (src/YMPlexer.c) runs many streams over one security
-- provider (src/YMSecurityProvider.c): it names its streams in a dictionary by id, moves what
-- users write to a stream onto the link as frames of a header and a chunk, and moves frames
-- that arrive into the stream that their header names. Plexer/Link is the provider with its
-- pass-through functions, Plexer/Messages the structs that go over the link, Plexer/State the
-- plexer and its streams, Plexer/Streams how streams come and go and the interruption,
-- Plexer/Start the opening exchange, Plexer/Service the two service functions. A YMAddress
-- (src/YMAddress.c, Address.antt) is a sockaddr with its description; service discovery
-- (src/YMmDNS.c, Mdns.antt) builds and parses TXT records and keeps the addresses of a service
-- record, which it makes with YMAddressCreate; Mdns/Browser is the browser that has such
-- records (src/YMmDNSBrowser.c). A YMNumber (src/YMNumber.c, Number.antt) boxes a number. A
-- YMStream (src/YMStream.c, Stream.antt) is what a user reads and writes, and what a whole file
-- goes over; it writes through one YMCompression (src/YMCompression.c, Compression.antt) and
-- reads through another, and these use the full reads and writes of src/YMUtilities.c
-- (Io.antt). Time.antt is the arithmetic of times and Port.antt the choice of a port in
-- src/YMUtilities.c. Dispatch.antt is the queues and timers of src/YMDispatch.c,
-- Dispatch/Sources its sources. Connection.antt is how the ends of a YMConnection
-- (src/YMConnection.c) agree on the compression of a stream, Connection/Exchange how they tell
-- each other their names and addresses, Connection/Sample the sample between them. A
-- YMSession (src/YMSession.c) keeps connections by address and peers (src/YMPeer.c, Peer.antt):
-- Session.antt is its connections and their interruption, Session/Client how it browses and
-- connects, Session/Server how it advertises and accepts, Session/Run the steps that its
-- threads take. Base.antt counts the references to an object and finds the free function of its
-- type (src/YMBase.c). Prelude and its children are shared helpers, Tests and its children
-- concrete runs. A child module that is not named here holds proofs, or the terms in which they
-- state what a part promises.
--
-- How the code is modelled. A function that changes state takes the state and returns the new
-- one; ymabort and a failed ymassert are `abort` of Outcome. Calls on objects outside the part,
-- such as YMRetain, are a list in call order. A pointer is a number below 2^64, NULL is 0;
-- sizes, ids and indices are numbers with their wrap-around written out, and an int64_t is its
-- bit pattern; the fields of a time are integers. YMIsEqual, the values that arc4random_uniform
-- returns, inet_ntop, inet_pton, the conversions of double, the two functions of LZ4, and what
-- socket(), bind() and select() answer, what the system's DNS-SD returns, and whether the free
-- function of a type returns for an object, are parameters. The two ends of a link are lists of
-- bytes: what will still arrive, with how many of them each read finds, what was written, and
-- the room for more. A file is the same, with how many bytes each write is granted as well. A
-- queue of YMDispatch, the list of sources and a session change by steps that any thread may
-- take next. What a session makes of a connection is a list of calls; that a connection
-- connects and initializes is an answer.
--
-- Bounds. Every loop walks a list, or counts down a count that the state has, but for these.
-- The parser of TXT records runs on the record's length as fuel, which is enough since a pair
-- takes a byte at least. A full read or write runs on the number of bytes it has to move, since
-- a round that does not end it moves one. A transfer of a file runs on the bytes of its source,
-- and one round more: each round but the last takes a byte at least. The loops of
-- YMTimespecNormalize run on the seconds that tv_nsec holds. The loops of a sample, of which
-- the one that reads need not end, take their number of rounds, and are `none` when these are
-- used up; half of the bytes and one more are enough.
--
-- What is left out. Locks, and threads outside of src/YMDispatch.c: a function runs to its end
-- before the next begins, so the tests of `active` after a write, which see another thread's
-- interruption, cannot differ from the one before. Names and logging, and the clock. Allocation
-- does not fail. The pipes of a plexer's stream are lists of bytes without a bound, and a
-- service call reads what its pipe holds, up to a chunk. A read or a write past the end of a
-- buffer, and the free of what the code goes on to use, where the code allows them, are
-- `abort`. Closing files, the end of a queue's threads, YMDispatchSync's wait, the signal pipe
-- of the select loop, and what else a connection does before its streams. The observers of the
-- network, the publishing of services, strings and TLS are not modelled.
pub mod Prelude
pub mod Base
pub mod Dictionary
pub mod Array
pub mod Io
pub mod Time
pub mod Port
pub mod Dispatch
pub mod Compression
pub mod Stream
pub mod Connection
pub mod Plexer
pub mod Peer
pub mod Session
pub mod Address
pub mod Mdns
pub mod Number
pub mod Tests
