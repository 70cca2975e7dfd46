-- ===== src/Lib.antt =====
-- design-pocs: small Go programs, each a proof of concept of one design, modelled and verified.
--
-- The programs do not call each other; each directory is one. What they share in this library is in
-- Common: Go maps as association lists with a Boolean equality (Common/Map), files as lists of bytes
-- with ReadAt and WriteAt (Common/Files), 32-bit words (Common/Words), signed integers (Common/Int),
-- sort.Slice (Common/Sort), strings.TrimSpace (Common/Text), lists and tests on numbers (Common/Lists,
-- Common/Tests).
--
-- Bitcask: bitcask/main.go, a log-structured key-value store. Bitcask/Record is the layout of an entry,
--   Bitcask/Checksum its CRC-32, Bitcask/Store the state (the index keyDir, the open handles filePtrs, the
--   count of files and the offset in the active one, the files on the disk) and New, Put, Delete and Get
--   with the result of every system call as an input. Kept, Written and Invariant say what an operation
--   keeps and establishes, Read and Refinement what Get returns, Progress when put succeeds, Runs what a
--   sequence of calls does. Segment is the merge segment with its hint file, and Merge the method Merge,
--   which runs alone here, beside readers only. Grown, Appended and Opened say what the steps on a segment keep,
--   Moved, Scanned, MergeScan and MergeFile what the loop over the entries of a file knows, MergeIndex what
--   the pending updates do to the index, MergePass and Merged what is left behind a file and behind all of
--   them, and Compaction what Get sees of it. The loop runs on the length of the file and one as fuel, which
--   is enough where no header stands for zero bytes, since each round then goes on by one byte at least.
-- ConsistentHashing: consistent_hashing/main.go. ConsistentHashing/Ring is the ring with addNode,
--   deleteNode and getNode over any hash function, ConsistentHashing/Hash is computeHash, and
--   ConsistentHashing/Search is sort.Search on fuel; the number of slots is fuel enough, since the
--   interval at least halves, and the theorem about the search says that it ends.
-- WordDictionary: word-dictionary/main.go. WordDictionary/Entry is the layout of an entry,
--   WordDictionary/Dictionary the map, the offset and the file, with Insert and GetMeaning, and
--   WordDictionary/Import the merge with a change log. Its loops run on the sum of the lengths of both
--   files as fuel; each round goes over at least four bytes, and the theorem about Import says that it
--   ends with a result.
-- IdGen: id-generators/disk-based/main.go (IdGen/Disk) and id-generators/amazon-way/main.go
--   (IdGen/Ranges), in which MySQL's table is a list of rows and each call to it may fail. IdGen/Served is
--   one request, IdGen/Uniqueness runs and restarts, IdGen/Disjoint the ranges.
-- LoadBalancer: load-balancer/. LoadBalancer/Servers is backend_server_properties.go, RoundRobin,
--   LeastConnections, Classic and Smooth are the four algorithms, each a function from its state to an
--   answer and a new state, and Forward is requestHandler and forwardRequest.
-- Fairness: concurrency-examples/fairness/main.go. Fairness/Primes is isPrime on fuel (the number itself
--   is enough, since the loop ends when its counter passes the root), Fairness/Workers the batches and the
--   shared counter, whose atomic additions happen in any order.
-- SeatBooking: relational-db/exclusive-locks/. SeatBooking/Pool is db/db.go, the connection pool in the steps
--   that goroutines interleave. SeatBooking/Bookings is bookSeat of noupdate, update and updateskip, and
--   SeatBooking/Optimistic that of optimisticlock with its 50 attempts, both as machines that take the
--   database's answers, with the goroutines in any order on one table. Locked, Unlocked, Versioned and
--   Attempts say when a seat is given away once or twice, and that bookSeat ends; what MySQL's locks
--   promise is their hypothesis.
-- DynamoTables: relational-db/dynamo-db-implementation/dynamo/. DynamoTables/Statements has the types, and
--   the texts and arguments that go to MySQL, DynamoTables/Text the functions of the package strings that
--   are called, DynamoTables/Items the reading of rows, and DynamoTables/Requests CreateTable, PutItem,
--   GetItem and Query over a database that is a parameter. A map is the list of its pairs in the order in
--   which a loop meets them. Marks, Bound, Recorded and Sends count placeholders, Refusals and Rows say what a
--   failed request leaves behind and what Query returns.
-- TcpServers: tcp_servers/. TcpServers/Echo is handleConnection of multi_threaded.go and single_threaded.go on
--   the bytes of a connection, TcpServers/Epoll the event loop of single_threaded_with_epoll.go over the
--   answers of the system.
--
-- Representation: int and int64 counters that only grow are natural numbers without an upper bound; the
-- entry sizes and time stamps of the store are uint32 and wrap, connection counts are int32 bit patterns,
-- and the length fields of the dictionary wrap. Strings are lists of bytes. A mutex that is held for the
-- whole of an operation makes operations follow one another, so they are functions on the state; the
-- result of a system call is an argument of the operation. The current weights of the smooth algorithm and the
-- square that isPrime compares are unbounded as well, where the source has an int: the one leaves the range
-- of an int for weights near its ends only, the other for numbers near 2 ^ 63. A Commit of the range generator
-- that returns an error is taken to have changed nothing.
--
-- Not modelled: what the programs print, HTTP headers and bodies, the opening of sockets, the goroutines and
-- the end of the multi-threaded TCP server, the tail of the log file that is sent by server-sent events, and
-- the programs whose work is done by a messaging library or which only measure a database.
pub mod Bitcask
pub mod Common
pub mod ConsistentHashing
pub mod DynamoTables
pub mod Fairness
pub mod IdGen
pub mod LoadBalancer
pub mod SeatBooking
pub mod TcpServers
pub mod WordDictionary
