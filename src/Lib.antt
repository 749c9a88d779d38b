-- ===== src/Lib.antt =====
-- CPP Exchange: a model of the matching engine and of the parts that it stands on, with proofs.
--
-- The program takes requests to add and to cancel limit orders. A sequencer collects requests with
-- their times of receipt and publishes them to a queue (include/communication/fifo_sequencer.h). The
-- exchange takes requests from that queue, routes each to the book of its ticker
-- (include/cppexchange/cppexchange.h), and the book matches, rests or cancels the order
-- (include/cppexchange/orderbook.h), telling clients and market through two more queues
-- (include/communication/lf_queue.h). A book keeps its orders and price levels in pools of blocks
-- (include/utils/object_pool.h); a level keeps its orders in a circular list of pointers
-- (include/cppexchange/order.h).
--
-- Files, in the order of their use:
--   Prelude: names shared by all files, lists of addresses, memories, indices that go round.
--   Outcome: how a run ends; ASSERT and FATAL of include/utils/macros.h.
--   Types, Messages: include/cppexchange/typedefs.h, constants.h and messages.h.
--   LfQueue: push, pop and empty, each as one step; Fifo has what a queue holds, Pointers the pointers
--     that pop returns. Threads has the shared accesses of push and pop as steps of one producer and
--     one consumer; Known, Interleaved and Conserved are about their interleavings.
--   ObjectPool: getObject, releaseObject and updateNextFree; Search has the loop, Blocks the count of
--     available blocks, Laws the two operations.
--   Order, PriceLevel: the struct Order and the class OrdersPriceLevel; Ring says what the pointers
--     stand for, Add, Unlink and Cancel are about its methods.
--   OrderBook: State (members, queues, clock, the way of running), Levels (getPriceLevel,
--     insertPriceLevel, removePriceLevel), Matching (match, checkForMatch), Entry (add, cancel);
--     Match, Fill, Retire and UsedUp are about match, LevelChain, Insert and Remove about the
--     price levels. Loop, Front, Eaten and Sweep are about checkForMatch on the best level, Drain
--     on a level that it uses up; Ladder says what a well-formed side is, Priority what is to be
--     left of its offers, Matched and PriceTime put the parts together. Pools says which blocks
--     are handed out, Frame and Rungs what a change of one level leaves alone, Change that a side
--     stays well formed when one of its levels changes its orders. Sides has the two sides
--     together. Quiet, Allocate, Place, Join and Rest are the steps by which the rest of an order
--     goes into the book, RestAt and RestBest the two places for it, Crown is about the level that
--     is made for it; Offers, MatchedBook, RestOrder and AddOrder are about add as a whole.
--     Withdraw and CancelOrder are about cancel, CancelBest where it empties the best level,
--     RemoveBehind, WithoutLevel, CancelBehind and CancelDrops where it empties another one,
--     Reject where the price has no level, CancelUnknown where no order at it has the ID. Empty is
--     about a new book.
--   FifoSequencer: addRequest and sequenceAndPublish; Publish is about both.
--   Exchange: addTicker, addOrder, cancelOrder, processRequest and run; Routing is about requests and
--     tickers, Running about run, NoBook about a ticker with no book.
--   SocketUtils: include/communication/socket_utils.h; SetUp is about createSocket.
--   TcpSocket: connect, send and sendAndRecv of include/communication/tcp_socket.h; Buffers is about
--     the last two.
--   TcpServer: listen, poll and sendAndRecv of include/communication/tcp_server.h; Sockets is about
--     poll, Rounds about the others; Sent has what ::send is given, Sending the loops over sockets.
--   Tests: runs and the theorems at concrete inputs.
--
-- A pointer is none for nullptr, and else the index of a block in a pool. A memory is a function from
-- addresses to objects; the pools' memories are those of orders and levels. A call that the language
-- leaves undefined, such as the use of nullptr, ends as undefined, and a failed ASSERT as exited.
-- Numbers are natural numbers. Counters wrap at their width; a quantity is only lessened by at most
-- itself. Time stamps are taken to be non-negative.
--
-- Loops run on fuel, and a loop that meets its bound ends as out_of_fuel. updateNextFree has as many
-- rounds as there are blocks, the walks along levels and along a ring one more than there are blocks
-- in the pool, and checkForMatch one more than the quantity, since a round fills at least one unit.
--
-- Parameters: the readings of the system clock, in State.World and Exchange.Exchange, and
-- std::sort, in FifoSequencer.sequence_and_publish, of which it is assumed that it permutes and
-- puts in order by the comparison that it is given, if that is a strict weak order. For sockets
-- the operating system: SocketUtils.System has what it answers to a call after others, and what
-- getifaddrs and getaddrinfo find, of which SetUp.Willing assumes that the system grants what is
-- asked for a socket; further what recvmsg reads, the events of kevent, the sockets that accept
-- yields and whether they can be set up, and the callbacks, which may act on all sockets but not
-- on the server's lists. A socket's bytes are numbers.
--
-- Not modelled: the start and the end of threads, the flag that ends the exchange's loop, memory orders
-- weaker than that of one order for all threads, include/cppexchange/dotenv.h (a copy of another
-- project's library), the texts of error messages, the programs under standalone and the tests.
pub mod Prelude
pub mod Outcome
pub mod Types
pub mod LfQueue
pub mod ObjectPool
pub mod SocketUtils
pub mod TcpSocket
pub mod TcpServer
pub mod Order
pub mod PriceLevel
pub mod Messages
pub mod OrderBook
pub mod FifoSequencer
pub mod Exchange
pub mod Tests
