-- ===== src/OrderBook.antt =====
-- The class `OrderBook` of include/cppexchange/orderbook.h, over the memory of its two pools and
-- the queues that it writes to.
pub mod State
pub mod LevelChain
pub mod Pools
pub mod Quiet
pub mod Insert
pub mod Levels
pub mod Fill
pub mod Retire
pub mod UsedUp
pub mod Match
pub mod Matching
pub mod Loop
pub mod Front
pub mod Eaten
pub mod Sweep
pub mod Remove
pub mod Drain
pub mod Ladder
pub mod Frame
pub mod Rungs
pub mod Allocate
pub mod Join
pub mod Offers
pub mod Sides
pub mod Crown
pub mod RestBest
pub mod MatchedBook
pub mod RestOrder
pub mod AddOrder
pub mod Withdraw
pub mod CancelOrder
pub mod CancelBest
pub mod Empty
pub mod RemoveBehind
pub mod WithoutLevel
pub mod CancelBehind
pub mod CancelDrops
pub mod Rest
pub mod RestAt
pub mod Change
pub mod Place
pub mod Priority
pub mod Matched
pub mod PriceTime
pub mod Entry
pub mod Reject
pub mod CancelUnknown
