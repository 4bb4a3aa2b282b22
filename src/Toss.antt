-- ===== src/Toss.antt =====
-- core/adapters/toss: the client of the broker. `Json` are the bodies, `Call` the calls that change
-- the client and may raise, `Port` what the client takes from outside, `Auth` the tokens, `Http`
-- the requests, `Orders` and `Account` the operations on them.
pub mod Json
pub mod Call
pub mod Port
pub mod Auth
pub mod Models
pub mod Http
pub mod Parse
pub mod Read
pub mod ReadMarket
pub mod Orders
pub mod Trades
pub mod Account
pub mod Once
pub mod Answers
pub mod Rates
pub mod FillPages
pub mod RateCache
pub mod Wire
pub mod Tests
