-- ===== src/Lib.antt =====
-- garden-evm-watcher: a service that follows the events of contracts on EVM chains and writes
-- them into a database.
--
-- The parts and how they interact. cmd/builder reads the configuration of cmd/config and makes one
-- watcher (pkg/watcher) for each chain. A watcher has a polling goroutine and a pool of workers. At
-- each tick the poll asks the node for the logs of the next range of blocks and puts a job for each
-- log with a handler into a channel; a worker takes a job and calls its handler. The handlers
-- (pkg/handlers/htlc, pkg/handlers/orderbook) parse the log and write to the tables (pkg/model)
-- through the store (pkg/store), which they find in the context.
--
-- Files, and the code that each models:
-- - Ethereum: the data types of go-ethereum that the code handles, and a node as a parameter, whose
--   answers may change from one moment to the next.
-- - Watcher/Types, Watcher/Build: pkg/watcher/watcher.go, the types, NewContractConfig
--   (new_contract_config) and NewWatcher (new_watcher, its loop add_contracts and add_topics).
-- - Watcher/Poll: pollEvents (poll_events; block_range is its arithmetic) and
--   processAllContractEvents, whose loop over the logs is dispatch in Watcher/Dispatch; try_send is
--   the select on the channel.
-- - Watcher/Loop: Start and start (start, loop_step, loop) and Stop (stop_begin, stop_end).
-- - Watcher/Worker: worker.
-- - Watcher/System: a started watcher as a whole, its goroutines and one call of Stop as the steps of
--   a relation.
-- - Watcher/Delivery: this with the jobs of the workers and the database, as a second step relation
--   (ServiceStep): a handler runs on any job that a worker has. Watcher/Delivery/Chain says what is
--   assumed of a node: it answers a range of blocks that it has from the logs of one chain.
--   Settles, Catchup and Lossless below it build the steps by which a watcher goes on.
-- - Model/Rows: pkg/model/model.go, the tables; Model/BigInt: Scan, Value, MarshalJSON and
--   UnmarshalJSON, with what math/big does to read and write a number.
-- - Store/Gorm: gorm as a record of the calls that the store makes and the laws they obey;
--   Store/Methods: pkg/store/store.go, one function per method; Store/Memory: a database in memory
--   that obeys the laws.
-- - Handlers/Htlc, Handlers/Orderbook: pkg/handlers/htlc/htlc.go and
--   pkg/handlers/orderbook/orderbook.go; Handlers/Hex and Handlers/Sha256 are encoding/hex and
--   crypto/sha256 as they are used.
-- - Json: what encoding/json does to read a text (lex, and parse_from in Json/Parse).
-- - Config: cmd/config/config.go. Config/Decode is what encoding/json assigns to the fields
--   (decode_config), Config/Load is LoadConfiguration; Config/Print writes a configuration as JSON.
-- - Builder: setupWatchers of cmd/builder/builder.go; Builder/Run: RunWatcher (run_watcher), and the
--   commands cmd/watcher and cmd/local (run_main); Builder/Effects, Builder/Delivered and
--   Builder/Completed: the watchers with the handlers of both packages and a database.
-- - The modules named Tests, and those below them, hold concrete runs.
-- Each of these has child modules for what is proved about it.
--
-- How state is modelled. A call returns an Outcome: a value, an error or a panic. A watcher is a
-- record, and an operation returns the record it leaves. The channel of jobs is the list of jobs in
-- it, with those received and those dropped. An event of the loop or of a worker is what its select
-- finds, and what other goroutines did to the channel between two rounds is an argument of the pass.
-- A panic of a goroutine ends the process: no step follows it. Under a done context a poll fails at
-- its first call of the node. Package variables are records that are passed on. A Go map is the list of its entries, and the
-- order in which Go iterates is the order of that list.
--
-- Bounds. Block numbers are uint64, their differences and sums wrap modulo 2^64, and the conversion
-- to int64 in the filter query is written out: the theorems on the loop ask for block numbers below
-- 2^63. Every loop is over a list of logs, jobs, entries or events, but for two: the text of a number
-- (digits_of in Model/BigInt) has one more step than the number, which is more than its digits, and
-- SHA-256 has as many as its text has blocks. The JSON scanner goes over the bytes and the parser over
-- the tokens, once, with a stack of 10000 at most, as in Go.
--
-- What is not modelled: the text of the log output, but for the dropped events; the bindings of the
-- contracts and evm.UnpackCreateOrder, which are parameters; the wording of JSON errors; the mutex of
-- pollEvents, which only the polling goroutine takes; the generated pkg/bindings/testerc20.go; time, but as the
-- moment of a call to the node.
mod Common
pub mod Ethereum
pub mod Watcher
pub mod Model
pub mod Store
pub mod Handlers
pub mod Json
pub mod Config
pub mod Builder
