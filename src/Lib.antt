-- ===== src/Lib.antt =====
-- nailgun sends DNS queries at a rate and reports on the answers. This library models the logic of
-- the program, which stands in bin/src, and proves what makes each part correct.
--
-- The parts and how they interact. `main` (bin/src/main.rs) prepares the arguments (bin/src/args.rs)
-- and makes a configuration of them (bin/src/config.rs). It starts as many generators as the
-- configuration says. A generator (bin/src/gen.rs) has three tasks: the sender (bin/src/sender.rs)
-- takes ids from the store in batches, asks a generator of queries (bin/src/query.rs) for a message
-- for each and writes it; the loop of `run` reads the answers (bin/src/msg.rs), gives their ids back
-- to the store (bin/src/store.rs) and counts them; the cleanup takes the queries that have timed
-- out off the store. Every second the loop sends a report to the runner of the statistics
-- (bin/src/stats.rs), which adds up the reports of all generators and keeps totals.
--
-- The files:
--   Store: bin/src/store.rs. `Store`, `AtomicStore` and `QueryInfo` are records with the fields of
--     the source; `fresh` is `Store::new`; `clear_timeouts` returns the store and the counters.
--   Msg: bin/src/msg.rs. `decode` is `TcpDnsCodec::decode`, with the buffer as state.
--   Util: bin/src/util.rs. `next` is `MovingAvg::next` over any `Number`, `usize_number` is usize.
--   Config: bin/src/config.rs. `qps_of` is `Config::qps`, the other names are those of the source.
--   Sender: bin/src/sender.rs. `take_batch` is the block of `run` that locks the store, `send_one`
--     the body of the `for` loop, `send_batch` that loop; `outputs` is `MsgSend::send`.
--   Stats: bin/src/stats.rs, with Tracker, Interval, Totals and Runner for `StatsTracker`,
--     `StatsInterval`, `StatsTotals` and `StatsRunner`; `gather` is one turn of the runner's loop.
--     Bag has the reports as a bag, without their order. Printed has the text of `log` and
--     `summary`; `run_and_print` is all of `StatsRunner::run`.
--   Query: bin/src/query.rs. `random_pkt_next`, `static_next`, `file_next` and `random_qname_next`
--     are the `next_msg` of the four generators.
--   Args: bin/src/args.rs and the first part of `main` in bin/src/main.rs (`prepare`).
--   Shutdown: bin/src/shutdown.rs. `recv` is `none` where the source waits.
--   Logs: bin/src/logs.rs. `setup` gives the layers of the log.
--   Gen: bin/src/gen.rs. `turn` is one turn of one of the three tasks, and `turns` any
--     interleaving of them; Gen/Acts has the same in smaller steps, in which a send stops at its
--     write and a report between its loads and its stores. Gen/Wait has `wait_in_flight`, and
--     Gen/Finish (`finish`) the branch of the shutdown signal. Gen/Totals has the order in which
--     the reports of several generators arrive. Gen/Life has the whole life of a generator: `live`
--     is a turn or one of the ends of its loop, with what its detached tasks still do and what a
--     panic leaves. Gen/Build has the three `BuildGen` and `sender_task`, and what a file of
--     queries comes to on the wire. Sender/Doh has `DohSender::new` and `run`. Gen/Pace has the
--     sender with the waits for its limiter: `paced` is a run of a generator with the times of its
--     sends.
--   Main: bin/src/main.rs. A `Program` is the generators, the channel of their reports, the runner of
--     the statistics and the signal; `Step` is one step of any of them, and `Reach` any run.
--     Main/Printed has the end of the statistics (`end_stats`), when the summary is printed;
--     Main/Exit the way from any state to the exit. Main/Select has what begins the shutdown: the
--     branches of `select!` in `main`, and the wait of `Runner::run` for its generators.
--   Prelude: names of the library passed on, `Result` for errors and panics, machine integers and
--     durations, association lists, and the lemmas on these that the parts share.
--   Tests: the definitions at concrete inputs.
--
-- Bounds and fuel. Numbers are natural numbers; those of the source are 64, 32 or 16 bits wide and
-- wrap at that width as in a release build (`add64`, `% u32_mod`, `% u16_mod`); usize has 64 bits. A
-- Duration is a number of nanoseconds, and a sum of two that does not fit panics
-- (`duration_limit`). A batch has 1000 ids, and there are 65535 ids. The loop over a stream of
-- answers (`drain`) runs on fuel: one more than the number of messages is enough. The loop of
-- `wait_in_flight` runs over a list of rounds of its timer of 10 ms: so many that they last longer
-- than the timeout and one period are enough. All other recursion is structural.
--
-- Parameters. Code of other crates is a parameter: the shuffle and the random bytes of `rand` (the
-- first with the hypothesis that it permutes), names, types and encoding of `trust-dns` (of which
-- one theorem assumes that labels of 1 to 63 letters and digits are names, and longer ones are
-- not), the codec of `tokio-util`, the resolver, the limiter of `governor` (with the hypothesis
-- `Keeps`, that in a window of whole seconds it is ready no more often than its burst and quota
-- allow), f32 (of which one theorem assumes that its 0 is zero), the texts of numbers and codes,
-- and standard output (with the hypothesis that a call of `writeln!` adds its line or fails and
-- adds none). Times that are read and the outcomes of other writes are arguments of the
-- definitions that read them.
--
-- Simplified: in Gen, Gen/Life, Gen/Pace and Main the tasks take whole turns. Nothing interrupts a
-- send, from its insert in flight over the wait for its write to its count, or a report, from the
-- loads of the shared counters to the stores of 0, or a cleanup. Gen/Acts lifts this for the send
-- and the report of one generator, and Stats/Race has a report whose counters change meanwhile.
-- The abort of the sender at the shutdown takes effect at once and between two sends (an abort in
-- the wait for a write leaves its query in flight and not counted, as a write that fails does),
-- the timeout is positive, a send to a full channel only takes time, and the program is built with
-- the feature doh.
--
-- Not modelled: the settings of TLS, which are constants of other crates, the tokio runtime, and the
-- events that are logged, but for the fields of `StatsInterval::log`.
pub mod Prelude
pub mod Store
pub mod Msg
pub mod Util
pub mod Config
pub mod Sender
pub mod Stats
pub mod Shutdown
pub mod Query
pub mod Args
pub mod Logs
pub mod Gen
pub mod Main
mod Tests
