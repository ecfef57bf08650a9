-- ===== src/Lib.antt =====
-- tx3-lift recognizes, in finalized transactions, the transactions that a tx3 protocol (a TII file)
-- describes, and a tracker keeps the recognized ones in a database. This library models its core and
-- proves what makes it correct.
--
-- The parts, and how they interact:
--   * crates/tx3-lift, the chain-neutral core. `specialize` folds the values of a profile into the TIR
--     of a transaction; `extract` reads from it a `Fingerprint`, conditions on a payload; `matches`
--     tests them on a `PayloadSummary`; `ProtocolAnchors` counts how a payload touches the addresses,
--     UTxO references and policies of a protocol.
--   * crates/tx3-lift-cardano. `summarize` projects a decoded transaction to the summary,
--     `match_tx` assigns its inputs, outputs, mints, burns and references to those of the TIR, and
--     `lift` annotates what was assigned with parties, assets and data; two routes try the transactions
--     and profiles of a TII file in turn.
--   * bin/tracker. Before the stream it specializes the transactions of its sources. For each
--     transaction of the chain it gates the sources by their anchors, matches, selects among the
--     candidates with `select_matches`, lifts, and stores rows and cursor in SQLite; after a failure of
--     the stream it waits as `Backoff` says, and resumes from the cursor.
--
-- Files and the code that they model:
--   Prelude            shared types and lemmas; Prelude/Words has the machine words, Prelude/Order the
--                      orders and equality tests that instances stand for
--   Collections/Set, Map, Sort    `BTreeSet`, `BTreeMap` and the stable `sort_by`
--   Lift/Tir           the types of tx3_tir and tx3_sdk that the code takes apart
--   Lift/Library       the functions of other packages, as a record of functions
--   Lift/Expr          crates/tx3-lift/src/expr.rs; Expr/Constants is about it
--   Lift/Payload, Error   crates/tx3-lift/src/payload.rs and error.rs
--   Lift/Fingerprint   crates/tx3-lift/src/fingerprint.rs, `matches` and `information_score`;
--                      Fingerprint/Extract has `extract` and what is below it, Fingerprint/Matches and
--                      Extract/Exact are about them
--   Lift/Specialize    crates/tx3-lift/src/specialize.rs; Specialize/Arguments is about it
--   Lift/Anchors       crates/tx3-lift/src/anchors.rs; Anchors/Hits and Anchors/Parse are about it
--   Lift/Lifted        the data types of crates/tx3-lift/src/lift.rs
--   Lift/Match         crates/tx3-lift/src/match_.rs, and the trait of crates/tx3-lift/src/lift.rs
--   Cardano/Ledger     crates/tx3-lift-cardano/src/payload.rs and error.rs
--   Cardano/Summarize  crates/tx3-lift-cardano/src/summarize.rs; Summarize/Meaning, Sound, Counts
--                      and Refs are about it
--   Cardano/Signs      the sign tests of summarize.rs and matching.rs
--   Cardano/Matching   crates/tx3-lift-cardano/src/matching.rs; Matching/Fits, Claims, Assigned,
--                      Inputs, Spent, Fresh, Free and Necessary are about it
--   Cardano/Datum      crates/tx3-lift-cardano/src/datum.rs; Datum/Constant is about it
--   Cardano/Party      crates/tx3-lift-cardano/src/lifting.rs, parties and signers; Party/Roles is
--                      about it
--   Cardano/Lifting    crates/tx3-lift-cardano/src/lifting.rs, the rest; Lifting/Parts, Digits, Takes,
--                      Mentions, Outputs, Inputs and Mints are about it
--   Cardano/Routing    crates/tx3-lift-cardano/src/lib.rs; Routing/First is about it
--   Tracker/Error      bin/tracker/src/error.rs, and the codes of bin/tracker/src/upstream/retry.rs
--   Tracker/Select     bin/tracker/src/process.rs, `select_matches`; Select/Winners, Order, Ranks and
--                      Selection are about it
--   Tracker/Sql        statements and transactions of SQLite, as the store uses them
--   Tracker/Store      bin/tracker/src/store.rs and bin/tracker/migrations; Store/Rows, Unique,
--                      Cursor and Refines are about it
--   Tracker/Opening    bin/tracker/src/store.rs, `Store::open` and `Store::open_memory`
--   Tracker/Migrations bin/tracker/src/store.rs, `run_migrations`; Migrations/Recorded and
--                      Migrations/Complete are about it
--   Tracker/Predicate  bin/tracker/src/upstream/predicate.rs; Predicate/Compile and Wanted are
--                      about it
--   Tracker/Retry      bin/tracker/src/upstream/retry.rs; Retry/Schedule is about it
--   Tracker/Specialization    bin/tracker/src/specialization.rs; Specialization/Prepared is about it
--   Tracker/Messages, Candidates   bin/tracker/src/process.rs, what the events hold, and the gate and
--                      the match of `run_specializations`
--   Tracker/Process    bin/tracker/src/process.rs, the events; Process/Rows, Covers, Events and
--                      Errors are about it
--   Tracker/Config     bin/tracker/src/config.rs
--   Tracker/Upstream   bin/tracker/src/upstream/mod.rs; Upstream/Key and Upstream/Failures are about it
--   Tracker/Session    bin/tracker/src/main.rs; Session/Invariant, Safety, Resume, Endings, Shutdown,
--                      Refines and Redelivery are about it
--   The modules named Tests, InputTests and SessionTests run the definitions on concrete values.
--
-- Operations keep the names of the code. A loop is a function by recursion on the list that it
-- visits, with the variables that it changes as arguments; a function with a mutable reference returns
-- the new value. The one definition on fuel is `decimal_digits` in
-- Cardano/Lifting: a number `n` gets the fuel `n + 1`, which is enough since
-- `n / 10 < n` where it goes on (Lifting/Digits).
--
-- What the tracker waits for is an argument: a run is a list of rounds, and a round has the answers of
-- the network, the messages of the stream with the time and the SQL faults under which each is handled,
-- and the signal. At the end of a list the loop is still waiting.
--
-- Code that is not in the repository is a parameter: `Library` stands for hex, bech32, the TIR decoder
-- and reducer and the JSON serializer, `Pallas` for the decoders of ledger transactions,
-- `AssetLibrary` for the assets of tx3_tir, `ProcessLibrary` for the decoder of blocks and the JSON of a
-- lift, `Files`, `Environment`, `Disk` and `Transport` for what the file system, the environment and the
-- network answer. The traits `Matcher` and `Lifter` are records of operations. Of SQLite the
-- model takes that a statement fails or does what it says, that a transaction that does not commit
-- leaves nothing, and that a unique key is kept; which statements fail is an argument, `Faults`.
-- A decoder that fails gives `none`.
--
-- Numbers are natural numbers. What the code computes on `u16`, `u32`, `u64` and `i64` keeps its cap or
-- its wrap-around; `usize` counts of values in memory are unbounded. A rank is a `u32`, so the theorems
-- on ranks take at most `u32::MAX` candidates. A byte string and a text are lists of bytes.
--
-- Not modelled: signal handlers, logging and the keepalive settings of the connection in bin/tracker
-- (input and output); the clock, whose time is an argument; the re-exports of the crates (they have no
-- code of their own); the tests.
pub mod Prelude
pub mod Collections
pub mod Lift
pub mod Cardano
pub mod Tracker
