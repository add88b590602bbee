-- ===== src/Lib.antt =====
-- Promscale's PostgreSQL extension: the aggregates that answer PromQL queries inside the database.
--
-- The program. PostgreSQL calls an aggregate's transition function for each row, with an opaque
-- state that the first call creates, and its final function once at the end. `vector_selector`
-- returns, for each of a series of reference times, the value of the most recent sample in a
-- lookback window; it also runs in parallel, where states are serialized, sent to the leader and
-- combined. `prom_delta`, `prom_rate` and `prom_increase` share one state: samples come in order of
-- time, slide through a window, and each full window is flushed into one extrapolated value.
--
-- The files, by the part of the program that they model.
--   Prelude            shared names; Prelude/Int is the `i64` of Rust as it wraps in a release build,
--                      with the panics of `/` and `%`; Prelude/Outcome is the result of a call, a
--                      value or the `error!` or panic that ends the statement
--   Memory             src/palloc.rs `in_memory_context`, src/aggregate_utils.rs: an action takes the
--                      current memory context and returns it beside its outcome; Internal is the
--                      pointers of palloc.rs
--   TypeBuilder        src/type_builder.rs `do_serialize!` and `do_deserialize!`; RoundTrip is on
--                      the two together
--   Aggregates         src/aggregates/mod.rs, the constants; Float, the processor's operations on f64,
--                      and Float/Ieee those of IEEE 754, with which the tests are run
--   Aggregates/VectorSelector   src/aggregates/vector_selector.rs: the methods of the state. Entry has
--                      the functions that SQL calls, Query the queries within which nothing wraps and
--                      the state that stands for a list of samples, Instant the specification, Place
--                      and Refine the methods against it, Runs, Order, Parallel and Plans whole queries,
--                      Outcome the outcomes of `insert`, and Limits what `combine` makes or
--                      refuses, and a bucket width of zero
--   Aggregates/Gapfill src/aggregates/gapfill_delta.rs: the methods of the state. Entry has the
--                      transitions of src/aggregates/prom_delta.rs, prom_rate.rs and
--                      prom_increase.rs, State the queries and the state after k flushes, Windows,
--                      Flush, Add and New the methods on it, Runs and Results whole queries, Faults
--                      what the transitions refuse, Accepts (with Last) which rows a run
--                      accepts, Rates the rate against the increase
--   Jsonb              src/iterable_jsonb.rs (Tokens, Ends) and src/jsonb_digest.rs (Digest, with
--                      Injective): the tokens of a JSONB value, and the bytes that are hashed; Value
--                      is a JSON value as a tree with the events and the tokens of it, Reads and
--                      Unique on the two, Datum the ownership of the de-TOASTed datum and
--                      Drop the drop of an iterator
--   Regex              src/regex.rs: `re2_match` with its cache of compiled patterns
--   Build              build.rs: the numbering of the migration files and the script made of them;
--                      Outputs the files that `main` writes, and Main when it succeeds
--   PgTap              pgtap-parse/src/lib.rs: `parse_pgtap_result` over any matchers, with Counts;
--                      Patterns is its two regular expressions, Lines and Matches what they and
--                      the splitting find, Reports what pgTAP prints and RoundTrip the parser on it
--   SqlTests           sql-tests/tests/tests.rs: the verdict on the output of a script, and with
--                      Verdicts which runs of pgTAP pass
--   Support            src/support.rs: Nodes and Catalog, the planner's nodes and the catalog that it
--                      asks (with the shims of src/pg_imports.rs), Subquery and TagMap the two
--                      rewrites; the children of TagMap take its stages one by one, Meaning is on the
--                      values of what is made
--   TestCommon         test-common/src: Retry is postgres_container/mod.rs `retry`, Image the versions
--                      and images there and in blueprint.rs, Blueprint the container's blueprint and
--                      its connection string (Calls, any calls of its builders), Local the local_postgres_instance.rs configuration,
--                      Sessions the databases of the local instances as a step relation (Reachable
--                      its invariant), Container the instance in a container and the choice
--   GenDoc             gendoc/src/main.rs: what is printed for what the database answers
-- The modules OwnTests (of the two aggregates, Jsonb, PgTap and Support) are the repository's own
-- tests of the modelled files, run on the definitions; the modules Tests are other runs.
--
-- How state is modelled. A method that mutates `self` returns the new state or the fault it raises;
-- a function that SQL calls takes and returns an optional state, as the `Internal` it is given may
-- be null. The two loops of gapfill_delta.rs are on fuel, one more round than the query has windows;
-- so is the run of the token iterator, one more call than there are events. Running out is a fault
-- of its own. `retry` has one round for each attempt. `vector_selector` needs no fuel. The databases
-- of the test harness are a step relation, of which each step is one call of the harness.
--
-- Bounds. The theorems on whole queries ask for times within 2^61 microseconds of the epoch, and
-- range, step and lookback of at most 2^61 microseconds, so that no sum leaves an i64. The
-- definitions wrap outside of that.
--
-- Not the repository's own code, so parameters: the operations on f64, `bincode`, PostgreSQL's
-- varlena values and `AggCheckCallContext`, SHA-512, the regex engine and the LRU cache; for the
-- build script the file system, sorting and the rendering of templates; for pgTAP the tables
-- of Unicode, and for the SQL tests the comparison of snapshots; for the planner support
-- PostgreSQL's catalog, its nodes and its executor, with the functions and operators of SQL; PostgreSQL's allocator and de-
-- TOASTing; for the harness the operation that is tried again, the sleep, docker, the
-- server and the crate `postgres`. Not modelled: raw pointers other than the datum of a JSONB value, the SQL
-- declarations, the wrappers kept for older versions, the SQL migrations, and what only does I/O
-- (the connections and processes of the test harness, the end-to-end tests).
pub mod Prelude
pub mod Memory
pub mod TypeBuilder
pub mod Aggregates
pub mod Jsonb
pub mod Regex
pub mod SqlTests
pub mod Build
pub mod PgTap
pub mod Support
pub mod TestCommon
pub mod GenDoc
