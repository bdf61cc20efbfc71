-- ===== src/Lib.antt =====
-- A verification library for netmeter, a meter of LAN, WAN and TOTAL bandwidth for Linux.
--
-- The daemon (src/daemon.rs) reads the kernel's interface counters and two counters of nftables
-- (src/capture.rs) at every tick, turns them into deltas, shares the LAN bytes out among the
-- interfaces and writes samples into a SQLite database (src/db.rs), which it rolls up every hour
-- into hourly, daily and monthly tables and trims by age. It checks the budget after each write,
-- and records the bytes of each program that a capture thread (src/proc_cap.rs) hands it. The
-- reports (src/main.rs), the dashboard (src/live.rs) and the notifier (src/user_agent.rs) read the
-- database. All parts share one configuration (src/config.rs).
--
-- Files, with the code that they model:
--   Prelude       tests, lists, maps, integers, texts, and floating point as a parameter
--   Config        src/config.rs: Config, glob_match, normalize, effective_budget; Config/Load: load
--   Capture       src/capture.rs: parse_proc, read_proc; Capture/Nft: parse_nft_counters, read_nft;
--                 Capture/Ruleset: render_ruleset; Capture/Printed: what the kernel prints
--   Db            src/db.rs: rows, tables, init; Db/Time: floors and windows; Db/Window: sums over
--                 a window, budget_key; Db/Window/Keys: the keys as names of windows; Db/Query:
--                 query_range, query_proc; Db/Rollup: rollup
--   Daemon        src/daemon.rs: Delta (delta), Rate (max_bytes_per_tick), Sample (one tick's
--                 samples), Budget (check_budget), Retention (enforce_retention), Loop (a whole
--                 turn of run), Loop/Run (its turns and the stop), Loop/Restarts (several starts
--                 on one database), Serve (run, from the start to the stop signal), History (the
--                 database over the daemon's life as a step relation)
--   ProcCap       src/proc_cap.rs: Address (parse_local), Owners (tables_for, inode_to_pid,
--                 snapshot), Account (account, drain_one), Recorder (flush, drain_deltas),
--                 Recorder/Receivers (open_all), Recorder/Launch (launch, spawn)
--   Fmt           src/fmtx.rs: fmt_bytes, fmt_date, bar
--   Show          src/main.rs: show, with Show/Status (the rows and sums of status, top, today,
--                 export), Show/Published (what the daemon tells status), Show/Print, Show/Reports
--                 and Show/Overview (the printed lines), Show/Import (import) and Show/Configure
--                 (config)
--   Service       src/main.rs: the service's control as a log of actions; Service/Install:
--                 daemon_install, sudo_user_home, and install_nft of src/capture.rs
--   Cli           src/main.rs: main around the commands, and the text of the manual page
--   Live          src/live.rs: keys, rates, histories, refresh; Live/Texts: the texts of a frame;
--                 Live/Lan: the LAN rate; Live/Session: the turns of a session; Live/Budget: the
--                 gauge beside check_budget
--   TopProc       src/top_proc.rs: keys, window and rows of the viewer
--   UserAgent     src/user_agent.rs: check_once, run
--   Tests         concrete values, and the theorems at them
--
-- How the proofs of the daemon's loop go: Loop/Turn takes each part of a turn to steps of History,
-- which Loop/Refines puts together for a whole run and Loop/Restarts/Kept for several starts, with
-- the samples that the turns measure as a list (Loop/Measured), to which each one is added;
-- Loop/Counted adds up what the turns measure of one interface, from the laws of delta, and
-- Loop/Counts reads it off the tables after the run.
-- Loop/Stored follows the bytes of programs from the frames of the capture thread, by the laws of
-- ProcCap/Recorder/Launch, to the rows that the loop writes.
--
-- State is passed explicitly: a table of the database is a map from its primary key, Db holds the
-- tables, Loop the variables of the daemon's loop, Recorder the capture's counters, Live those of
-- the dashboard. Texts are lists of their codes. Counters are native numbers below 2 ^ 64, with the
-- wrap-around written out where the code relies on it; sums of bytes are integers that do not
-- overflow, since 2 ^ 63 bytes are out of reach. All loops run over a list or a fixed count
-- (drain_one takes at most 4096 frames), but for two: the digits of a number n are taken on fuel,
-- n + 1, which division by ten does not use up, and the daemon's loop runs on fuel up to the stop
-- signal, for which the number of its turns and one more is enough.
--
-- Parameters stand for code outside the repository: Calendar for jiff, Float with FloatLaws and
-- PercentLaws for IEEE 754 arithmetic, Printing for the text of a float, Pnet for pnet, System
-- for the environment and the crates toml and serde, Host for the machine's answers to commands
-- and file operations. Json values stand for what serde_json has parsed or prints. SQL statements
-- are functions on the tables.
--
-- Not modelled: errors of SQLite and of the file system outside the installation, locks (the
-- turns of threads are steps, in any order), the daemon's death within a turn, white space beyond
-- ASCII, the wrap-around of the count of turns without nftables' counters after 2^32 of them, the
-- command notify-send, the drawing with ratatui, the declarations for clap and the commands that
-- clap generates, the desktop extension and the packaging.
pub mod Prelude
pub mod Config
pub mod Db
pub mod Daemon
pub mod UserAgent
pub mod Capture
pub mod Fmt
pub mod TopProc
pub mod Cli
pub mod Service
pub mod Show
pub mod ProcCap
pub mod Live
pub mod Tests
