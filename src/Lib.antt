-- ===== src/Lib.antt =====
-- proxchunk: a downloader that fetches a file in chunks through many proxies (src/proxchunk.cpp), and
-- a daemon that finds, tests and leases the proxies (src/proxchunkd.cpp, src/proxy_engine.cpp).
-- They talk over a local socket in lines of text (src/proxy_ipc.cpp, include/proxchunk/proxy_ipc.hpp).
--
-- Parts and files:
-- Prelude.antt and below: numbers, lists, texts as lists of bytes, and signed integers, for all parts.
-- Planner of chunks (Plan.antt and below): `plan_chunks` and `plan_chunks_n` of
-- include/proxchunk/plan.hpp and plan_n.h; Plan/Ranges has the first with the ranges of int64_t and int.
-- ProxyList.antt and below: proxy list files and the default output name of include/proxchunk/plan.hpp, with
-- `parse_proxy_body` of src/proxy_engine.cpp. Texts are byte lists.
-- Ipc.antt and below: `ipc_write_line`, `ipc_read_line` and `ipc_split`. What send, recv and poll answer is a list of
-- events; a function returns `none` where the list ends before the loop does.
-- Engine.antt and below: the pool of ProxyEngine (src/proxy_engine.cpp), with `acquire`, `release`,
-- `install_tested`, `verify_target` and the counts. A method holds the mutex for its whole body, so it is
-- one function of the record `Engine`; `verify_target` lets go of it during its transfers, which are an
-- argument. Engine/Scoring is `test_proxies_multi`, where the messages of libcurl come round by round;
-- Engine/Candidates the local proxies and the public lists; Engine/Cache the cache file; Engine/Refresh
-- `refresh`, `try_reuse_cache`, and the thread of `start` with `stop`. Doubles are an interface,
-- `Floats`; that the comparison orders them is a hypothesis where it is used, and what the program
-- relies on of std::shuffle, that it loses and adds nothing, is one of the scoring thread.
-- Daemon.antt and below: `handle_line` with all commands, `drop_conn`, and in Daemon/Loop the poll loop of `run_server`
-- with its connections, the pools that the engine's thread installs meanwhile, a poll that is
-- interrupted or fails, and the stop.
-- Download.antt and below: `download_chunk`, the workers of `run_download` with their queue and counters, and the
-- assembly of the parts. A worker's step runs up to its next access to what is shared; a transfer that
-- succeeds is counted in the step in which its part file is complete, which no other worker reads. A
-- schedule of steps is any interleaving.
-- What a server sends for a Range is an argument. That it is bytes of that Range, or, under a code other
-- than 206 and 200, fewer bytes of any kind, is a hypothesis: the code takes a part that is long enough
-- for whole, whatever the code of the answer was.
-- Download/Probe is the size that `probe_size_direct` finds in a header or in the metadata of archive.org;
-- Download/Run is `run_download` with the probe, the TARGET test and the plan in front of the workers.
-- Cli.antt and below: the command line of proxchunk, `main` of src/proxchunk.cpp, and the options that it
-- hands to a daemon it starts; Daemon/Args is how the daemon reads its own, and Daemon/Control what it
-- does beside serving: the lists it loads, --stop, and the recovery of what a dead daemon left. Daemon/Start
-- is the pid file, `run_server` up to its loop, and `daemonize_and_run`; Client/Calls/Status is --status.
-- Client.antt and below: `ProxyClient` with `rpc`, `reconnect`, `acquire`, `release` and `ping`; Client/Calls has
-- `stats`, `set_target`, `stop`, the destructor and `connect_or_start`, whose rounds before the deadline are a
-- number. The socket is an argument, and in Client/Session it is the daemon's `handle_line` on
-- one whole line at a time, for which the bytes in the connection's buffer play no part: a command that
-- `ipc_write_line` refuses as too long does not reach it, and what one with a newline in it comes to is left
-- open.
-- Ia.antt and below: `url_decode`, `ia_parse_download_url` and (Ia/Size) the size in the metadata, of include/proxchunk/ia_size.hpp.
-- Repl.antt and below: `tokenize_repl_line` of include/proxchunk/repl.hpp; Repl/Commands is its `handle_repl_line`
-- with the loop `run_repl` of src/proxchunk.cpp. std::filesystem is an interface, and what a run of the
-- program does to the disk is an argument.
-- How they interact: the daemon's commands call the engine; the downloader leases its proxies through
-- them, its chunks come from the planners and its settings from the command line, part of which the
-- daemon reads too.
--
-- Fuel: `plan_chunks_from` has as much as the size, since each round adds at least one byte;
-- `split_from` as much as the line is long; `serve_lines` one more than the bytes a connection has or
-- receives, since a line takes at least its newline; `fill_slots` one for each candidate. None of them
-- runs out.
--
-- Not modelled: the transfers of libcurl and the terminal library, which are not in the repository or
-- are copies of others; locks, fork and exec, and the set-up of sockets and signals, whose answers are
-- given; the thread that keeps the client's connection alive; the graphical front end; the progress
-- bars, and the test for a transfer that stalls. The installs of the engine's thread fall between the
-- commands of the daemon.
pub mod Prelude
pub mod Plan
pub mod ProxyList
pub mod Ipc
pub mod Engine
pub mod Daemon
pub mod Download
pub mod Ia
pub mod Repl
pub mod Client
pub mod Cli
