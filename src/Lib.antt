-- ===== src/Lib.antt =====
-- ClawCrate runs the commands of coding agents in a sandbox. A run resolves a profile, scrubs the
-- environment, starts the command under the limits and the network filter of the profile, captures
-- what it writes and what it changes in the file system, and appends what happened to an audit log
-- that can be verified later. The parts modelled here, each a module over the shared helpers of
-- Base:
--
-- - Profiles: crates/clawcrate-profiles/src/lib.rs with the types of
--   crates/clawcrate-types/src/lib.rs. Profiles/Merge.antt has the raw profiles and
--   `merge_profiles`, Profiles/Resolve.antt the settings and `to_resolved_profile`,
--   Profiles/Chain.antt `resolve_entry`, Profiles/Stack.antt `detect_stack` and
--   `apply_stack_overrides`. A resolved profile names what the other parts work by: the patterns
--   of the scrubbing and the domains of the proxy.
-- - Env: crates/clawcrate-sandbox/src/env_scrub.rs. Env.antt has `scrub_environment`,
--   Env/Wildcard.antt the loop of `wildcard_matches`.
-- - PathNormalize: crates/clawcrate-sandbox/src/path_normalize.rs, by which a profile's paths are
--   resolved.
-- - Rlimits: crates/clawcrate-sandbox/src/rlimits.rs on Linux, with the kernel's limits as the state.
-- - Linux: crates/clawcrate-sandbox/src/linux.rs and linux_notify.rs. Linux/Syscalls.antt and
--   Linux/Rules.antt have the rules of the seccomp filter, Linux/Filter.antt its retargeting to
--   notifications, Linux/Supervisor.antt the loop that answers them, Linux/Landlock.antt and
--   Linux/Anchors.antt the file system rules, Linux/Limits.antt the limits, Linux/Launch.antt what
--   a child does between fork and exec, and Linux/Enforcement.antt the parent's steps. `prepare_with_env`
--   takes from Env and PathNormalize what a profile says.
-- - Darwin: crates/clawcrate-sandbox/src/darwin.rs and macos_violations.rs. Darwin.antt has
--   `generate_sbpl_profile`, Darwin/Launch.antt the launch under it, Darwin/Violations.antt the
--   denials that are read from the system's log.
-- - Egress: crates/clawcrate-sandbox/src/egress_proxy.rs. Egress/Hosts.antt has the rules for
--   hosts, Egress/Lines.antt `read_limited_line`, Egress/Sni.antt the server name of a TLS hello,
--   Egress/Denials.antt the bounded record and the slots, Egress/Handler.antt
--   `handle_client_connection` as the list of its effects.
-- - Capture: crates/clawcrate-capture/src/lib.rs. Capture/Streams.antt has the two reader threads
--   of `capture_streams` as a step function on a shared state, run over any interleaving of
--   events; Capture/Snapshots.antt `snapshot_paths_with_mode` and `diff_snapshots`.
-- - Audit: crates/clawcrate-audit/src/lib.rs. Audit/Log.antt has the lines of `audit.ndjson` and
--   `append_audit_event`, Audit/Verify.antt `verify_audit_chain_with_pubkey`.
-- - Replica: crates/clawcrate-cli/src/replica.rs. Replica.antt has the rules for what a replica leaves
--   out, `collect_syncable_replica_changes` over the changes of Capture, and
--   `maybe_sync_back_replica` as the list of its effects, the event for Audit among them.
--   Replica/Copy.antt has `materialize_workspace_for_execution`, with a directory as the list of its
--   entries, and Replica/SyncBack.antt `apply_replica_sync_back` as its operations on the file system.
-- - Approval: crates/clawcrate-cli/src/approval.rs. Approval/References.antt has the hosts that an
--   argument names, Approval.antt `detect_out_of_profile_requests` over a profile's network and
--   `enforce_out_of_profile_approval` as the list of its effects.
-- - Run: crates/clawcrate-cli/src/run.rs. Run.antt has the rounds of the watch over a child with the
--   signals that it is sent, Run/Monitor.antt the wait for its output, which comes from Capture,
--   `run_monitored_child_with_signal_poller` of both, and `execution_status`.
--
-- Texts are lists of code points, bytes and machine integers are natural numbers; a saturating or
-- wrapping operation writes its bound out. Paths are lists of components.
--
-- Five recursions have fuel. `scan` of the wildcards is given more rounds than the product of the two
-- lengths can ask for. The two loops over TLS extensions move on by at least three bytes a round and
-- are given the length of their bytes. `resolve_entry` is given any fuel: the number of paths,
-- as they are spelled with their `..`, at which profiles can be loaded bounds the calls, as no path is
-- visited twice; one file can have any number of such paths. `extract_from` is given more than the
-- length of the argument, of which it goes on with a proper part.
--
-- Arguments stand for what is not in the repository or not the program's own: hashing, signing and
-- canonical JSON (`Primitives`), sockets and the decoding of UTF-8 and addresses (`World`), reading
-- and parsing profiles (`Store`), the kernel's answers (`Kernel`), seccompiler (`Seccompiler`), how
-- Seatbelt reads and matches regular expressions (`LiteralReader`), ignore files (`Matcher`), the
-- operations on files (`CopyWorld`, `Answers`), the user (`Session`), directory walks, metadata and
-- file hashes. That Seatbelt undoes a backslash behind `#"`, as `escape_sbpl_regex` takes it to, is a
-- hypothesis where it is used.
--
-- Not modelled: the probes of the two backends (system calls), the rest of the run command, which
-- ties the parts together, the MCP server and the HTTP interface, the SQLite index, and the command
-- line.
mod Base
pub mod Env
pub mod Capture
pub mod Audit
pub mod Egress
pub mod Profiles
pub mod Replica
pub mod Rlimits
pub mod Approval
pub mod PathNormalize
pub mod Linux
pub mod Darwin
pub mod Run
