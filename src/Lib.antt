-- ===== src/Lib.antt =====
-- vaultr: the seal broker (crates/broker), the secret scanner and the reconstruction of transcripts of
-- the library (crates/vaultr), and the websocket relay and the job scheduler of the daemon (crates/plant).
--
-- Agents capture their sessions and seal them; the broker is the one process with credentials for the
-- bucket of seals. A request is answered in three stages: crates/broker/src/tenant.rs names the caller
-- as a tenant, or refuses; crates/broker/src/seal.rs decides which keys can be touched; and the
-- handlers of crates/broker/src/main.rs list, sign or store through crates/broker/src/store.rs, which
-- runs the command `aws`, and count what they did in crates/broker/src/metrics.rs. The scanner of
-- crates/vaultr/src/secrets looks through files and lines for credentials before they leave a machine.
--
-- The daemon of crates/plant stands between a harness and its service. For a websocket it relays each
-- message and captures the turns that it sees (proxy/websocket.rs), as adapter.rs says for the harness.
-- A captured request is stored as a delta against the one before; crates/vaultr/src/recon.rs replays the
-- deltas of a capture, from its sealed, detached and live files, into the transcript, and normalize.rs and
-- translate.rs turn that into a session of another harness. The scheduler of
-- jobs.rs runs the jobs of a host when their ledgers say that they are due; a learner takes its sessions
-- by the leases of sweep.rs.
--
-- Which file models what:
--   Prelude, Text    lists, maps, numbers; `str` as code points, with what the code uses of core::str
--   Broker/Result    anyhow::Result, each message of the source a constructor of `Reason`
--   Broker/Seal      seal.rs: KeyPolicy, KeyPolicy::validate
--   Broker/Tenant    tenant.rs: Tenant::from_node_name, Tenant::from_pod_name, is_tailnet_addr
--   Broker/Kube      tenant/kube.rs: Identities::resolve, cached, review, tenant_of, read_token
--   Broker/Resolver  tenant.rs: Resolver::resolve, cached, whois, parse_whois, OidcIdentity::resolve
--   Broker/Store     store.rs: list, size_of, presign, put, aws, parse_listing
--   Broker/Metrics   metrics.rs: contact, record, observe_store, render
--   Broker/Http      main.rs: headers of a request, spool_body, responses
--   Broker/Server    main.rs: Broker, and in Handlers and Routes the functions listing, read_seal,
--                    store_seal, upload, observability_route, route
--   Broker/Config    main.rs: what `main` reads of the environment, and the broker that it builds
--   Broker/Spool     main.rs: clean_stale_spool
--   Secrets/Random   secrets/p_random.rs
--   Secrets/Matcher  secrets/matcher.rs: find, is_random, has_allowlist_pragma
--   Secrets/Policy   secrets/allow.rs and the policy of secrets/mod.rs: load, relative_string,
--                    is_allowed, allow_false_positive
--   Secrets/Scan     secrets/mod.rs: scan_bytes, redact_line, line_col
--   Json             the values of the crate serde_json, with what the code uses of them
--   Recon/Delta      recon.rs: encode_delta, apply_delta, common_prefix, and apply_body of its tests
--   Recon/Output     recon.rs: extract_response_output, anthropic_output, codex_output, parse_sse
--   Recon/Replay     recon.rs: ReconState, Harness::from_label
--   Recon/Records    recon.rs: run_segment, visit_snapshot
--   Transcript       normalize.rs; in Tools and Translate translate.rs: ToolKind, to_anthropic, to_codex
--   Plant/Adapter    adapter.rs: Adapter, identity, usage, is_uuid
--   Plant/Websocket  proxy/websocket.rs: in Headers the headers and address of an upgrade, in Normalize
--                    normalize_request, in Messages the data of a relay, in Relay the loop with
--                    observe_response and finish_turn
--   Plant/Jobs       jobs.rs: job files and ledgers; in Admission DueJobAdmission and a tick of the
--                    scheduler, in Fence reconcile_fence_at and unblock_job
--   Plant/Sweep      sweep.rs: SessionGeneration, and in Batches eligible_candidates, eligible_and_claim
--   Examples         the theorems applied to concrete inputs
-- The modules below these hold the proofs, and are named for what they prove.
--
-- State is passed on: a method with a lock or a map inside takes the record and returns the new one.
-- `Aws` is what lies behind the command `aws`: a state, and a function that runs a list of arguments
-- on it; `Broker.Server.Bucket` says what AWS documents of `put-object` and `list-objects-v2`. `Api`
-- and `Outside` are the API server, tailscaled, serde_json, sha2 and the clock; a clock that is read
-- twice is two arguments. Instants are nanoseconds, u64 sums are taken modulo 2^64. `Broker` is the
-- state between requests, and Server/Interleaving has the steps of listings and uploads that overlap
-- on the lock of the cached listing, each step by the function of the handler that it runs; there a
-- call of `aws` happens at one moment, and `Keeps` says that nothing is deleted from the bucket. `f64` and the regular expressions are parameters of Secrets.
--
-- Values of serde_json keep the order of their keys; its parser and printer are parameters everywhere.
-- A relay's round takes what one side sent and whether the send behind it succeeds, and gives the actions
-- that it has on the outside; the disk of a fence says which of its operations succeed, and how much of a failed write is in the
-- ledger, whose text is kept whole. The visitor of a
-- capture is a step on a state that may fail; the zstd decoder and SHA-256 are functions of bytes.
--
-- The loops of the source are recursions on their lists, `spool_body` on the frames of the body. The
-- fuel of `num_distinct_configurations_aux` is one more than the number of values, since a call lowers
-- `remaining` or raises `position`; that of `strip_spans` is the length of the text, of which each round
-- takes at least a tag away (Transcript/Reminders).
--
-- Not modelled: sockets and the drain loop of `serve`, logging, TLS and `Config::from_env` of
-- tenant/kube.rs, the semaphore on processes of store.rs; the file that append_allow writes; the locks and
-- the inventory of a snapshot of recon.rs; the handshake of websocket.rs; the workers and capacity leases
-- of jobs.rs; the other modules of crates/vaultr and crates/plant.
mod Prelude
pub mod Text
pub mod Broker
pub mod Json
pub mod Recon
pub mod Transcript
pub mod Plant
pub mod Secrets
pub mod Examples
