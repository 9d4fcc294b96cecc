-- ===== src/Lib.antt =====
-- SecureOps, the security layer around an autonomous agent: a policy decision point and the
-- enforcement points that ask it, a tamper-evident audit log, self-healing playbooks, monitors, audits
-- and hardening of the agent's configuration, a cloud scanner, and the HTTP API over a store. This
-- development models the deciding and state-keeping code of its Rust crates.
--
-- Parts and files (paths from the root of the repository):
--   Prelude      shared names: Boolean tests and the conditional, lists over the native numbers,
--                texts, `Result`, and `Map`, an association list for `HashMap` with its laws.
--   Core         crates/secureops-core/src: findings (types.rs), `calculate_score`, `compute_summary`
--                and `cross_layer_risk` (scoring.rs), the configuration tree (config.rs), the values
--                that monitors and hardening exchange (runtime.rs, ioc.rs) and util.rs.
--   Policy       crates/secureops-policy/src/lib.rs: requests and decisions (Types), the
--                `DecisionCache` (Cache), the cached path that both engines share (Cached), `RegoPdp`
--                with the default Rego policy (Rego), `CedarPdp` (Cedar) and `AllowlistEngine`.
--   Sandbox      crates/secureops-sandbox/src/lib.rs: `negotiate_capabilities`, which asks a policy
--                engine for each path (Negotiate), and `run_wasm` and `run_skill` (Run).
--   Proxy        crates/secureops-proxy/src/lib.rs: `parse_connect_target` (Parse) and
--                `handle_connection` (Connection), which asks a PDP before it dials.
--   Bpf          crates/secureops-bpf/src/lib.rs and chain.rs: syscall events and
--                `ChainCorrelator`.
--   SelfHeal     crates/secureops-selfheal/src/lib.rs: `CircuitBreaker` (Breaker),
--                `PlaybookEngine::run` (Engine) and `parse_step` (Step).
--   AuditLog     crates/secureops-auditlog/src/lib.rs: `to_hex` and `from_hex` (Hex), the signer
--                (Signer), `AuditLog` with `append`, `verify_chain`, `export_segment` and
--                `anchor_now` (Log), and `open` (Open).
--   Api          crates/secureops-api/src: `RateLimiter::allow` and the choice of key and limit in
--                `enforce` (ratelimit.rs: RateLimit), `verify` and `sign` (license.rs: License), the
--                rows (models.rs: Models), the `Store` contract with `InMemoryStore` (store.rs:
--                Store), authentication, authorization and the web socket's principal (auth.rs,
--                authz.rs, ws.rs: Auth), the handlers over a store (routes.rs: Routes) and those of
--                remediations, which run SelfHeal.Engine (intel.rs: Remediations).
--   Scanner      crates/secureops-scanner/src: the worker from a job to stored findings, over a store
--                of Api (lib.rs), and the AWS rules (aws_rules.rs: Rules).
--   Intel        crates/secureops-intel/src: the matchers and `update_feed` (lib.rs), and
--                `compare_baseline` (baseline.rs).
--   Monitors     crates/secureops-monitors/src: the cost, credential, memory and skill monitors, each a
--                run over what its ticks read.
--   Checks       crates/secureops-checks/src/gateway.rs: `GatewayCheck::run` (Gateway), with the
--                findings it pushes (Findings, Ports).
--   Harden       crates/secureops-harden/src: `harden` (lib.rs: Run) and `rollback` (Rollback) over the
--                files (Files), `GatewayHardening` (gateway_hardening.rs: Gateway and GatewayCheck) and
--                `ConfigHardening` (config_hardening.rs: Config and ConfigCheck). Checks.Gateway reads
--                what Harden.Gateway wrote; rollback reads the backup that `harden` made.
--   LicenseServer  crates/secureops-license-server/src/lib.rs: `heartbeat` and `revoke`, which verify
--                licenses with Api.License.
--   Budget       crates/secureops-tokenbudget/src/lib.rs: `TokenBudget::pack` (Pack) and
--                `map_reduce_chunks` (Chunks).
--   Graph        crates/secureops-graph/src/lib.rs: `SecurityGraph` and `blast_radius`.
--
-- How the code is written here. A method that changes `self` takes the state and returns the new one;
-- a mutex is held for a whole operation, so operations follow each other. Clocks are arguments. A
-- trait object is a record of functions. Names are those of the source; `new` and the like are
-- told apart by their modules. Machine integers keep their wrap-around (`% 2 ^ w` written out) where
-- the code adds; saturating subtraction is subtraction on the natural numbers.
--
-- Parameters, with the laws that a theorem asks of them stated as its hypotheses: regorus,
-- cedar-policy, serde_json, SHA-256 and hmac, ed25519, minisign, jsonwebtoken, wasmtime, reqwest and
-- sockets, regex, Jaro-Winkler similarity, the parsing of timestamps, Redis, the cloud backend, the
-- file system that tokio reaches, random tokens, f32, f64 and the hash of `DefaultHasher`.
--
-- Fuel: decimal digits of a port take at most five steps and those of a shown number, decimal or
-- octal, at most its value and one; `chunks` takes one unit for each element of the list; the search of `blast_radius`
-- takes one more than there are edges, since a node is queued once. All other recursion is structural.
--
-- Not modelled: process start-up, the CLI, the daemon's wiring and the Node bindings, which call the
-- parts above; the audit's checks other than the gateway's, and the credential, docker and network
-- hardening (arguments of `harden` here), which read and write files by regexes, modes and YAML; the
-- SQL store and the AWS collector, which are queries and SDK calls; language-model calls, the
-- cryptographic primitives and the key store, the IPC framing, the compliance reports, reinforcement
-- learning, the DNS sinkhole's socket loop, and the web and deployment files.
pub mod Prelude
pub mod Core
pub mod Policy
pub mod Sandbox
pub mod Proxy
pub mod Bpf
pub mod SelfHeal
pub mod AuditLog
pub mod Api
pub mod Scanner
pub mod Intel
pub mod Monitors
pub mod Checks
pub mod Harden
pub mod Budget
pub mod Graph
pub mod LicenseServer
