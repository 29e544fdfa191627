-- ===== src/Lib.antt =====
-- A model of the policy engine and the decision gateway of the repository, and what holds of them.
--
-- The program. An agent's tool call becomes an action. The gateway (mcp-proxy/src/gateway) takes the
-- action through a pipeline: a scan of the payload, which scores and masks it; an optional behavior
-- engine; the policy stage, which runs the declarative policy engine and an optional Wasm extension;
-- the risk stage, which puts the score against a threshold; and where one of them asks for it, an
-- approval, from a grant that an earlier approval left or from an engine that asks an operator. Each
-- step leaves reasons in a trace and events with an audit sink, and what breaks on the way is turned
-- into a decision by a failure matrix. The policy engine (mcp-proxy/src/policy) compiles the documents
-- of three layers of trust (the mandatory baseline, the organization, a local file) into rules, finds
-- the rules that match the action, and picks a winner within each layer and then across the layers.
--
-- Where each part stands, under mcp-proxy/src:
--   Prelude             names of the libraries, Boolean tests, lists, Rust's i32 as integers, texts
--   Json, Host          serde_json's values; the functions of the Rust library, serde_json and the
--                       regex crate that the program calls, as the fields of one record
--   Arguments           action.rs: the params of a call
--   Taxonomy            taxonomy.rs: the vocabulary of actions, and the fields that rules test
--   Action              action.rs: the parts of an action that the pipeline reads
--   Session             behavior/session.rs: the tools of a session; Window is about it
--   ThreatIntel         threat_intel.rs: the matcher of indicators; Normalized and Indicators are
--                       about it
--   Risk                risk.rs: `analyze_params`, over the scan of one text, with Bounds about it; Luhn has
--                       the search for card numbers; Checksum and Cards are about that
--   Scoring             scoring/types.rs, with Names about the names; Basic has scoring/basic.rs; Bands is
--                       about the levels
--   Behavior            behavior/types.rs and behavior/stub.rs; Severity is about it
--   Policy.Schema       policy/schema.rs: the documents, and a result type with the errors
--   Policy.Validate     policy/validate.rs: `validate_config`
--   Policy.Compile      policy/compile.rs: the compiler; Layered has `compile_layered`; Trust and
--                       Layers are about the numbers and the layers of its rules
--   Policy.Compose      policy/compose.rs: the overlay of documents; Tools has its containers; Sets,
--                       Maps, Tighten and Effective are about what an overlay keeps
--   Policy.Context      policy/match_ctx.rs and `CompiledRule::matches`; Matching is about it
--   Policy.Redact       policy/redact.rs and security_baseline/sensitive_keys.rs; Clean and Kept
--                       are about it
--   Policy.Evaluation   policy/evaluation.rs; Winner has the choice of the winner; Precedence, Layers
--                       and Baseline are about it
--   Policy.Authority    the compiler and the evaluation together
--   PolicyStore         policy_store.rs: the policies of the tools; Refresh is about it
--   SecurityBaseline    security_baseline: Document has the baseline document of mod.rs; Path has path.rs,
--                       and Segments, Collapse and Meaning are about it
--   Gateway.Posture     gateway/posture.rs
--   Gateway.Decision    gateway/decision.rs
--   Gateway.Failure     gateway/failure.rs; Modes is about it
--   Gateway.PolicyStage gateway/policy_stage.rs; Closed, Enforced and Unloaded are about it
--   Gateway.RiskStage   gateway/risk_stage.rs; Gate and Asked are about it
--   Gateway.Approval    gateway/approval/grant.rs: Binding, Maps, Grant and Store model it; Live,
--                       Authorize, Spent, Replay and History are about it; Mint has
--                       `mint_grants_for_verdict`, and Outcome the engines, of gateway/approval/mod.rs;
--                       Context has gateway/approval/context.rs
--   Gateway.Pipeline    gateway/mod.rs and gateway/audit.rs: the state, the events and the end of a run;
--                       Env has the arguments; Approve and Run have `run`; Audit, Trail, Cleared,
--                       Verdict, Masking and Failures are about it
--   Witness             concrete inputs
--
-- How the code is rendered. A function has the name of the code's function; a method takes its
-- receiver first or where it reads best. An error is a constructor of a result type. A hash set is a
-- list without repetitions and a hash map a list with one entry for a key, in the order of insertion,
-- which Rust leaves open. Priorities (i32) are integers that are compared only.
-- The counter of rules (`next_order`, u32) is a natural number, threaded through the compiler by the
-- number of rules that a step gave. A panic that the code
-- catches is an argument that says whether there is one. All loops are recursions on lists, so no fuel
-- is needed.
--
-- `run` of gateway/mod.rs is cut at its branches: Gateway.Pipeline.Approve and Gateway.Pipeline.Run have
-- one definition for the rest of `run` from each branch on. The functions of other parts that it calls,
-- the clock and the texts of times are the fields of Gateway.Pipeline.Env; an audit sink and an approval
-- engine are functions. The behavior engine of the pipeline is an argument, as in the code, and the one
-- of the repository is a stub, which Behavior has.
--
-- Not modelled: the rest of the scan of one text (regular expressions and entropy), the builders of
-- actions, the tables that classify an action and name its agent, the collection of the context of a
-- match, signed policies, the masking of details, files and YAML, threads
-- and clocks, the Wasm host, the adapters, telemetry and the command line; what the modelled parts need
-- of them are arguments. The fields of identity, taxonomy, risk and behavior that rules test are an
-- argument of the context. Identifiers, times and latencies are left out of the audit events. Of an
-- approval's history the times and the texts of the details are left out, and an operation of the store
-- reads the clock once.
pub mod Prelude
pub mod Json
pub mod Host
pub mod Arguments
pub mod Taxonomy
pub mod Action
pub mod Session
pub mod ThreatIntel
pub mod Risk
pub mod Scoring
pub mod Behavior
pub mod Gateway
pub mod Policy
pub mod SecurityBaseline
pub mod PolicyStore
pub mod Witness
