-- ===== src/Lib.antt =====
-- A model of the Nomici orchestrator: the parts of it that decide what an agent may do and
-- that keep what has been done, as functions on an explicit database, and what holds of them.
--
-- The program is a Go server over one SQLite database. A run is a session with its tasks; a
-- tool call or a runtime call of an agent is checked by policy, which lets it pass, refuses it
-- or asks a person for an approval, and it takes a lock on the resource of the run's workspace
-- that it writes.
--
-- Store has the database (one list of rows for each table, Store/Rows), the world that an
-- operation runs in and the operations' monad `Exec`: a world has the database, the number of
-- calls made so far, and an environment that gives, for each such number, the clock, the
-- random bytes of an identifier and whether the SQL statement made then fails. So each theorem
-- holds for every clock, every choice of identifiers and every failure of a statement. A
-- statement that fails leaves the database as it was, and what the statements before it did
-- stays, as there are no transactions in the code. Store/Moves and Store/Leads have the rules
-- by which a relation between databases is carried through an operation, Store/Steps and
-- Store/Inversion what an operation does that goes well.
--
-- Common has the tests on texts, the lists, and the tables with what SELECT, INSERT (with its
-- unique indexes) and UPDATE do to them. Paths has the functions of path/filepath as they are
-- on Unix, and Paths/Parts how the parts of a path come through them; the working directory,
-- the operating system and SHA-256 are fields of `Host`.
--
-- * AgentSpec is internal/agentspec: Types has its structs, Checks the parts of Validate,
--   `validate`, one function for each turn of its loops, and Decimal itoa. WellFormed has what
--   Validate decides, and Printed the proof about itoa.
-- * Graph is internal/graph: Types has the compiled graph, Compile the function Compile,
--   `compile`, and Snapshots the store. The graph is stored as JSON: Json has the documents,
--   with the fields that omitempty omits, and Parts and Encoding what each struct is written
--   as and read from. The text of a document is left out; an object is read by exact tags, a
--   map in the order of its list, and a list that is empty stands for a nil slice or map. What
--   encoding/json makes of a value of type any, and time.Parse, are parameters of the store,
--   `Codec`. Fields, Encoded, Closed and Stored hold the proofs.
-- * Providers is internal/providers: the kinds of types.go, and in Profiles the validation of
--   a profile and the store. Valid has what the validation passes, and Mapping the store as
--   what it promises, a mapping from identifiers to profiles. A cost is the text of its
--   number.
-- * SharedContext is internal/sharedcontext: Types has its structs, Redaction redact.go and
--   render.go, and Items the store. A pattern is a function on texts, since a regular
--   expression is the library's. Saved has what a save adds.
-- * Memory is internal/memory: Proposals has the store, which publishes an approved proposal
--   as an item of the shared context. Published has what an approval does.
-- * Artifacts is internal/artifacts: Records has the store. History has the invariant on the
--   revisions and Preserved that the operations keep it.
-- * Chats and Uploads is internal/chats and internal/uploads: Records has the store of each.
--   Chats/Rescored and Chats/Rated have the feedback on a message.
-- * Orchestration is internal/orchestration: Words has what the words of a prompt say, Route
--   the functions Route, `route`, and DirectReply, and Match the function MatchRoles,
--   `match_roles`. Unique, Reviewed, Available and Partition hold the proofs. A text that is
--   searched is the list of its code points. A confidence and a score are whole numbers of
--   hundredths, and those that a model answers are not negative.
-- * Gateway is internal/gateway/semantic_router.go: Semantic and Intent have what is asked of
--   a model and what becomes of its answer, `route_chat_intent`. The adapter is a function of
--   its request, so time limits are not modelled; Adapters has its types. Silent and Guarded
--   hold the proofs. internal/gateway/run_handler.go: Ledger has what the handler of runs
--   writes to the trace and to the metadata of tasks, Lifecycle how a session is paused, and
--   Completion how it is completed and what a role leaves behind. Every service is there, so
--   that no test for a missing one is modelled. Paused has what the review of a plan does to a
--   session. Session is the loop over the roles, `execute_workspace_session`. What it has done
--   for a role is the interface of Roles, so that its theorems hold whatever the prompts, the
--   models and the tools do to the database. Behind that interface stand Calls, ToolCalls and
--   ToolLoop, the turns of a model and its tools, `execute_task_with_tool_loop`; Prompt, what
--   a role is told; and Preparation, the tools before and after a role and the calls that
--   waited. There the broker, the executor and the decoders of JSON are parameters: the broker
--   answers with a record and an error at once, of which Toolbroker has one or the other. The
--   turns are five after the first, by recursion on what is left. Refused, Leaves, Ended,
--   Avoids and Final hold the proofs. Not modelled: the making of a run's tasks, which is
--   before that loop, and the HTTP handlers, which decode requests and call the stores.
-- * Worklocks is internal/worklocks/store.go: Acquire is `acquire`, Release `release`,
--   ListByRun `list_by_run`; `clash` is the primary key and the partial unique index of the
--   table. Exclusive and Handover hold the proofs.
-- * Policy is internal/policy: Types has its words and records, Classify the classification
--   and the fingerprint, Service the operations (Check is `check`, its search for a grant
--   `find_usable_grant`, Grant `grant`, Deny `deny`, Get `get`, List `list`, ListByRun
--   `list_by_run`). Service/Evolution, Service/Lifecycle, Service/Gate, Service/Decisions and
--   Service/Once hold the proofs.
-- * Executor is internal/runs/executor.go: Validate is `validate`, executableHandoffChain
--   `executable_handoff_chain`, handoffChainAgents `handoff_chain_agents`. Termination, Chain
--   and Valid hold the proofs. The execution of a chain is not modelled.
-- * Runs is internal/runs/store.go: Sessions has the operations on sessions (CreateSession is
--   `create_session`, CompleteSession `complete_session`, UpdateSessionStatus
--   `update_session_status`, ResumeSession `resume_session`, CancelSession `cancel_session`,
--   and the reads), Tasks those on tasks under the same names in lower case. ResumeSession and
--   CancelSession share `change_session`. Consistent, Changes, Settled and Refs hold the
--   proofs.
-- * Trace is internal/trace/store.go: Append is `append`, nextSequence `next_sequence`,
--   ListByRunAfter `list_by_run_after`. Numbered and Listing hold the proofs. ListRuns is not
--   modelled.
-- * Blocked is internal/blocked/store.go: each operation under its name in lower case; Closed
--   holds the proofs.
-- * Sandboxes is internal/sandbox/store.go and types.go: CreateForRun is `create_for_run`,
--   with the detection of a provider and the making of directories as fields of `Machine`;
--   Lasting holds the proofs. ParseIntent is not modelled.
-- * Toolbroker is internal/toolbroker: Registry has the tools (without the schemas of their
--   parameters), Risk ClassifyBashRisk, Records the store of calls, Broker the parts that
--   Execute and ExecuteApprovedRecord share, and Locking withWorkspaceLock with its proof;
--   Execute has the two, `execute` and `execute_approved_record`. The work of a tool is a
--   parameter, `Tools`; JSON, redaction and the texts of errors are fields of `Library`. Agree
--   has what it means that an action runs no tool; Gate and Unconsumed hold the proofs.
--   Workspace has workspacePath, `workspace_path`, and Contained its proof. The bodies of the
--   tools are not modelled.
--
-- Timestamps are the texts that are stored; JSON columns that hold lists are lists, other JSON
-- is text. The text around a wrapped error is left out: an error is one of the kinds of
-- `Error`. The scanning of rows is left out, as a row is kept as the struct that it is scanned
-- into.
--
-- The loop of executableHandoffChain, which follows edges, has fuel: one turn more than the
-- graph has agents, which a theorem shows to be enough. The other loops of the code run over
-- lists.
pub mod Common
pub mod Paths
pub mod Store
pub mod Worklocks
pub mod Policy
pub mod Runs
pub mod Trace
pub mod Toolbroker
pub mod Sandboxes
pub mod Blocked
pub mod Providers
pub mod AgentSpec
pub mod SharedContext
pub mod Artifacts
pub mod Memory
pub mod Orchestration
pub mod Adapters
pub mod Gateway
pub mod Uploads
pub mod Chats
pub mod Graph
pub mod Executor
pub mod Scenarios
