-- ===== src/Toolbroker/Types.antt =====
-- internal/toolbroker/types.go: the words, the requests and the results of tool calls, and what the
-- broker uses of other code.
use nomici_orchestrator.Common.{String, Bool, Option, List}
use nomici_orchestrator.Store.{Error, Exec}
use nomici_orchestrator.Store.Rows.{Session}

abbrev pub status_pending : String
status_pending = "pending"

abbrev pub status_waiting_approval : String
status_waiting_approval = "waiting_approval"

abbrev pub status_running : String
status_running = "running"

abbrev pub status_completed : String
status_completed = "completed"

abbrev pub status_failed : String
status_failed = "failed"

abbrev pub status_denied : String
status_denied = "denied"

abbrev pub risk_low : String
risk_low = "low"

abbrev pub risk_medium : String
risk_medium = "medium"

abbrev pub risk_high : String
risk_high = "high"

abbrev pub risk_critical : String
risk_critical = "critical"

abbrev pub tool_list_files : String
tool_list_files = "list_files"

abbrev pub tool_read_file : String
tool_read_file = "read_file"

abbrev pub tool_write_file : String
tool_write_file = "write_file"

abbrev pub tool_replace_file : String
tool_replace_file = "replace_file"

abbrev pub tool_present_artifact : String
tool_present_artifact = "present_artifact"

abbrev pub tool_bash : String
tool_bash = "bash"

abbrev pub tool_search : String
tool_search = "search"

abbrev pub tool_fetch : String
tool_fetch = "fetch"

-- without the JSON schema of the parameters
pub record Definition : Type 0 where
  pub id : String
  pub description : String
  pub auth : String
  pub network_risk : String
  pub filesystem_risk : String
  pub mutation_risk : String
  pub allowed_scopes : List String
  pub redaction_rules : List String
  pub execution : String

pub record CreateCallRequest : Type 0 where
  pub session_id : String
  pub run_id : String
  pub task_id : String
  pub tool_id : String
  pub status : String
  pub risk : String
  pub input_preview : String
  pub metadata : String

-- The values of the input that are not texts are as fmt.Sprint prints them.
pub record ExecuteRequest : Type 0 where
  pub session_id : String
  pub run_id : String
  pub task_id : String
  pub agent_id : String
  pub tool_id : String
  pub input : List (String × String)

-- a value of the payload of an event
pub data Value : Type 0 where
  text : String → Value
  texts : Option (List String) → Value

-- What a tool returns: its output, the artifacts and the redactions (`none` is nil), and its error.
pub record Output : Type 0 where
  pub output : String
  pub artifact_refs : Option (List String)
  pub redactions : Option (List String)
  pub failure : Option Error

-- What the broker takes from encoding/json, from the regular expressions of
-- internal/sharedcontext/redact.go and from the texts of errors: the JSON of a payload, of a tool's
-- definition and of an input cut to 2000 bytes, a Boolean field of a JSON text, the redacted text, and
-- the text of an error.
pub record Library : Type 0 where
  pub payload : List (String × Value) → String
  pub definition_json : Definition → String
  pub preview : List (String × String) → String
  pub enabled : String → String → Bool
  pub redact : String → String
  pub error_text : Error → String

-- The work of a tool in the workspace, in a shell or on the network, by the tool's identifier; the
-- last text is the identifier of the call.
abbrev pub Tools : Type 0
Tools = String → Session → ExecuteRequest → String → Exec Output
