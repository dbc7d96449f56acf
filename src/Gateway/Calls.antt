-- ===== src/Gateway/Calls.antt =====
-- internal/gateway/run_handler.go: the tool calls that a model asks for, and what is said of them. The
-- bounds are maxModelToolRounds and maxModelToolCallsPerRound.
use nomici_orchestrator.Common.{
  ℕ, String, ◌==◌, Option, none, some, List, [], ◌∷◌, ◌++◌, if◌then◌else◌, is_empty, trim_space,
  lower, starts_with, without_start, text_after, text_before, up_to_last, ◌^+◌,
}
use nomici_orchestrator.Store.{Error, World, Exec}
use nomici_orchestrator.Store.Rows.{CallRecord}
use nomici_orchestrator.Adapters.{Message}
use nomici_orchestrator.Toolbroker.Types.{
  ExecuteRequest, status_failed, status_completed, tool_list_files, tool_read_file, tool_write_file,
  tool_replace_file, tool_present_artifact, tool_bash, tool_search, tool_fetch,
}
use nomici_orchestrator.Runs.Types.{is_in}
use nomici_orchestrator.Gateway.Ledger.{Object, Codec}

-- modelToolCall, and the call of a tool of internal/adapters/adapter.go
pub record ModelCall : Type 0 where
  pub id : String
  pub tool_id : String
  pub input : Object

-- the Result of internal/runs/executor.go, as far as the gateway reads it; `cli` is what a command
-- line wrote to its two outputs
pub record Result : Type 0 where
  pub messages : List Message
  pub tool_calls : List ModelCall
  pub cli : Option (String × String)

-- what the broker returns: a record and an error, each of which may be missing
pub record Answer : Type 0 where
  pub call_record : Option CallRecord
  pub failure : Option Error

-- What the handler of roles has of others. The broker answers with a record and an error; ExecuteTask
-- of the executor, with the schemas of the tools, is given the agent, the prompt and the task. The
-- decoders are json.Unmarshal, where `none` is its error; `quoted` is the verb %q, `printed` has the
-- values of an input as fmt.Sprint prints them, and `message` is the text of an error.
pub record Models : Type 0 where
  pub invoke : String → String → String → Exec Result
  pub execute : ExecuteRequest → World → Answer × World
  pub execute_approved : String → ExecuteRequest → World → Answer × World
  pub decode_envelope : String → Option (List ModelCall)
  pub decode_pending : String → Option (List ModelCall)
  pub encode_pending : ModelCall → String
  pub quoted : String → String
  pub printed : Object → List (String × String)
  pub message : Error → String

abbrev pub max_model_tool_rounds : ℕ
max_model_tool_rounds = 5

abbrev pub max_model_tool_calls_per_round : ℕ
max_model_tool_calls_per_round = 8

last_content : List Message → String
last_content [] = ""
last_content (m ∷ []) = m.content
last_content (m ∷ n ∷ rest) = last_content (n ∷ rest)

preview_of_cli : Option (String × String) → String
preview_of_cli none = ""
preview_of_cli (some (stdout, stderr)) = if is_empty stdout then stderr else stdout

-- resultPreview, of a result that is not nil
unfoldable pub result_preview : Result → String
unfolding last_content preview_of_cli
result_preview r = elim r.messages [ [] ↦ preview_of_cli r.cli | m ∷ ms ↦ last_content (m ∷ ms) ]

-- fencedJSON
inner_fence : String → String
inner_fence rest =
    let body = if starts_with "json" (lower rest) then without_start "json" rest else rest in
    elim (text_before "```" body) [ none ↦ "" | some t ↦ trim_space t ]

unfoldable pub fenced_json : String → String
unfolding inner_fence
fenced_json output = elim (text_after "```" output) [ none ↦ "" | some rest ↦ inner_fence rest ]

-- firstJSONObject: from the first opening brace to the last closing one
unfoldable pub first_json_object : String → String
first_json_object output = elim (text_after "{" output) [
  | none ↦ ""
  | some rest ↦ elim (up_to_last b'}' rest) [ none ↦ "" | some t ↦ trim_space ("{" ^+ t) ]
]

-- the calls that name a tool
named : List ModelCall → List ModelCall
named [] = []
named (c ∷ cs) = if is_empty (trim_space c.tool_id) then named cs else c ∷ named cs

-- the same, with the names trimmed
trimmed : List ModelCall → List ModelCall
trimmed [] = []
trimmed (c ∷ cs) =
    let tool_id = trim_space c.tool_id in
    if is_empty tool_id then trimmed cs else record c { tool_id = tool_id } ∷ trimmed cs

abbrev when_filled : String → List String
when_filled s = if is_empty s then [] else s ∷ []

module _ (models : Models) where
  calls_in : String → List ModelCall
  unfolding named
  calls_in candidate = elim (models.decode_envelope candidate) [
    | none ↦ []
    | some calls ↦ named calls
  ]

  first_calls : List String → List ModelCall
  unfolding calls_in
  first_calls [] = []
  first_calls (c ∷ cs) = elim (calls_in c) [ [] ↦ first_calls cs | x ∷ xs ↦ x ∷ xs ]

  candidates : String → List String
  unfolding fenced_json first_json_object
  candidates output =
      let object = first_json_object output in
      when_filled (fenced_json output)
      ++ output ∷ (if object == output then [] else when_filled object)

  -- extractModelToolCalls; no calls are those of `nil, false`
  unfoldable pub extract_model_tool_calls : String → List ModelCall
  unfolding first_calls candidates
  extract_model_tool_calls text =
      let output = trim_space text in
      if is_empty output then [] else first_calls (candidates output)

  -- modelToolCallsFromResult, of a result that is not nil
  unfoldable pub model_tool_calls_from_result : Result → List ModelCall
  unfolding extract_model_tool_calls trimmed
  model_tool_calls_from_result r = elim (trimmed r.tool_calls) [
    | [] ↦ extract_model_tool_calls (result_preview r)
    | c ∷ cs ↦ c ∷ cs
  ]

  -- toolObservation
  unfoldable pub tool_observation : String → Answer → String
  tool_observation tool_id a = elim a.failure [
    | some e ↦
        let failed = tool_id ^+ " failed: " ^+ models.message e in
        elim a.call_record [
          | none ↦ failed
          | some r ↦
              if is_empty r.output_preview then failed else failed ^+ "\n" ^+ r.output_preview
        ]
    | none ↦ elim a.call_record [
      | none ↦ tool_id ^+ " produced no record."
      | some r ↦
          if is_empty r.output_preview
          then tool_id ^+ " completed."
          else tool_id ^+ " output:\n" ^+ r.output_preview
    ]
  ]

unfoldable pub tool_call_id : Answer → String
tool_call_id a = elim a.call_record [ none ↦ "" | some r ↦ r.tool_call_id ]

status_or : Option Error → String
status_or none = status_completed
status_or (some e) = status_failed

unfoldable pub tool_call_status : Answer → String
unfolding status_or
tool_call_status a = elim a.call_record [
  | none ↦ status_or a.failure
  | some r ↦ if is_empty r.status then status_or a.failure else r.status
]

unfoldable pub normalize_model_tool_id : String → String
normalize_model_tool_id text =
    let id = trim_space text in
    if is_in (tool_list_files ∷ "read_project" ∷ "list_project" ∷ []) id
    then tool_list_files
    else if id == tool_read_file
    then tool_read_file
    else if is_in (tool_write_file ∷ "write_project" ∷ []) id
    then tool_write_file
    else if is_in (tool_replace_file ∷ "str_replace" ∷ "edit_file" ∷ []) id
    then tool_replace_file
    else if is_in (tool_present_artifact ∷ "artifact" ∷ []) id
    then tool_present_artifact
    else if is_in (tool_bash ∷ "run_checks" ∷ "shell" ∷ []) id
    then tool_bash
    else if is_in (tool_search ∷ "web_search" ∷ []) id
    then tool_search
    else if is_in (tool_fetch ∷ "web_fetch" ∷ []) id
    then tool_fetch
    else ""

-- modelToolFailureSignature
unfoldable pub model_tool_failure_signature : Codec → String → Object → String
model_tool_failure_signature codec tool_id input = tool_id ^+ ":" ^+ codec.encode input
