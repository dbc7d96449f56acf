-- ===== src/SharedContext/Redaction.antt =====
-- internal/sharedcontext/redact.go and render.go: what is done to an item before it is saved, and how
-- a snapshot is told to the next agent. A pattern is what ReplaceAllString makes of a text with one
-- of the regular expressions.
use nomici_orchestrator.Common.{
  String, List, [], ◌∷◌, ◌++◌, Bool, map, if◌then◌else◌, is_empty, trim_space, ◌^+◌,
}
use nomici_orchestrator.SharedContext.Types.{
  Item, Snapshot, Note, Briefing, scope_run, kind_run_summary, confidence_generated,
  sensitivity_normal, status_active,
}
use nomici_orchestrator.Store.{required, Exec, pure, refuse_if, ◌>>◌}

abbrev pub Pattern : Type 0
Pattern = String → String

-- the loop over the patterns
unfoldable pub replace_all : List Pattern → String → String
replace_all [] value = value
replace_all (p ∷ ps) value = replace_all ps (p value)

abbrev pub blank : String → Bool
blank s = is_empty (trim_space s)

module _ (patterns : List Pattern) where
  unfoldable pub redact_text : String → String
  redact_text value = if is_empty value then "" else replace_all patterns value

  unfoldable pub prepared_item : Item → Item
  prepared_item item = record item {
    scope = if blank item.scope then scope_run else item.scope;
    kind = if blank item.kind then kind_run_summary else item.kind;
    confidence = if blank item.confidence then confidence_generated else item.confidence;
    sensitivity = if blank item.sensitivity then sensitivity_normal else item.sensitivity;
    status = if blank item.status then status_active else item.status;
    title = redact_text item.title;
    body = redact_text item.body;
    artifact_refs = map redact_text item.artifact_refs;
  }

  -- PrepareItem, of an item that is not nil
  unfoldable pub prepare_item : Item → Exec Item
  prepare_item item = do
    refuse_if (blank item.project_id) (required "project_id")
    pure (prepared_item item)

  unfoldable pub prepared_snapshot : Snapshot → Snapshot
  prepared_snapshot s = record s {
    summary = redact_text s.summary;
    decisions =
        map (λ (n : Note). record n { title = redact_text n.title; body = redact_text n.body })
          s.decisions;
    open_issues = map redact_text s.open_issues;
    recommendations = map redact_text s.recommendations;
    artifact_refs = map redact_text s.artifact_refs;
  }

  -- PrepareSnapshot, of a snapshot that is not nil
  unfoldable pub prepare_snapshot : Snapshot → Exec Snapshot
  prepare_snapshot s = do
    refuse_if (blank s.project_id) (required "project_id")
    refuse_if (blank s.run_id) (required "run_id")
    pure (prepared_snapshot s)

-- strings.Join
unfoldable pub join_with : String → List String → String
join_with separator [] = ""
join_with separator (s ∷ []) = s
join_with separator (s ∷ t ∷ rest) = s ^+ separator ^+ join_with separator (t ∷ rest)

decision_text : Note → String
decision_text n =
    let title = trim_space n.title in
    if is_empty n.body then title else if is_empty title then n.body else title ^+ ": " ^+ n.body

decision_lines : List Note → List String
unfolding decision_text
decision_lines [] = []
decision_lines (n ∷ ns) =
    let rest = decision_lines ns in
    if is_empty (decision_text n) then rest else ("- Decision: " ^+ decision_text n) ∷ rest

-- a line for each text that is not blank
marked_lines : String → List String → List String
marked_lines mark [] = []
marked_lines mark (t ∷ ts) =
    let rest = marked_lines mark ts in if blank t then rest else (mark ^+ t) ∷ rest

artifact_lines : List String → List String
unfolding join_with
artifact_lines [] = []
artifact_lines (r ∷ rs) = ("- Artifacts to inspect: " ^+ join_with ", " (r ∷ rs)) ∷ []

-- RenderBriefing, of a snapshot that is not nil
unfoldable pub render_briefing : Snapshot → Briefing
unfolding join_with decision_lines marked_lines artifact_lines
render_briefing s = record {
  snapshot_id = s.snapshot_id;
  text = join_with "\n" (
      "Task briefing:"
      ∷ ((if is_empty s.summary then [] else ("- Upstream handoff: " ^+ s.summary) ∷ [])
          ++ (decision_lines s.decisions
              ++ (marked_lines "- Open issue: " s.open_issues
                  ++ (marked_lines "- Recommendation: " s.recommendations
                      ++ artifact_lines s.artifact_refs)))));
}
