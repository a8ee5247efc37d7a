-- ===== src/Orchestration/Document.antt =====
-- The stored document of an orchestrator: `as_dict` and `from_dict` of src/agentic_sdlc/orchestration.py.
-- `text_of` and `int_of`, parameters, are `str` and `int` of a value that is no text and no integer. A
-- count that is negative and a list of other things than texts, which `as_dict` never writes, are
-- outside the model, which raises an error for them.
pub mod Sorting
pub mod Reading
pub mod RoundTrip
use agentic_sdlc.Base.Int.{ℤ, pos, negsuc}
use agentic_sdlc.Base.{ℕ, String, Bool, true, false, List, [], ◌∷◌, map, sorted}
use agentic_sdlc.Base.Dict
use agentic_sdlc.Base.Dict.{Dict}
use agentic_sdlc.Base.Value.{
  Value, Values, Members, string, int, flag, array, table, elements, members_of,
}
use agentic_sdlc.Orchestration.Document.Sorting.{sort_items, dict_of}
use agentic_sdlc.Orchestration.State.{state_value}
use agentic_sdlc.Orchestration.Store.{TransitionRecord, AgentRunRecord, WorkUnit, Orchestrator}

abbrev strings : List String → Value
strings ts = array (elements (map string ts))

-- `TransitionRecord.as_dict`
unfoldable pub transition_document : TransitionRecord → Value
transition_document t = table (
    members_of (
      ("sequence", int (pos t.sequence))
      ∷ ("from", string (state_value t.from_state))
      ∷ ("to", string (state_value t.to_state))
      ∷ ("actor", string t.actor)
      ∷ ("actorKind", string t.actor_kind)
      ∷ ("eventKey", string t.event_key)
      ∷ ("timestamp", string t.timestamp)
      ∷ ("reason", string t.reason)
      ∷ []))

-- `AgentRunRecord.as_dict`
unfoldable pub run_document : AgentRunRecord → Value
run_document r = table (
    members_of (
      ("runId", string r.run_id)
      ∷ ("kind", string r.kind)
      ∷ ("missionId", string r.mission_id)
      ∷ ("missionVersion", string r.mission_version)
      ∷ ("agentId", string r.agent_id)
      ∷ ("adapter", string r.adapter)
      ∷ ("adapterVersion", string r.adapter_version)
      ∷ ("provider", string r.provider)
      ∷ ("model", string r.model)
      ∷ ("modelAlias", string r.model_alias)
      ∷ ("promptSha256", string r.prompt_sha256)
      ∷ ("envelopeSha256", string r.envelope_sha256)
      ∷ ("workRef", string r.work_ref)
      ∷ ("inputRefs", strings r.input_refs)
      ∷ ("contextPackDigest", string r.context_pack_digest)
      ∷ ("repairCycle", int (pos r.repair_cycle))
      ∷ ("startedAt", string r.started_at)
      ∷ ("eventKey", string r.event_key)
      ∷ ("routingPolicyVersion", string r.routing_policy_version)
      ∷ ("routeReason", string r.route_reason)
      ∷ ("fallbackReason", string r.fallback_reason)
      ∷ ("finishedAt", string r.finished_at)
      ∷ ("result", string r.result)
      ∷ ("commitSha", string r.commit_sha)
      ∷ (
        "outputArtifacts",
        table (members_of (map (λ e. (e.0, string e.1)) (dict_of r.output_artifacts))),
      )
      ∷ []))

-- `_WorkUnit.as_dict`
unfoldable pub unit_document : WorkUnit → Value
unit_document u = table (
    members_of (
      ("unitId", string u.unit_id)
      ∷ ("state", string (state_value u.state))
      ∷ ("concurrencyGroup", string u.concurrency_group)
      ∷ ("dependsOn", strings u.depends_on)
      ∷ ("repairCount", int (pos u.repair_count))
      ∷ ("supersededBy", string u.superseded_by)
      ∷ ("createdAt", string u.created_at)
      ∷ ("reviewFindingsSha256", string u.review_findings_sha256)
      ∷ ("transitions", array (elements (map transition_document u.transitions)))
      ∷ ("runs", array (elements (map run_document u.runs)))
      ∷ ("eventKeys", strings (sorted u.event_keys))
      ∷ []))

abbrev pub units_document : Dict WorkUnit → Members
units_document units = members_of (map (λ e. (e.0, unit_document e.1)) units)

-- `Orchestrator.as_dict`
unfoldable pub as_dict : Orchestrator → Members
as_dict o = members_of (
    ("schemaVersion", int (pos 1))
    ∷ ("lifecycleVersion", int (pos 1))
    ∷ ("stateId", string o.state_id)
    ∷ ("maxRepairCycles", int (pos o.max_repair_cycles))
    ∷ ("humanMergeRequired", flag true)
    ∷ ("units", table (units_document (sort_items o.units)))
    ∷ [])
