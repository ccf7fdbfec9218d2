-- ===== src/Session/Public.antt =====
-- What a consumer sees of a session: `public_dict` of `SessionRecord` in service.py, with
-- `ContextPlan.public_dict` and `unplanned_context` of context.py.
use local_agent_runtime.Base.{
  ℕ, decimal, String, Text, codes, Bool, Option, none, some, [], ◌∷◌, map, length, values, ℤ,
}
use local_agent_runtime.Json.{Json, null, bool, num, str, arr, obj, Fields, end, field, items}
use local_agent_runtime.Contracts.{
  ProcessingClass, local, external, SessionStatus, created, running, waiting_for_tool, completed,
  failed, canceled, ReasoningEffort, effort_value, Limits, Usage,
}
use local_agent_runtime.Contracts.Public.{text_or_null, tool_request_json}
use local_agent_runtime.Context.Plan.{ContextPlan, is_reduced}
use local_agent_runtime.Session.{SessionRecord}

abbrev count_or_null : Option ℕ → Json
count_or_null none = null
count_or_null (some n) = num (decimal n)

abbrev content_or_null : Option Text → Json
content_or_null none = null
content_or_null (some s) = str s

abbrev effort_or_null : Option ReasoningEffort → Json
effort_or_null none = null
effort_or_null (some e) = str (codes (effort_value e))

abbrev pub processing_value : ProcessingClass → String
processing_value local = "local"
processing_value external = "external"

abbrev pub status_value : SessionStatus → String
status_value created = "created"
status_value running = "running"
status_value waiting_for_tool = "waiting_for_tool"
status_value completed = "completed"
status_value failed = "failed"
status_value canceled = "canceled"

-- `ContextPlan.public_dict`
unfoldable pub context_plan_json : ContextPlan → Json
context_plan_json plan = obj (
    field "capacity_tokens" (count_or_null plan.capacity_tokens) (
      field "capacity_source" (str (codes plan.capacity_source)) (
        field "estimated_prompt_tokens" (num (decimal plan.estimated_prompt_tokens)) (
          field "basis" (str (codes plan.basis)) (
            field "reduced" (bool (is_reduced plan)) (
              field "dropped_messages" (num (decimal plan.dropped_messages)) (
                field "configured_output_tokens" (num (decimal plan.configured_output_tokens)) (
                  field "allocated_output_tokens" (num (decimal plan.allocated_output_tokens))
                    end))))))))

-- `unplanned_context`
unfoldable pub unplanned_context : Json
unplanned_context = obj (
    field "capacity_tokens" null (
      field "capacity_source" (str (codes "unknown")) (
        field "estimated_prompt_tokens" null (
          field "basis" null (
            field "reduced" (bool Bool.false) (
              field "dropped_messages" (num (codes "0")) (
                field "configured_output_tokens" null
                  (field "allocated_output_tokens" null end))))))))

-- `asdict(self.profile.limits)`
limits_json : Limits → Json
limits_json limits = obj (
    field "timeout_seconds" (num (decimal limits.timeout_seconds)) (
      field "max_input_chars" (num (decimal limits.max_input_chars)) (
        field "max_output_chars" (num (decimal limits.max_output_chars)) (
          field "max_output_tokens" (num (decimal limits.max_output_tokens))
            (field "max_tool_rounds" (num (decimal limits.max_tool_rounds)) end)))))

failure_json : Option (String × String) → Json
failure_json none = null
failure_json (some (code, message)) =
    obj (field "code" (str (codes code)) (field "message" (str (codes message)) end))

context_json : Option ContextPlan → Json
unfolding context_plan_json unplanned_context
context_json none = unplanned_context
context_json (some plan) = context_plan_json plan

-- `isoformat` of an instant, and how a usage count is printed, belong to Python.
module _ (isoformat : ℕ → Text) (print_count : ℤ → Text) where
  usage_fields : Usage → Fields
  usage_fields [] = end
  usage_fields ((name, count) ∷ rest) = field name (num (print_count count)) (usage_fields rest)

  instant_or_null : Option ℕ → Json
  instant_or_null none = null
  instant_or_null (some t) = str (isoformat t)

  -- the later half of the dictionary, from `failure` on
  outcome_fields : SessionRecord → Fields
  unfolding usage_fields limits_json context_json failure_json
  outcome_fields s = field "failure" (failure_json s.failure) (
      field "effective_model" (text_or_null s.effective_model) (
        field "effective_upstream" (text_or_null s.effective_upstream) (
          field "requested_reasoning_effort" (effort_or_null s.requested_reasoning_effort) (
            field "effective_reasoning_effort" (effort_or_null s.effective_reasoning_effort) (
              field "usage" (obj (usage_fields s.usage)) (
                field "limits" (limits_json s.profile.limits) (
                  field "context" (context_json s.context) (
                    field "validation" (str (codes s.validation))
                      (field "event_count" (num (decimal (length s.events))) end)))))))))

  -- `SessionRecord.public_dict`
  unfoldable pub session_json : SessionRecord → Json
  unfolding outcome_fields instant_or_null tool_request_json
  session_json s = obj (
      field "id" (str (codes s.id)) (
        field "profile_id" (str (codes s.profile.id)) (
          field "provider_id" (str (codes s.connection.id)) (
            field "adapter" (str (codes s.connection.driver)) (
              field "requested_model" (str (codes s.profile.model)) (
                field "model_option_id" (text_or_null s.model_option_id) (
                  field "created_at" (str (isoformat s.created_at)) (
                    field "updated_at" (str (isoformat s.updated_at)) (
                      field "finished_at" (instant_or_null s.finished_at) (
                        field "processing" (str (codes (processing_value s.connection.processing)))
                          (field "task_code" (text_or_null s.task_code) (
                            field "status" (str (codes (status_value s.status))) (
                              field "pending_tools"
                                (arr (items (map tool_request_json (values s.pending_tools))))
                                (field "tool_rounds" (num (decimal s.tool_rounds)) (
                                  field "final_text" (content_or_null s.final_text)
                                    (outcome_fields s))))))))))))))))
