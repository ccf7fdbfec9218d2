-- ===== src/Session/Advance/Settle/Requests.antt =====
-- How the handling of an answer ends: with tool requests, with a completed session, or with an
-- exception and room for the event that reports it.
use local_agent_runtime.Base.{
  ℕ, ◌+◌, ◌≤◌, String, ◌≡◌, refl, List, [], arith, Bool-cases, inl, inr, ◌⊎◌, ltb, leb,
  if◌then◌else◌, is_empty, values,
}
use local_agent_runtime.Failure.{Result, ok, err}
use local_agent_runtime.Contracts.{
  CompletionResult, ToolRequest, SessionStatus, waiting_for_tool, completed,
}
use local_agent_runtime.Context.Plan.{ContextPlan}
use local_agent_runtime.Effect.{lift, resume}
use local_agent_runtime.Effect.Keeps.{Keeps, Keeps-bind, Keeps-lift}
use local_agent_runtime.Session.{SessionRecord, Payload, add_event, touch, requests}
use local_agent_runtime.Session.Events.{
  HasRoom, IsEnded, add_event-plain, add_event-terminal, appended-IsEnded,
}
use local_agent_runtime.Session.Host.{Validators}
use local_agent_runtime.Session.Advance.Settle.{
  charge_output, output_size, collect_requests, ask_tools, check_output, complete_session, settle,
  note_answer, charge, await_results, accept_final,
}

-- A session in a state, with the event of that state as its last, within its output limit.
abbrev pub Stands : SessionStatus → String → SessionRecord → Type 0
Stands status event_type s =
    (s.status ≡ status)
    × IsEnded s.events event_type
    × (s.output_chars ≤ s.profile.limits.max_output_chars)

abbrev pub Settled : SessionRecord → Type 0
Settled s =
    (Stands waiting_for_tool "tool_requests" s × HasRoom s) ⊎ Stands completed "session_completed" s

abbrev pub Settles : Result (Unit {0}) × SessionRecord → Type 0
Settles (ok _, s) = Settled s
Settles (err e, s) = HasRoom s

charge-room : (size : ℕ) → Keeps HasRoom (charge size)
unfolding charge
charge-room size = record {
  at = λ s h. elim (Bool-cases (ltb s.profile.limits.max_output_chars (s.output_chars + size))) [
    | inl over ↦ rw over h
    | inr fits ↦
        rw fits (record { numbered = h.numbered; room = h.room; output_bounded = ground arith })
  ];
}

charge_output-room : (result : CompletionResult) → Keeps HasRoom (charge_output result)
unfolding charge_output
charge_output-room result =
    Keeps-bind (lift (output_size result)) charge (Keeps-lift (output_size result)) charge-room

asked :
    (now : ℕ) (pending : List (String × ToolRequest)) (s : SessionRecord)
    → s.status ≡ waiting_for_tool
    → HasRoom s
    → Settles (add_event now "tool_requests" (requests (values pending)) s)
unfolding touch
asked now pending s waiting h =
    elim (add_event-plain now "tool_requests" (requests (values pending)) s refl h) [
      | inl refused ↦ rw refused h
      | inr (taken, later) ↦ rw taken (
          inl (
            (
              waiting,
              appended-IsEnded now "tool_requests" (requests (values pending)) s h,
              h.output_bounded,
            ),
            later,
          ))
    ]

accepted :
    (now : ℕ) (payload : Payload) (s : SessionRecord)
    → s.status ≡ completed
    → HasRoom s
    → Settles (add_event now "session_completed" payload s)
unfolding touch
accepted now payload s done h =
    rw (add_event-terminal now "session_completed" payload s refl h)
      (inr (done, appended-IsEnded now "session_completed" payload s h, h.output_bounded))

module _ (v : Validators) (now : ℕ) (result : CompletionResult) where
  collected-Settles :
      (s : SessionRecord) (collected : Result (List (String × ToolRequest)))
      → HasRoom s
      → Settles (resume (collected, s) (await_results v now result))
  unfolding await_results
  collected-Settles s (err e) h = h
  collected-Settles s (ok pending) h = asked now pending _ refl h

  ask_tools-Settles : (s : SessionRecord) → HasRoom s → Settles (ask_tools v now result s)
  unfolding ask_tools
  ask_tools-Settles s h = elim (Bool-cases (leb s.profile.limits.max_tool_rounds s.tool_rounds)) [
    | inl spent ↦ rw spent h
    | inr left ↦
        rw left (collected-Settles s (collect_requests v s.tools [] result.tool_requests) h)
  ]

  checked-Settles :
      (s : SessionRecord) (checked : Result (Unit {0}))
      → HasRoom s
      → Settles (resume (checked, s) (λ _. accept_final v now result))
  unfolding accept_final
  checked-Settles s (err e) h = h
  checked-Settles s (ok _) h = accepted now _ _ refl h

  complete_session-Settles :
      (s : SessionRecord) → HasRoom s → Settles (complete_session v now result s)
  unfolding complete_session
  complete_session-Settles s h = checked-Settles s (check_output v s.output_schema result.text) h

  answered-Settles :
      (p : Result (Unit {0}) × SessionRecord)
      → HasRoom p.1
      → Settles (
          resume p (λ _.
            if is_empty result.tool_requests
            then complete_session v now result
            else ask_tools v now result))
  answered-Settles (err e, s) h = h
  answered-Settles (ok _, s) h = elim (Bool-cases (is_empty result.tool_requests)) [
    | inl final ↦ rw final (complete_session-Settles s h)
    | inr asks ↦ rw asks (ask_tools-Settles s h)
  ]

  pub settle-Settles :
      (plan : ContextPlan) (s : SessionRecord) → HasRoom s → Settles (settle v now (plan, result) s)
  unfolding settle
  settle-Settles plan s h =
      answered-Settles (charge_output result (note_answer plan result s))
        ((charge_output-room result).at (note_answer plan result s) h)
