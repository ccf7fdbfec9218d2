-- ===== src/Service/Steps/Lookups.antt =====
-- What holds of a service after a request on one session, by what holds once its record stands
-- in the table again.
use local_agent_runtime.Base.{
  ℕ, String, ◌≡◌, refl, Option, none, some, Bool-cases, inl, inr, if◌then◌else◌, lookup, without, ℤ,
}
use local_agent_runtime.Failure.{Result, ok, err, not_found}
use local_agent_runtime.Effect.{Action}
use local_agent_runtime.Effect.Keeps.{Keeps, keeps_rules}
use local_agent_runtime.Session.{SessionRecord}
use local_agent_runtime.Service.{Service, is_expired, find_record, placed, worked, with_record}
use local_agent_runtime.Service.Requests.{events_after}

-- `P` still holds when a session is dropped.
module _ (P : Service → Type 0)
    (dropped : (id : String) (sv : Service)
      → P sv
      → P (record sv { sessions = without id sv.sessions })) where
  -- What `find_record` hands on: a record of the table.
  abbrev Found : String → Result SessionRecord × Service → Type 0
  Found id (ok s, sv) = (lookup id sv.sessions ≡ some s) × P sv
  Found id (err e, sv) = P sv

  find_record-Found :
      (now : ℕ) (id : String) (sv : Service) → P sv → Found id (find_record now id sv)
  unfolding find_record
  find_record-Found now id sv h = looked_up (lookup id sv.sessions) refl
    where
      looked_up :
          (o : Option SessionRecord)
          → lookup id sv.sessions ≡ o
          → Found id (elim o as (λ _. Result SessionRecord × Service) [
            | none ↦ (err (not_found "The session does not exist"), sv)
            | some s ↦
                if is_expired now s
                then (
                  err (not_found "The session expired"),
                  record sv { sessions = without id sv.sessions },
                )
                else (ok s, sv)
          ])
      looked_up none e = h
      looked_up (some s) e = elim (Bool-cases (is_expired now s)) [
        | inl old ↦ rw old (dropped id sv h)
        | inr recent ↦ rw recent (e, h)
      ]

  pub find_record-Keeps : (now : ℕ) (id : String) → Keeps P (find_record now id)
  find_record-Keeps now id = record {
    at = λ sv h. after (find_record now id sv) (find_record-Found now id sv h);
  }
    where
      after : (p : Result SessionRecord × Service) → Found id p → P p.1
      after (ok s, sv) h = h.1
      after (err e, sv) h = h

  pub events_after-Keeps :
      (now : ℕ) (id : String) (after : Option ℤ) → Keeps P (events_after now id after)
  unfolding events_after
  events_after-Keeps now id after = search (keeps_rules, find_record-Keeps) depth 12

  pub with_record-Keeps :
      (now : ℕ) (id : String) (body : Service → Action SessionRecord (Unit {0}))
      → ((sv : Service) (s : SessionRecord)
          → lookup id sv.sessions ≡ some s
          → P sv
          → P (placed id sv (body sv s)).1)
      → Keeps P (with_record now id body)
  unfolding with_record worked
  with_record-Keeps now id body holds = record {
    at = λ sv h. after (find_record now id sv) (find_record-Found now id sv h);
  }
    where
      after : (p : Result SessionRecord × Service) → Found id p → P (worked id body p).1
      after (err e, sv) h = h
      after (ok s, sv) h = holds sv s h.0 h.1
