-- ===== src/Session/Emitter/Stream.antt =====
-- The fragments of one provider call, pushed in turn; the call ends at the first one that is
-- refused.
pub mod Paced
use local_agent_runtime.Base.{ℕ, Text, Option, List, [], ◌∷◌}
use local_agent_runtime.Effect.{Action, pure, ◌>>=◌, ◌>>◌}
use local_agent_runtime.Session.Emitter.{TextDeltaEmitter, push}

unfoldable pub push_all : (now : ℕ) → List (Option Text) → Action TextDeltaEmitter (Unit {0})
push_all now [] = pure tt
push_all now (delta ∷ deltas) = push now delta >> push_all now deltas
