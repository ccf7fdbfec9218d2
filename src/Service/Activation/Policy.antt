-- ===== src/Service/Activation/Policy.antt =====
-- What activation never changes: the default profile and the profiles of the task routes stay
-- enabled.
use mathlib.Core.Path.{subst}
use local_agent_runtime.Base.{
  ℕ, String, ◌≡◌, refl, sym, ap, ◌∙◌, Bool, true, false, not, ◌||◌, Option, none, some, List, [],
  ◌∷◌, Bool-cases, inl, inr, eq_iff, arith, if◌then◌else◌, any, All, lookup, lookup-put, put,
  values, member, str_eq, or_else, has_key,
}
use local_agent_runtime.Failure.{Result, ok, err, ◌>>◌, >>=-eq-ok, ok-injective}
use local_agent_runtime.Contracts.{RuntimeConfiguration}
use local_agent_runtime.Effect.{resume, modify}
use local_agent_runtime.Service.{Service, is_enabled}
use local_agent_runtime.Service.Create.{Surroundings, selected_profile}
use local_agent_runtime.Service.Activation.{
  Activation, required_profiles, start_service, activation_blocker, permit_change,
  change_activation, set_adapter_activation, unless_stale, use_blocker, unblocked, same_flag,
  policy_changed, activation_state_of,
}

-- The default profile and the profile of every task route are enabled.
abbrev pub Policy : Service → Type 0
Policy sv = All (λ id. is_enabled sv id ≡ true) (required_profiles sv.configuration)

All-of-any :
    (p : String → Bool) (ids : List String)
    → any (λ id. not (p id)) ids ≡ false
    → All (λ id. p id ≡ true) ids
All-of-any p [] h = tt
All-of-any p (id ∷ ids) h = elim (Bool-cases (p id)) [
  | inl held ↦ (held, All-of-any p ids (rw held at h))
  | inr lost ↦ cc (rw lost at h)
]

All-map :
    (P Q : String → Type 0) (ids : List String)
    → ((id : String) → member id ids ≡ true → P id → Q id)
    → All P ids
    → All Q ids
All-map P Q [] f h = tt
All-map P Q (id ∷ ids) f h = (
  f id (ground (arith, (eq_iff id id).1 refl)) h.0,
  All-map P Q ids (λ other m. f other (ground arith)) h.1,
)

-- The service after a change.
abbrev changed : String → Bool → Service → Service
changed id enabled sv = record sv { activation_state = put id enabled sv.activation_state }

is_enabled-changed :
    (id : String) (enabled : Bool) (sv : Service) (other : String)
    → is_enabled (changed id enabled sv) other
      ≡ (if str_eq id other then enabled else is_enabled sv other)
unfolding is_enabled
is_enabled-changed id enabled sv other =
    rw (lookup-put id enabled other sv.activation_state) (split (str_eq id other))
  where
    split :
        (b : Bool)
        → or_else
            (if b then some enabled else lookup other sv.activation_state)
            (or_else (lookup other sv.configuration.managed_profiles) true)
          ≡ (if b
              then enabled
              else or_else
                  (lookup other sv.activation_state)
                  (or_else (lookup other sv.configuration.managed_profiles) true))
    split true = refl
    split false = refl

changed-Policy :
    (id : String) (enabled : Bool) (sv : Service)
    → ((other : String)
        → member other (required_profiles sv.configuration) ≡ true
        → str_eq id other ≡ true
        → enabled ≡ true)
    → Policy sv
    → Policy (changed id enabled sv)
changed-Policy id enabled sv kept h =
    All-map (λ other. is_enabled sv other ≡ true)
      (λ other. is_enabled (changed id enabled sv) other ≡ true)
      (required_profiles sv.configuration)
      (λ other required held. elim (Bool-cases (str_eq id other)) [
        | inl same ↦ rw (is_enabled-changed id enabled sv other, same) (kept other required same)
        | inr differs ↦ rw (is_enabled-changed id enabled sv other, differs) held
      ])
      h

use_blocker-none :
    (now : ℕ) (sv : Service) (id : String) (selected : Option String)
    → ok (use_blocker now sv id selected) ≡ ok none
    → member id (values sv.configuration.task_routes) ≡ false
unfolding use_blocker
use_blocker-none now sv id selected h = ground arith

activation_blocker-none :
    (env : Surroundings) (port : Activation) (now : ℕ) (sv : Service) (id : String)
    → is_enabled sv id ≡ true
    → activation_blocker env (some port) now sv id ≡ ok none
    → (str_eq id sv.configuration.default_profile ≡ false)
      × (member id (values sv.configuration.task_routes) ≡ false)
unfolding activation_blocker
activation_blocker-none env port now sv id on h =
    elim (Bool-cases (has_key id sv.configuration.managed_profiles)) [
      | inr unmanaged ↦ cc (rw unmanaged at h)
      | inl managed ↦ elim (Bool-cases (str_eq id sv.configuration.default_profile)) [
        | inl default ↦ cc (rw (managed, default) at h)
        | inr other ↦
            let (selected, _, e) =
              >>=-eq-ok (unless_stale (selected_profile env sv))
                (λ selected. ok (use_blocker now sv id selected)) (rw (managed, other, on) at h) in
            (other, use_blocker-none now sv id selected e)
      ]
    ]

unblocked-none : (o : Option String) → unblocked o ≡ ok tt → o ≡ none
unfolding unblocked
unblocked-none none h = refl
unblocked-none (some code) h = cc

permit_change-unblocked :
    (env : Surroundings) (port : Activation) (now : ℕ) (id : String) (enabled : Bool) (sv : Service)
    → permit_change env port now id enabled sv ≡ ok tt
    → activation_blocker env (some port) now sv id ≡ ok none
unfolding permit_change
permit_change-unblocked env port now id enabled sv h =
    let (blocker, b, rest) =
      >>=-eq-ok (activation_blocker env (some port) now sv id)
        (λ blocker. unblocked blocker >> port.write (put id enabled sv.activation_state)) h in
    let (_, u, _) =
      >>=-eq-ok (unblocked blocker) (λ _. port.write (put id enabled sv.activation_state)) rest in
    b ∙ ap ok (unblocked-none blocker u)

member-eq : (a b : String) (ids : List String) → str_eq a b ≡ true → member b ids ≡ member a ids
member-eq a b ids same = ap (λ x. member x ids) (sym ((eq_iff a b).0 same))

-- A profile that may be disabled is neither the default nor routed to.
permit_change-required :
    (env : Surroundings) (port : Activation) (now : ℕ) (id : String) (sv : Service) (other : String)
    → is_enabled sv id ≡ true
    → permit_change env port now id false sv ≡ ok tt
    → member other (required_profiles sv.configuration) ≡ true
    → str_eq id other ≡ true
    → false ≡ true
permit_change-required env port now id sv other on h required same =
    let (not_default, unrouted) =
      activation_blocker-none env port now sv id on
        (permit_change-unblocked env port now id false sv h) in
    let here : (str_eq id sv.configuration.default_profile
          || member id (values sv.configuration.task_routes))
        ≡ true =
      sym (member-eq id other (required_profiles sv.configuration) same) ∙ required in
    cc (rw (not_default, unrouted) at here)

change_activation-Policy :
    (env : Surroundings) (port : Activation) (now : ℕ) (id : String) (enabled : Bool) (sv : Service)
    → same_flag (is_enabled sv id) enabled ≡ false
    → Policy sv
    → Policy (change_activation env port now id enabled sv).1
unfolding change_activation
change_activation-Policy env port now id enabled sv differs h =
    permitted (permit_change env port now id enabled sv) refl
  where
    on : (b : Bool) → same_flag b false ≡ false → b ≡ true
    on true e = refl
    on false e = cc

    kept :
        (flag : Bool)
        → same_flag (is_enabled sv id) flag ≡ false
        → permit_change env port now id flag sv ≡ ok tt
        → (other : String) → member other (required_profiles sv.configuration) ≡ true
        → str_eq id other ≡ true
        → flag ≡ true
    kept true d e other required same = refl
    kept false d e other required same =
        permit_change-required env port now id sv other (on (is_enabled sv id) d) e required same

    permitted :
        (r : Result (Unit {0}))
        → permit_change env port now id enabled sv ≡ r
        → Policy
            (resume
              (r, sv)
              (λ _.
                modify
                  (λ sv. record sv { activation_state = put id enabled sv.activation_state }))).1
    permitted (err e) same = h
    permitted (ok _) same = changed-Policy id enabled sv (kept enabled differs same) h

either_way :
    (b : Bool) (p q : Result (Unit {0}) × Service)
    → (b ≡ true → Policy p.1)
    → (b ≡ false → Policy q.1)
    → Policy (if b then p else q).1
either_way true p q h k = h refl
either_way false p q h k = k refl

-- If the default profile and the profile of every task route are enabled, they stay enabled
-- whatever a consumer asks of activation, and whatever its ports answer.
pub set_adapter_activation-Policy :
    (env : Surroundings) (port : Option Activation) (now : ℕ) (id : Option String)
    (enabled : Option Bool) (sv : Service)
    → Policy sv
    → Policy (set_adapter_activation env port now id enabled sv).1
unfolding set_adapter_activation
set_adapter_activation-Policy env port now none enabled sv h = h
set_adapter_activation-Policy env port now (some id) none sv h = h
set_adapter_activation-Policy env none now (some id) (some enabled) sv h =
    either_way (has_key id sv.configuration.managed_profiles) _ _ (λ _. h) (λ _. h)
set_adapter_activation-Policy env (some port) now (some id) (some enabled) sv h =
    either_way (not (has_key id sv.configuration.managed_profiles)) _ _ (λ _. h)
      λ _.
        either_way (same_flag (is_enabled sv id) enabled) _ _ (λ _. h)
          λ differs. change_activation-Policy env port now id enabled sv differs h

abbrev fresh : RuntimeConfiguration → List (String × Bool) → Service
fresh configuration state = record {
  configuration = configuration;
  sessions = [];
  activation_state = state;
}

-- A service that starts is empty, and has passed the check of its profiles.
pub start_service-fresh :
    (configuration : RuntimeConfiguration) (port : Option Activation) (sv : Service)
    → start_service configuration port ≡ ok sv
    → (state : List (String × Bool)) × (fresh configuration state ≡ sv) × Policy sv
unfolding start_service
start_service-fresh configuration port sv h =
    let (state, _, rest) =
      >>=-eq-ok (activation_state_of configuration port)
        (λ state.
          let sv : Service = record {
            configuration = configuration;
            sessions = [];
            activation_state = state;
          } in
          if any (λ id. not (is_enabled sv id)) (required_profiles configuration)
          then err policy_changed
          else ok sv)
        h in
    elim (Bool-cases (
      any (λ id. not (is_enabled (fresh configuration state) id))
        (required_profiles configuration))) [
          | inl refused ↦ cc (rw refused at rest)
          | inr allowed ↦
              let same = ok-injective (rw allowed at rest) in
              (
                state,
                same,
                subst Policy same (
                    All-of-any (is_enabled (fresh configuration state))
                      (required_profiles configuration) allowed),
              )
        ]
