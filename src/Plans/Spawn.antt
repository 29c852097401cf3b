-- ===== src/Plans/Spawn.antt =====
-- Child sessions (`stage_spawn` of entourage/runtime/planner.py), and staging one again.
use entourage.Prelude.{
  ℕ, String, ◌+++◌, Option, none, some, List, [], ◌∷◌, ◌++◌, ◌≡◌, refl, ◌==◌, map, decimal,
  if◌then◌else◌, Dict, Result, returns, ◌>>=◌, >>=-congruent,
}
use entourage.Mail.{Json, Fields}
use entourage.Mail.Json.{null, str, obj}
use entourage.Mail.Fields.{end, field}
use entourage.Plans.{
  Error, Plan, Plans, leaf, node, wait_for_mailbox, conditional, sequence, parallel, unknown, nil,
  cons, Execution, Edge, Staging, StagedPlan, add_execution, resolve_node, stage, stage_sequence,
  stage_parallel, stage_plan, add_edge, link, extended,
}

-- `Spawn` of transition.py.
pub record Spawn : Type 0 where
  pub plan : Plan
  pub initial_state : Fields
  pub slot : Option String
  pub correlation_id : Option String
  pub notify : Option String

pub record StagedSession : Type 0 where
  pub session_id : String
  pub trigger : String
  pub initial_state : Fields
  pub head_id : String
  pub end_id : String
  pub executions : List Execution
  pub edges : List Edge

-- `given or default`.
abbrev pub given_or : Option String → String → String
given_or none default = default
given_or (some given) default = if given == "" then default else given

abbrev pub slot_of : Option String → ℕ → String
slot_of none index = decimal index
slot_of (some slot) index = slot

-- `{**fields, key: value}`.
abbrev pub set_field : String → Json → Fields → Fields
set_field key v end = field key v end
set_field key v (field k w rest) =
    let others = set_field key v rest in if k == key then field k v rest else field k w others

abbrev pub text_or_null : Option String → Json
text_or_null none = null
text_or_null (some t) = str t

abbrev pub joins : String → String → Edge
joins from to = record { from = from; to = to; condition = none }

module _ (fresh : ℕ → String) (hex : ℕ → String) where
  unfoldable pub stage_spawn :
      Spawn → String → ℕ → Dict ℕ → Option String → Result Error (StagedSession × Dict ℕ)
  stage_spawn s exec_id index registry parent_session_id =
      let slot = slot_of s.slot index in
      let session_id = "spawn-" +++ (exec_id +++ ("-" +++ slot)) in
      let correlation_id = given_or s.correlation_id session_id in
      let notify = given_or s.notify ("corr:" +++ correlation_id) in
      let lineage = field "parent_session_id" (text_or_null parent_session_id) (
        field "parent_exec_id" (str exec_id) (
          field "slot" (str slot)
            (field "correlation_id" (str correlation_id) (field "notify" (str notify) end)))) in
      let head_id = "head-" +++ session_id in
      let end_id = "end-" +++ session_id in
      stage_plan (some session_id) fresh hex s.plan registry [] >>= λ (r : StagedPlan × Dict ℕ).
      returns (
        record {
          session_id = session_id;
          trigger = "spawn:" +++ slot;
          initial_state = set_field "spawn" (obj lineage) s.initial_state;
          head_id = head_id;
          end_id = end_id;
          executions = r.0.executions;
          edges = r.0.edges ++ map (joins head_id) r.0.starts ++ joins r.0.end end_id ∷ [];
        },
        r.1,
      )

module _ (prefix : String) (fresh fresh' : ℕ → String) (hex : ℕ → String) where
  mutual
    unfolding stage add_execution resolve_node

    stage_reproduces :
        (p : Plan) (s : Staging)
        → stage (some prefix) fresh hex p s ≡ stage (some prefix) fresh' hex p s
    stage_reproduces (leaf item) s = refl
    stage_reproduces (node item policy) s = refl
    stage_reproduces (wait_for_mailbox w) s = refl
    stage_reproduces (conditional condition plan) s = rw (stage_reproduces plan _) refl
    stage_reproduces (sequence items) s = rw (stage_sequence_reproduces items none s) refl
    stage_reproduces (parallel items) s = rw (stage_parallel_reproduces items _ _ _) refl
    stage_reproduces unknown s = refl

    stage_sequence_reproduces :
        (ps : Plans) (before : Option (List String × String)) (s : Staging)
        → stage_sequence (some prefix) fresh hex ps before s
          ≡ stage_sequence (some prefix) fresh' hex ps before s
    stage_sequence_reproduces nil before s = refl
    stage_sequence_reproduces (cons p ps) before s =
        >>=-congruent (stage_reproduces p s)
          (λ r. stage_sequence_reproduces ps (some (extended before r.1 r.2)) (link before r.1 r.0))

    stage_parallel_reproduces :
        (ps : Plans) (merge : String) (starts : List String) (s : Staging)
        → stage_parallel (some prefix) fresh hex ps merge starts s
          ≡ stage_parallel (some prefix) fresh' hex ps merge starts s
    stage_parallel_reproduces nil merge starts s = refl
    stage_parallel_reproduces (cons p ps) merge starts s =
        >>=-congruent (stage_reproduces p s)
          (λ r. stage_parallel_reproduces ps merge (starts ++ r.1) (add_edge r.2 none r.0 merge))

-- Staging a child session again gives the same result, whatever random digits are drawn.
pub stage_spawn_reproduces :
    (fresh fresh' : ℕ → String) (hex : ℕ → String) (s : Spawn) (exec_id : String) (index : ℕ)
    (registry : Dict ℕ) (parent_session_id : Option String)
    → stage_spawn fresh hex s exec_id index registry parent_session_id
      ≡ stage_spawn fresh' hex s exec_id index registry parent_session_id
unfolding stage_spawn stage_plan
stage_spawn_reproduces fresh fresh' hex s exec_id index registry parent_session_id =
    rw
      (stage_reproduces ("spawn-" +++ (exec_id +++ ("-" +++ slot_of s.slot index))) fresh fresh' hex
        s.plan _)
      refl
