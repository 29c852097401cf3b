-- ===== src/Plans/Closed.antt =====
-- Edges, entries and exit of a staged plan (`stage_plan` of entourage/runtime/planner.py).
use entourage.Prelude.{
  ℕ, String, Option, none, some, List, [], ◌++◌, true, ◌≡◌, sym, ◌+++◌, subst, arith, All,
  All-append, All-map, Dict, returns, >>=-inv,
}
use entourage.Plans.{
  Plan, Plans, leaf, node, wait_for_mailbox, conditional, sequence, parallel, unknown, nil, cons,
  of_wait, Staging, StagedPlan, add_edge, link, extended, stored_policy, add_execution, labelled,
  stage, stage_sequence, stage_parallel, stage_plan,
}
use entourage.Plans.Staged.{
  is_staged, Joins, IsClosed, Are, Staged, IsClosed-add_edges, executions-add_edges, Good, returned,
  added, executions-link, Done, Sequenced, Forked, Staged-stage_leaf, IsClosed-link, Done-Grows,
  Done-extended, Staged-segments,
}

module _ (prefix : Option String) (fresh : ℕ → String) (hex : ℕ → String) where
  mutual
    unfolding stage

    Staged-stage :
        (p : Plan) (s s' : Staging) (starts : List String) (end : String)
        → stage prefix fresh hex p s ≡ returns (s', starts, end)
        → IsClosed s
        → Staged s s' starts end
    Staged-stage (leaf item) s s' starts end h closed =
        Staged-stage_leaf prefix fresh hex s s' item none none starts end h closed
    Staged-stage (node item policy) s s' starts end h closed =
        Staged-stage_leaf prefix fresh hex s s' item policy.max_invocations (stored_policy policy)
          starts end h closed
    Staged-stage (wait_for_mailbox w) s s' starts end h closed =
        subst (Good s) (returned _ (s', starts, end) h) (
          added prefix fresh hex s "__WAIT__" (labelled prefix fresh hex "wait-" s)
            (some (of_wait w)) closed)
    Staged-stage (conditional condition plan) s s' starts end h closed =
        let name = "__GATE__" +++ condition in
        let given = labelled prefix fresh hex "gate-" s in
        let (s₁, gate) = add_execution prefix fresh hex s name given none in
        let opened = added prefix fresh hex s name given none closed in
        let ((s₂, inner, last), staged, h₁) = >>=-inv (stage prefix fresh hex plan s₁) _ h in
        let one = Staged-stage plan s₁ s₂ inner last staged opened.closed in
        let same = executions-add_edges gate (some condition) s₂ inner in
        let gate_is = one.grows gate opened.end_is in
        subst (Good s) (returned _ (s', starts, end) h₁) (record {
          grows = λ id there.
              subst (λ xs. is_staged xs id ≡ true) (sym same)
                (one.grows id (opened.grows id there));
          closed =
              IsClosed-add_edges gate (some condition) s₂ inner gate_is one.starts_are one.closed;
          starts_are = (subst (λ xs. is_staged xs gate ≡ true) (sym same) gate_is, tt);
          end_is = subst (λ xs. is_staged xs last ≡ true) (sym same) one.end_is;
        })
    Staged-stage (sequence items) s s' starts end h closed =
        let ((s₁, done), staged, h₁) = >>=-inv (stage_sequence prefix fresh hex items none s) _ h in
        Staged-segments prefix fresh hex s s₁ s' done starts end h₁
          (Sequenced-stage_sequence items none done s s₁ staged closed tt)
    Staged-stage (parallel items) s s' starts end h closed =
        let given = labelled prefix fresh hex "merge-" s in
        let (s₁, merge) = add_execution prefix fresh hex s "__MERGE__" given none in
        let opened = added prefix fresh hex s "__MERGE__" given none closed in
        let ((s₂, all), staged, h₁) =
          >>=-inv (stage_parallel prefix fresh hex items merge [] s₁) _ h in
        let rest =
          Forked-stage_parallel items merge [] all s₁ s₂ staged opened.closed opened.end_is tt in
        subst (Good s) (returned (s₂, all, merge) (s', starts, end) h₁) (record {
          grows = λ id there. rest.grows id (opened.grows id there);
          closed = rest.closed;
          starts_are = rest.starts_are;
          end_is = rest.grows merge opened.end_is;
        })
    Staged-stage unknown s s' starts end h closed = absurd (ground (arith, h))

    Sequenced-stage_sequence :
        (ps : Plans) (done done' : Option (List String × String)) (s s' : Staging)
        → stage_sequence prefix fresh hex ps done s ≡ returns (s', done')
        → IsClosed s
        → Done s done
        → Sequenced s s' done'
    Sequenced-stage_sequence nil done done' s s' h closed d =
        subst (λ (r : Staging × Option (List String × String)). Sequenced s r.0 r.1)
          (returned (s, done) (s', done') h)
          (record { grows = λ id there. there; closed = closed; done_is = d })
    Sequenced-stage_sequence (cons plan plans) done done' s s' h closed d =
        let ((s₁, starts, end), staged, h₁) = >>=-inv (stage prefix fresh hex plan s) _ h in
        let one = Staged-stage plan s s₁ starts end staged closed in
        let linked = executions-link done starts s₁ in
        let rest =
          Sequenced-stage_sequence plans (some (extended done starts end)) done'
            (link done starts s₁) s' h₁
            (IsClosed-link done starts s₁ (Done-Grows s s₁ done one.grows d) one.starts_are
              one.closed)
            (subst
              (λ xs.
                Are xs (extended done starts end).0
                × (is_staged xs (extended done starts end).1 ≡ true))
              (sym linked) (Done-extended s s₁ done starts end d one)) in
        record {
          grows = λ id there.
              rest.grows id
                (subst (λ xs. is_staged xs id ≡ true) (sym linked) (one.grows id there));
          closed = rest.closed;
          done_is = rest.done_is;
        }

    Forked-stage_parallel :
        (ps : Plans) (merge : String) (starts starts' : List String) (s s' : Staging)
        → stage_parallel prefix fresh hex ps merge starts s ≡ returns (s', starts')
        → IsClosed s
        → is_staged s.executions merge ≡ true
        → Are s.executions starts
        → Forked s s' starts'
    Forked-stage_parallel nil merge starts starts' s s' h closed here are =
        subst (λ (r : Staging × List String). Forked s r.0 r.1)
          (returned (s, starts) (s', starts') h)
          (record { grows = λ id there. there; closed = closed; starts_are = are })
    Forked-stage_parallel (cons plan plans) merge starts starts' s s' h closed here are =
        let ((s₁, new, end), staged, h₁) = >>=-inv (stage prefix fresh hex plan s) _ h in
        let one = Staged-stage plan s s₁ new end staged closed in
        let merge_is = one.grows merge here in
        let before = All-map (λ id. is_staged s.executions id ≡ true) starts one.grows are in
        let rest =
          Forked-stage_parallel plans merge (starts ++ new) starts' (add_edge end none s₁ merge) s'
            h₁ (All-append (Joins s₁.executions) s₁.edges _ one.closed ((one.end_is, merge_is), tt))
            merge_is
            (All-append (λ id. is_staged s₁.executions id ≡ true) starts new before
              one.starts_are) in
        record {
          grows = λ id there. rest.grows id (one.grows id there);
          closed = rest.closed;
          starts_are = rest.starts_are;
        }

  -- A plan that is staged is a closed graph: every edge joins two of its executions, and its entries and
  -- its exit are among them.
  pub stage_plan-IsClosed :
      (p : Plan) (registry registry' counts : Dict ℕ) (q : StagedPlan)
      → stage_plan prefix fresh hex p registry counts ≡ returns (q, registry')
      → All (Joins q.executions) q.edges
        × Are q.executions q.starts
        × (is_staged q.executions q.end ≡ true)
  unfolding stage_plan
  stage_plan-IsClosed p registry registry' counts q h =
      let start : Staging = record {
        executions = [];
        edges = [];
        counts = counts;
        registry = registry;
      } in
      let ((s, starts, end), staged, h₁) = >>=-inv (stage prefix fresh hex p start) _ h in
      let v = Staged-stage p start s starts end staged tt in
      let same : record { executions = s.executions; edges = s.edges; starts = starts; end = end }
          ≡ q =
        ground (arith, h₁) in
      subst
        (λ (x : StagedPlan).
          All (Joins x.executions) x.edges
          × Are x.executions x.starts
          × (is_staged x.executions x.end ≡ true))
        same (v.closed, v.starts_are, v.end_is)
