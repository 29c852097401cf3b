-- ===== src/Monitors/Spells.antt =====
-- Lapses and observations of monitors (entourage/monitors.py).
use entourage.Prelude.{
  ℕ, suc, String, Option, none, some, [], ◌∷◌, true, false, ◌==◌, ◌≡◌, refl, ap, subst, sym, ◌∙◌,
  ◌⊎◌, inl, inr, arith, Bool-cases, Option-cases, eq_iff, is_some, length, select, Dict, Entry,
  lookup, assign, pop, change, lookup-assign, lookup-pop, lookup-change, lookup-change_other, All,
  returns, >>=-inv,
}
use entourage.Monitors.{
  MonitorDict, Armed, matches, is_due, arm, disarm, observe, mark_lapsed, lapse, known,
  armed_record,
}

-- A step of the store that leaves the monitor `id` in its quiet spell: it neither disarms it nor
-- observes what it expects.
pub data Step (id : String) : Dict Armed → Dict Armed → Type 0 where
  arms : {s s' : Dict Armed} (m : MonitorDict) (now : ℕ) → arm s m now ≡ returns s' → Step id s s'
  disarms :
      {s : Dict Armed} (other : String) → (other == id) ≡ false → Step id s ((disarm s other).1)
  observes :
      {s : Dict Armed} (correlation_id source : Option String) (now : ℕ) {r : Armed}
      → lookup id s ≡ some r
      → matches r correlation_id source ≡ false
      → Step id s ((observe s correlation_id source now).1)
  marks : {s : Dict Armed} (other : String) → Step id s (mark_lapsed s other)

pub data Steps (id : String) : Dict Armed → Dict Armed → Type 0 where
  none_left : {s : Dict Armed} → Steps id s s
  then_ : {s s' s'' : Dict Armed} → Step id s s' → Steps id s' s'' → Steps id s s''

-- A heartbeat whose lapse has fired.
record Silent (id : String) (s : Dict Armed) : Type 0 where
  pub entry : Armed
  pub there : lookup id s ≡ some entry
  pub lapsed : entry.lapsed ≡ true
  pub heartbeat : entry.monitor.deadline ≡ none

lookup-observe :
    (id : String) (correlation_id source : Option String) (now : ℕ) (s : Dict Armed) (r : Armed)
    → lookup id s ≡ some r
    → matches r correlation_id source ≡ false
    → lookup id (observe s correlation_id source now).1 ≡ some r
unfolding lookup observe
lookup-observe id correlation_id source now [] r h other = cc
lookup-observe id correlation_id source now (e ∷ es) r h other = elim (Bool-cases (e.key == id)) [
  | inl same ↦
      let value : e.value ≡ r = ground (arith, h, same) in
      let stays : matches e.value correlation_id source ≡ false =
        subst (λ (x : Armed). matches x correlation_id source ≡ false) (sym value) other in
      rw (stays, observe) ground (arith, same, value)
  | inr differs ↦
      let rest =
        lookup-observe id correlation_id source now es r (ground (arith, h, differs)) other in
      elim (Bool-cases (matches e.value correlation_id source)) [
        | inr missed ↦ rw (missed, observe) ground (arith, differs, rest)
        | inl matched ↦ elim (Bool-cases (is_some e.value.monitor.deadline)) [
          | inl met ↦ rw (matched, met, observe) rest
          | inr beats ↦ rw (matched, beats, observe) ground (arith, differs, rest)
        ]
      ]
]

Silent-arm :
    (id : String) (s s' : Dict Armed) (m : MonitorDict) (now : ℕ)
    → arm s m now ≡ returns s'
    → Silent id s
    → Silent id s'
unfolding arm
Silent-arm id s s' m now h v =
    let (key, _, h₁) = >>=-inv (known m.monitor_id) _ h in
    elim (Option-cases (lookup key s)) [
      | inr (r, taken) ↦ let same : s ≡ s' = ground (arith, h₁, taken) in subst (Silent id) same v
      | inl free ↦
          let same : assign key (armed_record m now) s ≡ s' = ground (arith, h₁, free) in
          subst (Silent id) same (record {
            entry = v.entry;
            there = elim (Bool-cases (key == id)) [
              | inl clash ↦
                  absurd
                    (ground (arith, free, v.there, ap (λ k. lookup k s) ((eq_iff key id).0 clash)))
              | inr differs ↦
                  ground (arith, lookup-assign key id (armed_record m now) s, differs, v.there)
            ];
            lapsed = v.lapsed;
            heartbeat = v.heartbeat;
          })
    ]

Silent-mark_lapsed :
    (id : String) (s : Dict Armed) (other : String) → Silent id s → Silent id (mark_lapsed s other)
unfolding mark_lapsed
Silent-mark_lapsed id s other v = elim (Option-cases (lookup other s)) [
  | inl unknown ↦ rw (unknown, mark_lapsed) v
  | inr (r, armed) ↦ elim (Bool-cases (other == id)) [
    | inl same ↦
        let found : lookup id s ≡ some r =
          ap (λ k. lookup k s) (sym ((eq_iff other id).0 same)) ∙ armed in
        let entry : v.entry ≡ r = ground (arith, found, v.there) in
        let beats : is_some r.monitor.deadline ≡ false =
          ground (arith, ap (λ (x : Armed). x.monitor.deadline) entry, v.heartbeat) in
        let at_id : lookup id (change other lapse s) ≡ some (lapse r) =
          ap (λ k. lookup id (change k lapse s)) ((eq_iff other id).0 same)
          ∙ ground (arith, lookup-change id lapse s, found) in
        rw (armed, mark_lapsed)
          (rw beats (record {
            entry = lapse r;
            there = at_id;
            lapsed = refl;
            heartbeat = ground (arith, ap (λ (x : Armed). x.monitor.deadline) entry, v.heartbeat);
          }))
    | inr differs ↦ elim (Bool-cases (is_some r.monitor.deadline)) [
      | inl one_shot ↦
          rw (armed, mark_lapsed)
            (rw one_shot (record {
              entry = v.entry;
              there = lookup-pop other id s ∙ ground (arith, differs, v.there);
              lapsed = v.lapsed;
              heartbeat = v.heartbeat;
            }))
      | inr beats ↦
          rw (armed, mark_lapsed)
            (rw beats (record {
              entry = v.entry;
              there = lookup-change_other other id lapse s differs ∙ v.there;
              lapsed = v.lapsed;
              heartbeat = v.heartbeat;
            }))
    ]
  ]
]

Silent-step : (id : String) (s s' : Dict Armed) → Step id s s' → Silent id s → Silent id s'
unfolding disarm pop
Silent-step id s s' (arms m now armed) h = Silent-arm id s s' m now armed h
Silent-step id s s' (disarms other differs) h = record {
  entry = h.entry;
  there = lookup-pop other id s ∙ ground (arith, differs, h.there);
  lapsed = h.lapsed;
  heartbeat = h.heartbeat;
}
Silent-step id s s' (observes correlation_id source now {r} found other) h =
    let same : h.entry ≡ r = ground (arith, found, h.there) in
    record {
      entry = h.entry;
      there =
          lookup-observe id correlation_id source now s h.entry h.there
            (subst (λ (x : Armed). matches x correlation_id source ≡ false) (sym same) other);
      lapsed = h.lapsed;
      heartbeat = h.heartbeat;
    }
Silent-step id s s' (marks other) h = Silent-mark_lapsed id s other h

Silent-first_lapse :
    (id : String) (s : Dict Armed) (r : Armed)
    → lookup id s ≡ some r
    → r.monitor.deadline ≡ none
    → Silent id (mark_lapsed s id)
unfolding mark_lapsed
Silent-first_lapse id s r there beats =
    let heartbeat : is_some r.monitor.deadline ≡ false = ground (arith, beats) in
    rw (there, mark_lapsed)
      (rw heartbeat (record {
        entry = lapse r;
        there = ground (arith, lookup-change id lapse s, there);
        lapsed = refl;
        heartbeat = beats;
      }))

not_due :
    (id : String) (s s' : Dict Armed) (now : ℕ)
    → Silent id s
    → Steps id s s'
    → (r : Armed) × (lookup id s' ≡ some r) × (is_due r now ≡ returns false)
unfolding is_due
not_due id s s' now h none_left = (h.entry, h.there, rw h.lapsed refl)
not_due id s s' now h (then_ {s' = t} step steps) =
    not_due id t s' now (Silent-step id s t step h) steps

-- Once an armed heartbeat was marked as lapsed, the monitor stays armed and is not due at any time,
-- however often monitors are armed and marked and whatever else is disarmed or observed, until an
-- observation that it expects, or its own disarming, ends the spell: one lapse fires for each quiet
-- spell.
pub one_lapse_for_each_spell :
    (id : String) (s s' : Dict Armed) (r₀ : Armed) (now : ℕ)
    → lookup id s ≡ some r₀
    → r₀.monitor.deadline ≡ none
    → Steps id (mark_lapsed s id) s'
    → (r : Armed) × (lookup id s' ≡ some r) × (is_due r now ≡ returns false)
one_lapse_for_each_spell id s s' r₀ now there beats steps =
    not_due id (mark_lapsed s id) s' now (Silent-first_lapse id s r₀ there beats) steps

-- What an observation leaves: monitors that do not match it, and matching heartbeats in a new window.
abbrev pub Observed : Option String → Option String → ℕ → Armed → Type 0
Observed correlation_id source now r =
    (matches r correlation_id source ≡ false)
    ⊎ ((r.monitor.deadline ≡ none) × (r.lapsed ≡ false) × (r.last_seen ≡ now))

-- An observation reports how many monitors matched, and every monitor that it leaves either does not
-- match or is a heartbeat whose window has restarted and whose lapse is cleared.
pub observe_restarts :
    (s : Dict Armed) (correlation_id source : Option String) (now : ℕ)
    → ((observe s correlation_id source now).0
        ≡ length (select (λ (e : Entry Armed). matches e.value correlation_id source) s))
      × All
          (λ (e : Entry Armed). Observed correlation_id source now e.value)
          (observe s correlation_id source now).1
unfolding observe select
observe_restarts [] correlation_id source now = (refl, tt)
observe_restarts (e ∷ es) correlation_id source now =
    let (count, all) = observe_restarts es correlation_id source now in
    elim (Bool-cases (matches e.value correlation_id source)) [
      | inr missed ↦ rw (missed, observe, select) (count, (inl missed, all))
      | inl matched ↦ elim (Bool-cases (is_some e.value.monitor.deadline)) [
        | inl met ↦ rw (matched, met, observe, select) (ap suc count, all)
        | inr beats ↦
            rw (matched, beats, observe, select)
              (ap suc count, (inr (ground (arith, beats), refl, refl), all))
      ]
    ]
