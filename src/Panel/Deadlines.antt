-- ===== src/Panel/Deadlines.antt =====
-- Wait budgets: which waits are due, and when to look again (entourage/panel.py).
use entourage.Prelude.{
  subst, ℕ, String, [], ◌∷◌, false, ◌≡◌, refl, not, ◌==◌, Dict, Entry, lookup, change, update,
  select, map, returns, mem_text, is_empty, arith, inl, inr, Bool-cases, Option-cases,
}
use entourage.Panel.{
  Work, waiting, is_waiting, due, passed, earliest, next_deadline, change_work, fence, cancel,
}

-- The waits that are due, against the earliest of their budgets.
due_earliest :
    (now : ℕ) (es : Dict Work)
    → is_empty
        (map (λ (e : Entry Work). e.key) (select (λ (e : Entry Work). passed now e.value.until) es))
      ≡ not (passed now (earliest es))
unfolding select
due_earliest now [] = refl
due_earliest now (e ∷ es) = elim (Option-cases e.value.until) [
  | inl endless ↦ ground (arith, endless, due_earliest now es)
  | inr (t, budget) ↦ elim (Option-cases (earliest es)) [
    | inl last ↦ ground (arith, budget, last, due_earliest now es)
    | inr (u, more) ↦ ground (arith, budget, more, due_earliest now es)
  ]
]

-- Some wait is due at a time if and only if `next_deadline` gives a deadline that has passed by then:
-- sleeping until the next deadline misses no wait.
pub due_at_deadline :
    (table : Dict Work) (now : ℕ)
    → is_empty (due table now) ≡ not (passed now (next_deadline table))
unfolding due next_deadline
due_at_deadline table now = due_earliest now (waiting table)

cancelled_not_due :
    (id : String) (now : ℕ) (es : Dict Work)
    → mem_text id (
        map
          (λ (e : Entry Work). e.key)
          (select
            (λ (e : Entry Work). passed now e.value.until)
            (select is_waiting (change id fence es))))
      ≡ false
unfolding change update select
cancelled_not_due id now [] = refl
cancelled_not_due id now (e ∷ es) = elim (Bool-cases (e.key == id)) [
  | inl same ↦ rw same (cancelled_not_due id now es)
  | inr other ↦ ground (arith, other, cancelled_not_due id now es)
]

-- Once a call is cancelled, its wait is never due: nobody is held up by it any more.
pub cancel_ends_wait :
    (table table' : Dict Work) (id to : String) (now : ℕ)
    → cancel table id ≡ returns (to, table')
    → mem_text id (due table' now) ≡ false
unfolding cancel change_work due waiting
cancel_ends_wait table table' id to now h = elim (Option-cases (lookup id table)) [
  | inl missing ↦ absurd (ground (arith, h, missing))
  | inr (w, found) ↦
      let same : change id fence table ≡ table' = ground (arith, h, found) in
      subst
        (λ (t : Dict Work).
          mem_text id (
            map (λ (e : Entry Work). e.key)
              (select (λ (e : Entry Work). passed now e.value.until) (select is_waiting t)))
          ≡ false)
        same (cancelled_not_due id now table)
]
