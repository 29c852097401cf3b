-- ===== src/Panel/Tests.antt =====
-- A panel with one call that waits until 40, and is cancelled.
use entourage.Prelude.{
  none, some, [], ◌∷◌, true, false, ◌≡◌, refl, not, Dict, assign, lookup, change, select, returns,
  mem_text, is_empty,
}
use entourage.Panel.{
  Work, open_work, new_work, due, next_deadline, waiting, passed, cancel, change_work, fence,
}
use entourage.Panel.Deadlines.{due_at_deadline, cancel_ends_wait}

abbrev table : Dict Work
table = assign "r1" (new_work "child" "task" "wait" none (some 40) true) []

opened : open_work [] "child" "r1" "task" "wait" none (some 40) true ≡ returns table
unfolding open_work assign
opened = refl

due_then : due table 40 ≡ "r1" ∷ []
unfolding due waiting assign select
due_then = refl

due_at_deadline_example : is_empty (due table 40) ≡ not (passed 40 (next_deadline table))
due_at_deadline_example = due_at_deadline table 40

cancelled : cancel table "r1" ≡ returns ("child", change "r1" fence table)
unfolding cancel change_work lookup assign
cancelled = refl

cancel_ends_wait_example : mem_text "r1" (due (change "r1" fence table) 50) ≡ false
cancel_ends_wait_example =
    cancel_ends_wait table (change "r1" fence table) "r1" "child" 50 cancelled
