-- ===== src/Mailbox/Tests.antt =====
-- A mailbox run on a small history: two events, a claim that leases the first, and its
-- acknowledgement.
use entourage.Prelude.{
  inl, inr, leb, ℕ, String, none, some, List, [], ◌∷◌, true, false, ◌≡◌, refl, arith, map, returns,
  raises, lookup, assign, change, pop, select, update, take, length, ◌+◌, mem_text,
}
use entourage.Mail.{Event}
use entourage.Mail.Json.{null, num}
use entourage.Mailbox.Types.{
  Mailbox, Item, Letter, ticks, empty, queue, claimable, public, value_error,
}
use entourage.Mailbox.Queue.{
  append, claim, claim_items, claim_any, first_claimable, oldest, visit, acknowledge, release,
  claimable_count, has_claimable, next_lease_delay, soonest, all_items,
}
use entourage.Mailbox.Purge.{
  purge_acknowledged, insert_by_sequence, by_sequence, purgeable_in, remove_events, live_ids,
  remove_keys, purge_deduplication_keys,
}
use entourage.Mailbox.Valid.{IsValid}
use entourage.Mailbox.Run.{
  Call, appends, claims, claims_any, acknowledges, step, run, mailbox_run-IsValid,
}
use entourage.Mailbox.Delivery.{acknowledged_is_final, leased_mail_is_held}
use entourage.Mailbox.Delivery.Starts.{letter_ids}
use entourage.Mailbox.Senders.{append_takes_once}
use entourage.Mailbox.Waiting.{lease_delay_exact}
use entourage.Mailbox.Retention.{unhandled, purge_spares_unhandled}
use entourage.Mailbox.Counts.{claim_serves_in_order}

-- Opening this opens the whole mailbox.
machine : Mailbox → List Call → Mailbox
unfolding run step append claim claim_items claim_any first_claimable oldest visit acknowledge
    release claimable_count has_claimable next_lease_delay soonest all_items purge_acknowledged
    insert_by_sequence by_sequence purgeable_in remove_events live_ids remove_keys
    purge_deduplication_keys queue lookup assign change pop select update
machine = run

abbrev message : String → Event
message id = record {
  event_id = some id;
  kind = some "user";
  source = none;
  request_id = none;
  reply_to = none;
  payload = null;
}

abbrev clock : ℕ → ℕ
clock k = 12

abbrev script : List Call
script =
    appends "c" (message "m1") none "f1" (num 1) 1
    ∷ appends "c" (message "m2") none "f2" (num 2) 2
    ∷ []

abbrev start : Mailbox
start = run empty script

abbrev leased_box : Mailbox
leased_box = (claim start "c" "w" 1 (ticks 30) 10).0

letters_out :
    (claim start "c" "w" 1 (ticks 30) 10).1
    ≡ returns (map public (take 1 (select (claimable 10) (queue start "c"))))
unfolding machine
letters_out = refl

mailbox_run-IsValid_example : IsValid start
mailbox_run-IsValid_example = mailbox_run-IsValid script

start-IsValid : IsValid start
start-IsValid = mailbox_run-IsValid script

leased_box-IsValid : IsValid leased_box
unfolding run step
leased_box-IsValid = mailbox_run-IsValid (
    appends "c" (message "m1") none "f1" (num 1) 1
    ∷ appends "c" (message "m2") none "f2" (num 2) 2
    ∷ claims "c" "w" 1 (ticks 30) 10
    ∷ [])

abbrev first_letters : List Letter
first_letters = map public (take 1 (select (claimable 10) (queue start "c")))

abbrev later_calls : List Call
later_calls =
    appends "c" (message "m1") none "f3" (num 5) 13 ∷ claims_any "v" 5 (ticks 1) 14 14 ∷ []

abbrev acknowledged_box : Mailbox
acknowledged_box = run (acknowledge leased_box "c" "w" ("m1" ∷ []) false clock clock).0 later_calls

abbrev last_letters : List Letter
last_letters = map public (take 9 (select (claimable 99) (queue acknowledged_box "c")))

acknowledged_once : (acknowledge leased_box "c" "w" ("m1" ∷ []) false clock clock).1 ≡ returns tt
unfolding machine
acknowledged_once = refl

queued_first : mem_text "m1" (map (λ (i : Item). i.event_id) (queue leased_box "c")) ≡ true
unfolding machine
queued_first = refl

claimed_last : (claim acknowledged_box "c" "v" 9 (ticks 30) 99).1 ≡ returns last_letters
unfolding machine
claimed_last = refl

acknowledged_is_final_example : mem_text "m1" (letter_ids last_letters) ≡ false
acknowledged_is_final_example =
    acknowledged_is_final leased_box "c" "w" ("m1" ∷ []) false clock clock "m1" later_calls "c" "v"
      9 (ticks 30) 99 last_letters leased_box-IsValid acknowledged_once refl queued_first
      (refl, (refl, tt)) claimed_last

abbrev other_calls : List Call
other_calls =
    appends "c" (message "m3") none "f3" (num 5) 13
    ∷ acknowledges "c" "v" ("m1" ∷ []) false clock clock
    ∷ acknowledges "c" "w" ("m3" ∷ []) false clock clock
    ∷ claims "c" "v" 1 (ticks 1) 14
    ∷ []

abbrev other_letters : List Letter
other_letters = map public (take 9 (select (claimable 39) (queue (run leased_box other_calls) "c")))

claimed_other :
    (claim (run leased_box other_calls) "c" "v" 9 (ticks 30) 39).1 ≡ returns other_letters
unfolding machine
claimed_other = refl

taken_first : mem_text "m1" (letter_ids first_letters) ≡ true
unfolding machine
taken_first = refl

leased_mail_is_held_example : mem_text "m1" (letter_ids other_letters) ≡ false
leased_mail_is_held_example =
    leased_mail_is_held start "c" "w" 1 30 10 first_letters "m1" other_calls "c" "v" 9 (ticks 30) 39
      other_letters start-IsValid letters_out taken_first
      (tt, (inl refl, (inr refl, (omega arith, tt)))) (omega arith) claimed_other

appended_first : (append empty "c" (message "m1") none "f1" (num 1) 1).1 ≡ returns "m1"
unfolding machine
appended_first = refl

abbrev appended_box : Mailbox
appended_box = run (append empty "c" (message "m1") none "f1" (num 1) 1).0 later_calls

append_takes_once_example :
    append appended_box "d" (message "m1") none "f4" (num 20) 20
    ≡ (appended_box, raises value_error)
append_takes_once_example =
    append_takes_once empty "c" "m1" (message "m1") none "f1" (num 1) 1 later_calls "d"
      (message "m1") none "f4" (num 20) 20 appended_first (refl, (refl, tt)) refl

claim_serves_in_order_example :
    (letters : List Letter) × ((claim start "c" "w" 1 (ticks 30) 10).1 ≡ returns letters)
    × (letters ≡ map public (take 1 (select (claimable 10) (queue start "c"))))
    × (claimable_count (claim start "c" "w" 1 (ticks 30) 10).0 "c" 10 + length letters
        ≡ claimable_count start "c" 10)
claim_serves_in_order_example =
    claim_serves_in_order start "c" "w" 1 30 10 refl (omega arith) (omega arith)

-- A mailbox whose only event is leased until 40.
abbrev one_box : Mailbox
one_box =
    run empty (appends "c" (message "m1") none "f1" (num 1) 1 ∷ claims "c" "w" 1 (ticks 30) 10 ∷ [])

nothing_yet : has_claimable one_box (some "c") 15 ≡ false
unfolding machine
nothing_yet = refl

delay_found : next_lease_delay one_box (some "c") 15 ≡ some 25
unfolding machine
delay_found = refl

lease_delay_exact_example : has_claimable one_box (some "c") 40 ≡ leb (15 + 25) 40
lease_delay_exact_example = lease_delay_exact one_box (some "c") 15 25 40 nothing_yet delay_found

purge_spares_unhandled_example :
    unhandled (queue (purge_acknowledged leased_box none (some 50) 10).0 "c")
    ≡ unhandled (queue leased_box "c")
purge_spares_unhandled_example =
    purge_spares_unhandled leased_box none (some 50) 10 "c" leased_box-IsValid
