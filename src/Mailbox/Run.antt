-- ===== src/Mailbox/Run.antt =====
-- Histories of a mailbox: any sequence of calls, by any callers (entourage/mailbox.py).
use entourage.Prelude.{ℕ, String, Option, List, [], ◌∷◌, Bool}
use entourage.Mail.{Json, Event}
use entourage.Mailbox.Types.{Mailbox, Duration, empty}
use entourage.Mailbox.Queue.{append, claim, claim_any, acknowledge, release}
use entourage.Mailbox.Purge.{purge_acknowledged, purge_deduplication_keys}
use entourage.Mailbox.Valid.{IsValid, empty-IsValid}
use entourage.Mailbox.Valid.Calls.{
  append-IsValid, claim-IsValid, claim_any-IsValid, acknowledge-IsValid, release-IsValid,
}
use entourage.Mailbox.Valid.Purged.{purge_acknowledged-IsValid, purge_deduplication_keys-IsValid}

-- A call, with the fresh id and the readings of the clock that it meets.
pub data Call : Type 0 where
  appends : String → Event → Option Json → String → Json → ℕ → Call
  claims : String → String → ℕ → Duration → ℕ → Call
  claims_any : String → ℕ → Duration → ℕ → ℕ → Call
  acknowledges : String → String → List String → Bool → (ℕ → ℕ) → (ℕ → ℕ) → Call
  releases : String → String → List String → (ℕ → ℕ) → Call
  purges : Option String → Option ℕ → ℕ → Call
  purges_keys : ℕ → ℕ → Call

unfoldable pub step : Mailbox → Call → Mailbox
step mb (appends key e created fresh now seen_at) = (append mb key e created fresh now seen_at).0
step mb (claims key consumer limit lease now) = (claim mb key consumer limit lease now).0
step mb (claims_any consumer limit lease now later) =
    (claim_any mb consumer limit lease now later).0
step mb (acknowledges key consumer ids force clock stamp) =
    (acknowledge mb key consumer ids force clock stamp).0
step mb (releases key consumer ids clock) = (release mb key consumer ids clock).0
step mb (purges key older_than limit) = (purge_acknowledged mb key older_than limit).0
step mb (purges_keys older_than limit) = (purge_deduplication_keys mb older_than limit).0

unfoldable pub run : Mailbox → List Call → Mailbox
run mb [] = mb
run mb (c ∷ cs) = run (step mb c) cs

step-IsValid : (mb : Mailbox) (c : Call) → IsValid mb → IsValid (step mb c)
unfolding step
step-IsValid mb (appends key e created fresh now seen_at) v =
    append-IsValid mb key e created fresh now seen_at v
step-IsValid mb (claims key consumer limit lease now) v =
    claim-IsValid mb key consumer limit lease now v
step-IsValid mb (claims_any consumer limit lease now later) v =
    claim_any-IsValid mb consumer limit lease now later v
step-IsValid mb (acknowledges key consumer ids force clock stamp) v =
    acknowledge-IsValid mb key consumer ids force clock stamp v
step-IsValid mb (releases key consumer ids clock) v = release-IsValid mb key consumer ids clock v
step-IsValid mb (purges key older_than limit) v =
    purge_acknowledged-IsValid mb key older_than limit v
step-IsValid mb (purges_keys older_than limit) v =
    purge_deduplication_keys-IsValid mb older_than limit v

pub run-IsValid : (mb : Mailbox) (cs : List Call) → IsValid mb → IsValid (run mb cs)
unfolding run
run-IsValid mb [] v = v
run-IsValid mb (c ∷ cs) v = run-IsValid (step mb c) cs (step-IsValid mb c v)

-- After any history of calls on a new mailbox, whether they raised or not, the mailbox is well
-- formed: every queued event has a known id that belongs to its conversation and to no other event
-- of the queue, queues are in the order of the sequence numbers, and consumer, deadline and time of
-- acknowledgement fit each event's status.
pub mailbox_run-IsValid : (cs : List Call) → IsValid (run empty cs)
mailbox_run-IsValid cs = run-IsValid empty cs empty-IsValid
