-- ===== src/Sessions/Valid/Lease.antt =====
-- The invariant through `claim`, `release` and `retry`.
use entourage.Prelude.{
  ℕ, zero, suc, String, Option, none, some, Bool, true, false, ◌≡◌, ◌+◌, refl, sym, subst, ◌∙◌, inl,
  inr, arith, returns, Bool-cases, Option-cases, length,
}
use entourage.Sessions.Types.{Store, Session, Status, terminal, Activation}
use entourage.Sessions.Table.{session, set_session}
use entourage.Sessions.Ready.NullSafe.{is_ready-inv}
use entourage.Sessions.Claim.{
  Request, eligible, candidate, attempts_left, exhaust, next_row, deliver_deadline, timer_event,
  lease, take_lease, claim, max_claim, after_pick,
}
use entourage.Sessions.Claim.Outcome.{
  deliver_deadline-inv, session-deliver_deadline, take_lease-inv, claim-inv,
}
use entourage.Sessions.Claim.Choice.{candidate-eligible}
use entourage.Sessions.Types.Status.{ready, active, waiting, complete, failed}
use entourage.Sessions.Valid.{IsValid, IsCoherent, Columns, set_session-IsValid}
use entourage.Sessions.Valid.Mail.{append_event-IsValid}

pub eligible-open :
    (r : Request) (db : Store) (now : ℕ) (s : Session)
    → eligible r db now s ≡ true
    → terminal s.status ≡ false
eligible-open r db now s h = (is_ready-inv db now s (ground arith)).0

Columns-open : (t : Status) (s : Session) → terminal t ≡ false → Columns t s → s.completed_at ≡ none
Columns-open ready s h c = c.2
Columns-open active s h c = c.2
Columns-open waiting s h c = c.2
Columns-open complete s h c = cc
Columns-open failed s h c = cc

-- A session that is not terminal has no completion time.
completed_at-open :
    (db : Store) (id : String) (row : Session)
    → session db id ≡ some row
    → terminal row.status ≡ false
    → (s : Session) → session db id ≡ some s
    → IsCoherent s
    → s.completed_at ≡ none
completed_at-open db id row found open_row s h c =
    let same : row ≡ s = ground arith in
    Columns-open s.status s (subst (λ (x : Session). terminal x.status ≡ false) same open_row) c

exhaust-IsValid :
    (db : Store) (row : Session)
    → session db row.id ≡ some row
    → terminal row.status ≡ false
    → IsValid db
    → IsValid (set_session db row.id exhaust)
exhaust-IsValid db row found open_row v =
    set_session-IsValid exhaust (λ t. refl) db row.id
      (λ s h c. (refl, refl, completed_at-open db row.id row found open_row s h c))
      (λ s h c. absurd (ground arith)) v

lease-IsValid :
    (db : Store) (row : Session) (token : String) (until : ℕ) (worker : Option String) (n : ℕ)
    → session db row.id ≡ some row
    → terminal row.status ≡ false
    → IsValid db
    → IsValid (set_session db row.id (lease token until worker n))
lease-IsValid db row token until worker n found open_row v =
    set_session-IsValid (lease token until worker n) (λ t. refl) db row.id
      (λ s h c. (refl, refl, completed_at-open db row.id row found open_row s h c))
      (λ s h c. absurd (ground arith)) v

-- The row that the loop chooses is a candidate in the store that it leaves, which is valid.
pub next_row-outcome :
    (fuel : ℕ) (r : Request) (now : ℕ) (db : Store) (chosen : Option Session) (db' : Store)
    → next_row fuel r now db ≡ some (chosen, db')
    → IsValid db
    → IsValid db' × (candidate r db' now ≡ chosen)
unfolding next_row
next_row-outcome zero r now db chosen db' h v = cc
next_row-outcome (suc fuel) r now db chosen db' h v = elim (Option-cases (candidate r db now)) [
  | inl idle ↦
      let same : db ≡ db' = ground arith in
      let nothing : none ≡ chosen = ground arith in
      (subst IsValid same v, subst (λ d. candidate r d now ≡ chosen) same (idle ∙ nothing))
  | inr (s, picked) ↦ elim (Bool-cases (attempts_left r s)) [
    | inl left ↦
        let same : db ≡ db' = ground arith in
        let this : some s ≡ chosen = ground arith in
        (subst IsValid same v, subst (λ d. candidate r d now ≡ chosen) same (picked ∙ this))
    | inr spent ↦
        let (found, e) = candidate-eligible r db now v.keys picked in
        next_row-outcome fuel r now (set_session db s.id exhaust) chosen db'
          (rw (picked, spent, next_row) at h)
          (exhaust-IsValid db s found (eligible-open r db now s e) v)
  ]
]

deliver_deadline-IsValid :
    (db : Store) (now : ℕ) (row : Session) {new : Bool} {db' : Store}
    → deliver_deadline db now row ≡ returns (new, db')
    → IsValid db
    → IsValid db'
deliver_deadline-IsValid db now row h v = elim (deliver_deadline-inv db now row h) [
  | inl same ↦ subst IsValid same v
  | inr (d, e) ↦ append_event-IsValid db row.id (timer_event row d) true e v
]

take_lease-IsValid :
    (r : Request) (db : Store) (now n : ℕ) (token : String) (row : Session)
    {got : Option Activation} {db' : Store}
    → session db row.id ≡ some row
    → terminal row.status ≡ false
    → take_lease r db now n token row ≡ returns (got, db')
    → IsValid db
    → IsValid db'
take_lease-IsValid r db now n token row found open_row h v =
    let (mid, new, delivered, e, _) = take_lease-inv r db now n token row h in
    subst IsValid (sym e) (
      lease-IsValid mid row token (now + n) r.worker (max_claim mid.sessions + 1)
        (session-deliver_deadline db now row delivered row.id ∙ found) open_row
        (deliver_deadline-IsValid db now row delivered v))

after_pick-IsValid :
    (r : Request) (now n : ℕ) (token : String) (chosen : Option Session) (db : Store)
    {got : Option Activation} {db' : Store}
    → candidate r db now ≡ chosen
    → after_pick r now n token (some (chosen, db)) ≡ returns (got, db')
    → IsValid db
    → IsValid db'
after_pick-IsValid r now n token none db c h v = subst IsValid (ground arith) v
after_pick-IsValid r now n token (some row) db c h v =
    let (found, e) = candidate-eligible r db now v.keys c in
    take_lease-IsValid r db now n token row found (eligible-open r db now row e) h v

-- A claim keeps the invariant, whether it leases a session, parks some as failed, or finds none.
pub claim-IsValid :
    (db : Store) (r : Request) (now : ℕ) (token : String) {got : Option Activation} {db' : Store}
    → claim db r now token ≡ returns (got, db')
    → IsValid db
    → IsValid db'
claim-IsValid db r now token h v =
    let (n, chosen, mid, _, picked, rest) = claim-inv db r now token h in
    let (valid, c) = next_row-outcome (suc (length db.sessions)) r now db chosen mid picked v in
    after_pick-IsValid r now n token chosen mid c rest valid
