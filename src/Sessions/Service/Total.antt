-- ===== src/Sessions/Service/Total.antt =====
-- A claim with valid arguments never raises, and it serves whoever can be served.
use entourage.Prelude.{
  ℕ, zero, suc, ◌+◌, String, ◌+++◌, Option, none, some, List, [], ◌∷◌, Bool, true, false, ◌≡◌, ◌≢◌,
  refl, sym, ap, subst, ◌∙◌, inl, inr, arith, returns, Option-cases, Bool-cases, length, ◌==◌,
  eq_iff, leb, select, find,
}
use entourage.Sessions.Types.{Store, Session, Activation, terminal}
use Prim.Native.String.{count}
use text.Mathlib.TextLemmas.{length-append}
use entourage.Sessions.Table.{session, set_session, with_id, has_input}
use entourage.Sessions.Table.Rows.{DistinctIds, session-set_session, set_session-DistinctIds}
use entourage.Sessions.Ready.{is_ready, has_mail}
use entourage.Sessions.Mailing.{append_event, append_id, add_input, positive}
use entourage.Sessions.Claim.{
  Request, claim, eligible, candidate, attempts_left, next_row, exhaust, after_pick,
  deliver_deadline, take_lease, timer_event, timer_id, lease_length, lease, max_claim, activation,
}
use entourage.Sessions.Claim.Choice.{candidate-eligible, least_recent-none}
use entourage.Sessions.Claim.Loop.{next_row-enough_fuel}
use entourage.Sessions.Claim.Outcome.{claim-inv, take_lease-inv}
use entourage.Sessions.Valid.{IsValid}
use entourage.Sessions.Valid.Lease.{next_row-outcome, eligible-open}

timer_text-ne-empty : (t : String) → (("timer:" +++ t) == "") ≡ false
timer_text-ne-empty t = elim (Bool-cases (("timer:" +++ t) == "")) [
  | inr other ↦ other
  | inl same ↦
      absurd
        (omega (arith, length-append "timer:" t, ap count ((eq_iff ("timer:" +++ t) "").0 same)))
]

timer_id-ne-empty : (row : Session) → (timer_id row == "") ≡ false
timer_id-ne-empty row = timer_text-ne-empty _

-- Delivering a deadline to an open session does not raise.
deliver_deadline-total :
    (db : Store) (now : ℕ) (row : Session)
    → session db row.id ≡ some row
    → terminal row.status ≡ false
    → (out : Bool × Store) × (deliver_deadline db now row ≡ returns out)
unfolding deliver_deadline append_event append_id
deliver_deadline-total db now row found open_row = elim (Option-cases row.deadline) [
  | inl never ↦ ((false, db), rw (never, deliver_deadline))
  | inr (d, e) ↦ elim (Bool-cases (leb d now)) [
    | inr early ↦ ((false, db), ground arith)
    | inl due ↦ elim (Bool-cases (has_input db row.id (timer_id row))) [
      | inl known ↦ ((false, db), ground (arith, timer_id-ne-empty row))
      | inr new ↦ (
        (true, add_input db row.id (timer_id row) (timer_event row d)),
        ground (arith, timer_id-ne-empty row),
      )
    ]
  ]
]

find-select-ne-nil :
    (p q : Session → Bool) (rows : List Session) (s : Session)
    → find p rows ≡ some s
    → q s ≡ true
    → select q rows ≢ []
unfolding find select
find-select-ne-nil p q [] s h e = cc
find-select-ne-nil p q (t ∷ rest) s h e = ground (arith, find-select-ne-nil p q rest s)

-- If the loop finds nothing to lease, a session that is eligible has no attempt left.
next_row-none :
    (fuel : ℕ) (r : Request) (now : ℕ) (db db' : Store) (id : String) (row : Session)
    → DistinctIds db.sessions
    → next_row fuel r now db ≡ some (none, db')
    → session db id ≡ some row
    → eligible r db now row ≡ true
    → attempts_left r row ≡ false
unfolding next_row
next_row-none zero r now db db' id row keys h found e = absurd (ground arith)
next_row-none (suc fuel) r now db db' id row keys h found e =
    elim (Option-cases (candidate r db now)) [
      | inl idle ↦ absurd (
          find-select-ne-nil (with_id id) (eligible r db now) db.sessions row
            (unfold session in found) e (least_recent-none _ (unfold candidate in idle)))
      | inr (s, picked) ↦ elim (Bool-cases (attempts_left r s)) [
        | inl left ↦ absurd (ground arith)
        | inr spent ↦
            let (there, _) = candidate-eligible r db now keys picked in
            elim (Bool-cases (s.id == id)) [
              | inl same ↦
                  let here : session db id ≡ some s =
                    subst (λ k. session db k ≡ some s) ((eq_iff s.id id).0 same) there in
                  let this : s ≡ row = ground arith in sym (ap (attempts_left r) this) ∙ spent
              | inr other ↦
                  next_row-none fuel r now (set_session db s.id exhaust) db' id row
                    (set_session-DistinctIds exhaust (λ t. refl) db s.id keys)
                    (rw (picked, spent, next_row) at h)
                    (ground (arith, session-set_session exhaust (λ t. refl) db s.id id))
                    (unfold is_ready has_mail set_session in e)
            ]
      ]
    ]

after_pick-total :
    (r : Request) (now n : ℕ) (token : String) (chosen : Option Session) (db : Store)
    → IsValid db
    → candidate r db now ≡ chosen
    → (got : Option Activation) × (db' : Store) × (after_pick r now n token (some (chosen, db))
        ≡ returns (got, db'))
unfolding take_lease
after_pick-total r now n token none db v c = (none, db, refl)
after_pick-total r now n token (some row) db v c =
    let (found, e) = candidate-eligible r db now v.keys c in
    let ((new, mid), delivered) =
      deliver_deadline-total db now row found (eligible-open r db now row e) in
    let leased =
      set_session mid row.id (lease token (now + n) r.worker (max_claim mid.sessions + 1)) in
    (some (activation r row token leased), leased, rw delivered)

-- A claim with valid arguments on a well-formed database returns; it never raises.
pub claim_total :
    (db : Store) (r : Request) (now : ℕ) (token : String) (n : ℕ)
    → IsValid db
    → lease_length r.lease_seconds ≡ returns n
    → positive r.max_events ≡ true
    → positive r.max_attempts ≡ true
    → (got : Option Activation) × (db' : Store) × (claim db r now token ≡ returns (got, db'))
unfolding claim
claim_total db r now token n v e₁ e₂ e₃ =
    let ((chosen, mid), picked) = next_row-enough_fuel r now db v.keys in
    let (valid, c) = next_row-outcome (suc (length db.sessions)) r now db chosen mid picked v in
    let (got, db', e) = after_pick-total r now n token chosen mid valid c in
    (got, db', rw (e₁, e₂, e₃, picked) e)

-- A claim finds work while there is some: on a well-formed database, with valid arguments, it
-- returns an activation if any session passes its filters, is ready and has an attempt left.
pub claim_serves :
    (db : Store) (r : Request) (now : ℕ) (token : String) (n : ℕ) (id : String) (row : Session)
    → IsValid db
    → lease_length r.lease_seconds ≡ returns n
    → positive r.max_events ≡ true
    → positive r.max_attempts ≡ true
    → session db id ≡ some row
    → eligible r db now row ≡ true
    → attempts_left r row ≡ true
    → (a : Activation) × (db' : Store) × (claim db r now token ≡ returns (some a, db'))
claim_serves db r now token n id row v e₁ e₂ e₃ found ready left =
    let (got, db', e) = claim_total db r now token n v e₁ e₂ e₃ in
    elim (Option-cases got) [
      | inr (a, some_a) ↦ (a, db', e ∙ ap (λ g. returns (g, db')) some_a)
      | inl nothing ↦
          let (m, chosen, mid, _, picked, rest) =
            claim-inv db r now token (e ∙ ap (λ g. returns (g, db')) nothing) in
          elim (Option-cases chosen) [
            | inl none_chosen ↦ absurd (
                ground (
                  arith,
                  next_row-none (suc (length db.sessions)) r now db mid id row v.keys
                      (picked ∙ ap (λ c. some (c, mid)) none_chosen) found ready,
                ))
            | inr (s, chosen_s) ↦
                let (_, _, _, _, got_some) = take_lease-inv r mid now m token s (
                  subst (λ c. after_pick r now m token (some (c, mid)) ≡ returns (none, db'))
                    chosen_s rest) in
                absurd (ground arith)
          ]
    ]
