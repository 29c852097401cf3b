-- ===== src/Sessions/Service/Fairness.antt =====
-- Which session a claim leases, seen from the database before the claim.
use entourage.Prelude.{
  ℕ, zero, suc, ◌≤◌, String, some, List, [], ◌∷◌, Bool, true, false, ◌≡◌, ◌≢◌, refl, sym, ap, subst,
  ◌∙◌, inl, inr, arith, returns, Option-cases, Bool-cases, All, All-map, update, length, eq_iff,
  find, select,
}
use entourage.Sessions.Types.{Store, Session, Activation}
use entourage.Sessions.Table.{session, set_session, with_id}
use entourage.Sessions.Table.Rows.{
  DistinctIds, All-Found, session-set_session_inv, set_session-DistinctIds,
}
use entourage.Sessions.Ready.{is_ready, has_mail}
use entourage.Sessions.Ready.NullSafe.{is_ready-inv}
use entourage.Sessions.Checkpoint.{lease_live}
use entourage.Sessions.Claim.{
  Request, claim, eligible, candidate, attempts_left, next_row, exhaust, after_pick, lease,
}
use entourage.Sessions.Claim.Choice.{candidate-eligible, least_recent-le}
use entourage.Sessions.Claim.Loop.{exhausted}
use entourage.Sessions.Claim.Outcome.{claim-inv, take_lease-inv}
use entourage.Sessions.Valid.{IsValid}

-- The row can be served, and no row that can be served was claimed longer ago.
pub record Fairest (r : Request) (db : Store) (now : ℕ) (row : Session) : Type 0 where
  pub found : session db row.id ≡ some row
  pub ready : eligible r db now row ≡ true
  pub left : attempts_left r row ≡ true
  pub first :
      All
        (λ s. eligible r db now s ≡ true → attempts_left r s ≡ true → row.last_claim ≤ s.last_claim)
        db.sessions

All-select_inv {κ} :
    (Q : Session → Type κ) (p : Session → Bool) (rows : List Session)
    → All Q (select p rows)
    → All (λ s. p s ≡ true → Q s) rows
unfolding select
All-select_inv Q p [] h = tt
All-select_inv Q p (s ∷ rest) h = elim (Bool-cases (p s)) [
  | inl e ↦
      let h' : All Q (s ∷ select p rest) = (rw (e, select) at h) in
      (λ _. h'.0, All-select_inv Q p rest h'.1)
  | inr e ↦
      let h' : All Q (select p rest) = (rw (e, select) at h) in
      (λ e'. absurd (ground arith), All-select_inv Q p rest h')
]

candidate-first :
    (r : Request) (db : Store) (now : ℕ) {s : Session}
    → candidate r db now ≡ some s
    → All (λ t. eligible r db now t ≡ true → s.last_claim ≤ t.last_claim) db.sessions
unfolding candidate
candidate-first r db now {s} h =
    All-select_inv (λ t. s.last_claim ≤ t.last_claim) (eligible r db now) db.sessions
      (least_recent-le _ h)

All-update_inv {κ} :
    (Q F : Session → Type κ) (p : Session → Bool) (f : Session → Session) (rows : List Session)
    → ((s : Session) → F s → p s ≡ true → Q s)
    → All F rows
    → All Q (update p f rows)
    → All Q rows
unfolding update
All-update_inv Q F p f [] hit hf h = tt
All-update_inv Q F p f (s ∷ rest) hit hf h = elim (Bool-cases (p s)) [
  | inl e ↦ (hit s hf.0 e, All-update_inv Q F p f rest hit hf.1 h.1)
  | inr e ↦ ((rw e at (h.0)), All-update_inv Q F p f rest hit hf.1 h.1)
]

eligible-exhaust :
    (r : Request) (db : Store) (now : ℕ) (id : String) (s : Session)
    → eligible r (set_session db id exhaust) now s ≡ eligible r db now s
unfolding is_ready has_mail set_session
eligible-exhaust r db now id s = refl

-- Parking a row that has no attempt left takes no turn from the others.
Fairest-exhaust :
    (r : Request) (db : Store) (now : ℕ) (s row : Session)
    → DistinctIds db.sessions
    → session db s.id ≡ some s
    → attempts_left r s ≡ false
    → Fairest r (set_session db s.id exhaust) now row
    → Fairest r db now row
Fairest-exhaust r db now s row keys found spent f = record {
  found = elim (session-set_session_inv exhaust (λ t. refl) db s.id row.id row f.found) [
    | inl (t, _, _, e) ↦
        let out = exhausted r (set_session db s.id exhaust) now t in
        let back =
          subst (λ (x : Session). eligible r (set_session db s.id exhaust) now x ≡ false) e out in
        absurd (ground (arith, f.ready, back))
    | inr before ↦ before
  ];
  ready = sym (eligible-exhaust r db now s.id row) ∙ f.ready;
  left = f.left;
  first =
      All-update_inv _ (λ t. find (with_id t.id) db.sessions ≡ some t) (with_id s.id) exhaust
        db.sessions
        (λ t here e ready left.
          let same : t.id ≡ s.id = (eq_iff t.id s.id).0 e in
          let at_s : find (with_id s.id) db.sessions ≡ some t =
            subst (λ k. find (with_id k) db.sessions ≡ some t) same here in
          let that : find (with_id s.id) db.sessions ≡ some s = unfold session in found in
          let this : s ≡ t = ground arith in absurd (ground (arith, ap (attempts_left r) this)))
        (All-Found db.sessions keys) (unfold set_session is_ready has_mail in f.first);
}

next_row-Fairest :
    (fuel : ℕ) (r : Request) (now : ℕ) (db : Store) (row : Session) (db' : Store)
    → DistinctIds db.sessions
    → next_row fuel r now db ≡ some (some row, db')
    → Fairest r db now row
unfolding next_row
next_row-Fairest zero r now db row db' keys h = absurd (ground arith)
next_row-Fairest (suc fuel) r now db row db' keys h = elim (Option-cases (candidate r db now)) [
  | inl idle ↦ absurd (ground arith)
  | inr (s, picked) ↦
      let (found, e) = candidate-eligible r db now keys picked in
      elim (Bool-cases (attempts_left r s)) [
        | inl left ↦
            let this : s ≡ row = ground arith in
            subst (Fairest r db now) this (record {
              found = found;
              ready = e;
              left = left;
              first =
                  All-map _ db.sessions (λ t le ready _. le ready)
                    (candidate-first r db now picked);
            })
        | inr spent ↦ Fairest-exhaust r db now s row keys found spent (
            next_row-Fairest fuel r now (set_session db s.id exhaust) row db'
              (set_session-DistinctIds exhaust (λ t. refl) db s.id keys)
              (rw (picked, spent, next_row) at h))
      ]
]

-- A claim leases a session that is ready and has an attempt left, and no other such session that
-- passes the claim's filters was claimed longer ago.
pub claim-Fairest :
    (db : Store) (r : Request) (now : ℕ) (token : String) (a : Activation) (db' : Store)
    → IsValid db
    → claim db r now token ≡ returns (some a, db')
    → (row : Session) × (a.session_id ≡ row.id) × Fairest r db now row
claim-Fairest db r now token a db' v h =
    let (n, chosen, mid, _, picked, rest) = claim-inv db r now token h in
    elim (Option-cases chosen) [
      | inl nothing ↦ absurd (ground arith)
      | inr (row, e) ↦
          let rest' : after_pick r now n token (some (some row, mid)) ≡ returns (some a, db') =
            subst (λ c. after_pick r now n token (some (c, mid)) ≡ returns (some a, db')) e rest in
          let (_, _, _, _, got) = take_lease-inv r mid now n token row rest' in
          (
            row,
            ground arith,
            next_row-Fairest (suc (length db.sessions)) r now db row mid v.keys
                (picked ∙ ap (λ c. some (c, mid)) e),
          )
    ]

-- A session whose lease is still live, and one that waits out a backoff, is leased to nobody.
pub claim_excludes :
    (db : Store) (r : Request) (now : ℕ) (token : String) (a : Activation) (db' : Store)
    (id : String) (row : Session)
    → IsValid db
    → session db id ≡ some row
    → lease_live now row.lease_until ≡ true
    → claim db r now token ≡ returns (some a, db')
    → a.session_id ≢ id
claim_excludes db r now token a db' id row v found live h same =
    let (taken, e, f) = claim-Fairest db r now token a db' v h in
    let (_, lease) = is_ready-inv db now taken (ground (arith, f.ready)) in
    let here : session db id ≡ some taken =
      subst (λ k. session db k ≡ some taken) (sym e ∙ same) f.found in
    let this : row ≡ taken = ground arith in
    absurd (ground (arith, ap (λ (s : Session). s.lease_until) this))
