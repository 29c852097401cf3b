-- ===== src/Sessions/Run/Fencing.antt =====
-- A token that a checkpoint or a release has taken away never holds a lease again.
use entourage.Prelude.{
  ℕ, suc, String, Option, none, List, [], ◌∷◌, false, ◌≡◌, ◌≢◌, refl, sym, subst, returns, raises,
  inl, inr, arith, Option-cases, >>=-inv, ◌==◌, length, All, eq_refl, Bool,
}
use entourage.Sessions.Types.{Store, Session, Activation, stale_activation, Seconds}
use entourage.Sessions.Table.{session, set_session}
use entourage.Sessions.Table.Rows.{session-set_session, session-set_session_self}
use entourage.Sessions.Mailing.{append}
use entourage.Sessions.Checkpoint.{
  Proposal, holder, commit, release, retry, checkpoint, drop_lease, reinstate, parked_status,
  backoff,
}
use entourage.Sessions.Checkpoint.Outcome.{commit-Committed, retry-inv}
use entourage.Sessions.Claim.Outcome.{claim-inv}
use entourage.Sessions.Purge.{purge_ids}
use entourage.Sessions.Purge.Outcome.{purge-inv}
use entourage.Sessions.Run.{
  Call, binds, creates, appends, claims, releases, retries, commits, purges, step, run, after-keeps,
  bind_definition-inv,
}
use entourage.Sessions.Run.NotHeld.{
  NotHeld, NotHeld-same, NotHeld-set_session, NotHeld-append_event, NotHeld-create,
  NotHeld-children, NotHeld-publish, NotHeld-incorporate, NotHeld-next_row, NotHeld-after_pick,
  NotHeld-delete,
}

-- The call does not mint this token: `uuid4` gives a claim another one.
abbrev pub MintsOther : String → Call → Type 0
MintsOther token (claims r now fresh) = (fresh == token) ≡ false
MintsOther token _ = Unit

module _ (id token : String) where
  NotHeld-commit :
      (db : Store) (a : Activation) (p : Proposal) (now held_at : ℕ) {u : Unit {0}} {db' : Store}
      → commit db a p now held_at ≡ returns (u, db')
      → NotHeld id token db
      → NotHeld id token db'
  NotHeld-commit db a p now held_at e h =
      let c = commit-Committed db a p now held_at e in
      subst (NotHeld id token) (sym c.result) (
        NotHeld-set_session id token (checkpoint p c.deadline now) (λ t. refl) (λ t _. refl)
          c.published a.session_id
          (NotHeld-publish id token _ p.publish c.sent (
            NotHeld-incorporate id token c.with_children a.session_id p.incorporated
              (NotHeld-children id token db p.spawn c.created h))))

  NotHeld-release :
      (db : Store) (a : Activation) (error : Option String) (retry_after : Option Seconds)
      (now later : ℕ) {u : Unit {0}} {db' : Store}
      → release db a error retry_after now later ≡ returns (u, db')
      → NotHeld id token db
      → NotHeld id token db'
  unfolding release
  NotHeld-release db a error retry_after now later e h =
      let (until, _, e₁) = >>=-inv (backoff retry_after later) _ e in
      let (row, _, e₂) = >>=-inv (holder db now a) _ e₁ in
      subst (NotHeld id token) (ground arith) (
        NotHeld-set_session id token (drop_lease (parked_status row) until error) (λ t. refl)
          (λ t _. refl) db a.session_id h)

  NotHeld-retry :
      (db : Store) (j : String) {b : Bool} {db' : Store}
      → retry db j ≡ returns (b, db')
      → NotHeld id token db
      → NotHeld id token db'
  NotHeld-retry db j e h = elim (retry-inv db j e) [
    | inl same ↦ subst (NotHeld id token) same h
    | inr (row, _, _, done) ↦ subst (NotHeld id token) done (
        NotHeld-set_session id token (reinstate (parked_status row)) (λ t. refl) (λ t clean. clean)
          db j h)
  ]

  NotHeld-step :
      (db : Store) (c : Call)
      → MintsOther token c
      → NotHeld id token db
      → NotHeld id token (step db c)
  unfolding step append
  NotHeld-step db (binds executable encoded) m h =
      after-keeps (NotHeld id token) db _
        (λ u db' e.
          let (ds, done) = bind_definition-inv db executable encoded e in
          subst (NotHeld id token) done (
            NotHeld-same id token db (record db { definitions = ds }) (λ j. unfold session in refl)
              h))
        h
  NotHeld-step db (creates j executable state) m h =
      after-keeps (NotHeld id token) db _
        (λ u db' e. NotHeld-create id token db j executable state e h) h
  NotHeld-step db (appends j event) m h =
      after-keeps (NotHeld id token) db _
        (λ b db' e. NotHeld-append_event id token db j event false e h) h
  NotHeld-step db (claims r now fresh) m h =
      after-keeps (NotHeld id token) db _
        (λ a db' e.
          let (n, chosen, mid, _, picked, rest) = claim-inv db r now fresh e in
          NotHeld-after_pick id token r now n fresh chosen mid m rest
            (NotHeld-next_row id token (suc (length db.sessions)) r now db chosen mid picked h))
        h
  NotHeld-step db (releases a error retry_after now later) m h =
      after-keeps (NotHeld id token) db _
        (λ u db' e. NotHeld-release db a error retry_after now later e h) h
  NotHeld-step db (retries j) m h =
      after-keeps (NotHeld id token) db _ (λ b db' e. NotHeld-retry db j e h) h
  NotHeld-step db (commits a p now held_at) m h =
      after-keeps (NotHeld id token) db _ (λ u db' e. NotHeld-commit db a p now held_at e h) h
  NotHeld-step db (purges before limit) m h =
      after-keeps (NotHeld id token) db _
        (λ n db' e.
          let (t, _, _, done) = purge-inv db before limit e in
          subst (NotHeld id token) done (NotHeld-delete id token db (purge_ids db t limit) h))
        h

  NotHeld-run :
      (db : Store) (cs : List Call)
      → All (MintsOther token) cs
      → NotHeld id token db
      → NotHeld id token (run db cs)
  unfolding run
  NotHeld-run db [] m h = h
  NotHeld-run db (c ∷ cs) m h = NotHeld-run (step db c) cs m.1 (NotHeld-step db c m.0 h)

NotHeld-holder :
    (db : Store) (now : ℕ) (a : Activation)
    → NotHeld a.session_id a.token db
    → holder db now a ≡ raises stale_activation
unfolding holder
NotHeld-holder db now a h = elim (Option-cases (session db a.session_id)) [
  | inl missing ↦ rw (missing, holder)
  | inr (row, found) ↦ ground (arith, h row found)
]

-- Neither a commit nor a release with this activation succeeds, at any time and with any arguments.
abbrev pub Spent : Store → Activation → Type 0
Spent db a =
    ((p' : Proposal) (now' held' : ℕ) (out : Unit {0} × Store)
      → commit db a p' now' held' ≢ returns out)
    × ((error : Option String) (wait : Option Seconds) (now' later : ℕ) (out : Unit {0} × Store)
        → release db a error wait now' later ≢ returns out)

spent : (db : Store) (a : Activation) → NotHeld a.session_id a.token db → Spent db a
spent db a h = (
  λ p' now' held' out e.
      let c = commit-Committed db a p' now' held' {u = out.0} {db' = out.1} e in
      absurd (ground (arith, c.held, NotHeld-holder db held' a h)),
  λ error wait now' later out e.
      unfold release in
      let (until, _, e₁) = >>=-inv (backoff wait later) _ e in
      let (row, held, e₂) = >>=-inv (holder db now' a) _ e₁ in
      absurd (ground (arith, held, NotHeld-holder db now' a h)),
)

cleared :
    (db : Store) (id token : String) (f : Session → Session)
    → ((s : Session) → (f s).id ≡ s.id)
    → ((s : Session) → (f s).token ≡ none)
    → NotHeld id token (set_session db id f)
cleared db id token f same none_left row e = elim (Option-cases (session db id)) [
  | inl missing ↦ absurd (ground (arith, session-set_session f same db id id, eq_refl id))
  | inr (s, found) ↦ ground (arith, session-set_session_self f same db id found, none_left s)
]

commit_clears :
    (db : Store) (a : Activation) (p : Proposal) (now held_at : ℕ) {u : Unit {0}} {db' : Store}
    → commit db a p now held_at ≡ returns (u, db')
    → NotHeld a.session_id a.token db'
commit_clears db a p now held_at h =
    let c = commit-Committed db a p now held_at h in
    subst (NotHeld a.session_id a.token) (sym c.result) (
      cleared c.published a.session_id a.token (checkpoint p c.deadline now) (λ t. refl)
        (λ t. refl))

release_clears :
    (db : Store) (a : Activation) (error : Option String) (retry_after : Option Seconds)
    (now later : ℕ) {u : Unit {0}} {db' : Store}
    → release db a error retry_after now later ≡ returns (u, db')
    → NotHeld a.session_id a.token db'
unfolding release
release_clears db a error retry_after now later e =
    let (until, _, e₁) = >>=-inv (backoff retry_after later) _ e in
    let (row, _, e₂) = >>=-inv (holder db now a) _ e₁ in
    subst (NotHeld a.session_id a.token) (ground arith) (
      cleared db a.session_id a.token (drop_lease (parked_status row) until error) (λ t. refl)
        (λ t. refl))

-- An activation that has committed is spent. After any further calls by anyone, as long as no claim
-- is given its token again, it is stale: neither a commit nor a release with it succeeds, at any
-- time and with any arguments.
pub commit_spends_activation :
    (db db' : Store) (a : Activation) (p : Proposal) (now held_at : ℕ) (cs : List Call)
    → commit db a p now held_at ≡ returns (tt, db')
    → All (MintsOther a.token) cs
    → Spent (run db' cs) a
commit_spends_activation db db' a p now held_at cs h m =
    spent (run db' cs) a
      (NotHeld-run a.session_id a.token db' cs m (commit_clears db a p now held_at h))

-- An activation that was released is spent. After any further calls by anyone, as long as no claim is
-- given its token again, neither a commit nor a release with it succeeds, at any time and with any
-- arguments.
pub release_spends_activation :
    (db db' : Store) (a : Activation) (error : Option String) (wait : Option Seconds)
    (now later : ℕ) (cs : List Call)
    → release db a error wait now later ≡ returns (tt, db')
    → All (MintsOther a.token) cs
    → Spent (run db' cs) a
release_spends_activation db db' a error wait now later cs h m =
    spent (run db' cs) a
      (NotHeld-run a.session_id a.token db' cs m (release_clears db a error wait now later h))
