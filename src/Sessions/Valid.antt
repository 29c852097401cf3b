-- ===== src/Sessions/Valid.antt =====
-- The well-formedness invariant of the session database, and how single writes keep it.
pub mod Mail
pub mod Incorporate
pub mod Lease
pub mod Holder
pub mod Commit
pub mod Purged
use mathlib.Core.Option.{none-ne-some}
use entourage.Prelude.{
  ℕ, zero, ◌<◌, String, Option, none, some, List, [], ◌∷◌, Bool, true, false, ◌≡◌, refl, sym, subst,
  inl, inr, arith, ◌==◌, eq_iff, any, find, All, All-map, is_some, if◌then◌else◌,
}
use entourage.Sessions.Types.{Session, Store, Input, Status, is_complete, empty}
use entourage.Sessions.Types.Status.{ready, active, waiting, complete, failed}
use entourage.Sessions.Table.{session, set_session, keyed}
use entourage.Sessions.Table.Rows.{
  DistinctIds, session-set_session, session-set_session_inv, set_session-DistinctIds,
}
use entourage.Sessions.Ready.{has_mail}

-- What the columns of a row say for each status.
abbrev pub Columns : Status → Session → Type 0
Columns ready s = (s.token ≡ none) × (s.revision ≡ 0) × (s.completed_at ≡ none)
Columns active s =
    (is_some s.token ≡ true) × (is_some s.lease_until ≡ true) × (s.completed_at ≡ none)
Columns waiting s = (s.token ≡ none) × (0 < s.revision) × (s.completed_at ≡ none)
Columns complete s =
    (s.token ≡ none)
    × (s.lease_until ≡ none)
    × (s.deadline ≡ none)
    × (is_some s.completed_at ≡ true)
Columns failed s = (s.token ≡ none) × (s.lease_until ≡ none) × (s.completed_at ≡ none)

abbrev pub IsCoherent : Session → Type 0
IsCoherent s = Columns s.status s

-- `UNIQUE(session_id, event_id)`.
abbrev pub DistinctKeys : List Input → Type 0
DistinctKeys [] = Unit
DistinctKeys (i ∷ rest) = (any (keyed i.session_id i.event_id) rest ≡ false) × DistinctKeys rest

-- `REFERENCES wake_sessions(id)`.
abbrev pub Owned : Store → Input → Type 0
Owned db i = is_some (session db i.session_id) ≡ true

pub record IsValid (db : Store) : Type 0 where
  pub keys : DistinctIds db.sessions
  pub rows : (id : String) (s : Session) → session db id ≡ some s → IsCoherent s
  pub inputs : DistinctKeys db.inputs
  pub owned : All (Owned db) db.inputs
  pub settled :
      (id : String) (s : Session)
      → session db id ≡ some s
      → is_complete s.status ≡ true
      → has_mail db id ≡ false

pub empty-IsValid : IsValid empty
unfolding session find
empty-IsValid = record {
  keys = tt;
  rows = λ id s h. absurd (none-ne-some s h);
  inputs = tt;
  owned = tt;
  settled = λ id s h c. absurd (none-ne-some s h);
}

module _ (f : Session → Session) (same : (s : Session) → (f s).id ≡ s.id) where
  session_kept :
      (db : Store) (id j : String)
      → is_some (session db j) ≡ true
      → is_some (session (set_session db id f) j) ≡ true
  session_kept db id j h = ground (arith, session-set_session f same db id j)

  -- An update of one row keeps the invariant if it leaves the row coherent, and completes it only
  -- when no mail is pending.
  pub set_session-IsValid :
      (db : Store) (id : String)
      → ((s : Session) → session db id ≡ some s → IsCoherent s → IsCoherent (f s))
      → ((s : Session)
          → session db id ≡ some s
          → is_complete (f s).status ≡ true
          → has_mail db id ≡ false)
      → IsValid db
      → IsValid (set_session db id f)
  set_session-IsValid db id coherent done v = record {
    keys = set_session-DistinctIds f same db id v.keys;
    rows = λ j t h. elim (session-set_session_inv f same db id j t h) [
      | inl (s, _, found, e) ↦ subst IsCoherent e (coherent s found (v.rows id s found))
      | inr found ↦ v.rows j t found
    ];
    inputs = unfold set_session in v.inputs;
    owned =
        unfold set_session in
        All-map (Owned db) db.inputs (λ i. session_kept db id i.session_id) v.owned;
    settled = λ j t h c. elim (session-set_session_inv f same db id j t h) [
      | inl (s, key, found, e) ↦
          unfold set_session has_mail in
          subst (λ k. has_mail db k ≡ false) key
            (done s found (subst (λ (u : Session). is_complete u.status ≡ true) (sym e) c))
      | inr found ↦ unfold set_session has_mail in v.settled j t found c
    ];
  }
