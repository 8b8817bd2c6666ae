-- ===== src/Worker/Recovering.antt =====
-- How a worker takes back the jobs whose lease has run out (`recover_stale` and `_recover_in` of
-- workers/worker.py).

use mervio.Error.{
  Error, not_found, tenant_access_denied, permission_denied, job_state_error, job_lease_lost,
  payload_rejected, service_identity_error, value_error, database,
}
use mervio.Prelude.{◌⊎◌, &&-both}
use mervio.Jobs.Recovery.{recover_stale_jobs}
use mervio.Worker.Rotation.{session_for, is_denied}
use mervio.Jobs.Record.{JobRecord}
use mervio.Database.{Session, Db, Tx, Hook}
use mervio.Prelude.{
  List, ℕ, Bool, false, ◌∷◌, Option, true, ◌≡◌, [], if◌then◌else◌, sym, refl, ◌&&◌, none, ap, ◌++◌,
  Bool-cases, inl, inr,
}
use mervio.Jobs.Guard.{Instant}
use mervio.Error.{Result, err, ok, ◌>>=◌, ok-injective, >>=-eq-ok}
use mervio.Dispatch.{Dispatcher, expired_lease_organizations}
use mervio.Jobs.History.{history, attempt, Operation, perform, recover, only_db}

-- What the worker serves: the sessions that it was given, or a dispatcher.
pub data Serving : Type 0 where
  sessions_of : List Session → Serving
  dispatcher_of : Dispatcher → Serving

abbrev pub is_dispatched : Serving → Bool
is_dispatched (sessions_of ss) = false
is_dispatched (dispatcher_of d) = true

-- What `_recover_in` needs besides the session: the rows that are locked, the instant of each
-- transaction, the hook, `self._now()` and the limit.
pub record Sweep : Type 0 where
  pub locked : ℕ → Bool
  pub instants : Session → Instant
  pub hooks : Session → Hook
  pub now : Option ℕ
  pub limit : ℕ

-- `_recover_in`
abbrev pub recover_in : Sweep → Session → Tx (List JobRecord)
recover_in w session =
    recover_stale_jobs w.locked session (w.instants session) (w.hooks session) w.now w.limit

abbrev pub Found : Type 0
Found = Result (List JobRecord × Db)

-- One turn of the loop: a session that is denied is passed over, where the worker is dispatched.
unfoldable pub recovered_or_skipped : Bool → Db → (Db → Found) → Found → Found
recovered_or_skipped dispatched db rest (err e) =
    if dispatched && is_denied e then rest db else err e
recovered_or_skipped dispatched db rest (ok (found, after)) = do
  (others, last) ← rest after
  ok (found ++ others, last)

unfoldable pub recover_sessions : Bool → Sweep → List Session → Db → Found
recover_sessions dispatched w [] db = ok ([], db)
recover_sessions dispatched w (s ∷ ss) db =
    recovered_or_skipped dispatched db (recover_sessions dispatched w ss) (recover_in w s db)

abbrev pub session_list : Dispatcher → List ℕ → List Session
session_list d [] = []
session_list d (o ∷ os) = session_for d o ∷ session_list d os

-- `recover_stale`: the sessions, or one for each organization whose leases have run out.
unfoldable pub recover_stale : Serving → Instant → Sweep → Tx (List JobRecord)
recover_stale (sessions_of ss) query w db = recover_sessions false w ss db
recover_stale (dispatcher_of d) query w db = do
  organizations ← expired_lease_organizations query d.principal none 100 w.now db
  recover_sessions true w (session_list d organizations) db

-- The calls of the queue that the loop makes.
abbrev pub recoveries : Sweep → List Session → List Operation
recoveries w [] = []
recoveries w (s ∷ ss) =
    recover w.locked s (w.instants s) (w.hooks s) w.now w.limit ∷ recoveries w ss

attempt-recovery :
    (w : Sweep) (s : Session) (db : Db)
    → attempt (recover w.locked s (w.instants s) (w.hooks s) w.now w.limit) db
      ≡ elim (only_db (recover_in w s db)) [ ok after ↦ after | err e ↦ db ]
unfolding attempt perform
attempt-recovery w s db = refl

-- The database after one turn, whatever it came to.
abbrev settled : Db → Found → Db
settled db m = elim (only_db m) [ ok after ↦ after | err e ↦ db ]

recovered_or_skipped-ok :
    (dispatched : Bool) (db : Db) (rest : Db → Found) (m : Found) {found : List JobRecord}
    {after : Db}
    → recovered_or_skipped dispatched db rest m ≡ ok (found, after)
    → (others : List JobRecord) × (rest (settled db m) ≡ ok (others, after))
unfolding recovered_or_skipped
recovered_or_skipped-ok dispatched db rest (err e) {found} h =
    elim (Bool-cases (dispatched && is_denied e)) [
      | inl t ↦ (found, rw t at h)
      | inr f ↦ cc (rw f at h)
    ]
recovered_or_skipped-ok dispatched db rest (ok (first, mid)) h =
    let ((others, last), done, e) = >>=-eq-ok (rest mid) _ h in
    (others, rw (← ap (λ (p : List JobRecord × Db). p.1) (ok-injective e)) done)

recover_sessions-history :
    (dispatched : Bool) (w : Sweep) (ss : List Session) (db : Db) {found : List JobRecord}
    {after : Db}
    → recover_sessions dispatched w ss db ≡ ok (found, after)
    → after ≡ history (recoveries w ss) db
unfolding recover_sessions history
recover_sessions-history dispatched w [] db h =
    sym (ap (λ (p : List JobRecord × Db). p.1) (ok-injective h))
recover_sessions-history dispatched w (s ∷ ss) db h =
    let (others, rest) =
      recovered_or_skipped-ok dispatched db (recover_sessions dispatched w ss) (recover_in w s db)
        h in
    rw (history, attempt-recovery w s db)
      (recover_sessions-history dispatched w ss (settled db (recover_in w s db)) rest)

-- One turn of a recovery that goes on: the recovery of the session succeeded, or it was denied to a
-- worker that is dispatched.
abbrev pub Turn : Bool → Found → Type 0
Turn dispatched m =
    ((p : List JobRecord × Db) × (m ≡ ok p))
    ⊎ ((dispatched ≡ true) × (m ≡ err tenant_access_denied))

-- The turns of a recovery, each on the database that the ones before it left.
abbrev pub Turns : Bool → Sweep → List Session → Db → Type 0
Turns dispatched w [] db = Unit
Turns dispatched w (s ∷ ss) db =
    Turn dispatched (recover_in w s db)
    × Turns dispatched w ss
        (attempt (recover w.locked s (w.instants s) (w.hooks s) w.now w.limit) db)

denied_alone : (e : Error) → is_denied e ≡ true → e ≡ tenant_access_denied
denied_alone tenant_access_denied h = refl
denied_alone (not_found s) h = cc h
denied_alone permission_denied h = cc h
denied_alone job_state_error h = cc h
denied_alone job_lease_lost h = cc h
denied_alone payload_rejected h = cc h
denied_alone service_identity_error h = cc h
denied_alone value_error h = cc h
denied_alone (database r) h = cc h

recovered_or_skipped-Turn :
    (dispatched : Bool) (db : Db) (rest : Db → Found) (m : Found) {found : List JobRecord}
    {after : Db}
    → recovered_or_skipped dispatched db rest m ≡ ok (found, after)
    → Turn dispatched m
unfolding recovered_or_skipped
recovered_or_skipped-Turn dispatched db rest (ok p) h = inl (p, refl)
recovered_or_skipped-Turn dispatched db rest (err e) h =
    elim (Bool-cases (dispatched && is_denied e)) [
      | inl t ↦ inr ((&&-both _ _ t).0, ap err (denied_alone e (&&-both _ _ t).1))
      | inr f ↦ cc (rw f at h)
    ]

recover_sessions-Turns :
    (dispatched : Bool) (w : Sweep) (ss : List Session) (db : Db) {found : List JobRecord}
    {after : Db}
    → recover_sessions dispatched w ss db ≡ ok (found, after)
    → Turns dispatched w ss db
unfolding recover_sessions
recover_sessions-Turns dispatched w [] db h = tt
recover_sessions-Turns dispatched w (s ∷ ss) db h =
    let rest = recover_sessions dispatched w ss in
    let (others, later) = recovered_or_skipped-ok dispatched db rest (recover_in w s db) h in
    (
      recovered_or_skipped-Turn dispatched db rest (recover_in w s db) h,
      rw (attempt-recovery w s db)
          (recover_sessions-Turns dispatched w ss (settled db (recover_in w s db)) later),
    )

-- The sessions that a worker serves in a recovery: those given, or those of its principal for the
-- organizations whose leases have run out.
abbrev pub Sessions : Serving → Instant → Sweep → Db → List Session → Type 0
Sessions (sessions_of given) query w db ss = ss ≡ given
Sessions (dispatcher_of d) query w db ss =
    (organizations : List ℕ) × (expired_lease_organizations query d.principal none 100 w.now db
      ≡ ok organizations)
    × (ss ≡ session_list d organizations)

-- The recovery of a worker that returns has done to the database what a sequence of recoveries by the
-- queue does, one in each of its sessions: those that the worker was given, or, of a worker that is
-- dispatched, one of its principal for each organization, of a hundred at most, whose leases have run
-- out. Each of them
-- succeeded, or was denied to a worker that is dispatched and changed nothing.
pub recover_stale-history :
    (serving : Serving) (query : Instant) (w : Sweep) (db : Db) {found : List JobRecord}
    {after : Db}
    → recover_stale serving query w db ≡ ok (found, after)
    → (ss : List Session) × (after ≡ history (recoveries w ss) db)
      × Sessions serving query w db ss
      × Turns (is_dispatched serving) w ss db
unfolding recover_stale
recover_stale-history (sessions_of ss) query w db h =
    (ss, recover_sessions-history false w ss db h, refl, recover_sessions-Turns false w ss db h)
recover_stale-history (dispatcher_of d) query w db h =
    let (organizations, expired, rest) =
      >>=-eq-ok (expired_lease_organizations query d.principal none 100 w.now db) _ h in
    (
      session_list d organizations,
      recover_sessions-history true w (session_list d organizations) db rest,
      (organizations, expired, refl),
      recover_sessions-Turns true w (session_list d organizations) db rest,
    )
