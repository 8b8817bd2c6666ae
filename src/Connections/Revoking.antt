-- ===== src/Connections/Revoking.antt =====
-- A connection that is revoked stays revoked.
use mervio.Jobs.Schedule.{check_limit}
use mervio.Tenancy.{manage_connections, read}
use mervio.Error.{ok, >>=-eq-ok, ok-injective, err, not_found}
use mervio.Connections.{
  Connection, revoke_active, find_connection, is_connection, is_active, revoked_status,
  revoke_returned, revoke_connection, fetch_connection, list_connections, is_shown, created_before,
}
use mervio.Database.{Session, Db, open_transaction, fetch_store}
use mervio.Prelude.{
  Bool, ℕ, ◌&&◌, false, ◌≡◌, List, All, arith, ◌∷◌, some, if-elim, [], Bool-cases, refl, inl, inr,
  ◌∙◌, true, ap, ◌≢◌, select, All-take, sort_by, All-sort_by, All-map, All-select,
}

never_active : (b : Bool) → (b && false) ≡ false
never_active b = ground arith

found_at_head :
    (test : Connection → Bool) (c : Connection) (cs : List Connection)
    → test c ≡ true
    → find_connection test (c ∷ cs) ≡ some c
unfolding find_connection
found_at_head test c cs h = rw h refl

found_further :
    (test : Connection → Bool) (c : Connection) (cs : List Connection)
    → test c ≡ false
    → find_connection test (c ∷ cs) ≡ find_connection test cs
unfolding find_connection
found_further test c cs h = rw h refl

module _ (session : Session) (now store id : ℕ) where
  abbrev pub Closed : Connection → Type 0
  Closed c = (is_connection session store id c && is_active c.status) ≡ false

  revoke_active-Closed :
      (cs : List Connection) → All Closed (revoke_active session now store id cs).0
  unfolding revoke_active
  revoke_active-Closed [] = tt
  revoke_active-Closed (c ∷ cs) =
      if-elim (λ (r : List Connection × List Connection). All Closed r.0)
        (is_connection session store id c && is_active c.status)
        (λ e. (never_active (is_connection session store id c), revoke_active-Closed cs))
        (λ e. (e, revoke_active-Closed cs))

  revoke_active_none :
      (cs : List Connection) → All Closed cs → revoke_active session now store id cs ≡ (cs, [])
  unfolding revoke_active
  revoke_active_none [] h = refl
  revoke_active_none (c ∷ cs) h = rw (revoke_active_none cs h.1, h.0) refl

  -- What the UPDATE returns is still found after it.
  revoke_active_found :
      (cs : List Connection) {c : Connection} {rest : List Connection}
      → (revoke_active session now store id cs).1 ≡ c ∷ rest
      → (d : Connection) × (find_connection
            (is_connection session store id)
            (revoke_active session now store id cs).0
          ≡ some d)
  unfolding revoke_active find_connection
  revoke_active_found [] h = absurd (cc h)
  revoke_active_found (c ∷ cs) h =
      let test = is_connection session store id in
      let rest = revoke_active session now store id cs in
      let closed : Connection = record c { status = revoked_status; revoked_at = some now } in
      elim (Bool-cases (test c)) [
        | inl own ↦ elim (Bool-cases (is_active c.status)) [
          | inl act ↦ (closed, rw (own, act) (found_at_head test closed rest.0 own))
          | inr dead ↦ (c, rw (own, dead) (found_at_head test c rest.0 own))
        ]
        | inr foreign ↦
            let (d, found) = revoke_active_found cs (rw foreign at h) in
            (d, rw foreign (found_further test c rest.0 foreign ∙ found))
      ]

  revoke_returned-ok :
      (before : List Connection) (r : List Connection × List Connection) {c : Connection}
      {after : List Connection}
      → revoke_returned session store id before r ≡ ok (c, after)
      → (rest : List Connection) × (r.1 ≡ c ∷ rest) × (r.0 ≡ after)
  unfolding revoke_returned
  revoke_returned-ok before (all, []) h =
      let (current, _, e) = >>=-eq-ok (fetch_connection session store id before) _ h in
      absurd (cc e)
  revoke_returned-ok before (all, d ∷ ds) {c} h =
      let e = ok-injective h in
      (
        ds,
        ap (λ (p : Connection × List Connection). p.0 ∷ ds) e,
        ap (λ (p : Connection × List Connection). p.1) e,
      )

  fetched :
      (cs : List Connection) {d : Connection}
      → find_connection (is_connection session store id) cs ≡ some d
      → fetch_connection session store id cs ≡ ok d
  unfolding fetch_connection
  fetched cs {d} there = rw (fetch_connection, there) refl

  none_returned :
      (cs after : List Connection) {d : Connection}
      → find_connection (is_connection session store id) cs ≡ some d
      → revoke_returned session store id cs (after, []) ≡ err (not_found "active connection")
  unfolding revoke_returned
  none_returned cs after {d} there = rw (revoke_returned, fetched cs there) refl

  -- There is no second UPDATE of a closed connection, which is still found.
  revoked_refused :
      (cs : List Connection) {d : Connection}
      → All Closed cs
      → find_connection (is_connection session store id) cs ≡ some d
      → revoke_returned session store id cs (revoke_active session now store id cs)
        ≡ err (not_found "active connection")
  revoked_refused cs closed there = rw (revoke_active_none cs closed) (none_returned cs cs there)

  shown_other : (c : Connection) → Closed c → is_shown session store false c ≡ true → c.id ≢ id
  shown_other c closed shown = λ same. ground (arith, closed, shown, same)

-- A connection that a session has revoked is closed for it: a second revocation by the session raises
-- that there is no active connection, and the list of the active connections of the store has none
-- by its identifier.
pub revoke_connection-once :
    (session : Session) (now again store id limit : ℕ) (db : Db) (connections : List Connection)
    {c : Connection} {after listed : List Connection}
    → revoke_connection db session now store id connections ≡ ok (c, after)
    → list_connections db session store false limit after ≡ ok listed
    → (revoke_connection db session again store id after ≡ err (not_found "active connection"))
      × All (λ x. x.id ≢ id) listed
unfolding revoke_connection list_connections
revoke_connection-once session now again store id limit db connections {c} {after} h l =
    let (_, may, h1) = >>=-eq-ok (open_transaction db session manage_connections) _ h in
    let updated = revoke_active session now store id connections in
    let (rest, one, same) = revoke_returned-ok session now store id connections updated h1 in
    let closed : All (Closed session again store id) after =
      rw same at (revoke_active-Closed session now store id connections) in
    let (d, there) = revoke_active_found session now store id connections one in
    let found = rw same at there in
    let (_, _, l1) = >>=-eq-ok (open_transaction db session read) _ l in
    let (_, _, l2) = >>=-eq-ok (fetch_store db session store) _ l1 in
    let (_, _, l3) = >>=-eq-ok (check_limit limit) _ l2 in
    let kept = select (is_shown session store false) after in
    (
      rw may (revoked_refused session again store id after closed found),
      rw (← ok-injective l3) (
          All-take (λ x. x.id ≢ id) limit (sort_by created_before kept)
            (All-sort_by (λ x. x.id ≢ id) created_before kept
              (All-map
                (λ x. Closed session again store id x × (is_shown session store false x ≡ true))
                (λ x. x.id ≢ id) (λ x p. shown_other session again store id x p.0 p.1) kept
                (All-select (Closed session again store id) (is_shown session store false) after
                  closed)))),
    )
