-- ===== src/Audit/Listing.antt =====
-- What a reader of the audit trail sees.
use mervio.Tenancy.{read_audit}
use mervio.Error.{ok, >>=-eq-ok, ok-injective}
use mervio.Prelude.{
  All-take, All-select, List, Within, ◌≡◌, All, true, length, ◌≤◌, select, sort_by, All-sort_by,
  All-Within, length-take, arith,
}
use mervio.Jobs.Schedule.{check_limit}
use mervio.Database.{Session, Db, open_transaction}
use mervio.Audit.{list_events, Filter, AuditRow, is_listed, check_listed_store, older}

-- A row that is shown is one of the trail, of the reader's organization, and passes the filter.
abbrev pub Shown : Session → Filter → List AuditRow → AuditRow → Type 0
Shown session f rows row = Within row rows × (is_listed session f row ≡ true)

-- What `list_events` returns is of the trail, of the organization of the session and as the filter asks,
-- and at most as many rows as the limit, which is at most a thousand; and only an administrator or an
-- owner of the organization reads it.
pub list_events-Shown :
    (db : Db) (session : Session) (f : Filter) (rows : List AuditRow) {listed : List AuditRow}
    → list_events db session f rows ≡ ok listed
    → All (Shown session f rows) listed
      × (length listed ≤ f.limit)
      × (f.limit ≤ 1000)
      × (open_transaction db session read_audit ≡ ok tt)
unfolding list_events check_limit
list_events-Shown db session f rows h =
    let (_, may, h1) = >>=-eq-ok (open_transaction db session read_audit) _ h in
    let (_, _, h2) = >>=-eq-ok (check_listed_store db session f.store_id) _ h1 in
    let (_, bound, h3) = >>=-eq-ok (check_limit f.limit) _ h2 in
    let kept = select (is_listed session f) rows in
    rw (← ok-injective h3) (
      All-take (Shown session f rows) f.limit (sort_by older kept) (
          All-sort_by (Shown session f rows) older kept (
            All-select (λ row. Within row rows) (is_listed session f) rows
              (All-Within (λ row. Within row rows) rows (λ row w. w)))),
      length-take f.limit (sort_by older kept),
      ground (arith, bound),
      may,
    )
