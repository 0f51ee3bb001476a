-- ===== src/Freshness.antt =====
-- Offline and recovery transitions of the hosts (internal/telemetry/freshness.go).
pub mod Once
pub mod Tests
use lisstech_drain_ctl.Prelude.{
  String, Bool, true, false, not, ◌&&◌, Option, none, some, List, ◌∷◌, str_eq, if◌then◌else◌,
}
use lisstech_drain_ctl.Prelude.Int.{ℤ, pos, ltb_ℤ, eqb_ℤ}
use lisstech_drain_ctl.Prelude.Rows.{update_where, delete_where, find_row, any_row}

-- What the code uses of host names: `strings.ToUpper(strings.TrimSpace(h))`, and the text that SQLite
-- compares under COLLATE NOCASE.
pub record HostNames : Type 0 where
  pub canonical : String → String
  pub nocase : String → String

-- A row of servers, as far as freshness reads it.
pub record ServerRow : Type 0 where
  pub hostname : String
  pub last_seen_ms : ℤ

-- A row of host_freshness.
pub record FreshnessRow : Type 0 where
  pub host : String
  pub report_epoch_ms : ℤ
  pub offline_emitted_at_ms : Option ℤ

pub record Db : Type 0 where
  pub servers : List ServerRow
  pub freshness : List FreshnessRow

-- sql.NullInt64.Valid
abbrev pub is_set : Option ℤ → Bool
is_set none = false
is_set (some t) = true

-- `WHERE host = ? COLLATE NOCASE`
abbrev pub is_host : HostNames → String → FreshnessRow → Bool
is_host names host r = str_eq (names.nocase r.host) (names.nocase host)

abbrev pub is_server : HostNames → String → ServerRow → Bool
is_server names host r = str_eq (names.nocase r.hostname) (names.nocase host)

abbrev pub seen_at : ℤ → Option ServerRow → Bool
seen_at epoch none = false
seen_at epoch (some r) = eqb_ℤ r.last_seen_ms epoch

-- The query of the servers table that transition makes first.
unfoldable pub is_current : HostNames → String → ℤ → Bool → Db → Bool
is_current names host epoch offline db =
    if offline
    then seen_at epoch (find_row (is_server names host) db.servers)
    else any_row (is_server names host) db.servers

abbrev pub marker : ℤ → Bool → Option ℤ
marker at offline = if offline then some at else none

abbrev pub freshness_row : String → ℤ → Option ℤ → FreshnessRow
freshness_row host epoch mark = record {
  host = host;
  report_epoch_ms = epoch;
  offline_emitted_at_ms = mark;
}

-- Whether the row that was loaded is written, and what the transition then returns.
unfoldable pub writes : ℤ → Bool → FreshnessRow → Bool
writes epoch offline r =
    if ltb_ℤ epoch r.report_epoch_ms
    then false
    else if offline
    then not (eqb_ℤ epoch r.report_epoch_ms && is_set r.offline_emitted_at_ms)
    else not (eqb_ℤ epoch r.report_epoch_ms && not (is_set r.offline_emitted_at_ms))

unfoldable pub transitioned : Bool → FreshnessRow → Bool
transitioned offline r = if offline then true else is_set r.offline_emitted_at_ms

-- transition past its load of the row of the host.
unfoldable pub after_load : HostNames → String → ℤ → ℤ → Bool → Db → Option FreshnessRow → Db × Bool
unfolding writes transitioned
after_load names host epoch at offline db none =
    (record db { freshness = freshness_row host epoch (marker at offline) ∷ db.freshness }, offline)
after_load names host epoch at offline db (some r) =
    if writes epoch offline r
    then (
      record db {
        freshness =
            update_where (is_host names host) (λ x. freshness_row host epoch (marker at offline))
              db.freshness;
      },
      transitioned offline r,
    )
    else (db, false)

-- transition
unfoldable pub transition : HostNames → String → ℤ → ℤ → Bool → Db → Db × Bool
unfolding is_current after_load
transition names hostname epoch at offline db =
    let host = names.canonical hostname in
    if is_current names host epoch offline db
    then after_load names host epoch at offline db (find_row (is_host names host) db.freshness)
    else (db, false)

-- MarkOffline
unfoldable pub mark_offline : HostNames → String → ℤ → ℤ → Db → Db × Bool
unfolding transition
mark_offline names host epoch now db = transition names host epoch now true db

-- MarkFresh
unfoldable pub mark_fresh : HostNames → String → ℤ → Db → Db × Bool
unfolding transition
mark_fresh names host epoch db = transition names host epoch (pos 0) false db

-- Remove
unfoldable pub remove : HostNames → String → Db → Db × Bool
remove names hostname db =
    let host = names.canonical hostname in
    (
      record db { freshness = delete_where (is_host names host) db.freshness },
      any_row (is_host names host) db.freshness,
    )
