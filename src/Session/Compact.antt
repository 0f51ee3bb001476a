-- ===== src/Session/Compact.antt =====
-- Fitting a snapshot to the wire (CompactSnapshotForWire of internal/sessiondata/model.go).
pub mod Keeps
pub mod Cut
use Prim.Native.Nat.{bit_and}
use lisstech_drain_ctl.Prelude.{
  ℕ, zero, suc, ◌*◌, Bool, ◌&&◌, Option, none, some, List, [], ◌∷◌, map, ltb, leb, ◌==◌,
  if◌then◌else◌, length, take, get_or,
}
use lisstech_drain_ctl.Session.{Text, SessionRecord, SessionSnapshot}

abbrev pub max_sessions : ℕ
max_sessions = 500

abbrev pub max_snapshot_bytes : ℕ
max_snapshot_bytes = 512 * 1024

-- The loop of truncateSnapshotText: back to the start of a code point.
unfoldable pub truncate_end : Text → ℕ → ℕ
truncate_end value zero = zero
truncate_end value (suc e) =
    if bit_and (get_or value (suc e) 0) 0xc0 == 0x80 then truncate_end value e else suc e

abbrev pub cut_text : Text → ℕ → Option Text
cut_text value zero = none
cut_text value (suc e) = some (take (suc e) value)

-- truncateSnapshotText
unfoldable pub truncate_text : ℕ → Option Text → Option Text
unfolding truncate_end
truncate_text max_bytes none = none
truncate_text max_bytes (some value) =
    if leb (length value) max_bytes
    then some value
    else cut_text value (truncate_end value max_bytes)

-- What a stage returns: the snapshot, an error, or the snapshot that is still too large.
pub data Stage (F : Type 0) : Type 0 where
  compacted : SessionSnapshot F → Stage F
  too_many_sessions marshal_failed too_large : Stage F
  continued : SessionSnapshot F → Stage F

module _ {F : Type 0} where
  abbrev pub clear_processes : SessionRecord F → SessionRecord F
  clear_processes s = record s { processes = [] }

  abbrev pub clear_remote_fx : SessionRecord F → SessionRecord F
  clear_remote_fx s = record s { remote_fx = none }

  abbrev pub clear_cpu_percent : SessionRecord F → SessionRecord F
  clear_cpu_percent s = record s { cpu_percent = none }

  abbrev pub clear_working_set : SessionRecord F → SessionRecord F
  clear_working_set s = record s { working_set_bytes = none }

  abbrev pub clear_input_delay : SessionRecord F → SessionRecord F
  clear_input_delay s = record s { input_delay_ms = none }

  abbrev pub clear_station : SessionRecord F → SessionRecord F
  clear_station s = record s { station = none }

  abbrev pub clear_client_name : SessionRecord F → SessionRecord F
  clear_client_name s = record s { client_name = none }

  abbrev pub clear_client_address : SessionRecord F → SessionRecord F
  clear_client_address s = record s { client_address = none }

  abbrev pub clear_connect_at : SessionRecord F → SessionRecord F
  clear_connect_at s = record s { connect_at_ms = none }

  abbrev pub clear_disconnect_at : SessionRecord F → SessionRecord F
  clear_disconnect_at s = record s { disconnect_at_ms = none }

  abbrev pub clear_idle_since : SessionRecord F → SessionRecord F
  clear_idle_since s = record s { idle_since_ms = none }

  abbrev pub truncate_identity : SessionRecord F → SessionRecord F
  truncate_identity s = record s {
    user = truncate_text 32 s.user;
    domain = truncate_text 32 s.domain;
  }

  abbrev pub clears : List (SessionRecord F → SessionRecord F)
  clears =
      clear_processes ∷ clear_remote_fx ∷ clear_cpu_percent ∷ clear_working_set ∷ clear_input_delay
      ∷ clear_station ∷ clear_client_name ∷ clear_client_address ∷ clear_connect_at
      ∷ clear_disconnect_at ∷ clear_idle_since ∷ []

  abbrev pub each_session :
      (SessionRecord F → SessionRecord F) → SessionSnapshot F → SessionSnapshot F
  each_session f s = record s { sessions = map f s.sessions }

  -- The stages follow each other while the snapshot is too large.
  unfoldable pub and_then : Stage F → (SessionSnapshot F → Stage F) → Stage F
  and_then (continued t) next = next t
  and_then (compacted t) next = compacted t
  and_then too_many_sessions next = too_many_sessions
  and_then marshal_failed next = marshal_failed
  and_then too_large next = too_large

  -- `size` is the length of what json.Marshal returns, none where it fails.
  module _ (size : SessionSnapshot F → Option ℕ) where
    abbrev pub fits : SessionSnapshot F → Option ℕ → Stage F
    fits s none = marshal_failed
    fits s (some n) = if leb n max_snapshot_bytes then compacted s else continued s

    abbrev pub measured : SessionSnapshot F → Stage F
    measured s = fits s (size s)

    unfoldable pub clear_loop :
        List (SessionRecord F → SessionRecord F) → SessionSnapshot F → Stage F
    unfolding and_then
    clear_loop [] s = continued s
    clear_loop (f ∷ fs) s = and_then (measured (each_session f s)) (λ t. clear_loop fs t)

    abbrev pub truncate_stage : SessionSnapshot F → Stage F
    truncate_stage t = measured (each_session truncate_identity t)

    -- CompactSnapshotForWire
    unfoldable pub compact : SessionSnapshot F → Stage F
    unfolding clear_loop truncate_text and_then
    compact s =
        if ltb max_sessions (length s.sessions)
        then too_many_sessions
        else and_then (measured s) (λ t.
          and_then (clear_loop clears t) (λ u. and_then (truncate_stage u) (λ v. too_large)))
