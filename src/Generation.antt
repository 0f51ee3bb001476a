-- ===== src/Generation.antt =====
-- Durable reservation of agent generations (internal/telemetry/session_generation.go).
pub mod Next
pub mod Reserve
mod Tests
use Prim.Native.Nat.{bit_and, bit_or}
use lisstech_drain_ctl.Prelude.{
  ℕ, ◌+◌, ◌*◌, ◌/◌, ◌%◌, ◌^◌, ◌<◌, ◌≡◌, Bool, true, false, not, ◌&&◌, ◌||◌, Option, none, some,
  List, [], ◌∷◌, leb, ◌==◌, if◌then◌else◌, length, set,
}
use lisstech_drain_ctl.Prelude.Int.{ℤ, pos, negsuc, leb_ℤ}
use lisstech_drain_ctl.Prelude.Rows.{find_row}
use lisstech_drain_ctl.Prelude.Upsert.{upsert}
use lisstech_drain_ctl.Prelude.Bytes.{bytes_equal}
use lisstech_drain_ctl.Host.{GoText, validate_canonical_host}
use lisstech_drain_ctl.Uuid.{
  Uuid, at, Parsed, parsed, not_canonical, not_version_7, parse, to_text, compare_uuid,
}

-- The value of the array, and whether the function returned.
pub record Carry : Type 0 where
  pub value : Uuid
  pub done : Bool

-- `b++` on a byte.
abbrev pub increment : ℕ → ℕ
increment b = (b + 1) % 256

-- The loops over indices: the first byte below 0xff is incremented, those before it become 0.
unfoldable pub carry : List ℕ → Uuid → Carry
carry [] v = record { value = v; done = false }
carry (i ∷ is) v =
    if not (at v i == 0xff)
    then record { value = set v i (increment (at v i)); done = true }
    else carry is (set v i 0)

abbrev pub last_loop : Carry → Option Uuid
last_loop c = if c.done then some c.value else none

unfoldable pub next_at_6 : Uuid → Option Uuid
unfolding carry
next_at_6 v =
    if not (bit_and (at v 6) 0x0f == 0x0f)
    then some (set v 6 (increment (at v 6)))
    else last_loop (carry (5 ∷ 4 ∷ 3 ∷ 2 ∷ 1 ∷ 0 ∷ []) (set v 6 0x70))

unfoldable pub next_at_7 : Uuid → Option Uuid
unfolding next_at_6
next_at_7 v =
    if not (at v 7 == 0xff) then some (set v 7 (increment (at v 7))) else next_at_6 (set v 7 0)

unfoldable pub next_at_8 : Uuid → Option Uuid
unfolding next_at_7
next_at_8 v =
    if not (bit_and (at v 8) 0x3f == 0x3f)
    then some (set v 8 (increment (at v 8)))
    else next_at_7 (set v 8 0x80)

abbrev pub first_loop : Carry → Option Uuid
first_loop c = if c.done then some c.value else next_at_8 c.value

-- nextSessionUUIDv7: none is the error that the identifiers are exhausted.
unfoldable pub next : Uuid → Option Uuid
unfolding carry next_at_8
next v = first_loop (carry (15 ∷ 14 ∷ 13 ∷ 12 ∷ 11 ∷ 10 ∷ 9 ∷ []) v)

abbrev pub stamp : ℕ → Uuid → Uuid
stamp ms v =
    set
      (set
        (set (set (set (set v 0 (ms / 2 ^ 40 % 256)) 1 (ms / 2 ^ 32 % 256)) 2 (ms / 2 ^ 24 % 256)) 3
          (ms / 2 ^ 16 % 256))
        4 (ms / 2 ^ 8 % 256))
      5 (ms % 256)

abbrev pub mark_version : Uuid → Uuid
mark_version v = set v 6 (bit_or (bit_and (at v 6) 0x0f) 0x70)

abbrev pub mark_variant : Uuid → Uuid
mark_variant v = set v 8 (bit_or (bit_and (at v 8) 0x3f) 0x80)

-- newSessionUUIDv7 past its check of the clock. `random` is what rand.Read leaves in the array, none where
-- it fails.
abbrev pub from_random : ℕ → Option Uuid → Option Uuid
from_random ms none = none
from_random ms (some random) = some (mark_variant (mark_version (stamp ms random)))

-- newSessionUUIDv7: none is one of its two errors.
unfoldable pub new_uuid : ℤ → Option Uuid → Option Uuid
new_uuid (negsuc n) random = none
new_uuid (pos ms) random = if leb (2 ^ 48) ms then none else from_random ms random

-- A row of session_generation_fence.
pub record FenceRow : Type 0 where
  pub canonical_host : List ℕ
  pub max_instance_id : List ℕ

abbrev pub of_host : List ℕ → FenceRow → Bool
of_host host r = bytes_equal r.canonical_host host

abbrev pub raise_row : List ℕ → FenceRow → FenceRow
raise_row id r = record r { max_instance_id = id }

-- INSERT … ON CONFLICT(canonical_host) DO UPDATE SET max_instance_id=excluded.max_instance_id
unfoldable pub raise_fence : List ℕ → Uuid → List FenceRow → List FenceRow
unfolding upsert
raise_fence host id fences =
    upsert (of_host host) (raise_row id) (record { canonical_host = host; max_instance_id = id })
      fences

-- Which calls of the database fail.
pub record DbFaults : Type 0 where
  pub begin : Bool
  pub read : Bool
  pub write : Bool
  pub commit : Bool

pub data Reservation : Type 0 where
  reserved : List ℕ → Reservation
  refused : Reservation

abbrev pub is_parsed : Parsed → Bool
is_parsed (parsed v) = true
is_parsed not_canonical = false
is_parsed not_version_7 = false

-- The stored fence has the size and the bits of an identifier.
unfoldable pub fence_ok : List ℕ → Bool
fence_ok stored = length stored == 16 && is_parsed (parse (to_text stored))

-- `CompareUUIDv7(candidate, *maximum) <= 0`
abbrev pub not_above : Uuid → Uuid → Bool
not_above candidate maximum = leb_ℤ (compare_uuid candidate maximum) (pos 0)

-- The identifier to reserve, from the fence and a new identifier; none is an error.
unfoldable pub choose : Option FenceRow → Option Uuid → Option Uuid
unfolding next fence_ok
choose none candidate = candidate
choose (some row) none = none
choose (some row) (some candidate) =
    if not (fence_ok row.max_instance_id)
    then none
    else if not_above candidate row.max_instance_id
    then next row.max_instance_id
    else some candidate

abbrev pub write_fence :
    DbFaults → List ℕ → List FenceRow → Option Uuid → Reservation × List FenceRow
write_fence db host fences none = (refused, fences)
write_fence db host fences (some id) =
    if db.write || db.commit
    then (refused, fences)
    else (reserved (to_text id), raise_fence host id fences)

-- ReserveSessionInstanceID on a writable database, at the clock `now` in Unix milliseconds. An error rolls
-- the transaction back.
unfoldable pub reserve :
    GoText → DbFaults → List ℕ → ℤ → Option Uuid → List FenceRow → Reservation × List FenceRow
unfolding choose new_uuid
reserve go db host now random fences =
    if not (validate_canonical_host go host) || db.begin || db.read
    then (refused, fences)
    else write_fence db host fences (choose (find_row (of_host host) fences) (new_uuid now random))
