-- ===== src/Snapshots/Tests.antt =====
-- Two snapshots and two reservations of one host, and the theorems of this part at them.
use mathlib.Core.Path.{subst}
use lisstech_drain_ctl.Prelude.{
  ℕ, zero, suc, ◌+◌, ◌*◌, ◌/◌, ◌<◌, ◌≡◌, ◌⊎◌, refl, false, true, none, some, some_inj, List, [],
  ◌∷◌, arith, leb, replicate,
}
use lisstech_drain_ctl.Prelude.Int.{ℤ, pos, negsuc, ltb_ℤ, leb_ℤ, eqb_ℤ}
use lisstech_drain_ctl.Prelude.Bytes.{bytes_equal}
use lisstech_drain_ctl.Prelude.Rows.{find_row, any_row}
use lisstech_drain_ctl.Host.{GoText, validate_canonical_host}
use lisstech_drain_ctl.Uuid.{Uuid, at, parse, parsed, to_text, hex, compare_uuid}
use lisstech_drain_ctl.Uuid.Accepts.{IsArray}
use lisstech_drain_ctl.Generation.{
  FenceRow, of_host, DbFaults, reserved, raise_fence, fence_ok, new_uuid, next, choose, reserve,
}
use lisstech_drain_ctl.Generation.Reserve.{IsBlob, IsRandom}
use lisstech_drain_ctl.Session.{SessionSnapshot, PrivacyPolicy, visibility_full}
use lisstech_drain_ctl.Workload.{WorkloadFloats}
use lisstech_drain_ctl.Snapshots.{SnapshotDb, snapshot_schema, sequence_bytes, big_endian}
use lisstech_drain_ctl.Snapshots.Rows.{StoreEnv, fatal_row}
use lisstech_drain_ctl.Snapshots.Validate.{validate_snapshot_for_store}
use lisstech_drain_ctl.Snapshots.Apply.{
  ApplyFaults, SnapshotApplyResult, apply_fatal, apply_past_fence, apply,
}
use lisstech_drain_ctl.Snapshots.Newest.{here, reserve_in, generations_rise}
use lisstech_drain_ctl.Snapshots.Replay.{Accepts, accepted_rise}

abbrev to_nat : ℤ → ℕ
to_nat (pos n) = n
to_nat (negsuc n) = 0

-- Whole numbers in the place of floating-point numbers.
abbrev whole : WorkloadFloats
whole = record {
  Float = ℕ;
  of_nat = λ n. n;
  of_int = to_nat;
  add = λ a b. a + b;
  times = λ a b. a * b;
  divide = λ a b. a / b;
  at_most = leb;
  is_nan = λ a. false;
  is_inf = λ a. false;
  round = pos;
  floor = pos;
  ceil = λ a. a;
  log = λ a. a;
  pow = λ a b. a * b;
  zero_point = 0;
  half = 1;
  one = 1;
  memory_bin_ratio = 1;
  five = 5;
  twenty = 20;
  hundred = 100;
}

-- Lower-case texts with no space about them stand for themselves.
abbrev lower_case : GoText
lower_case = record { to_lower = λ t. t; trim_space = λ t. t; is_ip = λ t. false }

abbrev env : StoreEnv ℕ
env = record { go = lower_case; canonical_hostname = λ h. h; marshal = λ p. some [] }

-- "rds01"
abbrev host_name : List ℕ
host_name = 114 ∷ 100 ∷ 115 ∷ 48 ∷ 49 ∷ []

abbrev instance_uuid : Uuid
instance_uuid = 1 ∷ 143 ∷ 59 ∷ 32 ∷ 170 ∷ 16 ∷ 124 ∷ 1 ∷ 157 ∷ 255 ∷ 0 ∷ 1 ∷ 2 ∷ 3 ∷ 4 ∷ 5 ∷ []

-- "018f3b20-aa10-7c01-9dff-000102030405"
abbrev instance_text : List ℕ
instance_text =
    48 ∷ 49 ∷ 56 ∷ 102 ∷ 51 ∷ 98 ∷ 50 ∷ 48 ∷ 45 ∷ 97 ∷ 97 ∷ 49 ∷ 48 ∷ 45 ∷ 55 ∷ 99 ∷ 48 ∷ 49 ∷ 45
    ∷ 57 ∷ 100 ∷ 102 ∷ 102 ∷ 45 ∷ 48 ∷ 48 ∷ 48 ∷ 49 ∷ 48 ∷ 50 ∷ 48 ∷ 51 ∷ 48 ∷ 52 ∷ 48 ∷ 53 ∷ []

-- An attempt whose collection failed.
abbrev failed_attempt : ℕ → SessionSnapshot ℕ
failed_attempt n = record {
  schema = snapshot_schema;
  host = host_name;
  agent_instance_id = instance_text;
  sequence = n;
  observed_at_ms = pos 1000;
  collector_version = [];
  logical_cpu_count = 4;
  capabilities = record {
    session_actions = false;
    processes = false;
    input_delay = false;
    remote_fx = false;
  };
  collection_error = some (record { code = 116 ∷ [] });
  sessions = [];
}

abbrev no_faults : ApplyFaults
no_faults = record {
  begin = false;
  read_fence = false;
  read_snapshot = false;
  write_fence = false;
  write_snapshot = false;
  write_workload = false;
  commit = false;
}

abbrev all_shown : PrivacyPolicy
all_shown = record {
  identity = visibility_full;
  client = visibility_full;
  process = visibility_full;
}

abbrev no_rows : SnapshotDb whole
no_rows = record { fences = []; snapshots = []; latest = []; workload = [] }

abbrev after_first : SnapshotDb whole
after_first = (apply whole env no_faults (failed_attempt 1) (pos 2000) all_shown no_rows).1

abbrev taken : ℤ → SnapshotApplyResult
taken now = record { accepted = true; received_at_ms = now; fatal = true; aggregates = none }

first-Accepts : Accepts whole env no_faults (failed_attempt 1) (pos 2000) all_shown no_rows
unfolding Accepts apply apply_past_fence apply_fatal validate_snapshot_for_store
    validate_canonical_host parse bytes_equal ltb_ℤ eqb_ℤ find_row
first-Accepts = (taken (pos 2000), refl, refl)

second-Accepts : Accepts whole env no_faults (failed_attempt 2) (pos 3000) all_shown after_first
unfolding Accepts apply apply_past_fence apply_fatal validate_snapshot_for_store
    validate_canonical_host parse bytes_equal ltb_ℤ eqb_ℤ find_row raise_fence fence_ok compare_uuid
    sequence_bytes big_endian fatal_row any_row to_text hex
second-Accepts = (taken (pos 3000), refl, refl)

one_generation-accepted_rise :
    (a b : Uuid) × (parse instance_text ≡ parsed a)
    × (parse instance_text ≡ parsed b)
    × ((compare_uuid b a ≡ pos 1) ⊎ ((b ≡ a) × (1 < 2)))
one_generation-accepted_rise =
    accepted_rise whole env no_faults (failed_attempt 1) (pos 2000) all_shown no_rows no_faults
      (failed_attempt 2) (pos 3000) all_shown after_first (omega arith) refl first-Accepts
      (here after_first) second-Accepts

abbrev working : DbFaults
working = record { begin = false; read = false; write = false; commit = false }

abbrev sevens : Uuid
sevens = replicate 16 7

sevens-IsRandom : IsRandom (some sevens)
sevens-IsRandom r e = subst IsArray (some_inj e) (record { size = refl; bytes = at-sevens 16 })
  where
    at-sevens : (n i : ℕ) → at (replicate n 7) i < 256
    at-sevens zero i = omega arith
    at-sevens (suc n) zero = omega arith
    at-sevens (suc n) (suc i) = at-sevens n i

no_rows-IsBlob :
    (row : FenceRow) → find_row (of_host host_name) no_rows.fences ≡ some row → IsBlob row
unfolding find_row
no_rows-IsBlob row e = absurd (ground arith)

abbrev stamped : Uuid
stamped = 0 ∷ 0 ∷ 0 ∷ 0 ∷ 7 ∷ 208 ∷ 119 ∷ 7 ∷ 135 ∷ 7 ∷ 7 ∷ 7 ∷ 7 ∷ 7 ∷ 7 ∷ 7 ∷ []

abbrev stamped_next : Uuid
stamped_next = 0 ∷ 0 ∷ 0 ∷ 0 ∷ 7 ∷ 208 ∷ 119 ∷ 7 ∷ 135 ∷ 7 ∷ 7 ∷ 7 ∷ 7 ∷ 7 ∷ 7 ∷ 8 ∷ []

abbrev after_start : SnapshotDb whole
after_start = reserve_in whole env working host_name (pos 2000) (some sevens) no_rows

first-reserved :
    (reserve lower_case working host_name (pos 2000) (some sevens) no_rows.fences).0
    ≡ reserved (to_text stamped)
unfolding reserve validate_canonical_host bytes_equal find_row choose new_uuid
first-reserved = refl

-- The clock ran back, so the second identifier is the one after the first.
second-reserved :
    (reserve lower_case working host_name (pos 1000) (some sevens) after_start.fences).0
    ≡ reserved (to_text stamped_next)
unfolding reserve validate_canonical_host bytes_equal find_row choose new_uuid raise_fence fence_ok
    compare_uuid leb_ℤ next any_row parse to_text hex
second-reserved = refl

restart-generations_rise :
    (a b : Uuid) × (to_text stamped ≡ to_text a)
    × (to_text stamped_next ≡ to_text b)
    × (compare_uuid b a ≡ pos 1)
restart-generations_rise =
    generations_rise whole env host_name working (pos 2000) (some sevens) (to_text stamped) no_rows
      working (pos 1000) (some sevens) (to_text stamped_next) after_start no_rows-IsBlob
      sevens-IsRandom first-reserved (here after_start) second-reserved
