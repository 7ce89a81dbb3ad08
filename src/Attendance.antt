-- ===== src/Attendance.antt =====
-- cpp-backend/include/core/attendance_tracker.h, cpp-backend/src/core/attendance_tracker.cpp: the
-- punches of recognized faces. The rows go to the BulkWriter of the tracker, with its default
-- options; the employees and the camera roles that the database has are an argument of the reloads.
-- std::atoi is a parameter. The int64_t times are unbounded integers here: their overflow is left
-- out.
pub mod Keys
pub mod Memory
pub mod Punches
mod Tests
use vms_ai.Prelude.{
  ℕ, ◌+◌, ◌*◌, ◌-◌, ◌%◌, ◌^◌, ℤ, pos, negsuc, ◌-ℤ◌, ltb_ℤ, leb_ℤ, Bool, true, false, not, ◌&&◌,
  ◌||◌, Option, none, some, List, [], ◌∷◌, ltb, length, if◌then◌else◌, Text, text_beq, bytes, Map,
  lookup, insert, retain, int_eq, nat_eq,
}
use vms_ai.Events.{Float}
use vms_ai.BulkWriter.{BulkWriter, default_options}
use vms_ai.BulkWriter as Writer

pub record AttendanceRow : Type 0 where
  pub person_id : ℤ
  pub employee_id : ℤ
  pub camera_id : ℤ
  pub kind : Text
  pub timestamp_s : ℤ
  pub confidence : Float
  pub snapshot_path : Text
  pub source_rule : Text
  pub metadata_json : Text

pub record DedupEntry : Type 0 where
  pub last_ts_s : ℤ
  pub last_kind : Text

pub record AttendanceTracker : Type 0 where
  pub cooldown_seconds : ℤ
  pub started : Bool
  pub last_event_ts : ℤ
  pub dedup : Map ℕ DedupEntry
  pub camera_role : Map ℤ Text
  pub emp_by_person : Map ℤ ℤ
  pub writer : BulkWriter AttendanceRow

-- The clamp of VMS_ATTENDANCE_DEDUP_SECONDS, unset or empty included.
unfoldable pub read_cooldown_seconds_from_env : (Text → ℤ) → Option Text → ℤ
read_cooldown_seconds_from_env atoi none = pos 60
read_cooldown_seconds_from_env atoi (some []) = pos 60
read_cooldown_seconds_from_env atoi (some (c ∷ cs)) =
    let v = atoi (c ∷ cs) in
    if ltb_ℤ v (pos 1) then pos 1 else if ltb_ℤ (pos 86400) v then pos 86400 else v

abbrev pub new : (Text → ℤ) → Option Text → AttendanceTracker
new atoi env = record {
  cooldown_seconds = read_cooldown_seconds_from_env atoi env;
  started = false;
  last_event_ts = pos 0;
  dedup = [];
  camera_role = [];
  emp_by_person = [];
  writer = Writer.new;
}

unfoldable pub is_outside_cooldown_window : ℤ → ℤ → ℤ → Bool
is_outside_cooldown_window prev_ts_s now_ts_s cooldown_s = leb_ℤ cooldown_s (now_ts_s -ℤ prev_ts_s)

unfoldable pub kind_for_role : Text → Text → Text
kind_for_role role last_kind =
    if text_beq role (bytes "entry")
    then bytes "in"
    else if text_beq role (bytes "exit")
    then bytes "out"
    else if text_beq role (bytes "both")
    then (if text_beq last_kind (bytes "in") then bytes "out" else bytes "in")
    else bytes "seen"

-- static_cast<uint32_t>
unfoldable pub to_uint32 : ℤ → ℕ
to_uint32 (pos n) = n % 2 ^ 32
to_uint32 (negsuc n) = 2 ^ 32 - 1 - n % 2 ^ 32

-- The bits of the two halves do not overlap, so that `|` is the sum.
unfoldable pub pack_key : ℤ → ℤ → ℕ
pack_key person_id camera_id = to_uint32 person_id * 2 ^ 32 + to_uint32 camera_id

abbrev pub role_or : Text → Option Text → Text
role_or fallback none = fallback
role_or fallback (some role) = role

abbrev pub kind_of : Option DedupEntry → Text
kind_of none = []
kind_of (some e) = e.last_kind

unfoldable pub resolve_kind : ℤ → ℕ → AttendanceTracker → Text
resolve_kind camera_id key s =
    let role = role_or [] (lookup camera_id s.camera_role) in
    let last_kind = if text_beq role (bytes "both") then kind_of (lookup key s.dedup) else [] in
    kind_for_role role last_kind

abbrev pub employee_or_none : Option ℤ → ℤ
employee_or_none none = negsuc 0
employee_or_none (some id) = id

unfoldable pub resolve_employee_id : ℤ → AttendanceTracker → ℤ
resolve_employee_id person_id s = employee_or_none (lookup person_id s.emp_by_person)

abbrev pub source_rule_of : Option Text → Text
source_rule_of none = bytes "min_max_fallback"
source_rule_of (some role) = bytes "door_role"

-- The arguments of onFaceRecognized.
pub record Recognition : Type 0 where
  pub camera_id : ℤ
  pub person_id : ℤ
  pub confidence : Float
  pub ts_seconds : ℤ
  pub snapshot_path : Text

-- The test under the first lock: the pair was recorded, and within the cooldown.
abbrev pub held_back : Option DedupEntry → ℤ → ℤ → Bool
held_back none ts cooldown = false
held_back (some e) ts cooldown = not (is_outside_cooldown_window e.last_ts_s ts cooldown)

-- None of the early returns is taken.
unfoldable pub counts : Recognition → AttendanceTracker → Bool
counts r s =
    s.started
    && (not (leb_ℤ r.person_id (pos 0))
        && not (
            held_back (lookup (pack_key r.person_id r.camera_id) s.dedup) r.ts_seconds
              s.cooldown_seconds))

unfoldable pub row_of : Recognition → AttendanceTracker → AttendanceRow
row_of r s = record {
  person_id = r.person_id;
  employee_id = resolve_employee_id r.person_id s;
  camera_id = r.camera_id;
  kind = resolve_kind r.camera_id (pack_key r.person_id r.camera_id) s;
  timestamp_s = r.ts_seconds;
  confidence = r.confidence;
  snapshot_path = r.snapshot_path;
  source_rule = source_rule_of (lookup r.camera_id s.camera_role);
  metadata_json = [];
}

-- The collection of old entries in a map of more than 50000.
unfoldable pub collect : ℤ → Map ℕ DedupEntry → Map ℕ DedupEntry
collect ts m =
    if ltb 50000 (length m)
    then retain (λ (e : DedupEntry). not (ltb_ℤ (pos 86400) (ts -ℤ e.last_ts_s))) m
    else m

unfoldable pub remember : ℕ → ℤ → Text → Map ℕ DedupEntry → Map ℕ DedupEntry
remember key ts kind m = collect ts (insert key (record { last_ts_s = ts; last_kind = kind }) m)

-- What a call does with its row once it is past the returns. The code takes the lock of dedup_ here for
-- the second time, so that the state may be a later one than that of the test where calls overlap.
unfoldable pub record_punch : Recognition → AttendanceRow → AttendanceTracker → AttendanceTracker
record_punch r row s = record s {
  dedup = remember (pack_key r.person_id r.camera_id) r.ts_seconds row.kind s.dedup;
  last_event_ts = r.ts_seconds;
  writer = (Writer.enqueue default_options row s.writer).0;
}

-- A whole call, of which no other call overlaps a part: `counts` and `row_of` are its test and what it
-- reads, `record_punch` is what it writes, each under locks of its own. Two event workers can be in it
-- at a time; their overlapping calls are interleavings of these parts and not of whole calls.
unfoldable pub on_face_recognized : Recognition → AttendanceTracker → AttendanceTracker
unfolding record_punch
on_face_recognized r s = if counts r s then record_punch r (row_of r s) s else s

-- The error text is empty where the call succeeds. `person_of` is the query for the employee.
unfoldable pub record_manual :
    (ℤ → Option ℤ) → ℤ → ℤ → Text → ℤ → AttendanceTracker → AttendanceTracker × Text
record_manual person_of employee_id camera_id kind ts s =
    if leb_ℤ employee_id (pos 0)
    then (s, bytes "employee_id required")
    else if not (
        text_beq kind (bytes "in") || (text_beq kind (bytes "out") || text_beq kind (bytes "seen")))
    then (s, bytes "kind must be in|out|seen")
    else (
      record s { last_event_ts = ts; writer = (Writer.enqueue default_options row s.writer).0 },
      [],
    )
  where
    row : AttendanceRow
    row = record {
      person_id = employee_or_none (person_of employee_id);
      employee_id = employee_id;
      camera_id = camera_id;
      kind = kind;
      timestamp_s = ts;
      confidence = pos (2 ^ 149);
      snapshot_path = [];
      source_rule = bytes "manual";
      metadata_json = [];
    }

-- The rows of a query, each put over what stood under its key.
abbrev pub table {κ} : {V : Type κ} → List (ℤ × V) → Map ℤ V → Map ℤ V
table [] m = m
table ((k, v) ∷ rows) m = table rows (insert k v m)

unfoldable pub reload_employees : List (ℤ × ℤ) → AttendanceTracker → AttendanceTracker
reload_employees rows s = record s { emp_by_person = table rows [] }

unfoldable pub reload_camera_roles : List (ℤ × Text) → AttendanceTracker → AttendanceTracker
reload_camera_roles rows s = record s { camera_role = table rows [] }

unfoldable pub start : List (ℤ × ℤ) → List (ℤ × Text) → AttendanceTracker → AttendanceTracker
start employees roles s =
    let s' = reload_employees employees (reload_camera_roles roles (record s { started = true })) in
    if s.started then s else record s' { writer = Writer.start s'.writer }

-- stop up to the join of the writer's thread.
unfoldable pub stop : AttendanceTracker → AttendanceTracker
stop s =
    if s.started
    then record s { started = false; writer = (Writer.stop_accepting s.writer).0 }
    else s
