-- ===== src/Events.antt =====
-- cpp-backend/include/events/event_types.h, cpp-backend/src/events/event_types.cpp: the event that the detectors raise, and
-- the names of its enums. A finite float is an integral multiple of 2^-149 and is modelled by that
-- integer, so that comparisons are exact; NaN and the infinities are left out. A
-- system_clock::time_point is the signed number of the clock's ticks since the epoch. The JSON
-- metadata is kept as its dump: the parts modelled here copy it only.
pub mod Names
pub use vms_ai.Prelude.{Float}
use vms_ai.Prelude.{
  ℕ, ℤ, ◌≡◌, Bool, Eq, beq_of, beq_of_iff, Text, bytes, text_beq, if◌then◌else◌, List,
}

pub data EventType : Type 0 where
  person_detected vehicle_detected intrusion loitering crowd_detected object_left_behind fighting
        fall_detected face_recognized license_plate line_crossing tailgating fire_detected
        smoke_detected ppe_violation running sleeping gathering wrong_direction line_crossing_a_to_b
        line_crossing_b_to_a camera_tamper camera_moved signal_loss scene_change person_reidentified
        unknown :
      EventType

pub data EventSeverity : Type 0 where
  low medium high critical : EventSeverity

unfoldable pub EventType-discrete : Discrete EventType
EventType-discrete = hlevel

unfoldable pub EventSeverity-discrete : Discrete EventSeverity
EventSeverity-discrete = hlevel

instance abbrev pub event_type_eq : Eq EventType
event_type_eq = record { beq = beq_of EventType-discrete; beq_iff = beq_of_iff EventType-discrete }

instance abbrev pub event_severity_eq : Eq EventSeverity
event_severity_eq = record {
  beq = beq_of EventSeverity-discrete;
  beq_iff = beq_of_iff EventSeverity-discrete;
}

-- The value of the enumerator, which `<` and `>=` on the enum class compare.
abbrev pub severity_rank : EventSeverity → ℕ
severity_rank low = 0
severity_rank medium = 1
severity_rank high = 2
severity_rank critical = 3

abbrev pub TimePoint : Type 0
TimePoint = ℤ

abbrev pub Json : Type 0
Json = Text

-- cv::Rect, in pixels
pub record Rect : Type 0 where
  pub x : ℤ
  pub y : ℤ
  pub width : ℤ
  pub height : ℤ

-- cv::Point2f
pub record Point2f : Type 0 where
  pub x : Float
  pub y : Float

pub record RawEvent : Type 0 where
  pub event_id : ℕ  -- uint64_t
  pub camera_id : ℤ
  pub type : EventType
  pub severity : EventSeverity
  pub zone_id : ℤ
  pub bbox : Rect
  pub world_position : Point2f
  pub object_class : Text
  pub track_id : ℤ
  pub confidence : Float
  pub timestamp : TimePoint
  pub frame_number : ℕ  -- uint64_t
  pub snapshot_path : Text
  pub snapshot_data : List ℕ
  pub metadata : Json

unfoldable pub event_type_to_string : EventType → Text
event_type_to_string person_detected = bytes "PERSON_DETECTED"
event_type_to_string vehicle_detected = bytes "VEHICLE_DETECTED"
event_type_to_string intrusion = bytes "INTRUSION"
event_type_to_string loitering = bytes "LOITERING"
event_type_to_string crowd_detected = bytes "CROWD_DETECTED"
event_type_to_string object_left_behind = bytes "OBJECT_LEFT_BEHIND"
event_type_to_string fighting = bytes "FIGHTING"
event_type_to_string fall_detected = bytes "FALL_DETECTED"
event_type_to_string face_recognized = bytes "FACE_RECOGNIZED"
event_type_to_string license_plate = bytes "LICENSE_PLATE"
event_type_to_string line_crossing = bytes "LINE_CROSSING"
event_type_to_string tailgating = bytes "TAILGATING"
event_type_to_string fire_detected = bytes "FIRE_DETECTED"
event_type_to_string smoke_detected = bytes "SMOKE_DETECTED"
event_type_to_string ppe_violation = bytes "PPE_VIOLATION"
event_type_to_string running = bytes "RUNNING"
event_type_to_string sleeping = bytes "SLEEPING"
event_type_to_string gathering = bytes "GATHERING"
event_type_to_string wrong_direction = bytes "WRONG_DIRECTION"
event_type_to_string line_crossing_a_to_b = bytes "LINE_CROSSING_A_TO_B"
event_type_to_string line_crossing_b_to_a = bytes "LINE_CROSSING_B_TO_A"
event_type_to_string camera_tamper = bytes "CAMERA_TAMPER"
event_type_to_string camera_moved = bytes "CAMERA_MOVED"
event_type_to_string signal_loss = bytes "SIGNAL_LOSS"
event_type_to_string scene_change = bytes "SCENE_CHANGE"
event_type_to_string person_reidentified = bytes "PERSON_REIDENTIFIED"
event_type_to_string unknown = bytes "UNKNOWN"

unfoldable pub event_severity_to_string : EventSeverity → Text
event_severity_to_string low = bytes "LOW"
event_severity_to_string medium = bytes "MEDIUM"
event_severity_to_string high = bytes "HIGH"
event_severity_to_string critical = bytes "CRITICAL"

unfoldable pub string_to_event_type : Text → EventType
string_to_event_type str =
    if text_beq str (bytes "PERSON_DETECTED")
    then person_detected
    else if text_beq str (bytes "VEHICLE_DETECTED")
    then vehicle_detected
    else if text_beq str (bytes "INTRUSION")
    then intrusion
    else if text_beq str (bytes "LOITERING")
    then loitering
    else if text_beq str (bytes "CROWD_DETECTED")
    then crowd_detected
    else if text_beq str (bytes "OBJECT_LEFT_BEHIND")
    then object_left_behind
    else if text_beq str (bytes "FIGHTING")
    then fighting
    else if text_beq str (bytes "FALL_DETECTED")
    then fall_detected
    else if text_beq str (bytes "FACE_RECOGNIZED")
    then face_recognized
    else if text_beq str (bytes "LICENSE_PLATE")
    then license_plate
    else if text_beq str (bytes "LINE_CROSSING")
    then line_crossing
    else if text_beq str (bytes "TAILGATING")
    then tailgating
    else if text_beq str (bytes "FIRE_DETECTED")
    then fire_detected
    else if text_beq str (bytes "SMOKE_DETECTED")
    then smoke_detected
    else if text_beq str (bytes "PPE_VIOLATION")
    then ppe_violation
    else if text_beq str (bytes "RUNNING")
    then running
    else if text_beq str (bytes "SLEEPING")
    then sleeping
    else if text_beq str (bytes "GATHERING")
    then gathering
    else if text_beq str (bytes "WRONG_DIRECTION")
    then wrong_direction
    else if text_beq str (bytes "LINE_CROSSING_A_TO_B")
    then line_crossing_a_to_b
    else if text_beq str (bytes "LINE_CROSSING_B_TO_A")
    then line_crossing_b_to_a
    else if text_beq str (bytes "CAMERA_TAMPER")
    then camera_tamper
    else if text_beq str (bytes "CAMERA_MOVED")
    then camera_moved
    else if text_beq str (bytes "SIGNAL_LOSS")
    then signal_loss
    else if text_beq str (bytes "SCENE_CHANGE")
    then scene_change
    else if text_beq str (bytes "PERSON_REIDENTIFIED")
    then person_reidentified
    else unknown

unfoldable pub string_to_event_severity : Text → EventSeverity
string_to_event_severity str =
    if text_beq str (bytes "LOW")
    then low
    else if text_beq str (bytes "MEDIUM")
    then medium
    else if text_beq str (bytes "HIGH")
    then high
    else if text_beq str (bytes "CRITICAL")
    then critical
    else low
