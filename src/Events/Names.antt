-- ===== src/Events/Names.antt =====
-- The names of the event enums: printing and reading back.
use vms_ai.Prelude.{◌≡◌, refl}
use vms_ai.Events.{
  EventType, EventSeverity, person_detected, vehicle_detected, intrusion, loitering, crowd_detected,
  object_left_behind, fighting, fall_detected, face_recognized, license_plate, line_crossing,
  tailgating, fire_detected, smoke_detected, ppe_violation, running, sleeping, gathering,
  wrong_direction, line_crossing_a_to_b, line_crossing_b_to_a, camera_tamper, camera_moved,
  signal_loss, scene_change, person_reidentified, unknown, low, medium, high, critical,
  event_type_to_string, event_severity_to_string, string_to_event_type, string_to_event_severity,
}

-- stringToEventType reads back every name that eventTypeToString prints.
pub string_to_event_type-event_type_to_string :
    (t : EventType) → string_to_event_type (event_type_to_string t) ≡ t
unfolding string_to_event_type event_type_to_string
string_to_event_type-event_type_to_string person_detected = refl
string_to_event_type-event_type_to_string vehicle_detected = refl
string_to_event_type-event_type_to_string intrusion = refl
string_to_event_type-event_type_to_string loitering = refl
string_to_event_type-event_type_to_string crowd_detected = refl
string_to_event_type-event_type_to_string object_left_behind = refl
string_to_event_type-event_type_to_string fighting = refl
string_to_event_type-event_type_to_string fall_detected = refl
string_to_event_type-event_type_to_string face_recognized = refl
string_to_event_type-event_type_to_string license_plate = refl
string_to_event_type-event_type_to_string line_crossing = refl
string_to_event_type-event_type_to_string tailgating = refl
string_to_event_type-event_type_to_string fire_detected = refl
string_to_event_type-event_type_to_string smoke_detected = refl
string_to_event_type-event_type_to_string ppe_violation = refl
string_to_event_type-event_type_to_string running = refl
string_to_event_type-event_type_to_string sleeping = refl
string_to_event_type-event_type_to_string gathering = refl
string_to_event_type-event_type_to_string wrong_direction = refl
string_to_event_type-event_type_to_string line_crossing_a_to_b = refl
string_to_event_type-event_type_to_string line_crossing_b_to_a = refl
string_to_event_type-event_type_to_string camera_tamper = refl
string_to_event_type-event_type_to_string camera_moved = refl
string_to_event_type-event_type_to_string signal_loss = refl
string_to_event_type-event_type_to_string scene_change = refl
string_to_event_type-event_type_to_string person_reidentified = refl
string_to_event_type-event_type_to_string unknown = refl

-- stringToEventSeverity reads back every name that eventSeverityToString prints.
pub string_to_event_severity-event_severity_to_string :
    (s : EventSeverity) → string_to_event_severity (event_severity_to_string s) ≡ s
unfolding string_to_event_severity event_severity_to_string
string_to_event_severity-event_severity_to_string low = refl
string_to_event_severity-event_severity_to_string medium = refl
string_to_event_severity-event_severity_to_string high = refl
string_to_event_severity-event_severity_to_string critical = refl
