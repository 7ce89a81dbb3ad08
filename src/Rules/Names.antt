-- ===== src/Rules/Names.antt =====
-- The names of the enums of rule_engine.cpp.
use vms_ai.Prelude.{◌≡◌, refl, Text, text_beq, bytes, if◌then◌else◌}
use vms_ai.Rules.Model.{AlertChannel, ConditionType, ActionType}
use vms_ai.Rules.Evaluate.{action_type_to_string}

unfoldable pub alert_channel_to_string : AlertChannel → Text
alert_channel_to_string AlertChannel.none = bytes "NONE"
alert_channel_to_string AlertChannel.ui_notification = bytes "UI_NOTIFICATION"
alert_channel_to_string AlertChannel.email = bytes "EMAIL"
alert_channel_to_string AlertChannel.sms = bytes "SMS"
alert_channel_to_string AlertChannel.webhook = bytes "WEBHOOK"
alert_channel_to_string AlertChannel.mobile_push = bytes "MOBILE_PUSH"
alert_channel_to_string AlertChannel.alarm_output = bytes "ALARM_OUTPUT"

unfoldable pub string_to_alert_channel : Text → AlertChannel
string_to_alert_channel str =
    if text_beq str (bytes "UI_NOTIFICATION")
    then AlertChannel.ui_notification
    else if text_beq str (bytes "EMAIL")
    then AlertChannel.email
    else if text_beq str (bytes "SMS")
    then AlertChannel.sms
    else if text_beq str (bytes "WEBHOOK")
    then AlertChannel.webhook
    else if text_beq str (bytes "MOBILE_PUSH")
    then AlertChannel.mobile_push
    else if text_beq str (bytes "ALARM_OUTPUT")
    then AlertChannel.alarm_output
    else AlertChannel.none

unfoldable pub condition_type_to_string : ConditionType → Text
condition_type_to_string ConditionType.object = bytes "OBJECT"
condition_type_to_string ConditionType.zone = bytes "ZONE"
condition_type_to_string ConditionType.time = bytes "TIME"
condition_type_to_string ConditionType.behavior = bytes "BEHAVIOR"
condition_type_to_string ConditionType.event_type = bytes "EVENT_TYPE"
condition_type_to_string ConditionType.severity = bytes "SEVERITY"
condition_type_to_string ConditionType.confidence = bytes "CONFIDENCE"
condition_type_to_string ConditionType.camera = bytes "CAMERA"
condition_type_to_string ConditionType.rule_triggered = bytes "RULE_TRIGGERED"

unfoldable pub string_to_condition_type : Text → ConditionType
string_to_condition_type str =
    if text_beq str (bytes "OBJECT")
    then ConditionType.object
    else if text_beq str (bytes "ZONE")
    then ConditionType.zone
    else if text_beq str (bytes "TIME")
    then ConditionType.time
    else if text_beq str (bytes "BEHAVIOR")
    then ConditionType.behavior
    else if text_beq str (bytes "EVENT_TYPE")
    then ConditionType.event_type
    else if text_beq str (bytes "SEVERITY")
    then ConditionType.severity
    else if text_beq str (bytes "CONFIDENCE")
    then ConditionType.confidence
    else if text_beq str (bytes "CAMERA")
    then ConditionType.camera
    else if text_beq str (bytes "RULE_TRIGGERED")
    then ConditionType.rule_triggered
    else ConditionType.object

unfoldable pub string_to_action_type : Text → ActionType
string_to_action_type str =
    if text_beq str (bytes "ALERT")
    then ActionType.alert
    else if text_beq str (bytes "RECORD_CLIP")
    then ActionType.record_clip
    else if text_beq str (bytes "SNAPSHOT")
    then ActionType.snapshot
    else if text_beq str (bytes "WEBHOOK")
    then ActionType.webhook
    else ActionType.log

string_to_alert_channel-alert_channel_to_string :
    (t : AlertChannel) → string_to_alert_channel (alert_channel_to_string t) ≡ t
unfolding string_to_alert_channel alert_channel_to_string
string_to_alert_channel-alert_channel_to_string AlertChannel.none = refl
string_to_alert_channel-alert_channel_to_string AlertChannel.ui_notification = refl
string_to_alert_channel-alert_channel_to_string AlertChannel.email = refl
string_to_alert_channel-alert_channel_to_string AlertChannel.sms = refl
string_to_alert_channel-alert_channel_to_string AlertChannel.webhook = refl
string_to_alert_channel-alert_channel_to_string AlertChannel.mobile_push = refl
string_to_alert_channel-alert_channel_to_string AlertChannel.alarm_output = refl

string_to_condition_type-condition_type_to_string :
    (t : ConditionType) → string_to_condition_type (condition_type_to_string t) ≡ t
unfolding string_to_condition_type condition_type_to_string
string_to_condition_type-condition_type_to_string ConditionType.object = refl
string_to_condition_type-condition_type_to_string ConditionType.zone = refl
string_to_condition_type-condition_type_to_string ConditionType.time = refl
string_to_condition_type-condition_type_to_string ConditionType.behavior = refl
string_to_condition_type-condition_type_to_string ConditionType.event_type = refl
string_to_condition_type-condition_type_to_string ConditionType.severity = refl
string_to_condition_type-condition_type_to_string ConditionType.confidence = refl
string_to_condition_type-condition_type_to_string ConditionType.camera = refl
string_to_condition_type-condition_type_to_string ConditionType.rule_triggered = refl

string_to_action_type-action_type_to_string :
    (t : ActionType) → string_to_action_type (action_type_to_string t) ≡ t
unfolding string_to_action_type action_type_to_string
string_to_action_type-action_type_to_string ActionType.alert = refl
string_to_action_type-action_type_to_string ActionType.record_clip = refl
string_to_action_type-action_type_to_string ActionType.snapshot = refl
string_to_action_type-action_type_to_string ActionType.webhook = refl
string_to_action_type-action_type_to_string ActionType.log = refl

-- stringToAlertChannel, stringToConditionType and stringToActionType read back every name that
-- alertChannelToString, conditionTypeToString and actionTypeToString print.
names_read_back :
    ((c : AlertChannel) → string_to_alert_channel (alert_channel_to_string c) ≡ c)
    × ((t : ConditionType) → string_to_condition_type (condition_type_to_string t) ≡ t)
    × ((t : ActionType) → string_to_action_type (action_type_to_string t) ≡ t)
names_read_back = (
  string_to_alert_channel-alert_channel_to_string,
  string_to_condition_type-condition_type_to_string, string_to_action_type-action_type_to_string,
)
