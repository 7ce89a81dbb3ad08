-- ===== src/FrameBus.antt =====
-- cpp-backend/include/core/frame_bus.h, cpp-backend/src/core/frame_bus.cpp and the camera states of
-- cpp-backend/include/core/camera_runtime_types.h: who receives the frames of a camera. A consumer
-- object is a number, and each call is given which of the objects are alive; an expired weak_ptr is
-- one whose object is not. A frame is passed on as it is. The mutex makes each call one step.
pub mod Slots
pub mod History
mod Tests
use vms_ai.Prelude.{
  ℕ, ◌+◌, ℤ, Bool, true, false, bytes, Option, none, some, List, [], ◌∷◌, map, length,
  if◌then◌else◌, Map, lookup, insert, erase, retain, Text, int_eq, text_eq,
}

pub data CameraState : Type 0 where
  connecting running degraded failed : CameraState

unfoldable pub camera_state_to_string : CameraState → Text
camera_state_to_string connecting = bytes "CONNECTING"
camera_state_to_string running = bytes "RUNNING"
camera_state_to_string degraded = bytes "DEGRADED"
camera_state_to_string failed = bytes "FAILED"

-- std::vector<Subscription>: the ids of the consumers and the objects
abbrev pub Subscriptions : Type 0
Subscriptions = Map Text ℕ

pub record FrameBus : Type 0 where
  pub subscribers : Map ℤ Subscriptions

abbrev pub new : FrameBus
new = record { subscribers = [] }

-- The slots of a camera; operator[] makes them.
abbrev pub slots_of : Option Subscriptions → Subscriptions
slots_of none = []
slots_of (some slots) = slots

-- A camera whose slots are empty is erased.
unfoldable pub store : ℤ → Subscriptions → FrameBus → FrameBus
store camera_id [] s = record s { subscribers = erase camera_id s.subscribers }
store camera_id (slot ∷ slots) s = record s {
  subscribers = insert camera_id (slot ∷ slots) s.subscribers;
}

-- Where find has an entry: its slots are edited in place, and it is erased if none is left.
unfoldable pub edit_found :
    ℤ → (Subscriptions → Subscriptions) → FrameBus → Option Subscriptions → FrameBus
edit_found camera_id edit s none = s
edit_found camera_id edit s (some slots) = store camera_id (edit slots) s

module _ (live : ℕ → Bool) where
  unfoldable pub compact_expired_locked : ℤ → FrameBus → FrameBus
  compact_expired_locked camera_id s =
      edit_found camera_id (retain live) s (lookup camera_id s.subscribers)

  -- The rest of subscribe. A slot with that id gets the new consumer, else a slot is added.
  unfoldable pub add_slot : ℤ → Text → ℕ → FrameBus → FrameBus
  add_slot camera_id consumer_id consumer s = record s {
    subscribers =
        insert camera_id (insert consumer_id consumer (slots_of (lookup camera_id s.subscribers)))
          s.subscribers;
  }

  -- The consumer is a shared_ptr that may be null.
  unfoldable pub subscribe : ℤ → Text → Option ℕ → FrameBus → FrameBus × Bool
  subscribe camera_id consumer_id none s = (s, false)
  subscribe camera_id [] (some consumer) s = (s, false)
  subscribe camera_id (ch ∷ consumer_id) (some consumer) s =
      (add_slot camera_id (ch ∷ consumer_id) consumer (compact_expired_locked camera_id s), true)

  -- The consumers of the slots that are alive, in order.
  unfoldable pub lock_all : Subscriptions → List ℕ
  lock_all [] = []
  lock_all ((_, consumer) ∷ slots) =
      let rest = lock_all slots in if live consumer then consumer ∷ rest else rest

  -- The calls of onFrame.
  unfoldable pub publish {ℓ} : {Frame : Type ℓ} → ℤ → Frame → FrameBus → List (ℕ × Frame)
  publish camera_id frame s =
      map (λ consumer. (consumer, frame)) (lock_all (slots_of (lookup camera_id s.subscribers)))

  -- The calls of onStreamStateChanged.
  unfoldable pub publish_state_change : ℤ → CameraState → FrameBus → List (ℕ × ℤ × CameraState)
  publish_state_change camera_id state s =
      map (λ consumer. (consumer, camera_id, state))
        (lock_all (slots_of (lookup camera_id s.subscribers)))

  unfoldable pub count_live : Subscriptions → ℕ
  count_live [] = 0
  count_live ((_, consumer) ∷ slots) =
      let rest = count_live slots in if live consumer then rest + 1 else rest

  unfoldable pub subscriber_count : ℤ → FrameBus → ℕ
  subscriber_count camera_id s = count_live (slots_of (lookup camera_id s.subscribers))

unfoldable pub unsubscribe : ℤ → Text → FrameBus → FrameBus
unsubscribe camera_id consumer_id s =
    edit_found camera_id (erase consumer_id) s (lookup camera_id s.subscribers)

unfoldable pub unsubscribe_all : ℤ → FrameBus → FrameBus
unsubscribe_all camera_id s = record s { subscribers = erase camera_id s.subscribers }
