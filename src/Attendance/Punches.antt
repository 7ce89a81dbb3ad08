-- ===== src/Attendance/Punches.antt =====
-- The punches that attendance_tracker.cpp records for one person at one camera.
use vms_ai.Prelude.{
  ℕ, ◌≡◌, sym, subst, inl, inr, ℤ, pos, ◌≤ℤ◌, int_beq, int_beq_iff, Bool, true, false, ◌&&◌, Option,
  List, [], ◌∷◌, if◌then◌else◌, Text, lookup, int_eq, nat_eq, Distinct, Bool-cases, arith,
}
use vms_ai.Attendance.{
  AttendanceTracker, Recognition, read_cooldown_seconds_from_env, kind_for_role, pack_key, role_or,
  kind_of, held_back, counts, row_of, on_face_recognized,
}
use vms_ai.Attendance.Keys.{IsInt32, pack_key_injective}
use vms_ai.Attendance.Memory.{
  read_cooldown_seconds_bounds, Follows, Remembers, Remembers-mono, remember-Distinct,
  remember_other, remember_self, resolve_kind-kind_for_role, counted-Follows,
}

-- The recognition is of the person at the camera.
abbrev pub is_of : ℤ → ℤ → Recognition → Bool
is_of p c r = int_beq r.person_id p && int_beq r.camera_id c

-- Times and kinds of the punches of the person at the camera, in order, where each call ends before
-- the next one starts.
unfoldable pub punches : ℤ → ℤ → List Recognition → AttendanceTracker → List (ℤ × Text)
punches p c [] s = []
punches p c (r ∷ rs) s =
    let rest = punches p c rs (on_face_recognized r s) in
    if is_of p c r && counts r s then (r.ts_seconds, (row_of r s).kind) ∷ rest else rest

abbrev pub Chain : ℤ → Text → ℤ × Text → List (ℤ × Text) → Type 0
Chain cooldown role last [] = Unit
Chain cooldown role last (p ∷ ps) = Follows cooldown role last p × Chain cooldown role p ps

abbrev pub IsChain : ℤ → Text → List (ℤ × Text) → Type 0
IsChain cooldown role [] = Unit
IsChain cooldown role (p ∷ ps) = Chain cooldown role p ps

-- The recognitions come in the order of their times, from `lo` on, with ids in the range of an int.
abbrev pub Timely : ℤ → List Recognition → Type 0
Timely lo [] = Unit
Timely lo (r ∷ rs) =
    (lo ≤ℤ r.ts_seconds) × (IsInt32 r.person_id × IsInt32 r.camera_id) × Timely r.ts_seconds rs

module _ (p c : ℤ) (ip : IsInt32 p) (ic : IsInt32 c) where
  key_of : ℕ
  key_of = pack_key p c

  of-key : (r : Recognition) → is_of p c r ≡ true → pack_key r.person_id r.camera_id ≡ key_of
  unfolding key_of
  of-key r e = ground (arith, int_beq_iff r.person_id p, int_beq_iff r.camera_id c)

  camera-of : (r : Recognition) → is_of p c r ≡ true → r.camera_id ≡ c
  camera-of r e = ground (arith, int_beq_iff r.camera_id c)

  others-key :
      (r : Recognition)
      → IsInt32 r.person_id × IsInt32 r.camera_id
      → is_of p c r ≡ false
      → nat_eq.beq (pack_key r.person_id r.camera_id) key_of ≡ false
  unfolding key_of
  others-key r i e = ground (
    arith,
    nat_eq.beq_iff (pack_key r.person_id r.camera_id) (pack_key p c),
    pack_key_injective r.person_id r.camera_id p c i.0 i.1 ip ic,
    int_beq_iff r.person_id p,
    int_beq_iff r.camera_id c,
  )

  -- What a recognition never changes.
  frame :
      (r : Recognition) (s : AttendanceTracker)
      → ((on_face_recognized r s).cooldown_seconds ≡ s.cooldown_seconds)
        × ((on_face_recognized r s).camera_role ≡ s.camera_role)
  unfolding on_face_recognized
  frame r s = ground arith

  on_face_recognized-Distinct :
      (r : Recognition) (s : AttendanceTracker)
      → Distinct s.dedup
      → Distinct (on_face_recognized r s).dedup
  unfolding on_face_recognized
  on_face_recognized-Distinct r s d = elim (Bool-cases (counts r s)) [
    | inl counted ↦ rw (counted, on_face_recognized) (remember-Distinct _ r.ts_seconds _ s.dedup d)
    | inr returned ↦ rw (returned, on_face_recognized) d
  ]

  -- A recognition that is no punch of the pair leaves the last punch remembered.
  quiet-Remembers :
      (r : Recognition) (last : ℤ × Text) (s : AttendanceTracker)
      → IsInt32 r.person_id × IsInt32 r.camera_id
      → Distinct s.dedup
      → (is_of p c r && counts r s) ≡ false
      → Remembers r.ts_seconds last (lookup key_of s.dedup)
      → Remembers r.ts_seconds last (lookup key_of (on_face_recognized r s).dedup)
  unfolding on_face_recognized
  quiet-Remembers r last s i d quiet h = elim (Bool-cases (counts r s)) [
    | inr returned ↦ rw (returned, on_face_recognized) h
    | inl counted ↦
        rw (counted, on_face_recognized)
          (remember_other key_of (pack_key r.person_id r.camera_id) r.ts_seconds _ last s.dedup d
            (others-key r i (ground arith)) h)
  ]

  punch-Remembers :
      (r : Recognition) (s : AttendanceTracker)
      → Distinct s.dedup
      → is_of p c r ≡ true
      → counts r s ≡ true
      → Remembers r.ts_seconds
          (r.ts_seconds, (row_of r s).kind)
          (lookup key_of (on_face_recognized r s).dedup)
  unfolding on_face_recognized
  punch-Remembers r s d mine counted =
      rw (counted, on_face_recognized)
        (rw (sym (of-key r mine))
          (remember_self (pack_key r.person_id r.camera_id) r.ts_seconds _ s.dedup d))

  role : AttendanceTracker → Text
  role s = role_or [] (lookup c s.camera_role)

  punch-Follows :
      (r : Recognition) (last : ℤ × Text) (s : AttendanceTracker)
      → s.cooldown_seconds ≤ℤ pos 86400
      → is_of p c r ≡ true
      → counts r s ≡ true
      → Remembers r.ts_seconds last (lookup key_of s.dedup)
      → Follows s.cooldown_seconds (role s) last (r.ts_seconds, (row_of r s).kind)
  unfolding role row_of counts
  punch-Follows r last s day mine counted h =
      counted-Follows s.cooldown_seconds r.ts_seconds (role s) (row_of r s).kind last
        (lookup key_of s.dedup) day h held kind
    where
      held : held_back (lookup key_of s.dedup) r.ts_seconds s.cooldown_seconds ≡ false
      held =
          subst (λ k. held_back (lookup k s.dedup) r.ts_seconds s.cooldown_seconds ≡ false)
            (of-key r mine) (ground arith)

      kind : (row_of r s).kind ≡ kind_for_role (role s) (kind_of (lookup key_of s.dedup))
      kind =
          rw (sym (of-key r mine), sym (camera-of r mine))
            (resolve_kind-kind_for_role r.camera_id (pack_key r.person_id r.camera_id) s)

  frame-Chain :
      (r : Recognition) (s : AttendanceTracker) (last : ℤ × Text) (ps : List (ℤ × Text))
      → Chain (on_face_recognized r s).cooldown_seconds (role (on_face_recognized r s)) last ps
      → Chain s.cooldown_seconds (role s) last ps
  unfolding role
  frame-Chain r s last ps h =
      subst (λ m. Chain s.cooldown_seconds (role_or [] (lookup c m)) last ps) (frame r s).1
        (subst (λ k. Chain k (role_or [] (lookup c (on_face_recognized r s).camera_role)) last ps)
          (frame r s).0 h)

  frame-IsChain :
      (r : Recognition) (s : AttendanceTracker) (ps : List (ℤ × Text))
      → IsChain (on_face_recognized r s).cooldown_seconds (role (on_face_recognized r s)) ps
      → IsChain s.cooldown_seconds (role s) ps
  frame-IsChain r s [] h = tt
  frame-IsChain r s (q ∷ ps) h = frame-Chain r s q ps h

  chain :
      (rs : List Recognition) (lo : ℤ) (last : ℤ × Text) (s : AttendanceTracker)
      → s.cooldown_seconds ≤ℤ pos 86400
      → Distinct s.dedup
      → Timely lo rs
      → Remembers lo last (lookup key_of s.dedup)
      → Chain s.cooldown_seconds (role s) last (punches p c rs s)
  unfolding punches
  chain [] lo last s day d timely h = tt
  chain (r ∷ rs) lo last s day d timely h = elim (Bool-cases (is_of p c r && counts r s)) [
    | inl punched ↦
        rw (punched, punches)
          (
            punch-Follows r last s day (ground arith) (ground arith) current,
            frame-Chain r s _ _ (
                chain rs r.ts_seconds (r.ts_seconds, (row_of r s).kind) s' day' d' timely.2
                  (punch-Remembers r s d (ground arith) (ground arith))),
          )
    | inr quiet ↦
        rw (quiet, punches)
          (frame-Chain r s last _ (
            chain rs r.ts_seconds last s' day' d' timely.2
              (quiet-Remembers r last s timely.1 d quiet current)))
  ]
    where
      s' : AttendanceTracker
      s' = on_face_recognized r s

      day' : s'.cooldown_seconds ≤ℤ pos 86400
      day' = rw (frame r s).0 day

      d' : Distinct s'.dedup
      d' = on_face_recognized-Distinct r s d

      current : Remembers r.ts_seconds last (lookup key_of s.dedup)
      current = Remembers-mono lo r.ts_seconds last _ timely.0 h

  -- The same, before a first punch.
  first-IsChain :
      (rs : List Recognition) (lo : ℤ) (s : AttendanceTracker)
      → s.cooldown_seconds ≤ℤ pos 86400
      → Distinct s.dedup
      → Timely lo rs
      → IsChain s.cooldown_seconds (role s) (punches p c rs s)
  unfolding punches
  first-IsChain [] lo s day d timely = tt
  first-IsChain (r ∷ rs) lo s day d timely = elim (Bool-cases (is_of p c r && counts r s)) [
    | inl punched ↦
        rw (punched, punches)
          (frame-Chain r s _ _ (
            chain rs r.ts_seconds (r.ts_seconds, (row_of r s).kind) (on_face_recognized r s)
              (rw (frame r s).0 day) (on_face_recognized-Distinct r s d) timely.2
              (punch-Remembers r s d (ground arith) (ground arith))))
    | inr quiet ↦
        rw (quiet, punches)
          (frame-IsChain r s _ (
            first-IsChain rs r.ts_seconds (on_face_recognized r s) (rw (frame r s).0 day)
              (on_face_recognized-Distinct r s d) timely.2))
  ]

-- Along any calls of onFaceRecognized that do not overlap, with recognitions in the order of their
-- times, of any persons at any cameras, two punches in a row of a person at a camera are at least the cooldown apart. The kind of each punch behind the
-- first is what the camera's role makes of the kind before it, so that on a camera of the role
-- "both" they alternate, or of no kind, which happens only after more than a day. The old entries
-- that the tracker collects change none of this, because the cooldown is at most a day.
pub punches-IsChain :
    (atoi : Text → ℤ) (env : Option Text) (p c : ℤ) (rs : List Recognition) (lo : ℤ)
    (s : AttendanceTracker)
    → IsInt32 p
    → IsInt32 c
    → s.cooldown_seconds ≡ read_cooldown_seconds_from_env atoi env
    → Distinct s.dedup
    → Timely lo rs
    → IsChain s.cooldown_seconds (role_or [] (lookup c s.camera_role)) (punches p c rs s)
unfolding role
punches-IsChain atoi env p c rs lo s ip ic e d timely =
    first-IsChain p c ip ic rs lo s (rw e (read_cooldown_seconds_bounds atoi env).1) d timely
