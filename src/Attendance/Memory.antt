-- ===== src/Attendance/Memory.antt =====
-- What attendance_tracker.cpp remembers of a punch, under one dedup key.
use vms_ai.Prelude.{
  ℕ, ◌≡◌, refl, sym, ◌⊎◌, inl, inr, ℤ, pos, ◌-ℤ◌, ◌≤ℤ◌, ltb_ℤ, -ℤ_parts, true, false, not, Option,
  none, some, List, [], ◌∷◌, ltb, length, if◌then◌else◌, Text, lookup, int_eq, nat_eq, Distinct,
  lookup-insert, lookup-insert_self, lookup-retain, insert-Distinct, retain-Distinct, Bool-cases,
  arith,
}
use vms_ai.Attendance.{
  AttendanceTracker, DedupEntry, read_cooldown_seconds_from_env, is_outside_cooldown_window,
  kind_for_role, role_or, kind_of, resolve_kind, held_back, collect, remember,
}

-- The clamp keeps the cooldown between one second and a day, whatever the variable holds.
pub read_cooldown_seconds_bounds :
    (atoi : Text → ℤ) (env : Option Text)
    → (pos 1 ≤ℤ read_cooldown_seconds_from_env atoi env)
      × (read_cooldown_seconds_from_env atoi env ≤ℤ pos 86400)
unfolding read_cooldown_seconds_from_env
read_cooldown_seconds_bounds atoi none = (omega arith, omega arith)
read_cooldown_seconds_bounds atoi (some []) = (omega arith, omega arith)
read_cooldown_seconds_bounds atoi (some (c ∷ cs)) = (ground arith, ground arith)

-- A punch behind an earlier one: the cooldown has gone by, and its kind is what the camera's role
-- makes of the earlier kind, or of none if more than a day has gone by.
abbrev pub Follows : ℤ → Text → ℤ × Text → ℤ × Text → Type 0
Follows cooldown role (t, k) (u, l) =
    (cooldown ≤ℤ u -ℤ t)
    × ((l ≡ kind_for_role role k)
        ⊎ ((l ≡ kind_for_role role []) × (ltb_ℤ (pos 86400) (u -ℤ t) ≡ true)))

-- What is on record of the last punch: it, or nothing once it is more than a day before `lo`.
abbrev pub Remembers : ℤ → ℤ × Text → Option DedupEntry → Type 0
Remembers lo (t, k) none = ltb_ℤ (pos 86400) (lo -ℤ t) ≡ true
Remembers lo (t, k) (some e) = (e.last_ts_s ≡ t) × (e.last_kind ≡ k)

pub Remembers-mono :
    (lo hi : ℤ) (last : ℤ × Text) (o : Option DedupEntry)
    → lo ≤ℤ hi
    → Remembers lo last o
    → Remembers hi last o
Remembers-mono lo hi (t, k) none h r = ground (arith, -ℤ_parts lo t, -ℤ_parts hi t)
Remembers-mono lo hi (t, k) (some e) h r = r

pub Remembers-kept :
    (ts : ℤ) (last : ℤ × Text) (o : Option DedupEntry)
    → Remembers ts last o
    → Remembers ts last (elim o [
      | none ↦ none
      | some e ↦ if not (ltb_ℤ (pos 86400) (ts -ℤ e.last_ts_s)) then some e else none
    ])
Remembers-kept ts (t, k) none r = r
Remembers-kept ts (t, k) (some e) r = elim (Bool-cases (ltb_ℤ (pos 86400) (ts -ℤ e.last_ts_s))) [
  | inl old ↦ rw old (rw⁻¹ r.0 old)
  | inr young ↦ rw young r
]

-- Collecting at the time `ts` forgets a punch only if it is more than a day old.
pub Remembers-collect :
    (ts : ℤ) (key : ℕ) (last : ℤ × Text) (m : List (ℕ × DedupEntry))
    → Distinct m
    → Remembers ts last (lookup key m)
    → Remembers ts last (lookup key (collect ts m))
unfolding collect
Remembers-collect ts key last m d r = elim (Bool-cases (ltb 50000 (length m))) [
  | inr small ↦ rw small r
  | inl large ↦
      rw
        (
          large,
          lookup-retain (λ (e : DedupEntry). not (ltb_ℤ (pos 86400) (ts -ℤ e.last_ts_s))) key m d,
        )
        (Remembers-kept ts last (lookup key m) r)
]

pub collect-Distinct : (ts : ℤ) (m : List (ℕ × DedupEntry)) → Distinct m → Distinct (collect ts m)
unfolding collect
collect-Distinct ts m d = elim (Bool-cases (ltb 50000 (length m))) [
  | inr small ↦ rw small d
  | inl large ↦
      rw large
        (retain-Distinct (λ (e : DedupEntry). not (ltb_ℤ (pos 86400) (ts -ℤ e.last_ts_s))) m d)
]

pub remember-Distinct :
    (key : ℕ) (ts : ℤ) (kind : Text) (m : List (ℕ × DedupEntry))
    → Distinct m
    → Distinct (remember key ts kind m)
unfolding remember
remember-Distinct key ts kind m d = collect-Distinct ts _ (insert-Distinct key _ m d)

-- What is remembered of another key, and of the key itself, after a punch.
pub remember_other :
    (key other : ℕ) (ts : ℤ) (kind : Text) (last : ℤ × Text) (m : List (ℕ × DedupEntry))
    → Distinct m
    → nat_eq.beq other key ≡ false
    → Remembers ts last (lookup key m)
    → Remembers ts last (lookup key (remember other ts kind m))
unfolding remember
remember_other key other ts kind last m d apart r =
    Remembers-collect ts key last _ (insert-Distinct other _ m d)
      (rw (lookup-insert other key (record { last_ts_s = ts; last_kind = kind }) m, apart) r)

pub remember_self :
    (key : ℕ) (ts : ℤ) (kind : Text) (m : List (ℕ × DedupEntry))
    → Distinct m
    → Remembers ts (ts, kind) (lookup key (remember key ts kind m))
unfolding remember
remember_self key ts kind m d =
    Remembers-collect ts key (ts, kind) _ (insert-Distinct key _ m d)
      (rw (lookup-insert_self key (record { last_ts_s = ts; last_kind = kind }) m) (refl, refl))

-- The kind comes from the role and what is on record.
pub resolve_kind-kind_for_role :
    (c : ℤ) (key : ℕ) (s : AttendanceTracker)
    → resolve_kind c key s
      ≡ kind_for_role (role_or [] (lookup c s.camera_role)) (kind_of (lookup key s.dedup))
unfolding resolve_kind kind_for_role
resolve_kind-kind_for_role c key s = ground arith

-- A punch that counts follows the one remembered.
pub counted-Follows :
    (cooldown ts : ℤ) (role kind : Text) (last : ℤ × Text) (o : Option DedupEntry)
    → cooldown ≤ℤ pos 86400
    → Remembers ts last o
    → held_back o ts cooldown ≡ false
    → kind ≡ kind_for_role role (kind_of o)
    → Follows cooldown role last (ts, kind)
unfolding is_outside_cooldown_window
counted-Follows cooldown ts role kind (t, k) none day r h e =
    (ground (arith, -ℤ_parts ts t), inr (e, r))
counted-Follows cooldown ts role kind (t, k) (some e') day r h e =
    rw (sym r.0, sym r.1) (ground (arith, h), inl e)
