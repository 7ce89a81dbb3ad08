-- ===== src/PeopleCount/Cooldown.antt =====
-- The cooldown of people_count_tracker.cpp over a history of frames.
use vms_ai.Prelude.{
  ltb, ◌≡◌, ◌⊎◌, inl, inr, refl, sym, ap, subst, ◌∙◌, ℤ, pos, ◌≤ℤ◌, ◌-ℤ◌, -ℤ_parts, ltb_ℤ, true,
  false, not, Bool-cases, Option, none, some, List, [], ◌∷◌, ◌++◌, length, if◌then◌else◌, Map,
  lookup, insert, lookup-insert, lookup-insert_self, lookup-retain, Distinct, insert-Distinct,
  retain-Distinct, int_eq, arith,
}
use vms_ai.PeopleCount.{
  LineCrossing, CrossKey, cross_key_beq, cross_key_eq, PeopleCountTracker, collect_fires, held_back,
}

-- The times of the crossings of one line by one track, seen by one camera.
abbrev pub times : CrossKey → ℤ → List LineCrossing → List ℤ
times key camera_id [] = []
times key camera_id (c ∷ cs) =
    if cross_key_beq (record { cam = camera_id; line = c.line_id; vid = c.virtual_track_id }) key
    then c.ts_ms ∷ times key camera_id cs
    else times key camera_id cs

-- A time is at least the cooldown behind the one before, if there is one.
abbrev pub Apart : ℤ → Option ℤ → ℤ → Type 0
Apart cooldown none t = Unit
Apart cooldown (some last) t = cooldown ≤ℤ t -ℤ last

-- Each time is so behind the one before; the last is given.
abbrev pub Spaced : ℤ → Option ℤ → List ℤ → Option ℤ → Type 0
Spaced cooldown before [] after = before ≡ after
Spaced cooldown before (t ∷ ts) after = Apart cooldown before t × Spaced cooldown (some t) ts after

pub Spaced-append :
    (cooldown : ℤ) (a b c : Option ℤ) (xs ys : List ℤ)
    → Spaced cooldown a xs b
    → Spaced cooldown b ys c
    → Spaced cooldown a (xs ++ ys) c
Spaced-append cooldown a b c [] ys h k = subst (λ o. Spaced cooldown o ys c) (sym h) k
Spaced-append cooldown a b c (x ∷ xs) ys h k =
    (h.0, Spaced-append cooldown (some x) b c xs ys h.1 k)

pub times-append :
    (key : CrossKey) (camera_id : ℤ) (xs ys : List LineCrossing)
    → times key camera_id (xs ++ ys) ≡ times key camera_id xs ++ times key camera_id ys
times-append key camera_id [] ys = refl
times-append key camera_id (x ∷ xs) ys =
    elim (Bool-cases (
      cross_key_beq (record { cam = camera_id; line = x.line_id; vid = x.virtual_track_id }) key)) [
        | inl b ↦ rw (b) (ap (λ ts. x.ts_ms ∷ ts) (times-append key camera_id xs ys))
        | inr b ↦ rw (b) (times-append key camera_id xs ys)
      ]

module _ (key : CrossKey) (cooldown : ℤ) (small : cooldown ≤ℤ pos 300000) where
  -- The state remembers the last time, or that time is over five minutes ago.
  abbrev pub Remembers : PeopleCountTracker → ℤ → Option ℤ → Type 0
  Remembers s now none = Unit
  Remembers s now (some last) =
      (last ≤ℤ now)
      × ((lookup key s.last_fire_ms ≡ some last) ⊎ (ltb_ℤ last (now -ℤ pos 300000) ≡ true))

  pub record IsTracker (s : PeopleCountTracker) (now : ℤ) (last : Option ℤ) : Type 0 where
    pub keys : Distinct s.last_fire_ms
    pub limit : s.cooldown_ms ≡ cooldown
    pub remembers : Remembers s now last

  pub later-IsTracker :
      (s : PeopleCountTracker) (now later : ℤ) (last : Option ℤ)
      → now ≤ℤ later
      → IsTracker s now last
      → IsTracker s later last
  later-IsTracker s now later none h k = record { keys = k.keys; limit = k.limit; remembers = tt }
  later-IsTracker s now later (some last) h k = record {
    keys = k.keys;
    limit = k.limit;
    remembers = (
      omega (arith, k.remembers.0),
      elim k.remembers.1 [
        | inl e ↦ inl e
        | inr e ↦ inr (ground (arith, -ℤ_parts now (pos 300000), -ℤ_parts later (pos 300000)))
      ],
    );
  }

  -- A crossing that counts comes late enough.
  pub fire-Apart :
      (ts : ℤ) (s : PeopleCountTracker) (last : Option ℤ)
      → held_back s.cooldown_ms ts (lookup key s.last_fire_ms) ≡ false
      → IsTracker s ts last
      → Apart cooldown last ts
  unfolding held_back
  fire-Apart ts s none h k = tt
  fire-Apart ts s (some last) h k = elim k.remembers.1 [
    | inl e ↦ ground (arith, k.limit, ap (held_back s.cooldown_ms ts) e)
    | inr e ↦ ground (arith, small, -ℤ_parts ts (pos 300000), -ℤ_parts ts last)
  ]

  collect_fires-Distinct :
      (ts : ℤ) (m : Map CrossKey ℤ) → Distinct m → Distinct (collect_fires ts m)
  unfolding collect_fires
  collect_fires-Distinct ts m d = elim (Bool-cases (ltb 10000 (length m))) [
    | inl b ↦ rw (b) (retain-Distinct (λ last. not (ltb_ℤ last (ts -ℤ pos 300000))) m d)
    | inr b ↦ rw (b) d
  ]

  -- What the collection drops is over five minutes old.
  collect_fires_keeps :
      (ts last : ℤ) (m : Map CrossKey ℤ)
      → Distinct m
      → lookup key m ≡ some last
      → (lookup key (collect_fires ts m) ≡ some last) ⊎ (ltb_ℤ last (ts -ℤ pos 300000) ≡ true)
  unfolding collect_fires
  collect_fires_keeps ts last m d e = elim (Bool-cases (ltb 10000 (length m))) [
    | inl b ↦ elim (Bool-cases (ltb_ℤ last (ts -ℤ pos 300000))) [
      | inl old ↦ inr old
      | inr young ↦
          inl (rw (b, lookup-retain (λ t. not (ltb_ℤ t (ts -ℤ pos 300000))) key m d, e, young) refl)
    ]
    | inr b ↦ inl (rw (b) e)
  ]

  -- The state after a crossing of any line by any track counts.
  abbrev pub fired : CrossKey → ℤ → PeopleCountTracker → PeopleCountTracker
  fired k ts s = record s { last_fire_ms = collect_fires ts (insert k ts s.last_fire_ms) }

  pub fired_self-IsTracker :
      (ts : ℤ) (s : PeopleCountTracker) (last : Option ℤ)
      → IsTracker s ts last
      → IsTracker (fired key ts s) ts (some ts)
  fired_self-IsTracker ts s last h =
      let grown = insert key ts s.last_fire_ms in
      let d = insert-Distinct key ts s.last_fire_ms h.keys in
      record {
        keys = collect_fires-Distinct ts grown d;
        limit = h.limit;
        remembers = (
          omega arith,
          collect_fires_keeps ts ts grown d (lookup-insert_self key ts s.last_fire_ms),
        );
      }

  pub fired_other-IsTracker :
      (k : CrossKey) (ts : ℤ) (s : PeopleCountTracker) (last : Option ℤ)
      → cross_key_beq k key ≡ false
      → IsTracker s ts last
      → IsTracker (fired k ts s) ts last
  fired_other-IsTracker k ts s none o h = record {
    keys =
        collect_fires-Distinct ts (insert k ts s.last_fire_ms)
          (insert-Distinct k ts s.last_fire_ms h.keys);
    limit = h.limit;
    remembers = tt;
  }
  fired_other-IsTracker k ts s (some last) o h =
      let grown = insert k ts s.last_fire_ms in
      let d = insert-Distinct k ts s.last_fire_ms h.keys in
      record {
        keys = collect_fires-Distinct ts grown d;
        limit = h.limit;
        remembers = (
          h.remembers.0,
          elim h.remembers.1 [
            | inl e ↦
                collect_fires_keeps ts last grown d
                  (lookup-insert k key ts s.last_fire_ms ∙ rw (o) e)
            | inr e ↦ inr e
          ],
        );
      }
