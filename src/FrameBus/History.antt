-- ===== src/FrameBus/History.antt =====
-- A history of calls of frame_bus.cpp against a plain function: which consumer a camera has under an
-- id. Objects die as time goes by, and none comes back.
use vms_ai.Prelude.{
  ℕ, ◌≡◌, refl, sym, ap, ◌∙◌, ℤ, int_beq, int_eq, Bool, true, false, ◌&&◌, Bool-cases, inl, inr,
  Option, none, some, List, [], ◌∷◌, map, length, if◌then◌else◌, lookup, lookup-retain, retain,
  Distinct, retain-Distinct, Text, text_beq, text_eq, arith,
}
use vms_ai.FrameBus.{
  Subscriptions, FrameBus, new, lock_all, publish, count_live, subscriber_count, subscribe,
  compact_expired_locked, unsubscribe, unsubscribe_all,
}
use vms_ai.FrameBus.Slots.{
  slots_at, IsBus, alive, view, compact-IsBus, compact-view, add_slot-IsBus, add_slot-view,
  unsubscribe-IsBus, unsubscribe-view, unsubscribe_all-IsBus, unsubscribe_all-view,
}

pub data Call : Type 0 where
  attach : ℤ → Text → Option ℕ → Call
  detach : ℤ → Text → Call
  detach_all : ℤ → Call

unfoldable pub call : (ℕ → Bool) → Call → FrameBus → FrameBus
call live (attach c i k) s = (subscribe live c i k s).0
call live (detach c i) s = unsubscribe c i s
call live (detach_all c) s = unsubscribe_all c s

-- Each call with the objects that are alive at its time.
unfoldable pub run : List ((ℕ → Bool) × Call) → FrameBus → FrameBus
run [] s = s
run ((live, c) ∷ cs) s = run cs (call live c s)

abbrev pub Table : Type 0
Table = ℤ → Text → Option ℕ

unfoldable pub enter : Call → Table → Table
enter (attach c i none) t = t
enter (attach c [] (some k)) t = t
enter (attach c (ch ∷ i) (some k)) t =
    λ d j. if int_beq c d && text_beq (ch ∷ i) j then some k else t d j
enter (detach c i) t = λ d j. if int_beq c d && text_beq i j then none else t d j
enter (detach_all c) t = λ d j. if int_beq c d then none else t d j

unfoldable pub table : List ((ℕ → Bool) × Call) → Table → Table
table [] t = t
table ((_, c) ∷ cs) t = table cs (enter c t)

abbrev pub StillAlive : (ℕ → Bool) → (ℕ → Bool) → Type 0
StillAlive before after = (k : ℕ) → after k ≡ true → before k ≡ true

-- The objects only die, from the first call to the time `after` the last.
abbrev pub Fade : (ℕ → Bool) → List ((ℕ → Bool) × Call) → (ℕ → Bool) → Type 0
Fade before [] after = StillAlive before after
Fade before ((live, _) ∷ cs) after = StillAlive before live × Fade live cs after

Agrees : (ℕ → Bool) → FrameBus → Table → Type 0
Agrees live s t = (d : ℤ) (j : Text) → view live d j s ≡ alive live (t d j)

alive-alive :
    (before after : ℕ → Bool) (o : Option ℕ)
    → StillAlive before after
    → alive after (alive before o) ≡ alive after o
alive-alive before after none h = refl
alive-alive before after (some k) h = elim (Bool-cases (before k)) [
  | inl b ↦ rw (b) refl
  | inr b ↦ ground (arith, h k)
]

age-Agrees :
    (before after : ℕ → Bool) (s : FrameBus) (t : Table)
    → StillAlive before after
    → Agrees before s t
    → Agrees after s t
unfolding Agrees
age-Agrees before after s t h a = λ d j.
    sym (alive-alive before after (lookup j (slots_at d s)) h)
    ∙ ap (alive after) (a d j)
    ∙ alive-alive before after (t d j) h

alive-if :
    (live : ℕ → Bool) (b : Bool) (x y : Option ℕ)
    → alive live (if b then x else y) ≡ (if b then alive live x else alive live y)
alive-if live true x y = refl
alive-if live false x y = refl

module _ (live : ℕ → Bool) where
  call-IsBus : (c : Call) (s : FrameBus) → IsBus s → IsBus (call live c s)
  unfolding call subscribe
  call-IsBus (attach c i none) s h = h
  call-IsBus (attach c [] (some k)) s h = h
  call-IsBus (attach c (ch ∷ i) (some k)) s h =
      add_slot-IsBus live c (ch ∷ i) k (compact_expired_locked live c s) (compact-IsBus live c s h)
  call-IsBus (detach c i) s h = unsubscribe-IsBus c i s h
  call-IsBus (detach_all c) s h = unsubscribe_all-IsBus c s h

  call-Agrees :
      (c : Call) (s : FrameBus) (t : Table)
      → IsBus s
      → Agrees live s t
      → Agrees live (call live c s) (enter c t)
  unfolding call subscribe enter Agrees
  call-Agrees (attach c i none) s t h a = a
  call-Agrees (attach c [] (some k)) s t h a = a
  call-Agrees (attach c (ch ∷ i) (some k)) s t h a = λ d j.
      add_slot-view live c d (ch ∷ i) j k (compact_expired_locked live c s)
      ∙ ap (λ o. if int_beq c d && text_beq (ch ∷ i) j then alive live (some k) else o)
          (compact-view live c d j s h ∙ a d j)
      ∙ sym (alive-if live (int_beq c d && text_beq (ch ∷ i) j) (some k) (t d j))
  call-Agrees (detach c i) s t h a = λ d j.
      unsubscribe-view live c d i j s
      ∙ ap (λ o. if int_beq c d && text_beq i j then none else o) (a d j)
      ∙ sym (alive-if live (int_beq c d && text_beq i j) none (t d j))
  call-Agrees (detach_all c) s t h a = λ d j.
      unsubscribe_all-view live c d j s
      ∙ ap (λ o. if int_beq c d then none else o) (a d j)
      ∙ sym (alive-if live (int_beq c d) none (t d j))

new-IsBus : IsBus new
unfolding lookup
new-IsBus = record { cameras = tt; ids = λ c. tt; filled = λ c e. cc }

run-Agrees :
    (cs : List ((ℕ → Bool) × Call)) (before after : ℕ → Bool) (s : FrameBus) (t : Table)
    → Fade before cs after
    → IsBus s
    → Agrees before s t
    → IsBus (run cs s) × Agrees after (run cs s) (table cs t)
unfolding run table
run-Agrees [] before after s t f h a = (h, age-Agrees before after s t f a)
run-Agrees ((live, c) ∷ cs) before after s t f h a =
    run-Agrees cs live after (call live c s) (enter c t) f.1 (call-IsBus live c s h)
      (call-Agrees live c s t h (age-Agrees before live s t f.0 a))

lock_all-retain :
    (live : ℕ → Bool) (slots : Subscriptions)
    → lock_all live slots ≡ map (λ (p : Text × ℕ). p.1) (retain live slots)
unfolding lock_all retain
lock_all-retain live [] = refl
lock_all-retain live ((i, k) ∷ slots) = elim (Bool-cases (live k)) [
  | inl b ↦ rw (b) (ap (λ ks. k ∷ ks) (lock_all-retain live slots))
  | inr b ↦ rw (b) (lock_all-retain live slots)
]

count_live-retain :
    (live : ℕ → Bool) (slots : Subscriptions) → count_live live slots ≡ length (retain live slots)
unfolding count_live retain
count_live-retain live [] = refl
count_live-retain live ((i, k) ∷ slots) = ground (arith, count_live-retain live slots)

lookup-retain-view :
    (live : ℕ → Bool) (i : Text) (slots : Subscriptions)
    → Distinct slots
    → lookup i (retain live slots) ≡ alive live (lookup i slots)
lookup-retain-view live i slots d = lookup-retain live i slots d ∙ same (lookup i slots)
  where
    same :
        (o : Option ℕ)
        → (elim o [ none ↦ none | some k ↦ if live k then some k else none ]) ≡ alive live o
    same none = refl
    same (some k) = refl

-- The table that the calls leave, from an empty one.
abbrev pub table_of : List ((ℕ → Bool) × Call) → Table
table_of cs = table cs (λ _ _. none)

-- After any history of subscribe, unsubscribe and unsubscribeAll, in which objects only die, publish
-- calls, in the order of `held`, exactly the consumers of the camera that the calls so far leave
-- subscribed and that are alive, each once for the id it is held under, and subscriberCount counts
-- them. When expired slots are dropped makes no difference.
pub run-Delivers {ℓ} :
    {Frame : Type ℓ} (cs : List ((ℕ → Bool) × Call)) (before after : ℕ → Bool) (c : ℤ)
    (frame : Frame)
    → Fade before cs after
    → (held : Subscriptions) × Distinct held
      × ((i : Text) → lookup i held ≡ alive after (table_of cs c i))
      × (publish after c frame (run cs new)
          ≡ map (λ k. (k, frame)) (map (λ (p : Text × ℕ). p.1) held))
      × (subscriber_count after c (run cs new) ≡ length held)
unfolding publish subscriber_count Agrees lookup
run-Delivers cs before after c frame f =
    let (bus, agrees) = run-Agrees cs before after new (λ _ _. none) f new-IsBus (λ d j. refl) in
    let slots = slots_at c (run cs new) in
    (
      retain after slots,
      retain-Distinct after slots (bus.ids c),
      λ i. lookup-retain-view after i slots (bus.ids c) ∙ agrees c i,
      ap (map (λ k. (k, frame))) (lock_all-retain after slots),
      count_live-retain after slots,
    )
