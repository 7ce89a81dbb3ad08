-- ===== src/FrameBus/Slots.antt =====
-- The slots of frame_bus.cpp after each operation.
use vms_ai.Prelude.{
  ℕ, ◌≡◌, ◌≢◌, refl, sym, ◌∙◌, ap, subst, ℤ, int_beq, int_beq_iff, int_eq, Bool, ◌&&◌, Option, none,
  some, Option-cases, Bool-cases, inl, inr, [], ◌∷◌, if◌then◌else◌, lookup, insert, erase, retain,
  lookup-insert, lookup-erase, lookup-retain, Distinct, insert-Distinct, erase-Distinct,
  retain-Distinct, Text, text_beq, text_eq, arith,
}
use vms_ai.FrameBus.{
  Subscriptions, FrameBus, slots_of, store, edit_found, compact_expired_locked, add_slot,
  unsubscribe, unsubscribe_all,
}

-- The slots of one camera.
abbrev pub slots_at : ℤ → FrameBus → Subscriptions
slots_at c s = slots_of (lookup c s.subscribers)

-- Each camera stands once in the map, with slots, and no consumer id twice among them.
pub record IsBus (s : FrameBus) : Type 0 where
  pub cameras : Distinct s.subscribers
  pub ids : (c : ℤ) → Distinct (slots_at c s)
  pub filled : (c : ℤ) → lookup c s.subscribers ≢ some []

insert_ne_nil : (i : Text) (k : ℕ) (slots : Subscriptions) → insert i k slots ≢ []
unfolding insert
insert_ne_nil i k [] e = cc
insert_ne_nil i k ((j, x) ∷ slots) e = ground arith

slots_at-store :
    (c d : ℤ) (slots : Subscriptions) (s : FrameBus)
    → slots_at d (store c slots s) ≡ (if int_beq c d then slots else slots_at d s)
unfolding store
slots_at-store c d [] s = ground (arith, lookup-erase c d s.subscribers)
slots_at-store c d (slot ∷ slots) s = ground (arith, lookup-insert c d (slot ∷ slots) s.subscribers)

lookup-store_ne_nil :
    (c d : ℤ) (slots : Subscriptions) (s : FrameBus)
    → IsBus s
    → lookup d (store c slots s).subscribers ≢ some []
unfolding store
lookup-store_ne_nil c d [] s h e = ground (arith, lookup-erase c d s.subscribers, h.filled d, e)
lookup-store_ne_nil c d (slot ∷ slots) s h e =
    ground (arith, lookup-insert c d (slot ∷ slots) s.subscribers, h.filled d, e)

cameras-store :
    (c : ℤ) (slots : Subscriptions) (s : FrameBus)
    → IsBus s
    → Distinct (store c slots s).subscribers
unfolding store
cameras-store c [] s h = erase-Distinct c s.subscribers h.cameras
cameras-store c (slot ∷ slots) s h = insert-Distinct c (slot ∷ slots) s.subscribers h.cameras

store-IsBus :
    (c : ℤ) (slots : Subscriptions) (s : FrameBus)
    → IsBus s
    → Distinct slots
    → IsBus (store c slots s)
store-IsBus c slots s h d = record {
  cameras = cameras-store c slots s h;
  ids = λ e. elim (Bool-cases (int_beq c e)) [
    | inl b ↦ rw (slots_at-store c e slots s, b) d
    | inr b ↦ rw (slots_at-store c e slots s, b) (h.ids e)
  ];
  filled = λ e. lookup-store_ne_nil c e slots s h;
}

-- The consumer, if its object is alive.
abbrev pub alive : (ℕ → Bool) → Option ℕ → Option ℕ
alive live none = none
alive live (some k) = if live k then some k else none

-- The consumer under an id of a camera, if its object is alive.
abbrev pub view : (ℕ → Bool) → ℤ → Text → FrameBus → Option ℕ
view live c i s = alive live (lookup i (slots_at c s))

pub alive-retain :
    (live : ℕ → Bool) (i : Text) (slots : Subscriptions)
    → Distinct slots
    → alive live (lookup i (retain live slots)) ≡ alive live (lookup i slots)
alive-retain live i slots d = elim (Option-cases (lookup i slots)) [
  | inl e ↦ ground (arith, lookup-retain live i slots d)
  | inr (k, e) ↦ ground (arith, lookup-retain live i slots d)
]

module _ (c : ℤ) (edit : Subscriptions → Subscriptions) (empty : edit [] ≡ []) where
  slots_at-edit_found :
      (d : ℤ) (s : FrameBus) (found : Option Subscriptions)
      → lookup c s.subscribers ≡ found
      → slots_at d (edit_found c edit s found)
        ≡ (if int_beq c d then edit (slots_of found) else slots_at d s)
  unfolding edit_found
  slots_at-edit_found d s none e = elim (Bool-cases (int_beq c d)) [
    | inl b ↦
        rw (b)
          (subst (λ k. slots_at k s ≡ edit []) ((int_beq_iff c d).0 b) (ap slots_of e ∙ sym empty))
    | inr b ↦ rw (b) refl
  ]
  slots_at-edit_found d s (some slots) e = slots_at-store c d (edit slots) s

  -- An edit that keeps the ids distinct.
  edit_found-IsBus :
      (s : FrameBus) (found : Option Subscriptions)
      → lookup c s.subscribers ≡ found
      → ((slots : Subscriptions) → Distinct slots → Distinct (edit slots))
      → IsBus s
      → IsBus (edit_found c edit s found)
  unfolding edit_found
  edit_found-IsBus s none e keep h = h
  edit_found-IsBus s (some slots) e keep h =
      store-IsBus c (edit slots) s h (keep slots (subst Distinct (ap slots_of e) (h.ids c)))

module _ (live : ℕ → Bool) where
  pub compact-IsBus : (c : ℤ) (s : FrameBus) → IsBus s → IsBus (compact_expired_locked live c s)
  unfolding compact_expired_locked retain
  compact-IsBus c s h =
      edit_found-IsBus c (retain live) refl s (lookup c s.subscribers) refl (retain-Distinct live) h

  -- Compaction is not seen by who looks at live consumers only.
  pub compact-view :
      (c d : ℤ) (i : Text) (s : FrameBus)
      → IsBus s
      → view live d i (compact_expired_locked live c s) ≡ view live d i s
  unfolding compact_expired_locked retain
  compact-view c d i s h =
      let edited = slots_at-edit_found c (retain live) refl d s (lookup c s.subscribers) refl in
      elim (Bool-cases (int_beq c d)) [
        | inl b ↦
            ap (λ slots. alive live (lookup i slots)) (rw (b) at edited)
            ∙ alive-retain live i (slots_at c s) (h.ids c)
            ∙ ap (λ k. view live k i s) ((int_beq_iff c d).0 b)
        | inr b ↦ ap (λ slots. alive live (lookup i slots)) (rw (b) at edited)
      ]

  pub add_slot-IsBus :
      (c : ℤ) (i : Text) (k : ℕ) (s : FrameBus) → IsBus s → IsBus (add_slot live c i k s)
  unfolding add_slot
  add_slot-IsBus c i k s h = record {
    cameras = insert-Distinct c (insert i k (slots_at c s)) s.subscribers h.cameras;
    ids = λ d. elim (Bool-cases (int_beq c d)) [
      | inl b ↦
          rw (lookup-insert c d (insert i k (slots_at c s)) s.subscribers, b)
            (insert-Distinct i k (slots_at c s) (h.ids c))
      | inr b ↦ rw (lookup-insert c d (insert i k (slots_at c s)) s.subscribers, b) (h.ids d)
    ];
    filled = λ d e.
        insert_ne_nil i k (slots_at c s)
          (ground (arith, lookup-insert c d (insert i k (slots_at c s)) s.subscribers, h.filled d));
  }

  pub add_slot-view :
      (c d : ℤ) (i j : Text) (k : ℕ) (s : FrameBus)
      → view live d j (add_slot live c i k s)
        ≡ (if int_beq c d && text_beq i j then alive live (some k) else view live d j s)
  unfolding add_slot
  add_slot-view c d i j k s = ground (
    arith,
    lookup-insert c d (insert i k (slots_at c s)) s.subscribers,
    lookup-insert i j k (slots_at c s),
    ap (λ e. slots_at e s) ((int_beq_iff c d).0 _),
  )

pub unsubscribe-IsBus : (c : ℤ) (i : Text) (s : FrameBus) → IsBus s → IsBus (unsubscribe c i s)
unfolding unsubscribe erase
unsubscribe-IsBus c i s h =
    edit_found-IsBus c (erase i) refl s (lookup c s.subscribers) refl (erase-Distinct i) h

pub unsubscribe-view :
    (live : ℕ → Bool) (c d : ℤ) (i j : Text) (s : FrameBus)
    → view live d j (unsubscribe c i s)
      ≡ (if int_beq c d && text_beq i j then none else view live d j s)
unfolding unsubscribe erase
unsubscribe-view live c d i j s =
    let edited = slots_at-edit_found c (erase i) refl d s (lookup c s.subscribers) refl in
    elim (Bool-cases (int_beq c d)) [
      | inl b ↦
          ap (λ slots. alive live (lookup j slots)) (rw (b) at edited)
          ∙ ground (arith, b, lookup-erase i j (slots_at c s), (int_beq_iff c d).0 b)
      | inr b ↦ rw (b) (ap (λ slots. alive live (lookup j slots)) (rw (b) at edited))
    ]

pub unsubscribe_all-IsBus : (c : ℤ) (s : FrameBus) → IsBus s → IsBus (unsubscribe_all c s)
unfolding unsubscribe_all store lookup
unsubscribe_all-IsBus c s h = store-IsBus c [] s h tt

pub unsubscribe_all-view :
    (live : ℕ → Bool) (c d : ℤ) (j : Text) (s : FrameBus)
    → view live d j (unsubscribe_all c s) ≡ (if int_beq c d then none else view live d j s)
unfolding unsubscribe_all store lookup
unsubscribe_all-view live c d j s = elim (Bool-cases (int_beq c d)) [
  | inl b ↦ rw (b) (ap (λ slots. alive live (lookup j slots)) (rw (b) at (slots_at-store c d [] s)))
  | inr b ↦ rw (b) (ap (λ slots. alive live (lookup j slots)) (rw (b) at (slots_at-store c d [] s)))
]
