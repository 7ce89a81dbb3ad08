-- ===== src/Correlator/Merge/Places.antt =====
-- The cameras and zones of a merged event.
use vms_ai.Prelude.{
  ◌≡◌, refl, ℤ, pos, ltb_ℤ, leb_ℤ, int_beq, int_beq_iff, int_eq, Bool, true, false, Bool-cases, inl,
  inr, ◌||◌, ◌&&◌, List, [], ◌∷◌, All, All_weaken, arith,
}
use vms_ai.Events.{RawEvent}
use vms_ai.Rules.Model.{contains}
use vms_ai.Correlator.Merge.{set_insert, collect_cameras, collect_zones}

-- Strictly increasing, as the elements of a std::set.
abbrev pub Increasing : List ℤ → Type 0
Increasing [] = Unit
Increasing (a ∷ as1) = All (λ b. ltb_ℤ a b ≡ true) as1 × Increasing as1

-- Some event is of this camera; some is of this zone, and not of an unknown one.
abbrev pub has_camera : ℤ → List RawEvent → Bool
has_camera z [] = false
has_camera z (e ∷ es) = int_beq e.camera_id z || has_camera z es

abbrev pub has_zone : ℤ → List RawEvent → Bool
has_zone z [] = false
has_zone z (e ∷ es) = (leb_ℤ (pos 0) e.zone_id && int_beq e.zone_id z) || has_zone z es

set_insert-All : (P : ℤ → Type 0) (a : ℤ) (bs : List ℤ) → P a → All P bs → All P (set_insert a bs)
unfolding set_insert
set_insert-All P a [] pa h = (pa, tt)
set_insert-All P a (b ∷ bs) pa h = ground (arith, set_insert-All P a bs pa h.1)

lt_trans : (a b c : ℤ) → ltb_ℤ a b ≡ true → ltb_ℤ b c ≡ true → ltb_ℤ a c ≡ true
lt_trans a b c h k = ground arith

pub set_insert-Increasing : (a : ℤ) (bs : List ℤ) → Increasing bs → Increasing (set_insert a bs)
unfolding set_insert
set_insert-Increasing a [] h = (tt, tt)
set_insert-Increasing a (b ∷ bs) h = elim (Bool-cases (ltb_ℤ a b)) [
  | inl ab ↦ rw (ab) (
    (
      ab,
      All_weaken (λ c. ltb_ℤ b c ≡ true) (λ c. ltb_ℤ a c ≡ true) bs (λ c. lt_trans a b c ab) h.0,
    ),
    h,
  )
  | inr ab ↦ elim (Bool-cases (ltb_ℤ b a)) [
    | inl ba ↦
        rw (ab, ba)
          (set_insert-All (λ c. ltb_ℤ b c ≡ true) a bs ba h.0, set_insert-Increasing a bs h.1)
    | inr ba ↦ rw (ab, ba) h
  ]
]

pub contains-set_insert :
    (z a : ℤ) (bs : List ℤ) → contains z (set_insert a bs) ≡ (int_beq a z || contains z bs)
unfolding contains set_insert
contains-set_insert z a [] = refl
contains-set_insert z a (b ∷ bs) =
    ground (arith, contains-set_insert z a bs, int_beq_iff a z, int_beq_iff b z)

pub collect_cameras-Increasing :
    (es : List RawEvent) (zs : List ℤ) → Increasing zs → Increasing (collect_cameras es zs)
unfolding collect_cameras
collect_cameras-Increasing [] zs h = h
collect_cameras-Increasing (e ∷ es) zs h =
    collect_cameras-Increasing es (set_insert e.camera_id zs)
      (set_insert-Increasing e.camera_id zs h)

contains-collect_cameras :
    (z : ℤ) (es : List RawEvent) (zs : List ℤ)
    → contains z (collect_cameras es zs) ≡ (has_camera z es || contains z zs)
unfolding collect_cameras
contains-collect_cameras z [] zs = refl
contains-collect_cameras z (e ∷ es) zs = ground (
  arith,
  contains-collect_cameras z es (set_insert e.camera_id zs),
  contains-set_insert z e.camera_id zs,
)

pub collect_zones-Increasing :
    (es : List RawEvent) (zs : List ℤ) → Increasing zs → Increasing (collect_zones es zs)
unfolding collect_zones
collect_zones-Increasing [] zs h = h
collect_zones-Increasing (e ∷ es) zs h = elim (Bool-cases (leb_ℤ (pos 0) e.zone_id)) [
  | inl known ↦
      rw (known) (
        collect_zones-Increasing es (set_insert e.zone_id zs)
          (set_insert-Increasing e.zone_id zs h))
  | inr none_known ↦ rw (none_known) (collect_zones-Increasing es zs h)
]

contains-collect_zones :
    (z : ℤ) (es : List RawEvent) (zs : List ℤ)
    → contains z (collect_zones es zs) ≡ (has_zone z es || contains z zs)
unfolding collect_zones
contains-collect_zones z [] zs = refl
contains-collect_zones z (e ∷ es) zs = elim (Bool-cases (leb_ℤ (pos 0) e.zone_id)) [
  | inl known ↦ rw (known) (
      ground (
        arith,
        contains-collect_zones z es (set_insert e.zone_id zs),
        contains-set_insert z e.zone_id zs,
      ))
  | inr none_known ↦ rw (none_known) (contains-collect_zones z es zs)
]

pub cameras_of : (z : ℤ) (es : List RawEvent) → contains z (collect_cameras es []) ≡ has_camera z es
unfolding contains
cameras_of z es = ground (arith, contains-collect_cameras z es [])

pub zones_of : (z : ℤ) (es : List RawEvent) → contains z (collect_zones es []) ≡ has_zone z es
unfolding contains
zones_of z es = ground (arith, contains-collect_zones z es [])
