-- ===== src/BufferManager/Span.antt =====
-- The time that buffer_manager.cpp holds.
use vms_ai.Prelude.{
  ℕ, ◌+◌, ◌%◌, ◌^◌, ◌≤◌, ◌<◌, ◌≡◌, refl, sym, ap, subst, ◌∙◌, ℤ, pos, negsuc, pos_part, neg_part,
  ◌≤ℤ◌, ◌-ℤ◌, ltb_ℤ, -ℤ_parts, false, Bool-cases, inl, inr, List, [], ◌∷◌, ◌++◌, length, All, arith,
}
use vms_ai.BufferManager.{
  VideoPacket, BufferManager, to_long_long, minus_size, prune_by_time, prune_by_size, push,
  last_time, to_size, duration_of, get_duration,
}
use vms_ai.BufferManager.Cap.{
  bytes_of, bytes_of-append, IsBuffer, prune_by_time-Rest, prune_by_size-Rest, packet_of,
  push-IsBuffer,
}

-- The timestamps never fall along the buffer.
abbrev pub InOrder : List VideoPacket → Type 0
InOrder [] = Unit
InOrder (p ∷ ps) = All (λ q. p.timestamp ≤ℤ q.timestamp) ps × InOrder ps

-- The first packet is not too old.
abbrev FrontWithin : ℤ → ℤ → List VideoPacket → Type 0
FrontWithin newest limit [] = Unit
FrontWithin newest limit (p ∷ ps) = ltb_ℤ limit (newest -ℤ p.timestamp) ≡ false

prune_by_time-FrontWithin :
    (newest limit : ℤ) (ps : List VideoPacket) (total : ℕ)
    → FrontWithin newest limit (prune_by_time newest limit ps total).0
unfolding prune_by_time
prune_by_time-FrontWithin newest limit [] total = tt
prune_by_time-FrontWithin newest limit (p ∷ ps) total =
    elim (Bool-cases (ltb_ℤ limit (newest -ℤ p.timestamp))) [
      | inl old ↦
          rw (old)
            (prune_by_time-FrontWithin newest limit ps (minus_size total (length p.data_bytes)))
      | inr young ↦ rw (young) young
    ]

-- In order, no packet behind one that is not too old is.
FrontWithin-All :
    (newest limit : ℤ) (p : VideoPacket) (ps : List VideoPacket)
    → FrontWithin newest limit (p ∷ ps)
    → All (λ q. p.timestamp ≤ℤ q.timestamp) ps
    → All (λ q. ltb_ℤ limit (newest -ℤ q.timestamp) ≡ false) (p ∷ ps)
FrontWithin-All newest limit p [] w h = (w, tt)
FrontWithin-All newest limit p (q ∷ qs) w h =
    let rest = FrontWithin-All newest limit p qs w h.1 in
    (w, (ground (arith, -ℤ_parts newest p.timestamp, -ℤ_parts newest q.timestamp), rest.1))

All_suffix : (P : VideoPacket → Type 0) (ds ps : List VideoPacket) → All P (ds ++ ps) → All P ps
All_suffix P [] ps h = h
All_suffix P (d ∷ ds) ps h = All_suffix P ds ps h.1

InOrder-suffix : (ds ps : List VideoPacket) → InOrder (ds ++ ps) → InOrder ps
InOrder-suffix [] ps h = h
InOrder-suffix (d ∷ ds) ps h = InOrder-suffix ds ps h.1

abbrev last_or : ℤ → List VideoPacket → ℤ
last_or t [] = t
last_or t (p ∷ ps) = last_or p.timestamp ps

last_or-append :
    (t : ℤ) (ds : List VideoPacket) (p : VideoPacket) (ps : List VideoPacket)
    → last_or t (ds ++ p ∷ ps) ≡ last_time p ps
unfolding last_time
last_or-append t [] p [] = refl
last_or-append t [] p (q ∷ ps) = last_or-append p.timestamp [] q ps
last_or-append t (d ∷ ds) p ps = last_or-append d.timestamp ds p ps

-- The last packet of what is kept is the new one.
last_time_suffix :
    (ds : List VideoPacket) (p q : VideoPacket) (ps xs : List VideoPacket)
    → xs ++ q ∷ [] ≡ ds ++ p ∷ ps
    → last_time p ps ≡ q.timestamp
unfolding last_time
last_time_suffix ds p q ps xs h =
    sym (last_or-append (pos 0) ds p ps)
    ∙ ap (last_or (pos 0)) (sym h)
    ∙ last_or-append (pos 0) xs q []

size_within : (d : ℤ) (n : ℕ) → ltb_ℤ (pos n) d ≡ false → neg_part d ≤ pos_part d → to_size d ≤ n
unfolding to_size
size_within (pos m) n h k = ground arith
size_within (negsuc m) n h k = absurd (omega arith)

to_size-le :
    (newest : ℤ) (p : VideoPacket) (n : ℕ)
    → ltb_ℤ (pos n) (newest -ℤ p.timestamp) ≡ false
    → p.timestamp ≤ℤ newest
    → to_size (newest -ℤ p.timestamp) ≤ n
to_size-le newest p n h k =
    size_within (newest -ℤ p.timestamp) n h (omega (arith, -ℤ_parts newest p.timestamp))

duration_of-le :
    (newest : ℤ) (n : ℕ) (ps : List VideoPacket)
    → All (λ q. ltb_ℤ (pos n) (newest -ℤ q.timestamp) ≡ false) ps
    → InOrder ps
    → ((p : VideoPacket) (qs : List VideoPacket)
        → ps ≡ p ∷ qs
        → (last_time p qs ≡ newest) × (p.timestamp ≤ℤ newest))
    → duration_of ps ≤ n
unfolding duration_of
duration_of-le newest n [] w o e = omega arith
duration_of-le newest n (p ∷ ps) w o e =
    let (last, before) = e p ps refl in rw (last) (to_size-le newest p n w.0 before)

append_last :
    (P : VideoPacket → Type 0) (xs : List VideoPacket) (q : VideoPacket)
    → All P (xs ++ q ∷ [])
    → P q
append_last P [] q h = h.0
append_last P (x ∷ xs) q h = append_last P xs q h.1

front_le :
    (t : ℤ) (p : VideoPacket) (ps : List VideoPacket)
    → t ≤ℤ p.timestamp
    → All (λ q. t ≤ℤ q.timestamp) ps
    → t ≤ℤ last_time p ps
unfolding last_time
front_le t p [] h a = h
front_le t p (q ∷ qs) h a = front_le t q qs a.0 a.1

-- In order, the first of a list is not behind its last.
first_before :
    (ds : List VideoPacket) (p q : VideoPacket) (ps xs : List VideoPacket)
    → xs ++ q ∷ [] ≡ ds ++ p ∷ ps
    → InOrder (xs ++ q ∷ [])
    → p.timestamp ≤ℤ q.timestamp
first_before ds p q ps xs h o =
    let tail = InOrder-suffix ds (p ∷ ps) (subst InOrder h o) in
    let last = last_time_suffix ds p q ps xs h in
    subst (λ t. p.timestamp ≤ℤ t) last (front_le p.timestamp p ps (omega arith) tail.0)

all_within :
    (newest limit : ℤ) (ps : List VideoPacket)
    → FrontWithin newest limit ps
    → InOrder ps
    → All (λ q. ltb_ℤ limit (newest -ℤ q.timestamp) ≡ false) ps
all_within newest limit [] w o = tt
all_within newest limit (p ∷ ps) w o = FrontWithin-All newest limit p ps w o.0

push_within :
    (bytes_in : List ℕ) (timestamp : ℤ) (s : BufferManager)
    → IsBuffer s
    → length bytes_in < 2 ^ 63
    → InOrder (s.buffer ++ packet_of bytes_in timestamp ∷ [])
    → All
        (λ q. ltb_ℤ (to_long_long s.max_duration_ms) (timestamp -ℤ q.timestamp) ≡ false)
        (push bytes_in timestamp s).buffer
unfolding push
push_within bytes_in timestamp s h b o =
    let packet = packet_of bytes_in timestamp in
    let grown = s.buffer ++ packet ∷ [] in
    let total = (s.total_bytes + length bytes_in) % 2 ^ 64 in
    let limit = to_long_long s.max_duration_ms in
    let r = prune_by_time timestamp limit grown total in
    let t = prune_by_size r.0 r.1 in
    let sum = bytes_of-append s.buffer (packet ∷ []) in
    let young = prune_by_time-Rest timestamp limit grown total (omega arith) (omega arith) in
    let shrunk = ap bytes_of young.split ∙ bytes_of-append young.dropped r.0 in
    let small = (prune_by_size-Rest r.0 r.1 young.total (omega arith)).0 in
    let within =
      all_within timestamp limit r.0 (prune_by_time-FrontWithin timestamp limit grown total)
        (InOrder-suffix young.dropped r.0 (subst InOrder young.split o)) in
    All_suffix (λ q. ltb_ℤ limit (timestamp -ℤ q.timestamp) ≡ false) small.dropped t.0
      (subst (All (λ q. ltb_ℤ limit (timestamp -ℤ q.timestamp) ≡ false)) small.split within)

to_long_long_small : (n : ℕ) → n < 2 ^ 63 → to_long_long n ≡ pos n
unfolding to_long_long
to_long_long_small n h = ground arith

-- For timestamps that never fall, the buffer after a push stays in order and spans at most
-- max_duration_ms_, as getDuration gives it (packets and limit below 2^63).
pub push-get_duration-le :
    (bytes_in : List ℕ) (timestamp : ℤ) (s : BufferManager)
    → IsBuffer s
    → length bytes_in < 2 ^ 63
    → s.max_duration_ms < 2 ^ 63
    → InOrder (s.buffer ++ packet_of bytes_in timestamp ∷ [])
    → InOrder (push bytes_in timestamp s).buffer
      × (get_duration (push bytes_in timestamp s) ≤ s.max_duration_ms)
unfolding get_duration
push-get_duration-le bytes_in timestamp s h b m o =
    let packet = packet_of bytes_in timestamp in
    let t = push bytes_in timestamp s in
    let (_, dropped, split) = push-IsBuffer bytes_in timestamp s h b in
    let order = InOrder-suffix dropped t.buffer (subst InOrder split o) in
    let within =
      subst (λ limit. All (λ q. ltb_ℤ limit (timestamp -ℤ q.timestamp) ≡ false) t.buffer)
        (to_long_long_small s.max_duration_ms m) (push_within bytes_in timestamp s h b o) in
    (
      order,
      duration_of-le timestamp s.max_duration_ms t.buffer within order (λ p ps e.
          let whole = split ∙ ap (λ qs. dropped ++ qs) e in
          (
            last_time_suffix dropped p packet ps s.buffer whole,
            first_before dropped p packet ps s.buffer whole o,
          )),
    )
