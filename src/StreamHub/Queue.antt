-- ===== src/StreamHub/Queue.antt =====
-- The queue of the tickets and the set of their ids agree.
use vms_ai.Prelude.{
  ◌≡◌, sym, ap, ◌∙◌, inl, inr, ◌⊎◌, ℤ, leb_ℤ, ltb_ℤ, ◌+ℤ◌, true, false, Bool-cases, List, [], ◌∷◌,
  ◌++◌, Text, text_beq, text_beq_iff, arith,
}
use vms_ai.StreamHub.Tickets.{
  TicketEntry, TicketStore, ticket_ttl, has, erase_text, evict, insert_new, use_ticket,
}

-- The id of no entry of the queue.
abbrev pub IsAbsent : Text → List TicketEntry → Type 0
IsAbsent jti [] = Unit
IsAbsent jti (e ∷ queue) = (text_beq e.jti jti ≡ false) × IsAbsent jti queue

-- No id twice in the queue, and each one is in the set.
abbrev pub IsQueue : List TicketEntry → List Text → Type 0
IsQueue [] set = Unit
IsQueue (e ∷ queue) set = (has e.jti set ≡ true) × IsAbsent e.jti queue × IsQueue queue set

-- The queue holds the id until the limit.
abbrev pub Holds : Text → ℤ → List TicketEntry → Type 0
Holds jti limit [] = ⊥
Holds jti limit (e ∷ queue) =
    ((text_beq e.jti jti ≡ true) × (ltb_ℤ e.expires limit ≡ false)) ⊎ Holds jti limit queue

has-erase_text :
    (jti j : Text) (set : List Text)
    → text_beq j jti ≡ false
    → has jti set ≡ true
    → has jti (erase_text j set) ≡ true
unfolding has erase_text
has-erase_text jti j [] ne h = cc
has-erase_text jti j (k ∷ set) ne h =
    ground
      (arith, text_beq_iff k jti, text_beq_iff k j, text_beq_iff j jti, has-erase_text jti j set ne)

IsQueue-erase_text :
    (j : Text) (queue : List TicketEntry) (set : List Text)
    → IsAbsent j queue
    → IsQueue queue set
    → IsQueue queue (erase_text j set)
IsQueue-erase_text j [] set a q = tt
IsQueue-erase_text j (e ∷ queue) set (ne, a) (h, b, q) = (
  has-erase_text e.jti j set (ground (arith, text_beq_iff e.jti j, text_beq_iff j e.jti)) h,
  b,
  IsQueue-erase_text j queue set a q,
)

-- The eviction keeps the invariant, and what is not yet over.
pub evict-IsQueue :
    (now : ℤ) (queue : List TicketEntry) (set : List Text)
    → IsQueue queue set
    → IsQueue (evict now queue set).ticket_queue (evict now queue set).ticket_set
unfolding evict
evict-IsQueue now [] set q = tt
evict-IsQueue now (e ∷ queue) set (h, a, q) = elim (Bool-cases (leb_ℤ e.expires now)) [
  | inl b ↦
      rw b (evict-IsQueue now queue (erase_text e.jti set) (IsQueue-erase_text e.jti queue set a q))
  | inr b ↦ rw b (h, a, q)
]

pub evict-Holds :
    (now limit : ℤ) (jti : Text) (queue : List TicketEntry) (set : List Text)
    → ltb_ℤ now limit ≡ true
    → Holds jti limit queue
    → Holds jti limit (evict now queue set).ticket_queue
unfolding evict
evict-Holds now limit jti [] set early h = h
evict-Holds now limit jti (e ∷ queue) set early (inl (same, late)) =
    let b : leb_ℤ e.expires now ≡ false = ground arith in rw b (inl (same, late))
evict-Holds now limit jti (e ∷ queue) set early (inr h) = elim (Bool-cases (leb_ℤ e.expires now)) [
  | inl b ↦ rw b (evict-Holds now limit jti queue (erase_text e.jti set) early h)
  | inr b ↦ rw b (inr h)
]

pub Holds-has :
    (jti : Text) (limit : ℤ) (queue : List TicketEntry) (set : List Text)
    → IsQueue queue set
    → Holds jti limit queue
    → has jti set ≡ true
Holds-has jti limit [] set q h = absurd h
Holds-has jti limit (e ∷ queue) set (a, _, q) (inl (same, _)) =
    ap (λ k. has k set) (sym ((text_beq_iff e.jti jti).0 same)) ∙ a
Holds-has jti limit (e ∷ queue) set (_, _, q) (inr h) = Holds-has jti limit queue set q h

-- An id that is not in the set is not in the queue.
set-IsAbsent :
    (jti : Text) (queue : List TicketEntry) (set : List Text)
    → has jti set ≡ false
    → IsQueue queue set
    → IsAbsent jti queue
set-IsAbsent jti [] set n q = tt
set-IsAbsent jti (e ∷ queue) set n (h, _, q) = (differs, set-IsAbsent jti queue set n q)
  where
    differs : text_beq e.jti jti ≡ false
    differs = elim (Bool-cases (text_beq e.jti jti)) [
      | inl b ↦
          let same = ap (λ k. has k set) ((text_beq_iff e.jti jti).0 b) in
          let bad = sym h ∙ same ∙ n in cc
      | inr b ↦ b
    ]

push-IsAbsent :
    (j jti : Text) (expires : ℤ) (queue : List TicketEntry)
    → text_beq jti j ≡ false
    → IsAbsent j queue
    → IsAbsent j (queue ++ record { jti = jti; expires = expires } ∷ [])
push-IsAbsent j jti expires [] ne a = (ne, tt)
push-IsAbsent j jti expires (e ∷ queue) ne (b, a) = (b, push-IsAbsent j jti expires queue ne a)

IsQueue-more :
    (jti : Text) (expires : ℤ) (queue : List TicketEntry) (set : List Text)
    → IsAbsent jti queue
    → IsQueue queue set
    → IsQueue (queue ++ record { jti = jti; expires = expires } ∷ []) (jti ∷ set)
unfolding has
IsQueue-more jti expires [] set a q = (ground (arith, text_beq_iff jti jti), tt, tt)
IsQueue-more jti expires (e ∷ queue) set (ne, a) (h, b, q) = (
  ground arith,
  push-IsAbsent e.jti jti expires queue
      (ground (arith, text_beq_iff e.jti jti, text_beq_iff jti e.jti)) b,
  IsQueue-more jti expires queue set a q,
)

pub Holds-append :
    (jti : Text) (limit : ℤ) (queue more : List TicketEntry)
    → Holds jti limit queue ⊎ Holds jti limit more
    → Holds jti limit (queue ++ more)
Holds-append jti limit [] more (inl h) = absurd h
Holds-append jti limit [] more (inr h) = h
Holds-append jti limit (e ∷ queue) more (inl (inl h)) = inl h
Holds-append jti limit (e ∷ queue) more (inl (inr h)) =
    inr (Holds-append jti limit queue more (inl h))
Holds-append jti limit (e ∷ queue) more (inr h) = inr (Holds-append jti limit queue more (inr h))

abbrev pub IsStore : TicketStore → Type 0
IsStore s = IsQueue s.ticket_queue s.ticket_set

insert_new-IsStore :
    (now : ℤ) (jti : Text) (s : TicketStore) → IsStore s → IsStore (insert_new now jti s).0
unfolding insert_new
insert_new-IsStore now jti s q = elim (Bool-cases (has jti s.ticket_set)) [
  | inl b ↦ rw b q
  | inr b ↦ rw b (
      IsQueue-more jti (now +ℤ ticket_ttl) s.ticket_queue s.ticket_set
        (set-IsAbsent jti s.ticket_queue s.ticket_set b q) q)
]

pub use_ticket-IsStore :
    (now : ℤ) (jti : Text) (s : TicketStore) → IsStore s → IsStore (use_ticket now jti s).0
unfolding use_ticket
use_ticket-IsStore now jti s q =
    insert_new-IsStore now jti (evict now s.ticket_queue s.ticket_set)
      (evict-IsQueue now s.ticket_queue s.ticket_set q)

insert_new-Holds :
    (now limit : ℤ) (j jti : Text) (s : TicketStore)
    → Holds j limit s.ticket_queue
    → Holds j limit (insert_new now jti s).0.ticket_queue
unfolding insert_new
insert_new-Holds now limit j jti s h = elim (Bool-cases (has jti s.ticket_set)) [
  | inl b ↦ rw b h
  | inr b ↦ rw b (Holds-append j limit s.ticket_queue _ (inl h))
]

pub use_ticket-Holds :
    (now limit : ℤ) (j jti : Text) (s : TicketStore)
    → ltb_ℤ now limit ≡ true
    → Holds j limit s.ticket_queue
    → Holds j limit (use_ticket now jti s).0.ticket_queue
unfolding use_ticket
use_ticket-Holds now limit j jti s early h =
    insert_new-Holds now limit j jti (evict now s.ticket_queue s.ticket_set)
      (evict-Holds now limit j s.ticket_queue s.ticket_set early h)
