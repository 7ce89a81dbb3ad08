-- ===== src/StreamHub/Replays.antt =====
-- No ticket is let in twice within its time.
use vms_ai.Prelude.{
  ◌≡◌, refl, inl, inr, ℤ, ltb_ℤ, ◌+ℤ◌, true, false, Bool-cases, List, [], ◌∷◌, All, Text,
  text_beq_iff, arith,
}
use vms_ai.StreamHub.Tickets.{
  TicketStore, ticket_ttl, has, evict, insert_new, use_ticket, no_tickets,
}
use vms_ai.StreamHub.Queue.{
  Holds, evict-IsQueue, evict-Holds, Holds-has, Holds-append, IsStore, use_ticket-IsStore,
  use_ticket-Holds,
}

-- A ticket that is let in is held for its time.
insert_new_held :
    (now : ℤ) (jti : Text) (s : TicketStore)
    → (insert_new now jti s).1 ≡ true
    → Holds jti (now +ℤ ticket_ttl) (insert_new now jti s).0.ticket_queue
unfolding insert_new
insert_new_held now jti s h = elim (Bool-cases (has jti s.ticket_set)) [
  | inl b ↦ let bad = rw b at h in cc
  | inr b ↦ rw b (
      Holds-append jti (now +ℤ ticket_ttl) s.ticket_queue _
        (inr (inl ((text_beq_iff jti jti).1 refl, ground arith))))
]

use_ticket_held :
    (now : ℤ) (jti : Text) (s : TicketStore)
    → (use_ticket now jti s).1 ≡ true
    → Holds jti (now +ℤ ticket_ttl) (use_ticket now jti s).0.ticket_queue
unfolding use_ticket
use_ticket_held now jti s h = insert_new_held now jti (evict now s.ticket_queue s.ticket_set) h

-- The attempts with a ticket, each at its time.
unfoldable pub attempts : List (ℤ × Text) → TicketStore → TicketStore
attempts [] s = s
attempts ((now, jti) ∷ more) s = attempts more (use_ticket now jti s).0

attempts-IsStore :
    (more : List (ℤ × Text)) (s : TicketStore) → IsStore s → IsStore (attempts more s)
unfolding attempts
attempts-IsStore [] s q = q
attempts-IsStore ((now, jti) ∷ more) s q =
    attempts-IsStore more (use_ticket now jti s).0 (use_ticket-IsStore now jti s q)

attempts-Holds :
    (limit : ℤ) (j : Text) (more : List (ℤ × Text)) (s : TicketStore)
    → All (λ a. ltb_ℤ a.0 limit ≡ true) more
    → Holds j limit s.ticket_queue
    → Holds j limit (attempts more s).ticket_queue
unfolding attempts
attempts-Holds limit j [] s early h = h
attempts-Holds limit j ((now, jti) ∷ more) s (early, rest) h =
    attempts-Holds limit j more (use_ticket now jti s).0 rest
      (use_ticket-Holds now limit j jti s early h)

use_ticket_refused :
    (now limit : ℤ) (jti : Text) (s : TicketStore)
    → IsStore s
    → ltb_ℤ now limit ≡ true
    → Holds jti limit s.ticket_queue
    → (use_ticket now jti s).1 ≡ false
unfolding use_ticket insert_new
use_ticket_refused now limit jti s q early h =
    let e =
      Holds-has jti limit (evict now s.ticket_queue s.ticket_set).ticket_queue
        (evict now s.ticket_queue s.ticket_set).ticket_set
        (evict-IsQueue now s.ticket_queue s.ticket_set q)
        (evict-Holds now limit jti s.ticket_queue s.ticket_set early h) in
    rw e refl

-- Whatever was attempted before, a ticket that is let in at one time is refused at every time less
-- than 30 seconds after it, whatever else is attempted in between, also on a clock that goes back.
pub use_ticket_once :
    (before between : List (ℤ × Text)) (jti : Text) (now later : ℤ)
    → (use_ticket now jti (attempts before no_tickets)).1 ≡ true
    → All (λ a. ltb_ℤ a.0 (now +ℤ ticket_ttl) ≡ true) between
    → ltb_ℤ later (now +ℤ ticket_ttl) ≡ true
    → (use_ticket later jti
        (attempts between (use_ticket now jti (attempts before no_tickets)).0)).1
      ≡ false
use_ticket_once before between jti now later first early late =
    use_ticket_refused later (now +ℤ ticket_ttl) jti
      (attempts between (use_ticket now jti (attempts before no_tickets)).0)
      (attempts-IsStore between (use_ticket now jti (attempts before no_tickets)).0 (
        use_ticket-IsStore now jti (attempts before no_tickets)
          (attempts-IsStore before no_tickets tt)))
      late
      (attempts-Holds (now +ℤ ticket_ttl) jti between
        (use_ticket now jti (attempts before no_tickets)).0 early
        (use_ticket_held now jti (attempts before no_tickets) first))
