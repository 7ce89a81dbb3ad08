-- ===== src/StreamHub/Tickets.antt =====
-- cpp-backend/src/streaming/camera_stream_manager.cpp: the one-time use of tickets. Times are those of
-- the steady clock, in nanoseconds.
use vms_ai.Prelude.{
  ℤ, pos, leb_ℤ, ◌+ℤ◌, Bool, true, false, ◌||◌, List, [], ◌∷◌, ◌++◌, if◌then◌else◌, Text, text_beq,
}

pub record TicketEntry : Type 0 where
  pub jti : Text
  pub expires : ℤ

-- ticket_queue and ticket_set
pub record TicketStore : Type 0 where
  pub ticket_queue : List TicketEntry
  pub ticket_set : List Text

-- kTicketTTL
abbrev pub ticket_ttl : ℤ
ticket_ttl = pos 30000000000

unfoldable pub has : Text → List Text → Bool
has jti [] = false
has jti (j ∷ s) = text_beq j jti || has jti s

unfoldable pub erase_text : Text → List Text → List Text
erase_text jti [] = []
erase_text jti (j ∷ s) = let rest = erase_text jti s in if text_beq j jti then rest else j ∷ rest

-- The loop over the front of the queue.
unfoldable pub evict : ℤ → List TicketEntry → List Text → TicketStore
evict now [] set = record { ticket_queue = []; ticket_set = set }
evict now (e ∷ queue) set =
    let rest = evict now queue (erase_text e.jti set) in
    if leb_ℤ e.expires now then rest else record { ticket_queue = e ∷ queue; ticket_set = set }

-- Let in where the id is new.
unfoldable pub insert_new : ℤ → Text → TicketStore → TicketStore × Bool
insert_new now jti s = if has jti s.ticket_set then (s, false) else (
  record {
    ticket_queue = s.ticket_queue ++ record { jti = jti; expires = now +ℤ ticket_ttl } ∷ [];
    ticket_set = jti ∷ s.ticket_set;
  },
  true,
)

unfoldable pub use_ticket : ℤ → Text → TicketStore → TicketStore × Bool
use_ticket now jti s = insert_new now jti (evict now s.ticket_queue s.ticket_set)

-- Before the first ticket.
abbrev pub no_tickets : TicketStore
no_tickets = record { ticket_queue = []; ticket_set = [] }
