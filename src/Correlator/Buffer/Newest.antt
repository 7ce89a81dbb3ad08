-- ===== src/Correlator/Buffer/Newest.antt =====
-- The buffer of event_correlator.cpp after many calls of processEvent.
use mathlib.Core.List.{append-nil, append_assoc}
use vms_ai.Prelude.{
  ℕ, zero, suc, ◌+◌, ◌-◌, ◌≤◌, ◌≡◌, refl, sym, ap, ◌∙◌, List, [], ◌∷◌, ◌++◌, length, length-append,
  length-drop, drop, arith,
}
use vms_ai.Events.{RawEvent}
use vms_ai.Correlator.{EventCorrelator}
use vms_ai.Correlator.Buffer.{push_bounded, with_id, process_event}

-- The calls of processEvent for a sequence of events.
unfoldable pub process_each : List RawEvent → EventCorrelator → EventCorrelator
process_each [] s = s
process_each (e ∷ es) s = process_each es (process_event e s)

-- The events as they are stored, from the next free id.
unfoldable pub stored : ℕ → List RawEvent → List RawEvent
stored next [] = []
stored next (e ∷ es) = (with_id e next).0 ∷ stored (with_id e next).1 es

-- The last m elements.
abbrev pub newest : ℕ → List RawEvent → List RawEvent
newest m xs = drop (length xs - m) xs

drop-append : (k : ℕ) (xs ys : List RawEvent) → k ≤ length xs → drop k (xs ++ ys) ≡ drop k xs ++ ys
drop-append zero xs ys h = refl
drop-append (suc k) [] ys h = absurd (omega arith)
drop-append (suc k) (x ∷ xs) ys h = drop-append k xs ys (omega arith)

drop-nil : (n : ℕ) → drop {A = RawEvent} n [] ≡ []
drop-nil zero = refl
drop-nil (suc n) = refl

suc_add : (k j : ℕ) → suc (k + j) ≡ suc k + j
suc_add k j = omega arith

drop-drop : (j k : ℕ) (xs : List RawEvent) → drop j (drop k xs) ≡ drop (k + j) xs
drop-drop j zero xs = ap (λ n. drop n xs) (omega arith)
drop-drop j (suc k) [] = drop-nil j ∙ sym (drop-nil (suc k + j))
drop-drop j (suc k) (x ∷ xs) = drop-drop j k xs ∙ ap (λ n. drop n (x ∷ xs)) (suc_add k j)

push_bounded-newest :
    (m : ℕ) (xs : List RawEvent) (e : RawEvent)
    → push_bounded m (newest m xs) e ≡ newest m (xs ++ e ∷ [])
unfolding push_bounded
push_bounded-newest m xs e =
    let k = length xs - m in
    let grown = newest m xs ++ e ∷ [] in
    let whole = xs ++ e ∷ [] in
    let front = drop-append k xs (e ∷ []) (omega arith) in
    ap (drop (length grown - m)) (sym front)
    ∙ drop-drop (length grown - m) k whole
    ∙ ap (λ n. drop n whole)
        (omega (
          arith,
          length-append (newest m xs) (e ∷ []),
          length-drop k xs,
          length-append xs (e ∷ []),
        ))

process_each-buffer :
    (es : List RawEvent) (s : EventCorrelator) (xs : List RawEvent)
    → s.event_buffer ≡ newest s.max_buffer_size xs
    → (process_each es s).event_buffer ≡ newest s.max_buffer_size (xs ++ stored s.next_event_id es)
unfolding process_each process_event stored
process_each-buffer [] s xs h = h ∙ sym (ap (newest s.max_buffer_size) (append-nil xs))
process_each-buffer (e ∷ es) s xs h =
    let x = (with_id e s.next_event_id).0 in
    process_each-buffer es (process_event e s) (xs ++ x ∷ []) (
      ap (λ buffer. push_bounded s.max_buffer_size buffer x) h
      ∙ push_bounded-newest s.max_buffer_size xs x)
    ∙ ap (newest s.max_buffer_size)
        (append_assoc xs (x ∷ []) (stored (with_id e s.next_event_id).1 es))

-- From an empty buffer, any number of calls of processEvent leaves the last max_buffer_size_ of the
-- events in it, in order, each with its own id or, where that is 0, a generated one.
pub process_each-newest :
    (es : List RawEvent) (s : EventCorrelator)
    → s.event_buffer ≡ []
    → (process_each es s).event_buffer ≡ newest s.max_buffer_size (stored s.next_event_id es)
process_each-newest es s h =
    process_each-buffer es s [] (h ∙ sym (drop-nil (0 - s.max_buffer_size)))
