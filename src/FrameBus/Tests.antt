-- ===== src/FrameBus/Tests.antt =====
-- Runs of frame_bus.cpp, and its theorem at a concrete history.
use vms_ai.Prelude.{
  ℕ, ◌≡◌, refl, pos, Bool, true, not, ◌==◌, some, List, [], ◌∷◌, map, length, lookup, insert, erase,
  retain, Distinct, Text, bytes, text_eq, int_eq,
}
use vms_ai.FrameBus.{
  Subscriptions, new, store, edit_found, compact_expired_locked, add_slot, subscribe, lock_all,
  publish, subscriber_count, unsubscribe,
}
use vms_ai.FrameBus.Slots.{alive}
use vms_ai.FrameBus.History.{Call, attach, detach, call, run, table_of, Fade, run-Delivers}

abbrev frame : ℕ
frame = 99

abbrev all_live : ℕ → Bool
all_live _ = true

-- Object 2 has died.
abbrev without_2 : ℕ → Bool
without_2 k = not (k == 2)

abbrev history : List ((ℕ → Bool) × Call)
history =
    (all_live, attach (pos 1) (bytes "rec") (some 1))
    ∷ (all_live, attach (pos 1) (bytes "ai") (some 2))
    ∷ (all_live, attach (pos 1) (bytes "web") (some 3))
    ∷ (all_live, detach (pos 1) (bytes "web"))
    ∷ (without_2, attach (pos 1) (bytes "rec") (some 4))
    ∷ []

only_4 : publish without_2 (pos 1) frame (run history new) ≡ (4, frame) ∷ []
unfolding publish run call subscribe add_slot compact_expired_locked edit_found store unsubscribe
    lock_all lookup insert erase retain
only_4 = refl

history-Fade : Fade all_live history without_2
history-Fade = (λ k h. h, (λ k h. h, (λ k h. h, (λ k h. h, (λ k h. refl, λ k h. h)))))

run-Delivers_example :
    (held : Subscriptions) × Distinct held
    × ((i : Text) → lookup i held ≡ alive without_2 (table_of history (pos 1) i))
    × (publish without_2 (pos 1) frame (run history new)
        ≡ map (λ k. (k, frame)) (map (λ (p : Text × ℕ). p.1) held))
    × (subscriber_count without_2 (pos 1) (run history new) ≡ length held)
run-Delivers_example = run-Delivers history all_live without_2 (pos 1) frame history-Fade
