-- ===== src/StreamHub/Places.antt =====
-- The clients of the cameras under removals and subscriptions.
use vms_ai.Prelude.{
  ℕ, ◌==◌, ==_iff, ◌≡◌, refl, sym, ap, ◌∙◌, ◌⊎◌, inl, inr, ℤ, int_beq, int_beq_iff, Bool, true,
  false, not, ◌||◌, Bool-cases, Option, none, some, List, [], ◌∷◌, ◌++◌, if◌then◌else◌, Map, lookup,
  lookup-insert, lookup-erase, nat_eq, int_eq, arith,
}
use vms_ai.Auth.Numbers.{some_injective}
use vms_ai.StreamHub.State.{
  StreamHub, add_client, clients_of, has_socket, or_empty, others, remove_client, remove_from,
  with_clients, without_client,
}

others-has :
    (live : ℕ → Bool) (s t : ℕ) (l : List ℕ)
    → has_socket t (others live s l) ≡ true
    → (has_socket t l ≡ true) × ((t == s) ≡ false)
unfolding has_socket others
others-has live s t [] h = cc
others-has live s t (u ∷ l) h = elim (Bool-cases (not (live u) || u == s)) [
  | inl b ↦ let (a, c) = others-has live s t l (rw b at h) in (ground arith, c)
  | inr b ↦ kept live s t u l b (rw b at h) (others-has live s t l)
]
  where
    kept :
        (live : ℕ → Bool) (s t u : ℕ) (l : List ℕ)
        → (not (live u) || u == s) ≡ false
        → (u == t || has_socket t (others live s l)) ≡ true
        → (has_socket t (others live s l) ≡ true → (has_socket t l ≡ true) × ((t == s) ≡ false))
        → (has_socket t (u ∷ l) ≡ true) × ((t == s) ≡ false)
    kept live s t u l b h ih = elim (Bool-cases (u == t)) [
      | inl e ↦ (ground arith, ground arith)
      | inr e ↦ let (a, c) = ih (ground arith) in (ground arith, c)
    ]

lookup-with_clients :
    (c d : ℤ) (l : List ℕ) (m : Map ℤ (List ℕ))
    → or_empty (lookup d (with_clients c l m)) ≡ (if int_beq c d then l else or_empty (lookup d m))
unfolding with_clients
lookup-with_clients c d [] m = rw (lookup-erase c d m) (ground arith)
lookup-with_clients c d (t ∷ l) m = rw (lookup-insert c d (t ∷ l) m) (ground arith)

without_client-has :
    (live : ℕ → Bool) (s t : ℕ) (c d : ℤ) (found : Option (List ℕ)) (m : Map ℤ (List ℕ))
    → found ≡ lookup c m
    → has_socket t (or_empty (lookup d (without_client live s c found m))) ≡ true
    → (has_socket t (or_empty (lookup d m)) ≡ true) × (int_beq c d ≡ true → (t == s) ≡ false)
unfolding without_client has_socket
without_client-has live s t c d none m e h = (
  h,
  λ same.
      let missing : lookup d m ≡ none =
        ap (λ k. lookup k m) (sym ((int_beq_iff c d).0 same)) ∙ sym e in
      let bad = sym h ∙ ap (λ o. has_socket t (or_empty o)) missing in cc,
)
without_client-has live s t c d (some l) m e h =
    let after : has_socket t (if int_beq c d then others live s l else or_empty (lookup d m))
        ≡ true =
      ap (has_socket t) (sym (lookup-with_clients c d (others live s l) m)) ∙ h in
    elim (Bool-cases (int_beq c d)) [
      | inl b ↦
          let (a, k) = others-has live s t l (rw b at after) in
          let same : lookup d m ≡ some l =
            ap (λ k. lookup k m) (sym ((int_beq_iff c d).0 b)) ∙ sym e in
          (ap (λ o. has_socket t (or_empty o)) same ∙ a, λ _. k)
      | inr b ↦ (rw b at after, λ same. let bad = sym same ∙ b in cc)
    ]

-- The clients are where socket_to_camera says.
abbrev pub Placed : StreamHub → Type 0
Placed h =
    (s : ℕ) (c : ℤ) → has_socket s (clients_of c h) ≡ true → lookup s h.socket_to_camera ≡ some c

-- What a removal leaves: fewer clients, and the socket nowhere.
pub remove_from-has :
    (live : ℕ → Bool) (s t : ℕ) (d : ℤ) (at : Option ℤ) (h : StreamHub)
    → at ≡ lookup s h.socket_to_camera
    → Placed h
    → has_socket t (clients_of d (remove_from live s at h)) ≡ true
    → (has_socket t (clients_of d h) ≡ true)
      × ((t == s) ≡ false)
      × (lookup t (remove_from live s at h).socket_to_camera ≡ some d)
unfolding remove_from clients_of
remove_from-has live s t d none h e p k = (
  k,
  elim (Bool-cases (t == s)) [
    | inl b ↦
        let here = p t d k in
        let same = ap (λ u. lookup u h.socket_to_camera) ((==_iff t s).0 b) in
        let bad = e ∙ sym same ∙ here in cc
    | inr b ↦ b
  ],
  p t d k,
)
remove_from-has live s t d (some c) h e p k =
    let (a, other) =
      without_client-has live s t c d (lookup c h.camera_clients) h.camera_clients refl k in
    let away : (t == s) ≡ false = elim (Bool-cases (t == s)) [
      | inl b ↦
          let here = p t d a in
          let same = ap (λ u. lookup u h.socket_to_camera) ((==_iff t s).0 b) in
          let camera : some c ≡ some d = e ∙ sym same ∙ here in
          other ((int_beq_iff c d).1 (some_injective camera))
      | inr b ↦ b
    ] in
    (a, away, lookup-erase s t h.socket_to_camera ∙ ground (arith, p t d a, ==_iff t s, ==_iff s t))

has-append :
    (t s : ℕ) (l : List ℕ)
    → has_socket t (l ++ s ∷ []) ≡ true
    → (t == s) ≡ false
    → has_socket t l ≡ true
unfolding has_socket
has-append t s [] h ne = ground arith
has-append t s (u ∷ l) h ne = ground (arith, has-append t s l)

clients_of-add_client :
    (live : ℕ → Bool) (s : ℕ) (c d : ℤ) (h : StreamHub)
    → clients_of d (add_client live c s h)
      ≡ (if int_beq c d then others live s (clients_of c h) ++ s ∷ [] else clients_of d h)
unfolding clients_of add_client
clients_of-add_client live s c d h =
    ap or_empty (
      lookup-insert c d (others live s (or_empty (lookup c h.camera_clients)) ++ s ∷ [])
        h.camera_clients)
    ∙ ground arith

place-add_client :
    (live : ℕ → Bool) (s t : ℕ) (c : ℤ) (h : StreamHub)
    → lookup t (add_client live c s h).socket_to_camera
      ≡ (if s == t then some c else lookup t h.socket_to_camera)
unfolding add_client
place-add_client live s t c h = lookup-insert s t c h.socket_to_camera

-- A subscription, after the removal: the socket is a client of the camera and of no other.
pub subscribed-has :
    (live : ℕ → Bool) (s t : ℕ) (c d : ℤ) (h : StreamHub)
    → Placed h
    → has_socket t (clients_of d (add_client live c s (remove_client live s h))) ≡ true
    → (((t ≡ s) × (c ≡ d)) ⊎ ((t == s) ≡ false) × (has_socket t (clients_of d h) ≡ true))
      × (lookup t (add_client live c s (remove_client live s h)).socket_to_camera ≡ some d)
unfolding remove_client
subscribed-has live s t c d h p k =
    let at = lookup s h.socket_to_camera in
    let r = remove_from live s at h in
    let after : has_socket t
          (if int_beq c d then others live s (clients_of c r) ++ s ∷ [] else clients_of d r)
        ≡ true =
      ap (has_socket t) (sym (clients_of-add_client live s c d r)) ∙ k in
    let place = place-add_client live s t c r in
    elim (Bool-cases (int_beq c d)) [
      | inl b ↦
          let same = (int_beq_iff c d).0 b in
          elim (Bool-cases (t == s)) [
            | inl e ↦ (inl ((==_iff t s).0 e, same), place ∙ ground (arith, ==_iff t s, same))
            | inr e ↦
                let (a, _) =
                  others-has live s t (clients_of c r)
                    (has-append t s (others live s (clients_of c r)) (rw b at after) e) in
                let (old, _, look) = remove_from-has live s t c at h refl p a in
                (
                  inr (e, ap (λ x. has_socket t (clients_of x h)) (sym same) ∙ old),
                  place ∙ ground (arith, look, same),
                )
          ]
      | inr b ↦
          let (old, e, look) = remove_from-has live s t d at h refl p (rw b at after) in
          (inr (e, old), place ∙ ground (arith, look))
    ]
