-- ===== src/StreamHub/Rights/Steps.antt =====
-- The steps of the hub keep what it has granted.
use vms_ai.Prelude.{
  ℕ, ◌==◌, ==_iff, ◌≡◌, refl, sym, ap, ◌∙◌, inl, inr, ℤ, pos, int_beq, Bool, true, false, ◌||◌,
  Bool-cases, Option, none, some, Option-cases, List, [], ◌∷◌, ◌++◌, if◌then◌else◌, lookup,
  lookup-insert, nat_eq, int_eq, arith,
}
use vms_ai.Auth.Numbers.{some_injective}
use vms_ai.Auth.Users.{User}
use vms_ai.StreamHub.Places.{subscribed-has}
use vms_ai.StreamHub.Rights.{Grants, may, granted, IsGranted}
use vms_ai.StreamHub.State.{
  Reply, StreamHub, add_client, clients_of, has_camera, has_socket, or_unset, properties_of,
  remove_client, remove_from,
}
use vms_ai.StreamHub.Hub.{
  auth_timeout, authenticated, count_authed, fail_auth, may_subscribe, subscribe,
}

-- A removal leaves the properties and the scopes.
pub remove_from-same :
    (live : ℕ → Bool) (s t : ℕ) (at : Option ℤ) (h : StreamHub)
    → (properties_of t (remove_from live s at h) ≡ properties_of t h)
      × ((remove_from live s at h).allowed_cameras ≡ h.allowed_cameras)
      × ((remove_from live s at h).properties ≡ h.properties)
unfolding remove_from properties_of
remove_from-same live s t none h = (refl, refl, refl)
remove_from-same live s t (some c) h = (refl, refl, refl)

added-same :
    (live : ℕ → Bool) (s t : ℕ) (c : ℤ) (h : StreamHub)
    → (properties_of t (add_client live c s (remove_client live s h)) ≡ properties_of t h)
      × ((add_client live c s (remove_client live s h)).allowed_cameras ≡ h.allowed_cameras)
unfolding add_client remove_client properties_of
added-same live s t c h =
    let (_, scopes, props) = remove_from-same live s t (lookup s h.socket_to_camera) h in
    (ap (λ m. or_unset (lookup t m)) props, scopes)

subscribed-may :
    (s : ℕ) (c : ℤ) (h : StreamHub) (grants : ℕ → Grants)
    → IsGranted h grants
    → int_beq c (pos 0) ≡ false
    → may_subscribe s c h ≡ true
    → may c (grants s) ≡ true
unfolding may_subscribe
subscribed-may s c h grants v other k = elim (Option-cases (lookup s h.allowed_cameras)) [
  | inl e ↦ ground (arith, v.admin s)
  | inr (l, e) ↦ ground (arith, v.admin s, v.scope s l c e)
]

pub subscribe-IsGranted :
    (live : ℕ → Bool) (s : ℕ) (c : ℤ) (h : StreamHub) (grants : ℕ → Grants)
    → IsGranted h grants
    → (properties_of s h).authed ≡ true
    → IsGranted (subscribe live s c h).0 grants
unfolding subscribe
subscribe-IsGranted live s c h grants v authed = elim (Bool-cases (may_subscribe s c h)) [
  | inr b ↦ rw b v
  | inl b ↦ rw b (record {
    place = λ t d k. (subscribed-has live s t c d h v.place k).1;
    admin = λ t k. v.admin t (ap (λ p. p.is_admin) (sym (same t)) ∙ k);
    scope = λ t l d e k. v.scope t l d (ap (λ m. lookup t m) (sym scopes) ∙ e) k;
    unscoped = λ t k e.
        v.unscoped t (ap (λ p. p.authed) (sym (same t)) ∙ k)
          (ap (λ m. lookup t m) (sym scopes) ∙ e);
    clients = λ t d other k. elim ((subscribed-has live s t c d h v.place k).0) [
      | inl (e, f) ↦
          let ok = subscribed-may s c h grants v (ap (λ x. int_beq x (pos 0)) f ∙ other) b in
          ap (λ x. may d (grants x)) e ∙ ap (λ x. may x (grants s)) (sym f) ∙ ok
      | inr (_, old) ↦ v.clients t d other old
    ];
    listeners = λ t k.
        ap (λ p. p.authed) (same t) ∙ (elim ((subscribed-has live s t c (pos 0) h v.place k).0) [
          | inl (e, _) ↦ ap (λ x. (properties_of x h).authed) e ∙ authed
          | inr (_, old) ↦ v.listeners t old
        ]);
  })
]
  where
    same :
        (t : ℕ) → properties_of t (add_client live c s (remove_client live s h)) ≡ properties_of t h
    same t = (added-same live s t c h).0

    scopes : (add_client live c s (remove_client live s h)).allowed_cameras ≡ h.allowed_cameras
    scopes = (added-same live s s c h).1

-- What changes neither the properties nor the clients nor the scopes.
pub fail_auth-IsGranted :
    (s : ℕ) (reply : Reply) (h : StreamHub) (grants : ℕ → Grants)
    → IsGranted h grants
    → IsGranted (fail_auth s reply h).0 grants
unfolding fail_auth properties_of clients_of
fail_auth-IsGranted s reply h grants v = record {
  place = v.place;
  admin = v.admin;
  scope = v.scope;
  unscoped = v.unscoped;
  clients = v.clients;
  listeners = v.listeners;
}

pub auth_timeout-IsGranted :
    (s : ℕ) (h : StreamHub) (grants : ℕ → Grants)
    → IsGranted h grants
    → IsGranted (auth_timeout s h).0 grants
unfolding auth_timeout properties_of clients_of
auth_timeout-IsGranted s h grants v =
    elim (Bool-cases ((or_unset (lookup s h.properties)).authed)) [
      | inl b ↦ rw b v
      | inr b ↦ rw b (record {
        place = v.place;
        admin = v.admin;
        scope = v.scope;
        unscoped = v.unscoped;
        clients = v.clients;
        listeners = v.listeners;
      })
    ]

-- The grants of one socket are those of another user too.
abbrev pub with_grant : ℕ → Grants → (ℕ → Grants) → ℕ → Grants
with_grant s g grants t = if s == t then g else grants t

has_camera-append :
    (c : ℤ) (l m : List ℤ) → has_camera c (l ++ m) ≡ (has_camera c l || has_camera c m)
unfolding has_camera
has_camera-append c [] m = refl
has_camera-append c (d ∷ l) m = ground (arith, has_camera-append c l m)

granted-may :
    (cameras_of : ℤ → List ℤ) (user : User) (c : ℤ) (g : Grants)
    → may c g ≡ true
    → may c (granted cameras_of user g) ≡ true
granted-may cameras_of user c g k =
    ground (arith, has_camera-append c (cameras_of user.id) g.cameras)

more_granted :
    (cameras_of : ℤ → List ℤ) (user : User) (s t : ℕ) (c : ℤ) (grants : ℕ → Grants)
    → may c (grants t) ≡ true
    → may c (with_grant s (granted cameras_of user (grants s)) grants t) ≡ true
more_granted cameras_of user s t c grants k = elim (Bool-cases (s == t)) [
  | inl b ↦
      rw b (
        granted-may cameras_of user c (grants s)
          (ap (λ x. may c (grants x)) ((==_iff s t).0 b) ∙ k))
  | inr b ↦ rw b k
]

module _ (cameras_of : ℤ → List ℤ) (s : ℕ) (user : User) (h : StreamHub) where
  -- The user's administration.
  abbrev admin_user : Bool
  admin_user = int_beq user.role_id (pos 1)

  after-properties :
      (t : ℕ)
      → properties_of t (authenticated cameras_of s user h) ≡ (
          if s == t
          then record (properties_of s h) {
            authed = true;
            is_admin = admin_user;
            user_id = user.id;
          }
          else properties_of t h)
  unfolding authenticated count_authed properties_of
  after-properties t = ap or_unset (lookup-insert s t _ h.properties) ∙ ground arith

  after-scopes :
      (t : ℕ)
      → lookup t (authenticated cameras_of s user h).allowed_cameras ≡ (
          if admin_user
          then lookup t h.allowed_cameras
          else if s == t
          then some (cameras_of user.id)
          else lookup t h.allowed_cameras)
  unfolding authenticated count_authed
  after-scopes t = elim (Bool-cases admin_user) [
    | inl b ↦ rw b refl
    | inr b ↦ rw b (lookup-insert s t (cameras_of user.id) h.allowed_cameras)
  ]

  after-clients : (c : ℤ) → clients_of c (authenticated cameras_of s user h) ≡ clients_of c h
  unfolding authenticated count_authed clients_of
  after-clients c = refl

  after-place : (authenticated cameras_of s user h).socket_to_camera ≡ h.socket_to_camera
  unfolding authenticated count_authed
  after-place = refl

  user_scope :
      (c : ℤ) (g : Grants)
      → admin_user ≡ false
      → has_camera c (cameras_of user.id) ≡ true
      → may c (granted cameras_of user g) ≡ true
  user_scope c g b k = ground (arith, has_camera-append c (cameras_of user.id) g.cameras)

  module _ (grants : ℕ → Grants) (v : IsGranted h grants) where
    scope_after :
        (t : ℕ) (l : List ℤ) (c : ℤ)
        → lookup t (authenticated cameras_of s user h).allowed_cameras ≡ some l
        → has_camera c l ≡ true
        → may c (with_grant s (granted cameras_of user (grants s)) grants t) ≡ true
    scope_after t l c e k =
        let found = sym (after-scopes t) ∙ e in
        elim (Bool-cases admin_user) [
          | inl b ↦ more_granted cameras_of user s t c grants (v.scope t l c (rw b at found) k)
          | inr b ↦
              let found' = rw b at found in
              elim (Bool-cases (s == t)) [
                | inr ne ↦
                    more_granted cameras_of user s t c grants (v.scope t l c (rw ne at found') k)
                | inl same ↦
                    let list : cameras_of user.id ≡ l = some_injective (rw same at found') in
                    rw same (user_scope c (grants s) b (ap (has_camera c) list ∙ k))
              ]
        ]

    pub authenticated-IsGranted :
        IsGranted
          (authenticated cameras_of s user h)
          (with_grant s (granted cameras_of user (grants s)) grants)
    authenticated-IsGranted = record {
      place = λ t c k.
          ap (λ m. lookup t m) after-place
          ∙ v.place t c (ap (has_socket t) (sym (after-clients c)) ∙ k);
      admin = λ t k. ground (arith, after-properties t, v.admin t);
      scope = scope_after;
      unscoped = λ t k e. ground (arith, after-properties t, after-scopes t, v.unscoped t);
      clients = λ t c other k.
          more_granted cameras_of user s t c grants
            (v.clients t c other (ap (has_socket t) (sym (after-clients c)) ∙ k));
      listeners = λ t k.
          let before = v.listeners t (ap (has_socket t) (sym (after-clients (pos 0))) ∙ k) in
          ground (arith, after-properties t, before);
    }
