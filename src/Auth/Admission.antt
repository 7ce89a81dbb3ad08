-- ===== src/Auth/Admission.antt =====
-- What a request has shown when the middleware lets it pass.
use vms_ai.Prelude.{
  ◌==◌, ◌≡◌, refl, sym, inl, inr, ◌&&◌, ◌||◌, not, Bool, true, false, Bool-cases, ltb, Option, none,
  some, length, take, drop, Text, bytes, text_beq, text_beq_iff, ℤ, if◌then◌else◌, arith,
}
use vms_ai.MediaSigner.{MediaAccessScope, starts_with, verify_presign}
use vms_ai.MediaSigner.Links.{Accepted, verify_presign-Accepted}
use vms_ai.Auth.Numbers.{before_first}
use vms_ai.Auth.Users.{User}
use vms_ai.Auth.Validate.{validate_token}
use vms_ai.Auth.Gate.{
  Request, Surroundings, passed, is_options, is_get, is_public, is_media, link_of,
  is_db_independent_api_path, check_link, link_outcome, without_header, token_outcome, with_header,
  header_or_cookie, authenticate, before_handle,
}

-- The path of a request.
abbrev pub path_of : Request → Text
path_of req = before_first b'?' req.url

-- Why a request passes, and with which user.
pub data Admission (env : Surroundings) (req : Request) : Option User → Type 0 where
  no_auth : {u : Option User} → u ≡ none → env.auth.enabled ≡ false → Admission env req u
  preflight : {u : Option User} → u ≡ none → is_options req.method ≡ true → Admission env req u
  page :
      {u : Option User}
      → u ≡ none
      → is_get req.method ≡ true
      → starts_with (path_of req) (bytes "/api/") ≡ false
      → Admission env req u
  public_route : {u : Option User} → u ≡ none → is_public (path_of req) ≡ true → Admission env req u
  signed_link :
      {u : Option User} (exp : ℤ) (sig : Text) (s : MediaAccessScope)
      → u ≡ none
      → is_get req.method ≡ true
      → is_media (path_of req) ≡ true
      → link_of req ≡ some (exp, sig, s)
      → (env.strict_scope_required && length s.scope == 0) ≡ false
      → Accepted env.media env.media_settings env.now_s (path_of req) exp sig s
      → Admission env req u
  bearer :
      {u : Option User} (user : User)
      → u ≡ some user
      → take 7 (header_or_cookie env req) ≡ bytes "Bearer "
      → validate_token env.jwt env.auth env.users env.now_ms (drop 7 (header_or_cookie env req))
        ≡ some user
      → Admission env req u

passed_injective : {u v : Option User} → passed u ≡ passed v → u ≡ v
passed_injective h = cc

check_link-Accepted :
    (env : Surroundings) (path : Text) (exp : ℤ) (sig : Text) (s : MediaAccessScope)
    {u : Option User}
    → check_link env path (exp, sig, s) ≡ passed u
    → (u ≡ none)
      × ((env.strict_scope_required && length s.scope == 0) ≡ false)
      × (verify_presign env.media env.media_settings env.now_s path exp sig s ≡ true)
unfolding check_link
check_link-Accepted env path exp sig s h = ground arith

-- The link that the outcome is about.
link_outcome-some :
    (env : Surroundings) (path : Text) (o : Option (ℤ × Text × MediaAccessScope)) {u : Option User}
    → link_outcome env path o ≡ passed u
    → (exp : ℤ) × (sig : Text) × (s : MediaAccessScope) × (o ≡ some (exp, sig, s))
      × (check_link env path (exp, sig, s) ≡ passed u)
unfolding link_outcome
link_outcome-some env path none h = cc
link_outcome-some env path (some (exp, sig, s)) h = (exp, sig, s, refl, h)

without_header-Admission :
    (env : Surroundings) (req : Request) {u : Option User}
    → without_header env req (path_of req) ≡ passed u
    → Admission env req u
unfolding without_header
without_header-Admission env req h =
    elim (Bool-cases (is_get req.method && is_media (path_of req))) [
      | inl b ↦
          let (exp, sig, s, e, c) = link_outcome-some env (path_of req) (link_of req) (rw b at h) in
          let (n, strict, ok) = check_link-Accepted env (path_of req) exp sig s c in
          signed_link exp sig s n (ground arith) (ground arith) e strict (
            verify_presign-Accepted env.media env.media_settings env.now_s (path_of req) exp sig s
              ok)
      | inr b ↦ let bad = rw b at h in cc
    ]

token_outcome-some :
    (o : Option User) {u : Option User}
    → token_outcome o ≡ passed u
    → (user : User) × (o ≡ some user) × (u ≡ some user)
unfolding token_outcome
token_outcome-some none h = cc
token_outcome-some (some user) h = (user, refl, sym (passed_injective h))

with_header-some :
    (env : Surroundings) (hdr : Text) {u : Option User}
    → with_header env hdr ≡ passed u
    → (take 7 hdr ≡ bytes "Bearer ")
      × (user : User) × (validate_token env.jwt env.auth env.users env.now_ms (drop 7 hdr)
          ≡ some user)
      × (u ≡ some user)
unfolding with_header
with_header-some env hdr h =
    elim (Bool-cases (ltb (length hdr) 8 || not (text_beq (take 7 hdr) (bytes "Bearer ")))) [
      | inl b ↦ let bad = rw b at h in cc
      | inr b ↦
          let (user, e, f) =
            token_outcome-some (validate_token env.jwt env.auth env.users env.now_ms (drop 7 hdr))
              (rw b at h) in
          let same : text_beq (take 7 hdr) (bytes "Bearer ") ≡ true =
            second (ltb (length hdr) 8) b in
          ((text_beq_iff (take 7 hdr) (bytes "Bearer ")).0 same, user, e, f)
    ]
  where
    second : (a : Bool) {c : Bool} → (a || not c) ≡ false → c ≡ true
    second true h = cc
    second false {c = true} h = refl
    second false {c = false} h = cc

authenticate-Admission :
    (env : Surroundings) (req : Request) {u : Option User}
    → authenticate env req (path_of req) ≡ passed u
    → Admission env req u
unfolding authenticate
authenticate-Admission env req h = elim (Bool-cases (length (header_or_cookie env req) == 0)) [
  | inl b ↦ without_header-Admission env req (rw b at h)
  | inr b ↦
      let (t, user, e, f) = with_header-some env (header_or_cookie env req) (rw b at h) in
      bearer user f t e
]

-- What the branches below the preflight requests come to.
after_preflight :
    (env : Surroundings) (req : Request) {u : Option User}
    → (if is_get req.method && not (starts_with (path_of req) (bytes "/api/"))
        then passed none
        else if is_public (path_of req)
        then passed none
        else authenticate env req (path_of req))
      ≡ passed u
    → Admission env req u
after_preflight env req h =
    elim (Bool-cases (is_get req.method && not (starts_with (path_of req) (bytes "/api/")))) [
      | inl b ↦ page (sym (passed_injective (rw b at h))) (ground arith) (ground arith)
      | inr b ↦
          let h1 = rw b at h in
          elim (Bool-cases (is_public (path_of req))) [
            | inl p ↦ public_route (sym (passed_injective (rw p at h1))) p
            | inr p ↦ authenticate-Admission env req (rw p at h1)
          ]
    ]

-- The request needs the database, which is not there.
abbrev lacks_db : Surroundings → Request → Bool
lacks_db env req =
    not (is_options req.method)
    && starts_with (path_of req) (bytes "/api/")
    && not (is_db_independent_api_path (path_of req) env.auth.enabled)
    && not env.db_ready

-- A request passes the middleware only for one of these reasons: authentication is switched off; it is
-- an OPTIONS request; it is a GET request for a path outside of /api/; its path is one of the seven
-- public routes (to log out and to change the default password at login are not among them); it is a GET request of a media path whose query has a link that verifyPresign accepts
-- for this path, with a scope where the settings want one; or its header, or in place of the header its
-- session cookie, is "Bearer " and a token that validateToken gives a user for. Only in the last case
-- the request has a user, and it is that one.
pub before_handle-Admission :
    (env : Surroundings) (req : Request) {u : Option User}
    → before_handle env req ≡ passed u
    → Admission env req u
unfolding before_handle
before_handle-Admission env req h = elim (Bool-cases (lacks_db env req)) [
  | inl b ↦ let bad = rw b at h in cc
  | inr b ↦
      let h1 = rw b at h in
      elim (Bool-cases (not env.auth.enabled)) [
        | inl off ↦ no_auth (sym (passed_injective (rw off at h1))) (ground arith)
        | inr on ↦
            let h2 = rw on at h1 in
            elim (Bool-cases (is_options req.method)) [
              | inl o ↦ preflight (sym (passed_injective (rw o at h2))) o
              | inr o ↦ after_preflight env req (rw o at h2)
            ]
      ]
]
