-- ===== src/MediaSigner/Presigned.antt =====
-- The text of a link that presignPath of media_signer.h makes.
use vms_ai.Prelude.{
  ◌≡◌, ◌≢◌, refl, sym, ap, ◌∙◌, ltb, ℤ, pos, ◌+ℤ◌, ◌-ℤ◌, ◌≤ℤ◌, leb_ℤ, +ℤ_parts, -ℤ_parts, Bool,
  true, false, List, [], ◌∷◌, ◌++◌, length, Text, bytes, arith,
}
use mathlib.Core.List.{append_assoc, append-nil}
use vms_ai.MediaSigner.{
  MediaAccessScope, Library, Settings, sanitize_scope_part, verify_scope_matches_path,
  get_max_presign_ttl, capped_ttl, signature, expiry, query_part, presign_path, verify_presign,
}
use vms_ai.MediaSigner.Links.{sanitized, capped_ttl-bounds, verify_presign-signature}

-- A query behind its first field: each field is led by "&".
abbrev pub fields_text : List (Text × Text) → Text
fields_text [] = []
fields_text ((name, value) ∷ fields) =
    bytes "&" ++ (name ++ (bytes "=" ++ (value ++ fields_text fields)))

-- A path with a query of a first field and others.
abbrev pub link_text : Text → Text → Text → List (Text × Text) → Text
link_text path name value fields =
    path ++ (bytes "?" ++ (name ++ (bytes "=" ++ (value ++ fields_text fields))))

-- A field that is there only where it is given.
abbrev pub given : Bool → Text → Text → List (Text × Text) → List (Text × Text)
given true name value fields = (name, value) ∷ fields
given false name value fields = fields

-- The signature and the parts of the scope that are there.
abbrev pub scope_fields : Library → Text → MediaAccessScope → List (Text × Text)
scope_fields l sig s =
    (bytes "sig", sig)
    ∷ given (ltb 0 (length s.scope)) (bytes "scope") (sanitize_scope_part s.scope) (
        given (leb_ℤ (pos 0) s.camera_id) (bytes "camera_id") (l.print_int s.camera_id) (
          given (ltb 0 (length s.resource_id)) (bytes "resource_id")
            (sanitize_scope_part s.resource_id)
            (given (ltb 0 (length s.role)) (bytes "role") (sanitize_scope_part s.role) [])))

query_part-given :
    (b : Bool) (name value rest : Text) (fields : List (Text × Text))
    → rest ≡ fields_text fields
    → query_part b (bytes "&" ++ (name ++ bytes "=")) value ++ rest
      ≡ fields_text (given b name value fields)
unfolding query_part
query_part-given false name value rest fields h = h
query_part-given true name value rest fields h =
    ap (λ t. bytes "&" ++ t)
      (append_assoc (name ++ bytes "=") value rest
        ∙ append_assoc name (bytes "=") (value ++ rest)
        ∙ ap (λ t. name ++ (bytes "=" ++ (value ++ t))) h)

presign_path-link_text :
    (l : Library) (cfg : Settings) (now : ℤ) (path : Text) (ttl : ℤ) (s : MediaAccessScope)
    → path ≢ []
    → presign_path l cfg now path ttl s
      ≡ link_text path
          (bytes "exp")
          (l.print_int (expiry cfg now ttl))
          (scope_fields l (signature l cfg path (expiry cfg now ttl) s) s)
unfolding presign_path
presign_path-link_text l cfg now [] ttl s some_path = absurd (some_path refl)
presign_path-link_text l cfg now (c ∷ path) ttl s some_path =
    ap
      (λ t.
        (c ∷ path)
        ++ (bytes "?exp="
            ++ (l.print_int (expiry cfg now ttl)
                ++ (bytes "&sig=" ++ (signature l cfg (c ∷ path) (expiry cfg now ttl) s ++ t)))))
      (query_part-given (ltb 0 (length s.scope)) (bytes "scope") (sanitize_scope_part s.scope) _ _ (
        query_part-given (leb_ℤ (pos 0) s.camera_id) (bytes "camera_id") (l.print_int s.camera_id) _
          _
          (query_part-given (ltb 0 (length s.resource_id)) (bytes "resource_id")
            (sanitize_scope_part s.resource_id) _ _
            (sym (append-nil _)
              ∙ query_part-given (ltb 0 (length s.role)) (bytes "role") (sanitize_scope_part s.role)
                  [] [] refl))))

-- What presignPath makes is the path with a query: the expiry, which is at least a second and at most
-- the greatest time to live away, a signature, and of the scope the sanitized parts that are there (and
-- the camera where its id is not negative). With this expiry and signature, and the scope as the query
-- gives it back, verifyPresign lets the path through at any time until it expires, for a path that is
-- not empty and matches the scope (the HMAC has 32 bytes, and the clock is not before 1970).
pub verify_presign-presign_path :
    (l : Library) (cfg : Settings) (now later ttl : ℤ) (path : Text) (s : MediaAccessScope)
    → ((key data_in : Text) → length (l.hmac_sha256 key data_in) ≡ 32)
    → path ≢ []
    → pos 0 ≤ℤ now
    → now ≤ℤ later
    → later ≤ℤ expiry cfg now ttl
    → verify_scope_matches_path l path (sanitized s) ≡ true
    → (sig : Text) × (presign_path l cfg now path ttl s
        ≡ link_text path (bytes "exp") (l.print_int (expiry cfg now ttl)) (scope_fields l sig s))
      × (verify_presign l cfg later path (expiry cfg now ttl) sig (sanitized s) ≡ true)
      × (now +ℤ pos 1 ≤ℤ expiry cfg now ttl)
      × (expiry cfg now ttl -ℤ now ≤ℤ get_max_presign_ttl cfg)
unfolding expiry
verify_presign-presign_path l cfg now later ttl path s hmac some_path h0 h1 h2 m =
    let exp = expiry cfg now ttl in
    let (positive, capped) = capped_ttl-bounds cfg ttl in
    let sum = +ℤ_parts now (capped_ttl cfg ttl) in
    (
      signature l cfg path exp s,
      presign_path-link_text l cfg now path ttl s some_path,
      verify_presign-signature l cfg now later ttl path s hmac some_path h0 h1 h2 m,
      ground (arith, positive, sum, +ℤ_parts now (pos 1)),
      ground (arith, capped, sum, -ℤ_parts exp now),
    )
