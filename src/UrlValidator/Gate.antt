-- ===== src/UrlValidator/Gate.antt =====
-- What a URL that url_validator.cpp lets pass is known to resolve to.
use vms_ai.Prelude.{
  ◌≡◌, ◌≢◌, refl, sym, ap, subst, ◌∙◌, ◌⊎◌, inl, inr, ℤ, pos, int_beq, Bool, true, false, ◌||◌,
  Option, none, some, List, [], ◌∷◌, Bool-cases, if◌then◌else◌, Text,
}
use vms_ai.UrlValidator.{
  Address, inet, inet6, other, Resolution, failed, resolved, UrlValidation, Scan, is_private,
  or_else, is_some, is_empty, keep_ip, scan, judge, some_text, extract_host, is_mdns, is_localhost,
  is_internal_url, build_resolve_entry,
}

-- No address of the list is private.
abbrev pub AllPublic : List Address → Type 0
AllPublic [] = Unit
AllPublic (a ∷ addrs) = (is_private a ≡ none) × AllPublic addrs

-- The text is that of an internet address of the list.
abbrev pub Prints : (Address → Text) → Text → List Address → Type 0
Prints ntop ip [] = ⊥
Prints ntop ip (a ∷ addrs) = ((a ≢ other) × (ip ≡ ntop a)) ⊎ Prints ntop ip addrs

module _ (ntop : Address → Text) where
  keep_ip-cases :
      (a : Address) (s : Scan)
      → ((keep_ip ntop a s).resolved_ip ≡ s.resolved_ip)
        ⊎ ((a ≢ other) × ((keep_ip ntop a s).resolved_ip ≡ ntop a))
  keep_ip-cases (inet addr) s = elim (Bool-cases (is_empty s.resolved_ip)) [
    | inl first ↦ rw first (inr (λ e. cc, refl))
    | inr later ↦ rw later (inl refl)
  ]
  keep_ip-cases (inet6 addr) s = elim (Bool-cases (is_empty s.resolved_ip)) [
    | inl first ↦ rw first (inr (λ e. cc, refl))
    | inr later ↦ rw later (inl refl)
  ]
  keep_ip-cases other s = inl refl

  scan-Prints :
      (addrs : List Address) (s : Scan)
      → ((scan ntop addrs s).resolved_ip ≡ s.resolved_ip)
        ⊎ Prints ntop (scan ntop addrs s).resolved_ip addrs
  unfolding scan
  scan-Prints [] s = inl refl
  scan-Prints (a ∷ addrs) s = elim (scan-Prints addrs (next a s)) [
    | inr later ↦ inr (inr later)
    | inl same ↦ elim (keep_ip-cases a s) [
      | inl kept ↦ inl (same ∙ kept)
      | inr new ↦ inr (inl (new.0, same ∙ new.1))
    ]
  ]
    where
      next : Address → Scan → Scan
      next b t = record (keep_ip ntop b t) {
        first_internal = or_else t.first_internal (is_private b);
      }

  or_else-none : (t u : Option Text) → or_else t u ≡ none → (t ≡ none) × (u ≡ none)
  or_else-none none u e = (refl, e)
  or_else-none (some t) u e = cc

  scan-AllPublic :
      (addrs : List Address) (s : Scan)
      → (scan ntop addrs s).first_internal ≡ none
      → (s.first_internal ≡ none) × AllPublic addrs
  unfolding scan
  scan-AllPublic [] s e = (e, tt)
  scan-AllPublic (a ∷ addrs) s e =
      let tail = scan-AllPublic addrs _ e in
      let head = or_else-none s.first_internal (is_private a) tail.0 in (head.0, (head.1, tail.1))

is_some-none : (t : Option Text) → is_some t ≡ false → t ≡ none
is_some-none none e = refl
is_some-none (some t) e = cc

-- The host resolved to some addresses, none of them private, and the text, unless it is empty, is that
-- of one of them.
unfoldable pub Judged : (Address → Text) → Resolution → Text → Type 0
Judged ntop r ip =
    (addrs : List Address) × (r ≡ resolved addrs)
    × (addrs ≢ [])
    × AllPublic addrs
    × ((ip ≡ []) ⊎ Prints ntop ip addrs)

judge-Judged :
    (ntop : Address → Text) (show : ℤ → Text) (v : UrlValidation) (r : Resolution)
    → (judge ntop show v r).internal ≡ false
    → Judged ntop r (judge ntop show v r).resolved_ip
unfolding judge Judged
judge-Judged ntop show v (failed rc) e = cc
judge-Judged ntop show v (resolved []) e = cc
judge-Judged ntop show v (resolved (a ∷ addrs)) e = (
  a ∷ addrs,
  refl,
  (λ k. cc),
  (scan-AllPublic ntop (a ∷ addrs) _ (is_some-none _ e)).1,
  scan-Prints ntop (a ∷ addrs) _,
)

-- A verdict behind three refusals is not internal only if none of them applies.
refusals :
    (a b c : Bool) (x y z w : UrlValidation)
    → x.internal ≡ true
    → y.internal ≡ true
    → z.internal ≡ true
    → (if a then x else if b then y else if c then z else w).internal ≡ false
    → (a ≡ false)
      × (b ≡ false)
      × (c ≡ false)
      × ((if a then x else if b then y else if c then z else w) ≡ w)
refusals true b c x y z w ex ey ez e = cc
refusals false true c x y z w ex ey ez e = cc
refusals false false true x y z w ex ey ez e = cc
refusals false false false x y z w ex ey ez e = (refl, refl, refl, refl)

guards :
    (a b c d : Bool) (t : Text)
    → (if a || (b || (c || d)) then [] else t) ≢ []
    → (a ≡ false) × (c ≡ false)
guards true b c d t h = absurd (h refl)
guards false true c d t h = absurd (h refl)
guards false false true d t h = absurd (h refl)
guards false false false d t h = (refl, refl)

printed :
    (ntop : Address → Text) (ip : Text) (addrs : List Address)
    → is_empty ip ≡ false
    → (ip ≡ []) ⊎ Prints ntop ip addrs
    → Prints ntop ip addrs
printed ntop ip addrs h (inr p) = p
printed ntop ip addrs h (inl e) = let k : is_empty ip ≡ true = ap is_empty e in cc

module _ (stoi : Text → Option ℤ) (getaddrinfo : Text → Option Text → Resolution)
    (ntop : Address → Text) (show : ℤ → Text) where
  abbrev validate : Text → UrlValidation
  validate url = is_internal_url stoi getaddrinfo ntop show url

  -- A URL passes only if its host, as extractHost reads it, is not empty, is no .local name of the
  -- test and no localhost, and the resolver answers for it with some addresses, none of which is
  -- private: a failed resolution or a single private address among public ones is refused. The
  -- address kept for pinning, unless its text is empty, is one of those addresses.
  pub is_internal_url-Judged :
      (url : Text)
      → (validate url).internal ≡ false
      → (is_empty (extract_host url).0 ≡ false)
        × (is_mdns (extract_host url).0 ≡ false)
        × (is_localhost (extract_host url).0 ≡ false)
        × Judged ntop
            (getaddrinfo (extract_host url).0 (some_text (extract_host url).1))
            (validate url).resolved_ip
  unfolding is_internal_url
  is_internal_url-Judged url e =
      let passed =
        refusals (is_empty (extract_host url).0) (is_mdns (extract_host url).0)
          (is_localhost (extract_host url).0) _ _ _ _ refl refl refl e in
      (passed.0, passed.1, passed.2, judged _ passed.3)
    where
      judged :
          (v : UrlValidation)
          → validate url
            ≡ judge ntop show v (getaddrinfo (extract_host url).0 (some_text (extract_host url).1))
          → Judged ntop
              (getaddrinfo (extract_host url).0 (some_text (extract_host url).1))
              (validate url).resolved_ip
      judged v k =
          subst
            (λ u.
              Judged ntop (getaddrinfo (extract_host url).0 (some_text (extract_host url).1))
                u.resolved_ip)
            (sym k)
            (judge-Judged ntop show v _ (sym (ap (λ (u : UrlValidation). u.internal) k) ∙ e))

  -- A pinning entry, unless it is empty, is built for the text of an address that the resolver gave
  -- for the host, and none of the addresses it gave is private.
  pub build_resolve_entry-Prints :
      (show_port : ℤ → Text) (url : Text)
      → build_resolve_entry show_port (validate url) ≢ []
      → (addrs : List Address) × (getaddrinfo (extract_host url).0 (some_text (extract_host url).1)
          ≡ resolved addrs)
        × AllPublic addrs
        × Prints ntop (validate url).resolved_ip addrs
  unfolding build_resolve_entry Judged
  build_resolve_entry-Prints show_port url built =
      let v = validate url in
      let needed =
        guards v.internal (is_empty v.host) (is_empty v.resolved_ip) (int_beq v.port (pos 0)) _
          built in
      let (addrs, answered, some_address, all_public, prints) =
        (is_internal_url-Judged url needed.0).3 in
      (addrs, answered, all_public, printed ntop v.resolved_ip addrs needed.1 prints)
