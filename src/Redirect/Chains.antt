-- ===== src/Redirect/Chains.antt =====
-- src/redirect.rs, `decide` over a whole chain of redirects.
use min_mcp.Prelude.{
  eqb_refl, All-snoc, All-map, ℕ, ◌≤◌, ◌<◌, String, ◌≡◌, refl, sym, ◌∙◌, inl, inr, ◌⊎◌, ◌↔◌, ◌++◌,
  true, ◌&&◌, List, [], ◌∷◌, Option, none, some, arith, ◌=?◌, length, length-append, Bool-cases,
  All, eq_iff, and_true, eqb→≡,
}
use min_mcp.Redirect.{
  Url, follow, max_hops, allowed, decide, same_text, same_port, is_none, port_or_known_default,
}

module _ (known_default : String → Option ℕ) where
  -- The hops of a chain that starts at `start`: the URLs that were followed, the first first. A hop is
  -- in the chain when `decide`, told all that was requested before, follows it.
  pub data Hops (start : Url) : List Url → Type 0 where
    none_yet : Hops start []
    hop :
        {us : List Url} (u : Url)
        → Hops start us
        → decide known_default (start ∷ us) u ≡ follow
        → Hops start (us ++ (u ∷ []))

  -- Where credentials may go: the same host, with the scheme and port of the start, or from http to
  -- https at ports that are not written.
  pub record SafeFrom (start u : Url) : Type 0 where
    pub same_host : start.host_str ≡ u.host_str
    pub same_or_upgrade :
        ((start.scheme ≡ u.scheme)
          × (port_or_known_default known_default start ≡ port_or_known_default known_default u))
        ⊎ ((start.scheme ≡ "http") × (u.scheme ≡ "https") × (start.port ≡ none) × (u.port ≡ none))

  same_text_eq : (a b : Option String) → same_text a b ≡ true → a ≡ b
  same_text_eq none none h = refl
  same_text_eq (some a) (some b) h = ground (arith, (eq_iff a b).0 h)
  same_text_eq none (some b) h = absurd (cc)
  same_text_eq (some a) none h = absurd (cc)

  same_port_eq : (a b : Option ℕ) → same_port a b ≡ true → a ≡ b
  same_port_eq none none h = refl
  same_port_eq (some a) (some b) h = ground (arith, eqb→≡ a b h)
  same_port_eq none (some b) h = absurd (cc)
  same_port_eq (some a) none h = absurd (cc)

  is_none_eq : (a : Option ℕ) → is_none a ≡ true → a ≡ none
  is_none_eq none h = refl
  is_none_eq (some a) h = absurd (cc)

  allowed_safe : (start u : Url) → allowed known_default start u ≡ true → SafeFrom start u
  unfolding allowed
  allowed_safe start u h =
      let p = port_or_known_default known_default start in
      let q = port_or_known_default known_default u in
      elim (Bool-cases (start.scheme =? u.scheme && same_port p q)) [
        | inl e ↦
            let (a, b) = and_true (start.scheme =? u.scheme) (same_port p q) e in
            record {
              same_host = same_text_eq start.host_str u.host_str (ground arith);
              same_or_upgrade = inl ((eq_iff start.scheme u.scheme).0 a, same_port_eq p q b);
            }
        | inr e ↦ record {
          same_host = same_text_eq start.host_str u.host_str (ground arith);
          same_or_upgrade = inr (
            (eq_iff start.scheme "http").0 (ground arith),
            (eq_iff u.scheme "https").0 (ground arith),
            is_none_eq start.port (ground arith),
            is_none_eq u.port (ground arith),
          );
        }
      ]

  same_text_refl : (a : Option String) → same_text a a ≡ true
  same_text_refl none = refl
  same_text_refl (some a) = (eq_iff a a).1 refl

  same_port_refl : (a : Option ℕ) → same_port a a ≡ true
  same_port_refl none = refl
  same_port_refl (some a) = eqb_refl a

  safe_allowed : (start u : Url) → SafeFrom start u → allowed known_default start u ≡ true
  unfolding allowed
  safe_allowed start u s = elim (s.same_or_upgrade) [
    | inl (a, b) ↦ ground (
      arith,
      same_text_refl start.host_str,
      s.same_host,
      eq_iff start.scheme u.scheme,
      b,
      same_port_refl (port_or_known_default known_default start),
    )
    | inr (a, b, c, d) ↦ ground (
      arith,
      same_text_refl start.host_str,
      s.same_host,
      (eq_iff start.scheme "http").1 a,
      (eq_iff u.scheme "https").1 b,
      c,
      d,
    )
  ]

  -- A redirect is followed exactly if fewer than eleven URLs were requested before and it leads to the
  -- origin of the first of them, or upgrades that from http to https where neither names a port.
  decide_iff :
      (start : Url) (us : List Url) (u : Url)
      → (decide known_default (start ∷ us) u ≡ follow) ↔ ((length us < max_hops) × SafeFrom start u)
  unfolding decide
  decide_iff start us u = (
    λ h. elim (Bool-cases (allowed known_default start u)) [
      | inl a ↦ (ground arith, allowed_safe start u a)
      | inr a ↦ absurd (ground arith)
    ],
    λ (l, s). ground (arith, safe_allowed start u s),
  )

  -- However many redirects are followed, every URL that is requested is safe from the first one: the
  -- credentials never leave its host nor its scheme and port, other than from http to https; and there
  -- are ten at most.
  pub Hops-SafeFrom :
      (start : Url) (us : List Url)
      → Hops start us
      → All (SafeFrom start) us × (length us ≤ max_hops)
  Hops-SafeFrom start us none_yet = (tt, ground arith)
  Hops-SafeFrom start us (hop {us = before} u c h) =
      let (safe, few) = Hops-SafeFrom start before c in
      let (l, s) = (decide_iff start before u).0 h in
      (All-snoc (SafeFrom start) before u safe s, omega (arith, length-append before (u ∷ [])))

  -- From an https URL no redirect is followed to another scheme, however long the chain is.
  Hops-https :
      (start : Url) (us : List Url)
      → Hops start us
      → start.scheme ≡ "https"
      → All (λ u. u.scheme ≡ "https") us
  Hops-https start us c h =
      All-map (SafeFrom start) (λ u. u.scheme ≡ "https") stays us (Hops-SafeFrom start us c).0
    where
      stays : (u : Url) → SafeFrom start u → u.scheme ≡ "https"
      stays u s = elim (s.same_or_upgrade) [ inl (a, b) ↦ sym a ∙ h | inr (a, b, d, e) ↦ b ]
