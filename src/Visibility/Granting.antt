-- ===== src/Visibility/Granting.antt =====
-- src/config.rs, `allowed` and `pattern_match`; src/surface.rs, `may_call`: what the scopes of a caller grant.
use min_mcp.Prelude.{
  String, ◌<>◌, ◌≡◌, refl, inl, inr, ◌⊎◌, ◌↔◌, Bool, true, false, not, ◌||◌, List, [], ◌∷◌, arith,
  Bool-cases, At, any, any-At, At-any, eq_iff, strip_suffix, ◌=?◌, if◌then◌else◌, and_true,
}
use mathlib.Core.Path.{subst}
use min_mcp.Visibility.{
  Config, ScopeRule, Caller, allowed, grants, pattern_match, is_visible, may_call, Event,
  would_deny, no_entries,
}
use min_mcp.Visibility.Patterns.{starts_with_rest, starts_with-append, strip_suffix_lem}

-- A pattern that ends with `*` matches exactly the texts that begin with what stands before it.
pattern_match-star_iff :
    (p v : String) → (pattern_match (p <> "*") v ≡ true) ↔ ((r : String) × (v ≡ p <> r))
unfolding pattern_match strip_suffix
pattern_match-star_iff p v = (
  λ h. starts_with_rest v p (ground (arith, strip_suffix_lem b'*' p "*" refl refl)),
  λ (r, e). ground (arith, e, strip_suffix_lem b'*' p "*" refl refl, starts_with-append p r),
)

-- A rule of the config that grants a tool to a caller.
pub record Granted (c : Config) (id : String) (granted : List String) : Type 0 where
  pub rule : ScopeRule
  pub listed : At rule c.scopes.rules
  pub held : At rule.scope granted
  pub pattern : String
  pub of_rule : At pattern rule.tools
  pub matches : pattern_match pattern id ≡ true

-- A tool is allowed to a caller exactly if no rules are configured, or some rule whose scope the
-- caller holds has a pattern that matches the tool: with rules, the default is to deny.
pub allowed_iff :
    (c : Config) (id : String) (granted : List String)
    → (allowed c id granted ≡ true) ↔ ((no_entries c.scopes.rules ≡ true) ⊎ Granted c id granted)
unfolding allowed grants
allowed_iff c id granted = (
  λ h. elim (Bool-cases (no_entries c.scopes.rules)) [
    | inl e ↦ inl e
    | inr e ↦
        let (rule, i, k) = any-At (grants id granted) c.scopes.rules (ground arith) in
        let b =
          and_true (any (λ g. g =? rule.scope) granted) (any (λ p. pattern_match p id) rule.tools)
            k in
        let (g, j, l) = any-At (λ g. g =? rule.scope) granted b.0 in
        let (p, m, n) = any-At (λ p. pattern_match p id) rule.tools b.1 in
        inr (record {
          rule = rule;
          listed = i;
          held = subst (λ s. At s granted) ((eq_iff g rule.scope).0 l) j;
          pattern = p;
          of_rule = m;
          matches = n;
        })
  ],
  λ s. elim s [
    | inl e ↦ ground arith
    | inr g ↦ elim (Bool-cases (no_entries c.scopes.rules)) [
      | inl e ↦ ground (arith)
      | inr e ↦
          let b =
            At-any (λ s. s =? g.rule.scope) g.held ((eq_iff g.rule.scope g.rule.scope).1 refl) in
          let d = At-any (λ p. pattern_match p id) g.of_rule g.matches in
          let t = At-any (grants id granted) g.listed (ground (arith, b, d)) in ground (arith)
    ]
  ],
)

-- More scopes never take a tool away: what a caller may use with some scopes, it may use with any
-- list that holds those too.
allowed_monotone :
    (c : Config) (id : String) (few many : List String)
    → ((s : String) → At s few → At s many)
    → allowed c id few ≡ true
    → allowed c id many ≡ true
allowed_monotone c id few many sub h = elim ((allowed_iff c id few).0 h) [
  | inl e ↦ (allowed_iff c id many).1 (inl e)
  | inr g ↦ (allowed_iff c id many).1 (
      inr (record {
        rule = g.rule;
        listed = g.listed;
        held = sub g.rule.scope g.held;
        pattern = g.pattern;
        of_rule = g.of_rule;
        matches = g.matches;
      }))
]

answer : Bool → Bool → Event → Bool × List Event
answer report ok e = if not report then (ok, []) else if not ok then (true, e ∷ []) else (true, [])

answer_lem :
    (report ok : Bool) (e : Event)
    → ((answer report ok e).0 ≡ report || ok)
      × (((answer report ok e).1 ≡ e ∷ []) ↔ ((report || ok ≡ true) × (ok ≡ false)))
unfolding answer
answer_lem false false e = (refl, (λ h. absurd (cc), λ h. absurd (cc)))
answer_lem false true e = (refl, (λ h. absurd (cc), λ h. absurd (cc)))
answer_lem true false e = (refl, (λ h. (refl, refl), λ h. refl))
answer_lem true true e = (refl, (λ h. absurd (cc), λ h. absurd (cc)))

-- A call is let through exactly if the tool is visible to the caller, and the log gets one
-- `would_deny` line exactly if the call goes through although the rules refuse it.
may_call_lem :
    (c : Config) (caller : Caller) (id : String)
    → ((may_call c caller id).0 ≡ is_visible c caller id)
      × (((may_call c caller id).1 ≡ would_deny id caller.scopes ∷ [])
          ↔ ((is_visible c caller id ≡ true) × (allowed c id caller.scopes ≡ false)))
unfolding may_call is_visible answer
may_call_lem c caller id =
    answer_lem c.scopes.report_only (allowed c id caller.scopes) (would_deny id caller.scopes)
