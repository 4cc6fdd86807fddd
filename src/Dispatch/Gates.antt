-- ===== src/Dispatch/Gates.antt =====
-- src/surface/dispatch.rs, `dispatch_reach`: the gates in front of the upstream.
use mathlib.Core.Option
use min_mcp.Prelude.{
  ℕ, String, ◌≡◌, refl, sym, ap, ◌∙◌, if◌then◌else◌, Bool, true, false, List, Option, none, some,
  arith, ◌⊎◌, inl, inr, Bool-cases, Option-cases,
}
use min_mcp.Json.{Value, MapOps}
use min_mcp.AuditChain.{JsonText}
use min_mcp.Preflight.{Comparing, preflight_error}
use min_mcp.Visibility.{Caller, may_call}
use min_mcp.RateLimit.{Floats}
use min_mcp.Workflow.{Reach}
use min_mcp.Breaker.{Decision, allow, block}
use min_mcp.Dispatch.{
  Tool, Surface, State, Refusal, Supplied, supplied, missing, inject, prepare, preflight_on,
  deadline,
}
use min_mcp.Dispatch.Sending.{
  result_of, timeout_of, Call, Request, Fetched, Outcome, fetched, blocked, breaker_gate, send,
  fetch, lookup_cached,
}
use min_mcp.Dispatch.Flow.{
  refused, finished, overlay, request, mac_of, charge_limits, admit, finish, perform,
  dispatch_visible, dispatch_reach, logged,
}

-- The upstreams, the cache and the ranking are as they were.
abbrev pub Untouched : (N : Floats) (U : Type 0) → State N U → State N U → Type 0
Untouched N U st st' =
    (st'.upstreams ≡ st.upstreams) × (st'.read_cache ≡ st.read_cache) × (st'.uses ≡ st.uses)

pub Decision-cases :
    (d : Decision) → ((p : Bool) × (d ≡ allow p)) ⊎ ((m : ℕ × ℕ) × (d ≡ block m.0 m.1))
Decision-cases (allow p) = inl (p, refl)
Decision-cases (block n t) = inr ((n, t), refl)

pub Refusal-cases : {A B : Type 0} (x : A ⊎ B) → ((a : A) × (x ≡ inl a)) ⊎ ((b : B) × (x ≡ inr b))
Refusal-cases (inl a) = inl (a, refl)
Refusal-cases (inr b) = inr (b, refl)

pub Supplied-cases :
    (x : Supplied)
    → ((v : Value) × (x ≡ supplied v)) ⊎ ((p : String) × (q : String) × (x ≡ missing p q))
Supplied-cases (supplied v) = inl (v, refl)
Supplied-cases (missing p q) = inr (p, q, refl)

module _ (N : Floats) {U : Type 0} (clock : U → ℕ) (call : Call U) where
  pub Outcome-cases :
      (o : Outcome) → ((f : Fetched) × (o ≡ fetched f)) ⊎ ((n : ℕ) × (t : ℕ) × (o ≡ blocked n t))
  Outcome-cases (fetched f) = inl (f, refl)
  Outcome-cases (blocked n t) = inr (n, t, refl)

  breaker_gate-Untouched :
      (r : Request) (st : State N U) → Untouched N U st (breaker_gate N clock call r st).0
  unfolding breaker_gate
  breaker_gate-Untouched r st = elim (Option-cases (Option.bind r.overlay (λ o. o.breaker))) [
    | inl e ↦ ground (arith, e)
    | inr (b, e) ↦ ground (arith, e)
  ]

  fetch_blocked :
      (s : Surface) (r : Request) (st : State N U) (n t : ℕ)
      → (fetch N clock call s r st).1 ≡ blocked n t
      → Untouched N U st (fetch N clock call s r st).0
  unfolding fetch
  fetch_blocked s r st n t h =
      let gate = breaker_gate-Untouched r st in
      elim (Option-cases (lookup_cached N clock call s r st)) [
        | inl e ↦ elim (Decision-cases (breaker_gate N clock call r st).1) [
          | inl (p, d) ↦ absurd (ground (arith, e, d, h))
          | inr (m, d) ↦ ground (arith, e, d, gate)
        ]
        | inr (v, e) ↦ absurd (ground (arith, e, h))
      ]

  pub fetch_cache :
      (s : Surface) (r : Request) (st : State N U)
      → (fetch N clock call s r st).0.read_cache ≡ st.read_cache
  unfolding fetch send
  fetch_cache s r st =
      let gate = breaker_gate-Untouched r st in
      elim (Option-cases (lookup_cached N clock call s r st)) [
        | inl e ↦ elim (Decision-cases (breaker_gate N clock call r st).1) [
          | inl (p, d) ↦ ground (arith, e, d, gate)
          | inr (m, d) ↦ ground (arith, e, d, gate)
        ]
        | inr (v, e) ↦ ground (arith, e)
      ]

module _ (N : Floats) {U : Type 0} (clock : U → ℕ) (call : Call U) (J : JsonText) (E : Comparing)
    ⦃M : MapOps⦄ (s : Surface) (stamp : ℕ → String × ℕ) (caller : Caller) (tool_id : String) where
  perform-refused :
      (r : Request) (mac : Option String) (fields : List String) (st : State N U) (q : Refusal)
      → (perform N clock call J E s stamp caller tool_id r mac fields st).1 ≡ refused q
      → Untouched N U st (perform N clock call J E s stamp caller tool_id r mac fields st).0
  unfolding perform finish
  perform-refused r mac fields st q h =
      elim (Outcome-cases N clock call (fetch N clock call s r st).1) [
        | inl (f, e) ↦ absurd (ground (arith, e, h))
        | inr (n, t, e) ↦
            let kept = fetch_blocked N clock call s r st n t e in ground (arith, e, kept)
      ]

  pub charge_limits-Untouched :
      (st : State N U)
      → Untouched N U st (charge_limits N clock call J E s stamp caller tool_id st).0
  unfolding charge_limits
  charge_limits-Untouched st = (refl, refl, refl)

  visible_refused :
      (t : Tool) (arguments : Value) (fields : List String) (st : State N U) (q : Refusal)
      → (dispatch_visible N clock call J E s stamp caller tool_id t arguments fields st).1
        ≡ refused q
      → Untouched N U st
          (dispatch_visible N clock call J E s stamp caller tool_id t arguments fields st).0
  unfolding dispatch_visible
  visible_refused t arguments fields st q h =
      let limits = charge_limits N clock call J E s stamp caller tool_id st in
      let kept = charge_limits-Untouched st in
      let prepared =
        prepare J s tool_id (overlay N clock call J E s stamp caller tool_id) arguments in
      elim (Option-cases limits.1) [
        | inr (w, e) ↦ ground (arith, e, kept)
        | inl e ↦ elim (Refusal-cases (admit N clock call J E s stamp caller tool_id t prepared)) [
          | inl (r, a) ↦ ground (arith, e, a, kept)
          | inr (r, a) ↦
              let after =
                perform-refused r (mac_of N clock call J E s stamp caller tool_id arguments) fields
                  limits.0 q (cc (e, a, h)) in
              ground (arith, e, a, kept, after)
        ]
      ]

  admitted :
      (t : Tool) (prepared : Value) (r : Request)
      → admit N clock call J E s stamp caller tool_id t prepared ≡ inr r
      → (inject s.resolve_source (s.user_supplied tool_id) prepared ≡ supplied r.arguments)
        × (r.tool ≡ t)
        × (preflight_on s (overlay N clock call J E s stamp caller tool_id) ≡ true
            → preflight_error E (s.schema tool_id) r.arguments ≡ none)
  unfolding admit request
  admitted t prepared r a =
      elim (Supplied-cases (inject s.resolve_source (s.user_supplied tool_id) prepared)) [
        | inr (p, q, i) ↦ absurd (ground (arith, i, a))
        | inl (sent, i) ↦
            elim (Option-cases (
              if preflight_on s (overlay N clock call J E s stamp caller tool_id)
              then preflight_error E (s.schema tool_id) sent
              else none)) [
                | inr (se, bad) ↦ absurd (ground (arith, i, bad, a))
                | inl clean ↦
                    let same : r.arguments ≡ sent = ground (arith, i, clean, a) in
                    let tool : r.tool ≡ t = ground (arith, i, clean, a) in
                    (
                      i ∙ ap supplied (sym same),
                      tool,
                      λ on.
                          ap (preflight_error E (s.schema tool_id)) same
                          ∙ ground (arith, on, clean),
                    )
              ]
      ]

  abbrev given : Fetched → Outcome → Value × Reach
  given f (fetched g) = (g.result, g.reach)
  given f (blocked n t) = (f.result, f.reach)

  -- What a fetch gives and does with the upstream: nothing where the result is cached, else one call of the
  -- request's tool with the request's arguments, whose reply is what it gives.
  fetch_sends :
      (r : Request) (st : State N U) (f : Fetched)
      → (fetch N clock call s r st).1 ≡ fetched f
      → (lookup_cached N clock call s r st ≡ some f.result)
        ⊎ (let sent =
              call r.tool.upstream_idx r.tool.name r.arguments r.headers
                (deadline r.overlay)
                st.upstreams in
            ((fetch N clock call s r st).0.upstreams ≡ sent.0)
            × ((f.result, f.reach) ≡ result_of r.tool_id (timeout_of r) sent.1))
  unfolding fetch send breaker_gate
  fetch_sends r st f h = elim (Option-cases (lookup_cached N clock call s r st)) [
    | inr (v, e) ↦ inl (ground (arith, e, h))
    | inl e ↦ elim (Decision-cases (breaker_gate N clock call r st).1) [
      | inr (m, d) ↦ absurd (ground (arith, e, d, h))
      | inl (p, d) ↦
          let kept = (breaker_gate-Untouched N clock call r st).0 in
          let same : (fetch N clock call s r st).0.upstreams
              ≡ (call r.tool.upstream_idx r.tool.name r.arguments r.headers (deadline r.overlay)
                  st.upstreams).0 =
            ground (arith, e, d, kept) in
          let st' = (breaker_gate N clock call r st).0 in
          let sent = send N clock call r st' in
          let x : (fetch N clock call s r st).1
              ≡ fetched
                  (record { result = sent.1; reach = sent.2; was_probe = p; from_cache = false }) =
            ground (arith, e, d) in
          let gives : (f.result, f.reach) ≡ (sent.1, sent.2) = ap (given f) (sym h ∙ x) in
          let reply : U → Value × Reach = λ u.
            result_of r.tool_id (timeout_of r)
              (call r.tool.upstream_idx r.tool.name r.arguments r.headers (deadline r.overlay)
                u).1 in
          inr (same, gives ∙ ap reply kept)
    ]
  ]

  -- A call that ends in a refusal has sent nothing: the upstreams, the read cache and the usage that ranks
  -- the search are as they were.
  pub dispatch_refused :
      (arguments : Value) (fields : List String) (st : State N U) (q : Refusal)
      → (dispatch_reach N clock call J E s stamp caller tool_id arguments fields st).1 ≡ refused q
      → Untouched N U st
          (dispatch_reach N clock call J E s stamp caller tool_id arguments fields st).0
  unfolding dispatch_reach logged
  dispatch_refused arguments fields st q h = elim (Option-cases (s.def tool_id)) [
    | inl e ↦ ground (arith, e)
    | inr (t, e) ↦ elim (Bool-cases (may_call s.visibility caller tool_id).0) [
      | inr no_call ↦ ground (arith, e, no_call)
      | inl may ↦
          let after =
            visible_refused t arguments fields (logged s caller tool_id st) q (cc (e, may, h)) in
          ground (arith, e, may, after)
    ]
  ]

  -- A call that is answered went through every gate: the tool is in the catalog and the caller may call
  -- it, no enforced rate limit refused it, and what the secrets had to put in was there. The request it
  -- became has the arguments with the secrets put in, which fit the schema where preflight is on. What is
  -- answered is what `finish` makes of a result from the cache, or of the reply of the upstream, which was
  -- called for that tool and with these arguments.
  pub dispatch_finished :
      (arguments : Value) (fields : List String) (st : State N U) (v : Value) (reach : Reach)
      → (dispatch_reach N clock call J E s stamp caller tool_id arguments fields st).1
        ≡ finished v reach
      → let st₁ =
          (charge_limits N clock call J E s stamp caller tool_id (logged s caller tool_id st)).0 in
        (t : Tool) × (r : Request) × (f : Fetched) × (s.def tool_id ≡ some t)
        × ((may_call s.visibility caller tool_id).0 ≡ true)
        × ((charge_limits N clock call J E s stamp caller tool_id (logged s caller tool_id st)).1
            ≡ none)
        × (inject s.resolve_source
              (s.user_supplied tool_id)
              (prepare J s tool_id (overlay N clock call J E s stamp caller tool_id) arguments)
            ≡ supplied r.arguments)
        × (preflight_on s (overlay N clock call J E s stamp caller tool_id) ≡ true
            → preflight_error E (s.schema tool_id) r.arguments ≡ none)
        × ((lookup_cached N clock call s r st₁ ≡ some f.result)
            ⊎ (let sent =
                  call t.upstream_idx t.name r.arguments r.headers
                    (deadline r.overlay)
                    st₁.upstreams in
                ((fetch N clock call s r st₁).0.upstreams ≡ sent.0)
                × ((f.result, f.reach) ≡ result_of r.tool_id (timeout_of r) sent.1)))
        × (dispatch_reach N clock call J E s stamp caller tool_id arguments fields st
            ≡ finish N clock call J E s stamp caller tool_id r
                (mac_of N clock call J E s stamp caller tool_id arguments)
                fields
                f
                (fetch N clock call s r st₁).0)
  unfolding dispatch_reach dispatch_visible perform
  dispatch_finished arguments fields st v reach h =
      let o = overlay N clock call J E s stamp caller tool_id in
      let prepared = prepare J s tool_id o arguments in
      let limits =
        charge_limits N clock call J E s stamp caller tool_id (logged s caller tool_id st) in
      elim (Option-cases (s.def tool_id)) [
        | inl e ↦ absurd (ground (arith, e, h))
        | inr (t, e) ↦ elim (Bool-cases (may_call s.visibility caller tool_id).0) [
          | inr no_call ↦ absurd (ground (arith, e, no_call, h))
          | inl may ↦ elim (Option-cases limits.1) [
            | inr (w, l) ↦ absurd (ground (arith, e, may, l, h))
            | inl l ↦
                elim (Refusal-cases (admit N clock call J E s stamp caller tool_id t prepared)) [
                  | inl (q, a) ↦ absurd (ground (arith, e, may, l, a, h))
                  | inr (r, a) ↦
                      elim (Outcome-cases N clock call (fetch N clock call s r limits.0).1) [
                        | inr (n, w, b) ↦ absurd (ground (arith, e, may, l, a, b, h))
                        | inl (f, b) ↦
                            let (i, tool, p) = admitted t prepared r a in
                            let sends = fetch_sends r limits.0 f b in
                            (
                              t,
                              r,
                              f,
                              e,
                              may,
                              l,
                              i,
                              p,
                              rw (← tool) sends,
                              ground (arith, e, may, l, a, b),
                            )
                      ]
                ]
          ]
        ]
      ]
