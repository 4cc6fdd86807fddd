-- ===== src/AuditChain/Tamper.antt =====
-- src/audit_chain.rs, `verify`: what it reports of a log that was changed after it was written.
use mathlib.Core.List.{append_assoc, append-nil}
use min_mcp.Prelude.{
  ℕ, suc, ◌+◌, ◌<◌, ◌≡◌, ◌≢◌, refl, sym, ap, ◌∙◌, inl, inr, String, List, [], ◌∷◌, ◌++◌, some,
  arith, length, length-append, as_bytes, ◌==◌, ◌=?◌, eq_iff, Bool-cases, Option-cases,
}
use min_mcp.Json.{Value, MapOps}
use min_mcp.Project.{on_fields}
use min_mcp.AuditChain.RoundTrip.{verify_from-cons}
use min_mcp.AuditChain.{
  Hmac, JsonText, u64_mod, mac_for, seq_mac, verify_from, verify, sequence_jumped, mac_mismatch,
  genesis,
}

length_pos : (xs : List String) → xs ≢ [] → 0 < length xs
length_pos [] h = absurd (h refl)
length_pos (x ∷ xs) h = omega arith

module _ (H : Hmac) (J : JsonText) ⦃M : MapOps⦄ where
  -- A line passes: it parses, has the expected number, and its MAC is right.
  record Passes (key : H.Key) (prev : String) (expect : ℕ) (raw : String) : Type 0 where
    line : Value
    mac : String
    parses : J.from_str raw ≡ some line
    signed : seq_mac H J line ≡ some (expect, mac)
    genuine : mac_for H J key prev expect line ≡ mac

  passes :
      (key : H.Key) (n : ℕ) (prev : String) (expect : ℕ) (raw : String) (rest : List String)
      → (verify_from H J key n prev expect (raw ∷ rest)).failures ≡ []
      → Passes key prev expect raw
  unfolding verify_from
  passes key n prev expect raw rest h = elim (Option-cases (J.from_str raw)) [
    | inl e ↦ absurd (ground arith)
    | inr (v, e) ↦ elim (Option-cases (seq_mac H J v)) [
      | inl e' ↦ absurd (ground arith)
      | inr ((seq, mac), e') ↦ elim (Bool-cases (seq == expect)) [
        | inr b ↦ absurd (ground arith)
        | inl b ↦ elim (Bool-cases (mac_for H J key prev seq v =? mac)) [
          | inr b' ↦ absurd (ground arith)
          | inl b' ↦ record {
            line = v;
            mac = mac;
            parses = e;
            signed = ground arith;
            genuine = ground (arith, eq_iff (mac_for H J key prev seq v) mac);
          }
        ]
      ]
    ]
  ]

  verify_from-pass :
      (key : H.Key) (n : ℕ) (prev : String) (expect : ℕ) (raw : String)
      (p : Passes key prev expect raw) (rest : List String)
      → expect + 1 < u64_mod
      → verify_from H J key n prev expect (raw ∷ rest)
        ≡ verify_from H J key (n + 1) p.mac (expect + 1) rest
  verify_from-pass key n prev expect raw p rest h =
      verify_from-cons H J key n prev expect raw rest p.line p.mac p.parses p.signed p.genuine
      ∙ ap (λ k. verify_from H J key (n + 1) p.mac k rest) (omega arith)

  jump :
      (key : H.Key) (n : ℕ) (prev : String) (expect : ℕ) (raw : String) (rest : List String)
      (v : Value) (seq : ℕ) (mac : String)
      → J.from_str raw ≡ some v
      → seq_mac H J v ≡ some (seq, mac)
      → seq ≢ expect
      → (verify_from H J key n prev expect (raw ∷ rest)).failures
        ≡ (n + 1, sequence_jumped expect seq) ∷ []
  unfolding verify_from
  jump key n prev expect raw rest v seq mac e f d =
      rw (e, verify_from) (rw (f, verify_from) (ground arith))

  mismatch :
      (key : H.Key) (n : ℕ) (prev : String) (expect : ℕ) (raw : String) (rest : List String)
      (v : Value) (mac : String)
      → J.from_str raw ≡ some v
      → seq_mac H J v ≡ some (expect, mac)
      → mac_for H J key prev expect v ≢ mac
      → (verify_from H J key n prev expect (raw ∷ rest)).failures ≡ (n + 1, mac_mismatch) ∷ []
  unfolding verify_from
  mismatch key n prev expect raw rest v mac e f d =
      rw (e, verify_from)
        (rw (f, verify_from) (ground (arith, eq_iff (mac_for H J key prev expect v) mac)))

  -- What an accepted beginning does, whatever follows it, and that what followed was accepted after it.
  record Prefix (key : H.Key) (n : ℕ) (prev : String) (expect : ℕ) (pre rest : List String)
      : Type 0 where
    prev' : String
    goes_on :
        (xs : List String)
        → verify_from H J key n prev expect (pre ++ xs)
          ≡ verify_from H J key (n + length pre) prev' (expect + length pre) xs
    rest_ok : (verify_from H J key (n + length pre) prev' (expect + length pre) rest).failures ≡ []

  recount :
      (key : H.Key) (n n' e e' : ℕ) (prev : String) (xs : List String)
      → n ≡ n'
      → e ≡ e'
      → verify_from H J key n prev e xs ≡ verify_from H J key n' prev e' xs
  recount key n n' e e' prev xs p q = cc

  accepted :
      (key : H.Key) (n : ℕ) (prev : String) (expect : ℕ) (pre rest : List String)
      → expect + length pre < u64_mod
      → (verify_from H J key n prev expect (pre ++ rest)).failures ≡ []
      → Prefix key n prev expect pre rest
  accepted key n prev expect [] rest h e = record {
    prev' = prev;
    goes_on = λ xs. recount key n (n + 0) expect (expect + 0) prev xs (omega arith) (omega arith);
    rest_ok =
        sym (
          ap (λ v. v.failures)
            (recount key n (n + 0) expect (expect + 0) prev rest (omega arith) (omega arith)))
        ∙ e;
  }
  accepted key n prev expect (raw ∷ pre) rest h e =
      let p = passes key n prev expect raw (pre ++ rest) e in
      let step = λ (xs : List String). verify_from-pass key n prev expect raw p xs (omega arith) in
      let r =
        accepted key (n + 1) p.mac (expect + 1) pre rest (omega arith)
          (sym (ap (λ v. v.failures) (step (pre ++ rest))) ∙ e) in
      let on = λ (xs : List String).
        recount key (n + 1 + length pre) (n + suc (length pre)) (expect + 1 + length pre)
          (expect + suc (length pre)) r.prev' xs (omega arith) (omega arith) in
      record {
        prev' = r.prev';
        goes_on = λ xs. step (pre ++ xs) ∙ r.goes_on xs ∙ on xs;
        rest_ok = sym (ap (λ v. v.failures) (on rest)) ∙ r.rest_ok;
      }

  -- Deleting lines is found at the first line after the gap, with the numbers expected and found; no
  -- key is needed for that. (For a log shorter than 2⁶⁴ lines that verified before.)
  pub verify_deleted :
      (secret : String) (pre mid : List String) (raw : String) (post : List String)
      → mid ≢ []
      → length pre + length mid + 1 < u64_mod
      → (verify H J (pre ++ mid ++ raw ∷ post) secret).failures ≡ []
      → (verify H J (pre ++ raw ∷ post) secret).failures
        ≡ (length pre + 1, sequence_jumped (length pre + 1) (length pre + length mid + 1)) ∷ []
  unfolding verify
  verify_deleted secret pre mid raw post d h e =
      let key = H.new_key (as_bytes secret) in
      let whole =
        accepted key 0 genesis 1 (pre ++ mid) (raw ∷ post) (omega (arith, length-append pre mid))
          e in
      let kept =
        accepted key 0 genesis 1 pre (mid ++ raw ∷ post) (omega arith) (rw append_assoc at e) in
      let p =
        passes key (0 + length (pre ++ mid)) whole.prev' (1 + length (pre ++ mid)) raw post
          whole.rest_ok in
      ap (λ v. v.failures) (kept.goes_on (raw ∷ post))
      ∙ jump key (0 + length pre) kept.prev' (1 + length pre) raw post p.line
          (1 + length (pre ++ mid)) p.mac p.parses p.signed
          (λ q. omega (arith, length-append pre mid, length_pos mid d))
      ∙ ground (arith, length-append pre mid)

  -- A log cut off at its end still verifies: the number of lines has to be known from elsewhere.
  pub verify_truncated :
      (secret : String) (pre post : List String)
      → length pre + 1 < u64_mod
      → (verify H J (pre ++ post) secret).failures ≡ []
      → verify H J pre secret ≡ record { lines = length pre; failures = [] }
  unfolding verify verify_from
  verify_truncated secret pre post h e =
      let key = H.new_key (as_bytes secret) in
      let kept = accepted key 0 genesis 1 pre post (omega arith) e in
      rw (← append-nil pre) (kept.goes_on [] ∙ ground (arith, length-append pre []))

  -- The MAC of a line under a key tells apart any two texts of its content.
  abbrev pub CollisionFree : H.Key → Type 0
  CollisionFree key =
      (prev : String) (seq : ℕ) (v w : Value)
      → mac_for H J key prev seq v ≡ mac_for H J key prev seq w
      → J.display (on_fields (M.remove "mac") v) ≡ J.display (on_fields (M.remove "mac") w)

  -- Altering the content of a line, and leaving its number and MAC, is found at that line. (For a log
  -- that verified before, under a key whose MACs do not collide.)
  pub verify_altered :
      (secret : String) (pre : List String) (raw raw' : String) (post : List String) (v v' : Value)
      → length pre + 1 < u64_mod
      → CollisionFree (H.new_key (as_bytes secret))
      → J.from_str raw ≡ some v
      → J.from_str raw' ≡ some v'
      → seq_mac H J v' ≡ seq_mac H J v
      → J.display (on_fields (M.remove "mac") v') ≢ J.display (on_fields (M.remove "mac") v)
      → (verify H J (pre ++ raw ∷ post) secret).failures ≡ []
      → (verify H J (pre ++ raw' ∷ post) secret).failures ≡ (length pre + 1, mac_mismatch) ∷ []
  unfolding verify
  verify_altered secret pre raw raw' post v v' h free ev ev' es d e =
      let key = H.new_key (as_bytes secret) in
      let kept = accepted key 0 genesis 1 pre (raw ∷ post) (omega arith) e in
      let p = passes key (0 + length pre) kept.prev' (1 + length pre) raw post kept.rest_ok in
      let same : p.line ≡ v = ground (arith, p.parses) in
      let differs : mac_for H J key kept.prev' (1 + length pre) v' ≢ p.mac =
        λ q. d (free kept.prev' (1 + length pre) v' v (cc (q, p.genuine, same))) in
      ap (λ x. x.failures) (kept.goes_on (raw' ∷ post))
      ∙ mismatch key (0 + length pre) kept.prev' (1 + length pre) raw' post v' p.mac ev'
          (es ∙ cc (p.signed, same)) differs
      ∙ ground arith
