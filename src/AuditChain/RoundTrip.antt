-- ===== src/AuditChain/RoundTrip.antt =====
-- src/audit_chain.rs: `verify` on what `stamp` wrote, with and without a restart.
use mathlib.Core.Option
use mathlib.Core.List.{append-nil}
use min_mcp.Prelude.{
  ℕ, ◌+◌, ◌%◌, ◌<◌, ◌≡◌, refl, sym, ap, ◌∙◌, String, List, [], ◌∷◌, ◌++◌, map, some, arith, length,
  All, eq_iff,
}
use min_mcp.Json.{Value, object, string, Fields, MapOps, get_key, as_str}
use min_mcp.AuditChain.{
  Hmac, JsonText, u64_mod, Chain, mac_for, payload, new, stamp, seq_mac, resume_from, ok,
  verify_from, verify, last,
}

module _ (H : Hmac) (J : JsonText) ⦃M : MapOps⦄ where
  -- The lines that a chain writes for the given events, and the chain after them.
  unfoldable pub stamp_all : Chain H → List Fields → List Value × Chain H
  stamp_all c [] = ([], c)
  stamp_all c (m ∷ ms) =
      let (line, c') = stamp H J c (object m) in
      let (lines, c'') = stamp_all c' ms in (line ∷ lines, c'')

  mac_of : Chain H → Fields → String
  mac_of c m = (stamp H J c (object m)).1.prev_mac

  seq_mac_of :
      (v : Value) (seq : ℕ) (mac : String)
      → Option.bind (get_key "seq" v) J.as_u64 ≡ some seq
      → Option.bind (get_key "mac" v) as_str ≡ some mac
      → seq_mac H J v ≡ some (seq, mac)
  unfolding seq_mac
  seq_mac_of v seq mac e f = rw (e, f, seq_mac)

  -- A stamped line carries the chain's number and the MAC, and its MAC is the one that is recomputed.
  seq_mac-stamp :
      (c : Chain H) (m : Fields)
      → c.next_seq < u64_mod
      → seq_mac H J (stamp H J c (object m)).0 ≡ some (c.next_seq, mac_of c m)
  unfolding stamp mac_of Option.bind
  seq_mac-stamp c m h =
      let numbered = M.insert "seq" (J.from_u64 c.next_seq) m in
      let mac = mac_for H J c.key c.prev_mac c.next_seq (object numbered) in
      seq_mac_of (object (M.insert "mac" (string mac) numbered)) c.next_seq mac
        (rw (M.get-insert, M.get-insert) (J.as_u64-from_u64 c.next_seq h)) (rw M.get-insert refl)

  mac_for-stamp :
      (c : Chain H) (m : Fields)
      → mac_for H J c.key c.prev_mac c.next_seq (stamp H J c (object m)).0 ≡ mac_of c m
  unfolding stamp mac_for mac_of payload
  mac_for-stamp c m = rw M.remove-insert

  -- The lines print to texts that parse back to them.
  abbrev pub Prints : List Value → Type 0
  Prints = All (λ v. J.from_str (J.display v) ≡ some v)

  pub verify_from-cons :
      (key : H.Key) (n : ℕ) (prev : String) (expect : ℕ) (raw : String) (rest : List String)
      (v : Value) (mac : String)
      → J.from_str raw ≡ some v
      → seq_mac H J v ≡ some (expect, mac)
      → mac_for H J key prev expect v ≡ mac
      → verify_from H J key n prev expect (raw ∷ rest)
        ≡ verify_from H J key (n + 1) mac ((expect + 1) % u64_mod) rest
  unfolding verify_from
  verify_from-cons key n prev expect raw rest v mac e f g =
      rw (e, verify_from)
        (rw (f, verify_from) (ground (arith, (eq_iff (mac_for H J key prev expect v) mac).1 g)))

  next_small : (c : Chain H) (m : Fields) → (stamp H J c (object m)).1.next_seq < u64_mod
  unfolding stamp
  next_small c m = omega arith

  pub key-stamp_all : (c : Chain H) (ms : List Fields) → (stamp_all c ms).1.key ≡ c.key
  unfolding stamp_all stamp
  key-stamp_all c [] = refl
  key-stamp_all c (m ∷ ms) = key-stamp_all (stamp H J c (object m)).1 ms

  -- Verification passes over what a chain has stamped, and goes on in the chain's own state.
  verify_from-stamp_all :
      (c : Chain H) (ms : List Fields) (n : ℕ) (rest : List String)
      → c.next_seq < u64_mod
      → Prints (stamp_all c ms).0
      → verify_from H J c.key n c.prev_mac c.next_seq (map J.display (stamp_all c ms).0 ++ rest)
        ≡ verify_from H J c.key
            (n + length ms)
            (stamp_all c ms).1.prev_mac
            (stamp_all c ms).1.next_seq
            rest
  unfolding stamp_all stamp mac_of
  verify_from-stamp_all c [] n rest h p =
      ap (λ k. verify_from H J c.key k c.prev_mac c.next_seq rest) (omega arith)
  verify_from-stamp_all c (m ∷ ms) n rest h p =
      let (line, c') = stamp H J c (object m) in
      let (lines, c'') = stamp_all c' ms in
      verify_from-cons c.key n c.prev_mac c.next_seq (J.display line) (map J.display lines ++ rest)
        line (mac_of c m) p.0 (seq_mac-stamp c m h) (mac_for-stamp c m)
      ∙ verify_from-stamp_all c' ms (n + 1) rest (omega arith) p.1
      ∙ ap (λ k. verify_from H J c.key k c''.prev_mac c''.next_seq rest) (omega arith)

  verify_from-nil :
      (key : H.Key) (n k : ℕ) (prev : String) (expect : ℕ)
      → n ≡ k
      → verify_from H J key n prev expect [] ≡ record { lines = k; failures = [] }
  unfolding verify_from
  verify_from-nil key n k prev expect e = ap (λ m. record { lines = m; failures = [] }) e

  stamped_then :
      (c : Chain H) (ms : List Fields) (n : ℕ)
      → c.next_seq < u64_mod
      → Prints (stamp_all c ms).0
      → verify_from H J c.key n c.prev_mac c.next_seq (map J.display (stamp_all c ms).0)
        ≡ record { lines = n + length ms; failures = [] }
  stamped_then c ms n h p =
      let (lines, c') = stamp_all c ms in
      rw (← append-nil (map J.display lines)) (
        verify_from-stamp_all c ms n [] h p
        ∙ verify_from-nil c.key (n + length ms) (n + length ms) c'.prev_mac c'.next_seq refl)

  -- A log that a new chain has written verifies under its secret, whatever the events. (Each line must
  -- print to a text that parses back to it.)
  verify-stamp_all :
      (secret : String) (ms : List Fields)
      → Prints (stamp_all (new H J secret) ms).0
      → verify H J (map J.display (stamp_all (new H J secret) ms).0) secret
        ≡ record { lines = length ms; failures = [] }
  unfolding verify new
  verify-stamp_all secret ms p =
      stamped_then (new H J secret) ms 0 (omega arith) p
      ∙ ap (λ k. record { lines = k; failures = [] }) (omega arith)

  -- The last line of what a chain has written, and the state in which it left the chain.
  record LastLine (text : List String) (c : Chain H) : Type 0 where
    line : Value
    seq : ℕ
    is_last : last text ≡ some (J.display line)
    parses : J.from_str (J.display line) ≡ some line
    stamped : seq_mac H J line ≡ some (seq, c.prev_mac)
    next : (seq + 1) % u64_mod ≡ c.next_seq

  last_line :
      (c : Chain H) (m : Fields) (ms : List Fields)
      → c.next_seq < u64_mod
      → Prints (stamp_all c (m ∷ ms)).0
      → LastLine (map J.display (stamp_all c (m ∷ ms)).0) (stamp_all c (m ∷ ms)).1
  unfolding stamp_all stamp mac_of
  last_line c m [] h p = record {
    line = (stamp H J c (object m)).0;
    seq = c.next_seq;
    is_last = refl;
    parses = p.0;
    stamped = seq_mac-stamp c m h;
    next = refl;
  }
  last_line c m (m' ∷ ms) h p =
      let l = last_line (stamp H J c (object m)).1 m' ms (omega arith) p.1 in
      record {
        line = l.line;
        seq = l.seq;
        is_last = l.is_last;
        parses = l.parses;
        stamped = l.stamped;
        next = l.next;
      }

  resume_from_line :
      (c c' : Chain H) (text : List String)
      → c.key ≡ c'.key
      → LastLine text c'
      → resume_from H J c (some text) ≡ ok c'
  unfolding resume_from
  resume_from_line c c' text k l = ground (arith, l.is_last, l.parses, l.stamped, l.next)

  -- A process that starts again on the log of another finds the state in which that one stopped.
  pub resume_from-stamp_all :
      (secret : String) (ms : List Fields)
      → Prints (stamp_all (new H J secret) ms).0
      → resume_from H J (new H J secret) (some (map J.display (stamp_all (new H J secret) ms).0))
        ≡ ok (stamp_all (new H J secret) ms).1
  unfolding stamp_all resume_from
  resume_from-stamp_all secret [] p = refl
  resume_from-stamp_all secret (m ∷ ms) p =
      let c = new H J secret in
      resume_from_line c (stamp_all c (m ∷ ms)).1 (map J.display (stamp_all c (m ∷ ms)).0)
        (sym (key-stamp_all c (m ∷ ms))) (last_line c m ms (unfold new in omega arith) p)

  next_seq-stamp_all :
      (c : Chain H) (ms : List Fields)
      → c.next_seq < u64_mod
      → (stamp_all c ms).1.next_seq < u64_mod
  unfolding stamp_all
  next_seq-stamp_all c [] h = h
  next_seq-stamp_all c (m ∷ ms) h =
      next_seq-stamp_all (stamp H J c (object m)).1 ms (next_small c m)

  verify_two :
      (secret : String) (ms ms' : List Fields)
      → Prints (stamp_all (new H J secret) ms).0
      → Prints (stamp_all (stamp_all (new H J secret) ms).1 ms').0
      → verify H J
          (map J.display (stamp_all (new H J secret) ms).0
            ++ map J.display (stamp_all (stamp_all (new H J secret) ms).1 ms').0)
          secret
        ≡ record { lines = length ms + length ms'; failures = [] }
  unfolding verify new
  verify_two secret ms ms' p p' =
      let c = new H J secret in
      let c' = (stamp_all c ms).1 in
      let rest = map J.display (stamp_all c' ms').0 in
      verify_from-stamp_all c ms 0 rest (omega arith) p
      ∙ ap (λ k. verify_from H J k (0 + length ms) c'.prev_mac c'.next_seq rest)
          (sym (key-stamp_all c ms))
      ∙ stamped_then c' ms' (0 + length ms) (next_seq-stamp_all c ms (omega arith)) p'
      ∙ ap (λ k. record { lines = k; failures = [] }) (omega arith)

  -- So a log that is continued across a restart verifies as one chain.
  pub verify-restart :
      (secret : String) (ms ms' : List Fields) (c : Chain H)
      → resume_from H J (new H J secret) (some (map J.display (stamp_all (new H J secret) ms).0))
        ≡ ok c
      → Prints (stamp_all (new H J secret) ms).0
      → Prints (stamp_all c ms').0
      → verify H J
          (map J.display (stamp_all (new H J secret) ms).0 ++ map J.display (stamp_all c ms').0)
          secret
        ≡ record { lines = length ms + length ms'; failures = [] }
  verify-restart secret ms ms' c r p =
      let same : (stamp_all (new H J secret) ms).1 ≡ c =
        ground (arith, resume_from-stamp_all secret ms p) in
      rw (← same) (verify_two secret ms ms' p)
