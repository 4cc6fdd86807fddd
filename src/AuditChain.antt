-- ===== src/AuditChain.antt =====
-- src/audit_chain.rs: the chain of MACs over the audit log, its verification, and the fingerprint of a
-- call's arguments.
-- `ring::hmac` and serde_json's text form are not of this repository: they are the records `Hmac` and
-- `JsonText`. A log is the list of its lines that are not blank; reading the file is not modelled.
pub mod Examples
pub mod RoundTrip
pub mod Tamper
use mathlib.Core.Option
use min_mcp.Prelude.{
  ℕ, suc, ◌+◌, ◌/◌, ◌%◌, ◌^◌, ◌<◌, ◌≡◌, String, ◌<>◌, Bool, true, false, not, List, [], ◌∷◌, Option,
  none, some, ◌==◌, ◌=?◌, if◌then◌else◌, digit, show, as_bytes,
}
use min_mcp.Json.{Value, object, MapOps, get_key, as_str}
use min_mcp.Project.{on_fields}

-- `ring::hmac` with SHA-256: a key from bytes, and the tag of a message.
pub record Hmac : Type 1 where
  pub Key : Type 0
  pub new_key : List ℕ → Key
  pub sign : Key → List ℕ → List ℕ

abbrev pub u64_mod : ℕ
u64_mod = 2 ^ 64

-- serde_json's printing and parsing, and its numbers: what a `u64` was put in as, it is read as.
pub record JsonText : Type 0 where
  pub display : Value → String
  pub from_str : String → Option Value
  pub from_u64 : ℕ → Value
  pub as_u64 : Value → Option ℕ
  pub as_u64-from_u64 : (n : ℕ) → n < u64_mod → as_u64 (from_u64 n) ≡ some n

pub genesis : String
genesis = "genesis"

pub hex : List ℕ → String
hex [] = ""
hex (b ∷ bs) = digit (b / 16) <> digit (b % 16) <> hex bs

abbrev pub args_label : String
args_label = "minmcp/args-mac/v1"

-- Why a line does not verify.
pub data Failure : Type 0 where
  not_json unsigned mac_mismatch : Failure
  sequence_jumped : ℕ → ℕ → Failure

pub record Verdict : Type 0 where
  pub lines : ℕ
  pub failures : List (ℕ × Failure)

abbrev pub is_ok : Verdict → Bool
is_ok v = elim v.failures [ [] ↦ true | f ∷ fs ↦ false ]

pub data ResumeError : Type 0 where
  last_not_json unsigned_log : ResumeError

pub data Resumed (A : Type 0) : Type 0 where
  ok : A → Resumed A
  err : ResumeError → Resumed A

abbrev pub last : List String → Option String
last [] = none
last (x ∷ []) = some x
last (x ∷ y ∷ ys) = last (y ∷ ys)

pub record Chain (H : Hmac) : Type 0 where
  pub key : H.Key
  pub next_seq : ℕ
  pub prev_mac : String

module _ (H : Hmac) (J : JsonText) ⦃M : MapOps⦄ where
  pub payload : String → ℕ → Value → String
  payload prev seq line =
      let body = on_fields (M.remove "mac") line in
      prev <> "\u{1f}" <> show seq <> "\u{1f}" <> J.display body

  pub mac_for : H.Key → String → ℕ → Value → String
  mac_for key prev seq line = hex (H.sign key (as_bytes (payload prev seq line)))

  pub new : String → Chain H
  new secret = record { key = H.new_key (as_bytes secret); next_seq = 1; prev_mac = genesis }

  -- The stamped line, and the chain after it. `seq + 1` wraps in a release build.
  pub stamp : Chain H → Value → Value × Chain H
  stamp c line =
      let seq = c.next_seq in
      let numbered = on_fields (M.insert "seq" (J.from_u64 seq)) line in
      let mac = mac_for c.key c.prev_mac seq numbered in
      let stamped = on_fields (M.insert "mac" (Value.string mac)) numbered in
      (stamped, record c { next_seq = (seq + 1) % u64_mod; prev_mac = mac })

  -- `v.get("seq").and_then(as_u64)` and `v.get("mac").and_then(as_str)`, if both are there
  pub seq_mac : Value → Option (ℕ × String)
  seq_mac v = elim (Option.bind (get_key "seq" v) J.as_u64) [
    | none ↦ none
    | some seq ↦ Option.map (λ mac. (seq, mac)) (Option.bind (get_key "mac" v) as_str)
  ]

  -- `none` is a file that cannot be read.
  pub resume_from : Chain H → Option (List String) → Resumed (Chain H)
  unfolding seq_mac
  resume_from c none = ok c
  resume_from c (some text) = elim (last text) [
    | none ↦ ok c
    | some line ↦ elim (J.from_str line) [
      | none ↦ err last_not_json
      | some v ↦ elim (seq_mac v) [
        | none ↦ err unsigned_log
        | some (seq, mac) ↦ ok (record c { next_seq = (seq + 1) % u64_mod; prev_mac = mac })
      ]
    ]
  ]

  -- The loop of `verify`: `n` lines are checked, `prev` and `expect` are the next line's.
  pub verify_from : H.Key → ℕ → String → ℕ → List String → Verdict
  verify_from key n prev expect [] = record { lines = n; failures = [] }
  verify_from key n prev expect (raw ∷ rest) =
      let fails = λ (f : Failure).
        let v : Verdict = record { lines = n + 1; failures = (n + 1, f) ∷ [] } in v in
      elim (J.from_str raw) [
        | none ↦ fails not_json
        | some v ↦ elim (seq_mac v) [
          | none ↦ fails unsigned
          | some (seq, mac) ↦
              if not (seq == expect)
              then fails (sequence_jumped expect seq)
              else elim (mac_for key prev seq v =? mac) [
                | false ↦ fails mac_mismatch
                | true ↦ verify_from key (n + 1) mac ((seq + 1) % u64_mod) rest
              ]
        ]
      ]

  pub verify : List String → String → Verdict
  verify text secret = verify_from (H.new_key (as_bytes secret)) 0 genesis 1 text

  -- `ArgsKey::new`: its key is derived under a label of its own.
  pub args_key : String → H.Key
  args_key secret = H.new_key (H.sign (H.new_key (as_bytes secret)) (as_bytes args_label))

  pub args_mac : H.Key → String → String
  args_mac key canonical_args = hex (H.sign key (as_bytes canonical_args))
