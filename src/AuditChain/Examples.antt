-- ===== src/AuditChain/Examples.antt =====
-- The theorems about src/audit_chain.rs at small logs, with stand-ins for the MAC and the printer.
use min_mcp.Prelude.{
  ℕ, zero, suc, ◌+◌, ◌<◌, ◌≡◌, ◌≢◌, refl, sym, ap, ◌∙◌, String, ◌<>◌, inl, inr, ◌⊎◌, digit, dec_lt,
  List, [], ◌∷◌, ◌++◌, map, Option, none, some, arith, ◌=?◌, if◌then◌else◌, eq_iff, as_bytes, show,
  utf8, code, ◌%◌,
}
use mathlib.Core.Option
use text.Mathlib.TextLemmas.{nil-append, cons-append}
use min_mcp.Json.{Value, null, string, array, object, Items, nil, cons, end, field, get, get_key}
use min_mcp.Json.Entries.{entries, put, without}
use min_mcp.Project.{on_fields}
use min_mcp.AuditChain.{
  Hmac, JsonText, Chain, mac_mismatch, sequence_jumped, u64_mod, mac_for, payload, hex, genesis,
  new, stamp, seq_mac, verify_from, verify, resume_from, ok,
}
use min_mcp.AuditChain.RoundTrip.{stamp_all, resume_from-stamp_all, verify-restart}
use min_mcp.AuditChain.Tamper.{verify_deleted, verify_altered, CollisionFree}

-- A number as that many nulls.
unfoldable pub nulls : ℕ → Items
nulls zero = nil
nulls (suc n) = cons null (nulls n)

abbrev pub count_items : Items → ℕ
count_items nil = 0
count_items (cons x xs) = suc (count_items xs)

abbrev pub read_number : Value → Option ℕ
read_number (array xs) = some (count_items xs)
read_number v = none

count-nulls : (n : ℕ) → count_items (nulls n) ≡ n
unfolding nulls
count-nulls zero = refl
count-nulls (suc n) = ap suc (count-nulls n)

pub read_number-nulls : (n : ℕ) → n < u64_mod → read_number (array (nulls n)) ≡ some n
read_number-nulls n h = ap some (count-nulls n)

-- A tag with no bytes: what is signed plays no part.
abbrev blank : Hmac
blank = record { Key = Unit {0}; new_key = λ bs. tt; sign = λ k bs. [] }

-- The stamped lines of `{}` have numbers 1, 2 and so on, and print as those.
abbrev line : ℕ → Value
line n = object (field "seq" (array (nulls n)) (field "mac" (string "") end))

abbrev print : Option Value → String
print (some (array (cons x nil))) = "1"
print (some (array (cons x (cons y nil)))) = "2"
print (some (array (cons x (cons y (cons z nil))))) = "3"
print v = "?"

parse : String → Option Value
parse s =
    if s =? "1"
    then some (line 1)
    else if s =? "2"
    then some (line 2)
    else if s =? "3"
    then some (line 3)
    else none

abbrev numbered : JsonText
numbered = record {
  display = λ v. print (get_key "seq" v);
  from_str = parse;
  from_u64 = λ n. array (nulls n);
  as_u64 = read_number;
  as_u64-from_u64 = read_number-nulls;
}

abbrev written : List String
written =
    map (λ v. print (get_key "seq" v))
      (stamp_all blank numbered (new blank numbered "k") (end ∷ end ∷ [])).0

resume_from-stamp_all_example :
    resume_from blank numbered (new blank numbered "k") (some written)
    ≡ ok (stamp_all blank numbered (new blank numbered "k") (end ∷ end ∷ [])).1
unfolding stamp_all stamp new mac_for payload hex put without get nulls parse
resume_from-stamp_all_example =
    resume_from-stamp_all blank numbered "k" (end ∷ end ∷ []) (refl, (refl, tt))

abbrev stopped : Chain blank
stopped = (stamp_all blank numbered (new blank numbered "k") (end ∷ end ∷ [])).1

verify-restart_example :
    verify blank numbered
      (written
        ++ map (λ v. print (get_key "seq" v)) (stamp_all blank numbered stopped (end ∷ [])).0)
      "k"
    ≡ record { lines = 3; failures = [] }
unfolding stamp_all stamp new mac_for payload hex put without get nulls parse
verify-restart_example =
    verify-restart blank numbered "k" (end ∷ end ∷ []) (end ∷ []) stopped
      (resume_from-stamp_all blank numbered "k" (end ∷ end ∷ []) (refl, (refl, tt)))
      (refl, (refl, tt)) (refl, tt)

three_verify :
    verify blank numbered ("1" ∷ "2" ∷ "3" ∷ []) "k" ≡ record { lines = 3; failures = [] }
unfolding verify verify_from seq_mac mac_for payload hex put without get nulls parse Option.bind
three_verify = refl

verify_deleted_example :
    (verify blank numbered ("1" ∷ "3" ∷ []) "k").failures ≡ (2, sequence_jumped 2 3) ∷ []
verify_deleted_example =
    verify_deleted blank numbered "k" ("1" ∷ []) ("2" ∷ []) "3" [] (λ e. cc) (omega arith)
      (ap (λ v. v.failures) three_verify)

-- A tag that is the parity of the bytes' sum, and a printer that writes "a" or "b".
sum : List ℕ → ℕ
sum [] = 0
sum (b ∷ bs) = b + sum bs

sum-append : (xs ys : List ℕ) → sum (xs ++ ys) ≡ sum xs + sum ys
unfolding sum
sum-append [] ys = omega arith
sum-append (x ∷ xs) ys = omega (arith, sum-append xs ys)

weight : String → ℕ
weight s = sum (as_bytes s)

weight-append : (s t : String) → weight (s <> t) ≡ weight s + weight t
unfolding weight as_bytes sum
weight-append String.[] t = rw nil-append (omega arith)
weight-append (String.◌∷◌ c s) t = rw cons-append (
    omega (
      arith,
      sum-append (utf8 (code c)) (as_bytes (s <> t)),
      sum-append (utf8 (code c)) (as_bytes s),
      weight-append s t,
    ))

abbrev parity : Hmac
parity = record { Key = Unit {0}; new_key = λ bs. tt; sign = λ k bs. (sum bs % 2) ∷ [] }

abbrev letter : Option Value → String
letter none = "a"
letter (some v) = "b"

abbrev plain : Value
plain = object (field "seq" (array (nulls 1)) (field "mac" (string "00") end))

abbrev altered : Value
altered = object (field "x" null (field "seq" (array (nulls 1)) (field "mac" (string "00") end)))

read_line : String → Option Value
read_line s = if s =? "a" then some plain else if s =? "b" then some altered else none

abbrev lettered : JsonText
lettered = record {
  display = λ v. letter (get_key "x" v);
  from_str = read_line;
  from_u64 = λ n. array (nulls n);
  as_u64 = read_number;
  as_u64-from_u64 = read_number-nulls;
}

plain_verifies : verify parity lettered ("a" ∷ []) "k" ≡ record { lines = 1; failures = [] }
unfolding verify verify_from seq_mac mac_for payload hex put without get nulls read_line sum genesis
    show as_bytes Option.bind
plain_verifies = refl

letter-cases : (o : Option Value) → (letter o ≡ "a") ⊎ (letter o ≡ "b")
letter-cases none = inl refl
letter-cases (some v) = inr refl

-- The tag of a payload, by the weight of what stands before the body.
abbrev tag : ℕ → String
tag n = hex ((n % 2) ∷ [])

zero_not_one : hex (0 ∷ []) ≢ hex (1 ∷ [])
unfolding hex digit
zero_not_one e = ground (arith, eq_iff "00" "01")

tag-ne : (n : ℕ) → tag (n + 97) ≢ tag (n + 98)
tag-ne n e = elim (dec_lt (n % 2) 1) [
  | yes h ↦
      let odd : (n + 97) % 2 ≡ 1 = omega arith in
      let even : (n + 98) % 2 ≡ 0 = omega arith in zero_not_one (cc (odd, even, e))
  | no h ↦
      let even : (n + 97) % 2 ≡ 0 = omega arith in
      let odd : (n + 98) % 2 ≡ 1 = omega arith in zero_not_one (cc (odd, even, e))
]

abbrev body_of : Value → String
body_of v = letter (get_key "x" (on_fields (without "mac") v))

before : String → ℕ → ℕ
before prev seq = weight prev + weight "\u{1f}" + weight (show seq) + weight "\u{1f}"

mac-tag :
    (prev : String) (seq : ℕ) (v : Value)
    → mac_for parity lettered tt prev seq v ≡ tag (before prev seq + weight (body_of v))
unfolding mac_for payload before
mac-tag prev seq v =
    let total : weight (prev <> "\u{1f}" <> show seq <> "\u{1f}" <> body_of v)
        ≡ before prev seq + weight (body_of v) =
      simp weight-append (omega arith) in
    ap tag (unfold weight in total)

weight-a : weight "a" ≡ 97
unfolding weight as_bytes utf8 sum
weight-a = refl

weight-b : weight "b" ≡ 98
unfolding weight as_bytes utf8 sum
weight-b = refl

parity-CollisionFree : CollisionFree parity lettered tt
parity-CollisionFree prev seq v w e =
    let tags : tag (before prev seq + weight (body_of v))
        ≡ tag (before prev seq + weight (body_of w)) =
      sym (mac-tag prev seq v) ∙ e ∙ mac-tag prev seq w in
    elim (letter-cases (get_key "x" (on_fields (without "mac") v))) [
      | inl a ↦ elim (letter-cases (get_key "x" (on_fields (without "mac") w))) [
        | inl b ↦ a ∙ sym b
        | inr b ↦ absurd (tag-ne (before prev seq) (cc (tags, a, b, weight-a, weight-b)))
      ]
      | inr a ↦ elim (letter-cases (get_key "x" (on_fields (without "mac") w))) [
        | inl b ↦ absurd (tag-ne (before prev seq) (cc (tags, a, b, weight-a, weight-b)))
        | inr b ↦ a ∙ sym b
      ]
    ]

verify_altered_example : (verify parity lettered ("b" ∷ []) "k").failures ≡ (1, mac_mismatch) ∷ []
unfolding read_line seq_mac Option.bind nulls get without
verify_altered_example =
    verify_altered parity lettered "k" [] "a" "b" [] plain altered (omega arith)
      parity-CollisionFree refl refl refl (λ e. ground (arith, eq_iff "b" "a"))
      (ap (λ v. v.failures) plain_verifies)
