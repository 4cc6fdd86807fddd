-- ===== src/Exec/Path.antt =====
-- src/exec.rs: agent-supplied values in the path of an operation.
use Prim.Native.Char.{Char, code}
use Prim.Native.String.{String}
use text.Mathlib.TextLemmas.{cons-append, nil-append}
use min_mcp.Prelude.{
  ℕ, zero, suc, ◌+◌, ◌-◌, ◌/◌, ◌%◌, ◌<◌, ◌<>◌, ◌≡◌, ◌≢◌, refl, sym, ◌∙◌, ap, Bool, true, false,
  ◌&&◌, ◌||◌, List, [], ◌∷◌, arith, ltb, ◌==◌, ◌=?◌, eq_iff, if◌then◌else◌, Bool-cases, inl, inr,
  length, digit, split, cons_head, starts_with, count_chars, replace, replace_from, contains, utf8,
  All,
}
use min_mcp.Json.{Value, Fields, end, field}
use min_mcp.AuditChain.{JsonText}
use min_mcp.Exec.{
  is_unreserved, upper_digit, escape, encode_chars, encode_path_segment, fill_path, text_of,
}

-- How often the character with code `d` stands in a text.
abbrev count : ℕ → String → ℕ
count d String.[] = 0
count d (String.◌∷◌ c s) = if code c == d then suc (count d s) else count d s

abbrev drop : ℕ → String → String
drop zero s = s
drop (suc k) String.[] = String.[]
drop (suc k) (String.◌∷◌ c s) = drop k s

count-append : (d : ℕ) (s t : String) → count d (s <> t) ≡ count d s + count d t
count-append d String.[] t = ground (arith, nil-append t)
count-append d (String.◌∷◌ c s) t = ground (arith, count-append d s t, cons-append c s t)

count-contains : (d : ℕ) (s : String) → contains d s ≡ false → count d s ≡ 0
unfolding contains
count-contains d String.[] h = refl
count-contains d (String.◌∷◌ c s) h = ground (arith, count-contains d s)

count-drop :
    (d : ℕ) (s p : String)
    → starts_with s p ≡ true
    → contains d p ≡ false
    → count d (drop (count_chars p) s) ≡ count d s
unfolding starts_with contains count_chars
count-drop d s String.[] h n = refl
count-drop d String.[] (String.◌∷◌ e p) h n = absurd (cc)
count-drop d (String.◌∷◌ c s) (String.◌∷◌ e p) h n = ground (arith, count-drop d s p)

length-cons_head :
    (c : Char) (ws : List String) → 0 < length ws → length (cons_head c ws) ≡ length ws
length-cons_head c [] h = absurd (omega arith)
length-cons_head c (w ∷ ws) h = refl

length-split : (d : ℕ) (s : String) → length (split d s) ≡ suc (count d s)
unfolding split
length-split d String.[] = refl
length-split d (String.◌∷◌ c s) =
    let ih = length-split d s in
    elim (Bool-cases (code c == d)) [
      | inl e ↦ ground (arith, e, ih)
      | inr e ↦ ground (arith, e, ih, length-cons_head c (split d s))
    ]

count-replace_from :
    (d : ℕ) (q : Char) (p by : String)
    → contains d (String.◌∷◌ q p) ≡ false
    → contains d by ≡ false
    → (k : ℕ) (s : String) → count d (replace_from (String.◌∷◌ q p) by k s) ≡ count d (drop k s)
unfolding replace_from count_chars
count-replace_from d q p by n m zero String.[] = refl
count-replace_from d q p by n m (suc k) String.[] = refl
count-replace_from d q p by n m (suc k) (String.◌∷◌ c s) = count-replace_from d q p by n m k s
count-replace_from d q p by n m zero (String.◌∷◌ c s) =
    let w = String.◌∷◌ q p in
    elim (Bool-cases (starts_with (String.◌∷◌ c s) w)) [
      | inr e ↦
          let ih = count-replace_from d q p by n m zero s in
          rw (e, replace_from) (ground (arith, ih))
      | inl e ↦
          let ih = count-replace_from d q p by n m (suc (count_chars p) - 1) s in
          let there = count-drop d (String.◌∷◌ c s) w e n in
          rw (e, replace_from)
            (ground (
              arith,
              ih,
              there,
              count-append d by (replace_from w by (suc (count_chars p) - 1) s),
              count-contains d by m,
            ))
    ]

-- Every character passes the test.
abbrev pub all_chars : (ℕ → Bool) → String → Bool
all_chars f String.[] = true
all_chars f (String.◌∷◌ c s) = f (code c) && all_chars f s

-- What may stand in an encoded segment.
abbrev pub is_segment_char : ℕ → Bool
is_segment_char c = is_unreserved c || c == b'%'

all-append :
    (f : ℕ → Bool) (s t : String)
    → all_chars f s ≡ true
    → all_chars f t ≡ true
    → all_chars f (s <> t) ≡ true
all-append f String.[] t h k = rw nil-append k
all-append f (String.◌∷◌ c s) t h k = ground (arith, all-append f s t, cons-append c s t)

abbrev IsPlain : String → Type 0
IsPlain s = all_chars is_segment_char s ≡ true

if_IsPlain : (b : Bool) (s t : String) → IsPlain s → IsPlain t → IsPlain (if b then s else t)
if_IsPlain true s t h k = h
if_IsPlain false s t h k = k

digit-IsPlain : (n : ℕ) → IsPlain (digit n)
unfolding digit is_unreserved
digit-IsPlain n = if_IsPlain (n == 0) _ _ refl (
    if_IsPlain (n == 1) _ _ refl (
      if_IsPlain (n == 2) _ _ refl (
        if_IsPlain (n == 3) _ _ refl (
          if_IsPlain (n == 4) _ _ refl (
            if_IsPlain (n == 5) _ _ refl (
              if_IsPlain (n == 6) _ _ refl (
                if_IsPlain (n == 7) _ _ refl (
                  if_IsPlain (n == 8) _ _ refl (
                    if_IsPlain (n == 9) _ _ refl (
                      if_IsPlain (n == 10) _ _ refl (
                        if_IsPlain (n == 11) _ _ refl (
                          if_IsPlain (n == 12) _ _ refl (
                            if_IsPlain (n == 13) _ _ refl
                              (if_IsPlain (n == 14) _ _ refl refl))))))))))))))

upper_digit-IsPlain : (n : ℕ) → IsPlain (upper_digit n)
unfolding upper_digit is_unreserved
upper_digit-IsPlain n = if_IsPlain (n == 10) _ _ refl (
    if_IsPlain (n == 11) _ _ refl (
      if_IsPlain (n == 12) _ _ refl (
        if_IsPlain (n == 13) _ _ refl
          (if_IsPlain (n == 14) _ _ refl (if_IsPlain (n == 15) _ _ refl (digit-IsPlain n))))))

escape-IsPlain : (bs : List ℕ) → all_chars is_segment_char (escape bs) ≡ true
unfolding escape is_unreserved
escape-IsPlain [] = refl
escape-IsPlain (b ∷ bs) =
    all-append is_segment_char "%" (upper_digit (b / 16) <> upper_digit (b % 16) <> escape bs) refl
      (all-append is_segment_char (upper_digit (b / 16)) (upper_digit (b % 16) <> escape bs)
        (upper_digit-IsPlain (b / 16))
        (all-append is_segment_char (upper_digit (b % 16)) (escape bs)
          (upper_digit-IsPlain (b % 16)) (escape-IsPlain bs)))

encode_chars-IsPlain : (s : String) → IsPlain (encode_chars s)
unfolding encode_chars
encode_chars-IsPlain String.[] = refl
encode_chars-IsPlain (String.◌∷◌ c s) =
    let ih = encode_chars-IsPlain s in
    elim (Bool-cases (is_unreserved (code c))) [
      | inl e ↦ rw (e, encode_chars) (ground (arith, e, ih))
      | inr e ↦
          rw (e, encode_chars)
            (all-append is_segment_char (escape (utf8 (code c))) (encode_chars s)
              (escape-IsPlain (utf8 (code c))) ih)
    ]

escape_head :
    (b : ℕ) (bs : List ℕ) (t : String) → (r : String) × (escape (b ∷ bs) <> t ≡ String.◌∷◌ "%" r)
unfolding escape
escape_head b bs t =
    let x : String = upper_digit (b / 16) <> upper_digit (b % 16) <> escape bs in
    let p : "%" <> x ≡ String.◌∷◌ "%" x =
      cons-append "%" "" x ∙ ap (λ y. String.◌∷◌ "%" y) (nil-append x) in
    (x <> t, ap (λ y. y <> t) p ∙ cons-append "%" x t)

escape-utf8_head : (c : ℕ) (t : String) → (r : String) × (escape (utf8 c) <> t ≡ String.◌∷◌ "%" r)
unfolding utf8
escape-utf8_head c t = elim (Bool-cases (ltb c 0x80)) [
  | inl e ↦ rw (e, utf8) (escape_head _ _ t)
  | inr e ↦ elim (Bool-cases (ltb c 0x800)) [
    | inl f ↦ rw (e, utf8) (rw f (escape_head _ _ t))
    | inr f ↦ elim (Bool-cases (ltb c 0x10000)) [
      | inl g ↦ rw (e, utf8) (rw f (rw g (escape_head _ _ t)))
      | inr g ↦ rw (e, utf8) (rw f (rw g (escape_head _ _ t)))
    ]
  ]
]

-- The code of the first character.
abbrev head_code : String → ℕ
head_code String.[] = 0
head_code (String.◌∷◌ c s) = code c

-- A character that is not `%` at the head of an encoded text is the text's own.
encode_chars_head :
    (s : String) (d : Char) (t : String)
    → encode_chars s ≡ String.◌∷◌ d t
    → code d ≢ b'%'
    → (r : String) × (s ≡ String.◌∷◌ d r) × (encode_chars r ≡ t)
unfolding encode_chars
encode_chars_head String.[] d t h n = absurd (cc)
encode_chars_head (String.◌∷◌ c s) d t h n = elim (Bool-cases (is_unreserved (code c))) [
  | inl e ↦ (s, ground (arith, e, h), ground (arith, e, h))
  | inr e ↦
      let (r, p) = escape-utf8_head (code c) (encode_chars s) in
      let whole : encode_chars (String.◌∷◌ c s) ≡ String.◌∷◌ "%" r = rw (e, encode_chars) p in
      absurd (n (ap (λ x. head_code x) (sym h ∙ whole)))
]

encode_chars_empty : (s : String) → encode_chars s ≡ "" → s ≡ ""
unfolding encode_chars
encode_chars_empty String.[] h = refl
encode_chars_empty (String.◌∷◌ c s) h = elim (Bool-cases (is_unreserved (code c))) [
  | inl e ↦
      let whole : encode_chars (String.◌∷◌ c s) ≡ String.◌∷◌ c (encode_chars s) =
        rw (e, encode_chars) refl in
      absurd (cc (h, whole))
  | inr e ↦
      let (r, p) = escape-utf8_head (code c) (encode_chars s) in
      let whole : encode_chars (String.◌∷◌ c s) ≡ String.◌∷◌ "%" r = rw (e, encode_chars) p in
      absurd (cc (h, whole))
]

encode_chars_dot : (s : String) → encode_chars s ≡ "." → s ≡ "."
encode_chars_dot s h =
    let (r, p, q) = encode_chars_head s "." "" h (λ e. absurd (omega (arith, e))) in
    cc (p, encode_chars_empty r q)

encode_chars_dots : (s : String) → encode_chars s ≡ ".." → s ≡ ".."
encode_chars_dots s h =
    let (r, p, q) = encode_chars_head s "." "." h (λ e. absurd (omega (arith, e))) in
    cc (p, encode_chars_dot r q)

-- An encoded value has unreserved characters and `%` only, and is not the text `.` or `..`. (A reader of URLs
-- may take `%2E` for a dot.)
encode_path_segment_lem :
    (s : String)
    → (all_chars is_segment_char (encode_path_segment s) ≡ true)
      × (encode_path_segment s ≢ ".")
      × (encode_path_segment s ≢ "..")
unfolding encode_path_segment is_unreserved
encode_path_segment_lem s = elim (Bool-cases (s =? ".")) [
  | inl e ↦ rw (e, encode_path_segment) (refl, λ h. cc (h), λ h. cc (h))
  | inr e ↦ elim (Bool-cases (s =? "..")) [
    | inl f ↦ rw (e, encode_path_segment) (rw f (refl, λ h. cc (h), λ h. cc (h)))
    | inr f ↦
        rw (e, encode_path_segment)
          (rw f (
            encode_chars-IsPlain s,
            λ h. ground (arith, e, eq_iff s ".", encode_chars_dot s h),
            λ h. ground (arith, f, eq_iff s "..", encode_chars_dots s h),
          ))
  ]
]

-- The names of values.
abbrev pub keys : Fields → List String
keys end = []
keys (field k v pp) = k ∷ keys pp

plain_no_slash : (s : String) → IsPlain s → contains b'/' s ≡ false
unfolding contains is_unreserved
plain_no_slash String.[] h = refl
plain_no_slash (String.◌∷◌ c s) h = ground (arith, plain_no_slash s)

braces_no_slash : (k : String) → contains b'/' k ≡ false → contains b'/' (k <> "}") ≡ false
unfolding contains
braces_no_slash String.[] h = ap (contains b'/') (nil-append "}")
braces_no_slash (String.◌∷◌ c k) h = ground (arith, cons-append c k "}", braces_no_slash k)

module _ (J : JsonText) where
  count-fill_path :
      (pp : Fields) (path : String)
      → All (λ k. contains b'/' k ≡ false) (keys pp)
      → count b'/' (fill_path J pp path) ≡ count b'/' path
  unfolding fill_path replace contains
  count-fill_path end path h = refl
  count-fill_path (field k v pp) path (h, hs) =
      let enc = encode_path_segment (text_of J v) in
      let open_brace : "{" <> k <> "}" ≡ String.◌∷◌ "{" (k <> "}") =
        cons-append "{" "" (k <> "}") ∙ ap (λ y. String.◌∷◌ "{" y) (nil-append (k <> "}")) in
      let step =
        count-replace_from b'/' "{" (k <> "}") enc (braces_no_slash k h)
          (plain_no_slash enc (encode_path_segment_lem (text_of J v)).0) 0 path in
      count-fill_path pp (replace path ("{" <> k <> "}") enc) hs
      ∙ ap (λ w. count b'/' (replace path w enc)) open_brace
      ∙ step

  -- Filling in values for names that have no slash keeps the number of segments of the path.
  pub length-split-fill_path :
      (pp : Fields) (path : String)
      → All (λ k. contains b'/' k ≡ false) (keys pp)
      → length (split b'/' (fill_path J pp path)) ≡ length (split b'/' path)
  length-split-fill_path pp path h =
      length-split b'/' (fill_path J pp path)
      ∙ ap suc (count-fill_path pp path h)
      ∙ sym (length-split b'/' path)

  -- A name may run over several placeholders: then one value stands for all of them. With the name
  -- `customer}/sources/{id` the path for a source of a customer becomes the path for the customer.
  fill_path_swallows :
      (v : Value)
      → fill_path J (field "customer}/sources/{id" v end) "/v1/customers/{customer}/sources/{id}"
        ≡ fill_path J (field "customer" v end) "/v1/customers/{customer}"
  unfolding fill_path replace
  fill_path_swallows v = refl
