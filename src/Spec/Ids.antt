-- ===== src/Spec/Ids.antt =====
-- src/spec.rs: every operation of a spec has an id of its own.
use Prim.Native.Char.{Char, code}
use Prim.Native.String.{String}
use text.Mathlib.TextLemmas.{cons-append, nil-append}
use min_mcp.Prelude.{
  ℕ, zero, suc, ◌+◌, ◌-◌, ◌*◌, ◌/◌, ◌%◌, ◌^◌, ◌<◌, ◌≤◌, ◌≡◌, refl, sym, ◌∙◌, ap, ◌<>◌, true, false,
  List, [], ◌∷◌, arith, ltb, ◌=?◌, eq_iff, if◌then◌else◌, Bool-cases, inl, inr, length, digit,
  decimal, show,
}
use min_mcp.Spec.{Operation}
use min_mcp.Spec.Operations.{contains_id, numbered, free_id, give_ids}

-- The number that digits stand for, after a number before them.
abbrev read : ℕ → String → ℕ
read acc String.[] = acc
read acc (String.◌∷◌ c s) = read (acc * 10 + (code c - b'0')) s

read_one :
    (acc d : ℕ) (c : Char) (t : String)
    → code c ≡ b'0' + d
    → read acc (String.◌∷◌ c String.[] <> t) ≡ read (acc * 10 + d) t
read_one acc d c t h =
    ap (read acc) (cons-append c "" t ∙ ap (λ s. String.◌∷◌ c s) (nil-append t))
    ∙ ap (λ n. read (acc * 10 + n) t) (omega (arith, h))

read-digit : (acc d : ℕ) (t : String) → d < 10 → read acc (digit d <> t) ≡ read (acc * 10 + d) t
unfolding digit
read-digit acc zero t h = read_one acc 0 "0" t refl
read-digit acc (suc zero) t h = read_one acc 1 "1" t refl
read-digit acc (suc (suc zero)) t h = read_one acc 2 "2" t refl
read-digit acc (suc (suc (suc zero))) t h = read_one acc 3 "3" t refl
read-digit acc (suc (suc (suc (suc zero)))) t h = read_one acc 4 "4" t refl
read-digit acc (suc (suc (suc (suc (suc zero))))) t h = read_one acc 5 "5" t refl
read-digit acc (suc (suc (suc (suc (suc (suc zero)))))) t h = read_one acc 6 "6" t refl
read-digit acc (suc (suc (suc (suc (suc (suc (suc zero))))))) t h = read_one acc 7 "7" t refl
read-digit acc (suc (suc (suc (suc (suc (suc (suc (suc zero)))))))) t h = read_one acc 8 "8" t refl
read-digit acc (suc (suc (suc (suc (suc (suc (suc (suc (suc zero))))))))) t h =
    read_one acc 9 "9" t refl
read-digit acc (suc (suc (suc (suc (suc (suc (suc (suc (suc (suc n)))))))))) t h =
    absurd (omega arith)

read-decimal :
    (fuel n : ℕ) (rest : String) → n < 10 ^ fuel → read 0 (decimal fuel n rest) ≡ read n rest
unfolding decimal
read-decimal zero n rest h = ap (λ k. read k rest) (omega arith)
read-decimal (suc fuel) n rest h = elim (Bool-cases (ltb n 10)) [
  | inl e ↦
      rw (e, decimal) (read-digit 0 n rest (ground arith) ∙ ap (λ k. read k rest) (omega arith))
  | inr e ↦
      let small : n / 10 < 10 ^ fuel = omega (arith, h) in
      rw (e, decimal)
        (read-decimal fuel (n / 10) (digit (n % 10) <> rest) small
          ∙ read-digit (n / 10) (n % 10) rest (omega arith)
          ∙ ap (λ k. read k rest) (omega arith))
]

-- Numbers of at most twenty digits are printed apart.
show_apart : (i j : ℕ) → i < 10 ^ 20 → j < 10 ^ 20 → show i ≡ show j → i ≡ j
unfolding show
show_apart i j h k e = sym (read-decimal 20 i "" h) ∙ ap (read 0) e ∙ read-decimal 20 j "" k

cancel : (s x y : String) → s <> x ≡ s <> y → x ≡ y
cancel String.[] x y e = sym (nil-append x) ∙ e ∙ nil-append y
cancel (String.◌∷◌ c s) x y e =
    let same : String.◌∷◌ c (s <> x) ≡ String.◌∷◌ c (s <> y) =
      sym (cons-append c s x) ∙ e ∙ cons-append c s y in
    cancel s x y (cc (same))

numbered_apart :
    (base : String) (i j : ℕ)
    → i < 10 ^ 20
    → j < 10 ^ 20
    → numbered base i ≡ numbered base j
    → i ≡ j
numbered_apart base i j h k e =
    show_apart i j h k
      (cancel "_" (show i) (show j) (cancel base ("_" <> show i) ("_" <> show j) e))

apart :
    (base : String) (i k : ℕ)
    → i < k
    → k < 10 ^ 20
    → i < 10 ^ 20
    → (numbered base k =? numbered base i) ≡ false
apart base i k l h g = elim (Bool-cases (numbered base k =? numbered base i)) [
  | inr e ↦ e
  | inl e ↦
      let same : numbered base k ≡ numbered base i =
        ground (arith, e, eq_iff (numbered base k) (numbered base i)) in
      absurd (omega (arith, l, numbered_apart base k i h g same))
]

drop_id : String → List String → List String
drop_id x [] = []
drop_id x (y ∷ ys) = let rest = drop_id x ys in if y =? x then rest else y ∷ rest

length-drop_id : (x : String) (ys : List String) → length (drop_id x ys) ≤ length ys
unfolding drop_id
length-drop_id x [] = omega arith
length-drop_id x (y ∷ ys) = ground (arith, length-drop_id x ys)

length-drop_found :
    (x : String) (ys : List String) → contains_id x ys ≡ true → length (drop_id x ys) < length ys
unfolding drop_id
length-drop_found x [] h = absurd (cc (h))
length-drop_found x (y ∷ ys) h = ground (arith, length-drop_id x ys, length-drop_found x ys)

contains-drop_id :
    (k x : String) (ys : List String)
    → (k =? x) ≡ false
    → contains_id k (drop_id x ys) ≡ contains_id k ys
unfolding drop_id
contains-drop_id k x [] h = refl
contains-drop_id k x (y ∷ ys) h =
    ground (arith, contains-drop_id k x ys h, eq_iff y x, eq_iff y k, eq_iff k x)

-- With more tries than there are ids, a free one is found.
free_id_lem :
    (left : ℕ) (base : String) (i : ℕ) (seen open_ids : List String)
    → length open_ids < left
    → i + left ≤ 10 ^ 20
    → ((k : ℕ)
        → i ≤ k
        → k < 10 ^ 20
        → contains_id (numbered base k) seen ≡ true
        → contains_id (numbered base k) open_ids ≡ true)
    → contains_id (free_id left base i seen) seen ≡ false
unfolding free_id
free_id_lem zero base i seen open_ids h l f = absurd (omega (arith, h))
free_id_lem (suc left) base i seen open_ids h l f =
    elim (Bool-cases (contains_id (numbered base i) seen)) [
      | inr e ↦ rw (e, free_id) e
      | inl e ↦
          let here : contains_id (numbered base i) open_ids ≡ true =
            f i (omega arith) (omega (arith, l)) e in
          rw (e, free_id)
            (free_id_lem left base (i + 1) seen (drop_id (numbered base i) open_ids)
              (omega (arith, h, length-drop_found (numbered base i) open_ids here))
              (omega (arith, l))
              (λ k a b c.
                contains-drop_id (numbered base k) (numbered base i) open_ids
                  (apart base i k (omega arith) b (omega (arith, l)))
                ∙ f k (omega arith) b c))
    ]

-- The ids are apart from each other and from the ones before.
abbrev pub IsUnique : List String → List Operation → Type 0
IsUnique seen [] = Unit
IsUnique seen (op ∷ ops) = (contains_id op.op_id seen ≡ false) × IsUnique (op.op_id ∷ seen) ops

-- Every operation of a spec gets an id that no operation before it has, whatever ids the spec declares or
-- leaves out, and none is lost; a spec has fewer operations than numbers of twenty digits.
pub give_ids-IsUnique :
    (seen : List String) (ops : List Operation)
    → length seen + length ops + 3 ≤ 10 ^ 20
    → IsUnique seen (give_ids seen ops) × (length (give_ids seen ops) ≡ length ops)
unfolding give_ids
give_ids-IsUnique seen [] h = (tt, refl)
give_ids-IsUnique seen (op ∷ ops) h = elim (Bool-cases (contains_id op.op_id seen)) [
  | inr e ↦
      let (u, l) = give_ids-IsUnique (op.op_id ∷ seen) ops (omega (arith, h)) in
      rw (e, give_ids) ((e, u), ap suc l)
  | inl e ↦
      let id : String = free_id (suc (length seen)) op.op_id 2 seen in
      let fresh =
        free_id_lem (suc (length seen)) op.op_id 2 seen seen (omega arith) (omega (arith, h))
          (λ k a b c. c) in
      let (u, l) = give_ids-IsUnique (id ∷ seen) ops (omega (arith, h)) in
      rw (e, give_ids) ((fresh, u), ap suc l)
]
