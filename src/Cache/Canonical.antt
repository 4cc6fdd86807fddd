-- ===== src/Cache/Canonical.antt =====
-- src/surface/cache.rs: arguments that differ in the order of object keys only.
use Prim.Native.Char.{code}
use Prim.Native.String.{String}
use text.Mathlib.TextEquality.{Char-path}
use min_mcp.Prelude.{◌≡◌, refl, ◌∙◌, ap, true, false, List, [], ◌∷◌, arith, ◌=?◌, eq_iff}
use min_mcp.Json.{Value, array, object, Items, nil, cons, Fields, end, field}
use min_mcp.AuditChain.{JsonText}
use min_mcp.Cache.{
  text_leb, insert_key, sort, Rendered, keys, text_at, entry_texts, write_canon, write_items,
  write_fields, canonical_args,
}

-- The same arguments but for the order of the entries of objects, at any depth.
mutual
  pub data Same : Value → Value → Type 0 where
    same : {v : Value} → Same v v
    items : {xs ys : Items} → SameItems xs ys → Same (array xs) (array ys)
    fields : {m n : Fields} → SameFields m n → Same (object m) (object n)

  pub data SameItems : Items → Items → Type 0 where
    no_items : SameItems nil nil
    item :
        {x y : Value} {xs ys : Items}
        → Same x y
        → SameItems xs ys
        → SameItems (cons x xs) (cons y ys)

  pub data SameFields : Fields → Fields → Type 0 where
    no_fields : SameFields end end
    entry :
        (k : String) {v w : Value} {m n : Fields}
        → Same v w
        → SameFields m n
        → SameFields (field k v m) (field k w n)
    swap :
        (j k : String) {v w : Value} {m : Fields}
        → j =? k ≡ false
        → SameFields (field j v (field k w m)) (field k w (field j v m))
    trans : (l : Fields) {m n : Fields} → SameFields m l → SameFields l n → SameFields m n

text_leb_total : (s t : String) → text_leb s t ≡ false → text_leb t s ≡ true
unfolding text_leb
text_leb_total String.[] t h = absurd (cc)
text_leb_total (String.◌∷◌ c s) String.[] h = refl
text_leb_total (String.◌∷◌ c s) (String.◌∷◌ d t) h = ground (arith, text_leb_total s t)

text_leb_antisym : (s t : String) → text_leb s t ≡ true → text_leb t s ≡ true → s ≡ t
unfolding text_leb
text_leb_antisym String.[] String.[] h k = refl
text_leb_antisym String.[] (String.◌∷◌ d t) h k = absurd (cc)
text_leb_antisym (String.◌∷◌ c s) String.[] h k = absurd (cc)
text_leb_antisym (String.◌∷◌ c s) (String.◌∷◌ d t) h k =
    let e : code c ≡ code d = ground arith in
    let r : s ≡ t = text_leb_antisym s t (ground arith) (ground arith) in cc (Char-path c d e, r)

text_leb_trans : (s t u : String) → text_leb s t ≡ true → text_leb t u ≡ true → text_leb s u ≡ true
unfolding text_leb
text_leb_trans String.[] t u h k = refl
text_leb_trans (String.◌∷◌ c s) String.[] u h k = absurd (cc)
text_leb_trans (String.◌∷◌ c s) (String.◌∷◌ d t) String.[] h k = absurd (cc)
text_leb_trans (String.◌∷◌ c s) (String.◌∷◌ d t) (String.◌∷◌ e u) h k =
    ground (arith, text_leb_trans s t u)

insert_key_comm :
    (j k : String) (ks : List String)
    → insert_key j (insert_key k ks) ≡ insert_key k (insert_key j ks)
unfolding insert_key
insert_key_comm j k [] = ground (arith, text_leb_total j k, text_leb_antisym j k)
insert_key_comm j k (i ∷ ks) = ground (
  arith,
  insert_key_comm j k ks,
  text_leb_total j k,
  text_leb_antisym j k,
  text_leb_trans j k i,
  text_leb_trans k j i,
  text_leb_total j i,
  text_leb_total k i,
)

-- Two renderings with the same keys once sorted, and the same text under each key.
record Alike (r r' : Rendered) : Type 0 where
  keys_alike : sort (keys r) ≡ sort (keys r')
  texts_alike : (k : String) → text_at k r ≡ text_at k r'

Alike-trans : {r l r' : Rendered} → Alike r l → Alike l r' → Alike r r'
Alike-trans a b = record {
  keys_alike = a.keys_alike ∙ b.keys_alike;
  texts_alike = λ k. a.texts_alike k ∙ b.texts_alike k;
}

Alike-swap :
    (j k : String) (s t : String) (r : Rendered)
    → j =? k ≡ false
    → Alike ((j, s) ∷ (k, t) ∷ r) ((k, t) ∷ (j, s) ∷ r)
unfolding sort text_at
Alike-swap j k s t r h = record {
  keys_alike = insert_key_comm j k (sort (keys r));
  texts_alike = λ i. ground (arith, eq_iff j k, eq_iff j i, eq_iff k i);
}

Alike-cons : (k t : String) {r r' : Rendered} → Alike r r' → Alike ((k, t) ∷ r) ((k, t) ∷ r')
unfolding sort text_at
Alike-cons k t a = record {
  keys_alike = ap (insert_key k) a.keys_alike;
  texts_alike = λ i. rw (a.texts_alike i) refl;
}

module _ (J : JsonText) where
  entry_texts_alike :
      (r r' : Rendered)
      → ((k : String) → text_at k r ≡ text_at k r')
      → (ks : List String) → entry_texts J r ks ≡ entry_texts J r' ks
  unfolding entry_texts
  entry_texts_alike r r' h [] = refl
  entry_texts_alike r r' h (k ∷ ks) = cc (h k, entry_texts_alike r r' h ks)

  Alike-entry_texts :
      {r r' : Rendered}
      → Alike r r'
      → entry_texts J r (sort (keys r)) ≡ entry_texts J r' (sort (keys r'))
  Alike-entry_texts {r} {r'} a =
      entry_texts_alike r r' a.texts_alike (sort (keys r)) ∙ ap (entry_texts J r') a.keys_alike

  mutual
    unfolding write_canon

    Same-write_canon : {v w : Value} → Same v w → write_canon J v ≡ write_canon J w
    Same-write_canon same = refl
    Same-write_canon (items s) = rw (SameItems-write_items s) refl
    Same-write_canon (fields s) = rw (Alike-entry_texts (SameFields-Alike s)) refl

    SameItems-write_items : {xs ys : Items} → SameItems xs ys → write_items J xs ≡ write_items J ys
    SameItems-write_items no_items = refl
    SameItems-write_items (item s ss) = rw (Same-write_canon s) (rw (SameItems-write_items ss) refl)

    SameFields-Alike : {m n : Fields} → SameFields m n → Alike (write_fields J m) (write_fields J n)
    SameFields-Alike no_fields = record { keys_alike = refl; texts_alike = λ k. refl }
    SameFields-Alike (entry k s ss) = rw (Same-write_canon s) (Alike-cons k _ (SameFields-Alike ss))
    SameFields-Alike (swap j k h) = Alike-swap j k _ _ _ h
    SameFields-Alike (trans l s t) = Alike-trans (SameFields-Alike s) (SameFields-Alike t)

  -- Arguments that differ only in the order of object entries, at any depth, are keyed alike.
  pub Same-canonical_args : {v w : Value} → Same v w → canonical_args J v ≡ canonical_args J w
  unfolding canonical_args
  Same-canonical_args s = Same-write_canon s
