-- ===== src/Exec/Headers.antt =====
-- src/exec.rs: the headers of a request.
use Prim.Native.String.{String}
use min_mcp.Prelude.{
  ◌≡◌, refl, true, List, [], ◌∷◌, ◌++◌, Option, none, some, arith, if◌then◌else◌, Option-cases, inl,
  inr,
}
use min_mcp.Exec.{Pairs, eq_ignore_ascii_case, without_header, put_headers}

-- The values of the headers with a name, in any case.
abbrev pub values : String → Pairs → List String
values k [] = []
values k ((j, v) ∷ hs) = if eq_ignore_ascii_case j k then v ∷ values k hs else values k hs

-- The last value that is given for a name.
abbrev pub last_value : String → Pairs → Option String
last_value k [] = none
last_value k ((j, v) ∷ hs) = elim (last_value k hs) [
  | some w ↦ some w
  | none ↦ if eq_ignore_ascii_case j k then some v else none
]

case_sym : (s t : String) → eq_ignore_ascii_case s t ≡ eq_ignore_ascii_case t s
unfolding eq_ignore_ascii_case
case_sym String.[] String.[] = refl
case_sym String.[] (String.◌∷◌ d t) = refl
case_sym (String.◌∷◌ c s) String.[] = refl
case_sym (String.◌∷◌ c s) (String.◌∷◌ d t) = ground (arith, case_sym s t)

case_cong :
    (s t u : String)
    → eq_ignore_ascii_case s t ≡ true
    → eq_ignore_ascii_case s u ≡ eq_ignore_ascii_case t u
unfolding eq_ignore_ascii_case
case_cong String.[] String.[] u h = refl
case_cong String.[] (String.◌∷◌ d t) u h = absurd (cc)
case_cong (String.◌∷◌ c s) String.[] u h = absurd (cc)
case_cong (String.◌∷◌ c s) (String.◌∷◌ d t) String.[] h = refl
case_cong (String.◌∷◌ c s) (String.◌∷◌ d t) (String.◌∷◌ e u) h = ground (arith, case_cong s t u)

values-without_header :
    (k j : String) (hs : Pairs)
    → values k (without_header j hs) ≡ (if eq_ignore_ascii_case k j then [] else values k hs)
unfolding without_header
values-without_header k j [] = ground arith
values-without_header k j ((i, v) ∷ hs) =
    ground (arith, values-without_header k j hs, case_cong i k j, case_cong i j k, case_sym j k)

values-snoc :
    (k j v : String) (hs : Pairs)
    → values k (hs ++ ((j, v) ∷ []))
      ≡ (if eq_ignore_ascii_case j k then values k hs ++ (v ∷ []) else values k hs)
values-snoc k j v [] = ground arith
values-snoc k j v ((i, w) ∷ hs) = ground (arith, values-snoc k j v hs)

values-step :
    (k j v : String) (hs : Pairs)
    → values k (without_header j hs ++ ((j, v) ∷ []))
      ≡ (if eq_ignore_ascii_case j k then v ∷ [] else values k hs)
values-step k j v hs =
    ground
      (arith, values-snoc k j v (without_header j hs), values-without_header k j hs, case_sym j k)

-- A header of the operation replaces every header of that name that was there, in any case, and is sent
-- once; a name that the operation does not give keeps its values.
pub values-put_headers :
    (k : String) (extra merged : Pairs)
    → values k (put_headers extra merged)
      ≡ (elim (last_value k extra) [ none ↦ values k merged | some v ↦ v ∷ [] ])
unfolding put_headers
values-put_headers k [] merged = refl
values-put_headers k ((j, v) ∷ extra) merged =
    let ih = values-put_headers k extra (without_header j merged ++ ((j, v) ∷ [])) in
    elim (Option-cases (last_value k extra)) [
      | inl e ↦ ground (arith, e, ih, values-step k j v merged)
      | inr (w, e) ↦ ground (arith, e, ih)
    ]
