-- ===== src/Http/Admin/Params/Bounds.antt =====
-- `parseIntQuery`: the numbers that get through.
use waitinglist.Prelude.{
  ◌≡◌, ◌⊎◌, inl, inr, refl, String, true, false, Bool-cases, Option, none, some, arith, subst,
}
use waitinglist.Prelude.Int.{ℤ, ◌≤ℤ◌, ltb_ℤ}
use waitinglist.Prelude.Text.{str_eq, trim_space, atoi}
use waitinglist.Http.Types.{Request, query_get}
use waitinglist.Http.Admin.Params.{value, in_range, parse_int_query}

not_below : (a b : ℤ) → ltb_ℤ a b ≡ false → b ≤ℤ a
not_below a b h = ground arith

in_range-bounds :
    (min_v max_v n : ℤ) (o : Option ℤ)
    → in_range min_v max_v o ≡ value n
    → (min_v ≤ℤ n) × (n ≤ℤ max_v) × (o ≡ some n)
unfolding in_range
in_range-bounds min_v max_v n none h = absurd (cc)
in_range-bounds min_v max_v n (some m) h = elim (Bool-cases (ltb_ℤ m min_v)) [
  | inl low ↦ absurd (ground (arith))
  | inr ok_low ↦ elim (Bool-cases (ltb_ℤ max_v m)) [
    | inl high ↦ absurd (ground (arith))
    | inr ok_high ↦
        let same : m ≡ n = ground arith in
        subst (λ x. (min_v ≤ℤ x) × (x ≤ℤ max_v) × (some m ≡ some x)) same
          (not_below m min_v ok_low, not_below max_v m ok_high, refl)
  ]
]

-- A number that `parseIntQuery` accepts is within the bounds, if the default is; and it is the
-- default of a missing parameter or the number that the text of the parameter stands for.
pub parse_int_query-bounds :
    (r : Request) (key : String) (def min_v max_v n : ℤ)
    → min_v ≤ℤ def
    → def ≤ℤ max_v
    → parse_int_query r key def min_v max_v ≡ value n
    → (min_v ≤ℤ n)
      × (n ≤ℤ max_v)
      × (((str_eq (trim_space (query_get r key)) "" ≡ true) × (n ≡ def))
          ⊎ (atoi (trim_space (query_get r key)) ≡ some n))
unfolding parse_int_query
parse_int_query-bounds r key def min_v max_v n low high h =
    elim (Bool-cases (str_eq (trim_space (query_get r key)) "")) [
      | inl missing ↦
          let same : def ≡ n = ground arith in
          subst
            (λ x.
              (min_v ≤ℤ x)
              × (x ≤ℤ max_v)
              × (((str_eq (trim_space (query_get r key)) "" ≡ true) × (x ≡ def))
                  ⊎ (atoi (trim_space (query_get r key)) ≡ some x)))
            same (low, high, inl (missing, refl))
      | inr given ↦
          let b =
            in_range-bounds min_v max_v n (atoi (trim_space (query_get r key))) (ground arith) in
          (b.0, b.1, inr b.2)
    ]
