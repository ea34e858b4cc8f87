-- ===== src/Sqlite/Waiting/Weights.antt =====
-- The order of the rows of `GetWithOffsetLimit`, by their weights.
use waitinglist.Prelude.{
  ◌≡◌, refl, ℕ, ◌+◌, ◌*◌, ◌≤◌, ◌<◌, ◌⊎◌, true, false, Option, none, some, arith,
}
use waitinglist.Prelude.Int.{ℤ, pos, negsuc}
use waitinglist.Prelude.Order.{IsPreorder}
use waitinglist.Model.Clock.{hour, day}
use waitinglist.Store.{WaitingRow}
use waitinglist.Sqlite.Waiting.{weighted_instant, weighted_earlier, weight_le, since_year_zero}

weight_le_total : (a b : Option ℕ) → weight_le a b ≡ false → weight_le b a ≡ true
unfolding weight_le
weight_le_total none b h = absurd (cc)
weight_le_total (some a) none h = refl
weight_le_total (some a) (some b) h = ground arith

weight_le_trans :
    (a b c : Option ℕ) → weight_le a b ≡ true → weight_le b c ≡ true → weight_le a c ≡ true
unfolding weight_le
weight_le_trans none b c h k = refl
weight_le_trans (some a) none c h k = absurd (cc)
weight_le_trans (some a) (some b) none h k = absurd (cc)
weight_le_trans (some a) (some b) (some c) h k = ground arith

pub weighted_earlier-IsPreorder : IsPreorder weighted_earlier
unfolding weighted_earlier
weighted_earlier-IsPreorder = record {
  total = λ r s h. weight_le_total (weighted_instant r) (weighted_instant s) h;
  trans = λ r s t h k.
      weight_le_trans (weighted_instant r) (weighted_instant s) (weighted_instant t) h k;
}

-- A row with one weight and time of creation comes before, or ties with, one with another: each hour of
-- weight is an hour earlier. A time before the year 0, or a negative weight, comes first.
abbrev pub ComesBefore : ℤ → ℕ → ℤ → ℕ → Type 0
ComesBefore (pos n) a (pos m) b = (a + m * hour ≤ b + n * hour) ⊎ (a + 366 * day < n * hour)
ComesBefore (pos n) a (negsuc _) b = a + 366 * day < n * hour
ComesBefore (negsuc _) a _ b = Unit

abbrev pub WeighsBefore : WaitingRow → WaitingRow → Type 0
WeighsBefore r s = ComesBefore r.weight r.created_at s.weight s.created_at

weights-ComesBefore :
    (v : ℤ) (a : ℕ) (w : ℤ) (b : ℕ)
    → weight_le
        (weighted_instant
          (record { id = ""; user_id = ""; created_at = a; weight = v; project_slug = "" }))
        (weighted_instant
          (record { id = ""; user_id = ""; created_at = b; weight = w; project_slug = "" }))
      ≡ true
    → ComesBefore v a w b
unfolding weight_le weighted_instant since_year_zero
weights-ComesBefore (pos n) a (pos m) b h = ground arith
weights-ComesBefore (pos n) a (negsuc m) b h = ground arith
weights-ComesBefore (negsuc n) a w b h = tt

pub weighted_earlier-WeighsBefore :
    (r s : WaitingRow) → weighted_earlier r s ≡ true → WeighsBefore r s
unfolding weighted_earlier weighted_instant
weighted_earlier-WeighsBefore r s h =
    weights-ComesBefore r.weight r.created_at s.weight s.created_at h
