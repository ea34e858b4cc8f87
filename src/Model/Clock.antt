-- ===== src/Model/Clock.antt =====
-- Units of time, the zero time, and `time.Since`, as internal/waitlist/waitlist.go uses them.
use waitinglist.Prelude.{
  ℕ, ◌+◌, ◌-◌, ◌*◌, ◌/◌, ◌^◌, ◌≤◌, ◌≡◌, Bool, false, arith, ltb, leb, ◌==◌, if◌then◌else◌,
}
use waitinglist.Prelude.Int.{ℤ, pos, negsuc, ltb_ℤ}

abbrev pub second : ℕ
second = 1_000_000_000

abbrev pub hour : ℕ
hour = 3600 * second

abbrev pub day : ℕ
day = 24 * hour

-- The bounds of `time.Duration`, an int64: `max_duration`, and the size of the least duration.
abbrev pub max_duration : ℕ
max_duration = 2 ^ 63 - 1

abbrev pub zero_time : ℕ
zero_time = 0

-- `t.IsZero()`
abbrev pub is_zero : ℕ → Bool
is_zero t = t == zero_time

clamp_high : ℕ → ℤ
clamp_high d = if ltb max_duration d then pos max_duration else pos d

clamp_low : ℕ → ℤ
clamp_low d = if ltb max_duration d then negsuc max_duration else negsuc d

-- `now.Sub(t)`: Go's difference saturates at the bounds of the type.
unfoldable pub since : ℕ → ℕ → ℤ
unfolding clamp_high clamp_low
since now t = if leb t now then clamp_high (now - t) else clamp_low (t - now - 1)

-- Below the bound the saturation does not show: an instant is younger than a window exactly when
-- the window added to it ends after now.
pub since_window : (now t w : ℕ) → w ≤ max_duration → ltb_ℤ (since now t) (pos w) ≡ ltb now (t + w)
unfolding since
since_window now t w h = ground arith

-- An instant that is not younger than a window has the whole window behind it.
pub since_elapsed :
    (now t w : ℕ) → w ≤ max_duration → ltb_ℤ (since now t) (pos w) ≡ false → t + w ≤ now
unfolding since
since_elapsed now t w h e = ground arith

-- The whole seconds of an instant, as `strftime('%Y-%m-%dT%H:%M:%SZ', …)` keeps them.
abbrev pub whole_seconds : ℕ → ℕ
whole_seconds t = t / second * second
