-- ===== src/Rollup/Backoff.antt =====
-- The delays of pulse-relay-rollup.ts: the normalized options and the failure backoff.
use synchrono_city.Prelude.{
  ℕ, zero, suc, ◌-◌, ◌*◌, ◌/◌, ◌^◌, ◌≤◌, ◌<◌, ◌≡◌, refl, Option, none, some, max, min, arith,
}
use synchrono_city.Prelude.Int.{pos, negsuc}
use native.Mathlib.Nat.{pow-suc, div-add-mod, mod-lt, zero-lt-suc}
use synchrono_city.Rollup.{
  JsNumber, nan, infinite, finite, PulseRelayRollupOptions, configure,
  normalize_non_negative_integer, compute_pulse_relay_backoff_ms,
}

pow-pos : (n : ℕ) → 1 ≤ 2 ^ n
pow-pos zero = omega arith
pow-pos (suc n) = omega (arith, pow-pos n, pow-suc 2 n)

pow_mono : (m n : ℕ) → m ≤ n → 2 ^ m ≤ 2 ^ n
pow_mono zero n h = pow-pos n
pow_mono (suc m) zero h = absurd (omega arith)
pow_mono (suc m) (suc n) h = omega (arith, pow_mono m n (omega arith), pow-suc 2 m, pow-suc 2 n)

-- A backoff lies between the base and the limit.
pub backoff_bounds :
    (failures base most : ℕ)
    → base ≤ most
    → (base ≤ compute_pulse_relay_backoff_ms failures base most)
      × (compute_pulse_relay_backoff_ms failures base most ≤ most)
unfolding compute_pulse_relay_backoff_ms
backoff_bounds failures base most h = grind (arith, pow-pos (max 1 failures - 1))

-- One more failure never shortens the backoff.
pub backoff_mono :
    (m n base most : ℕ)
    → m ≤ n
    → compute_pulse_relay_backoff_ms m base most ≤ compute_pulse_relay_backoff_ms n base most
unfolding compute_pulse_relay_backoff_ms
backoff_mono m n base most h = grind (arith, pow_mono (max 1 m - 1) (max 1 n - 1) (omega arith))

backoff_first : (base most : ℕ) → base ≤ most → compute_pulse_relay_backoff_ms 1 base most ≡ base
unfolding compute_pulse_relay_backoff_ms
backoff_first base most h = omega arith

-- From the first failure on, one more failure doubles the backoff until it meets the limit.
pub backoff_doubles :
    (n base most : ℕ)
    → compute_pulse_relay_backoff_ms (suc (suc n)) base most
      ≡ min most (2 * compute_pulse_relay_backoff_ms (suc n) base most)
unfolding compute_pulse_relay_backoff_ms
backoff_doubles n base most = grind (arith, pow-suc 2 n)

-- What an option that is read as a delay or a count stands for: a number is rounded down to a whole
-- one and raised to zero; no number, NaN and an infinity are the default.
abbrev pub IsRead : Option JsNumber → ℕ → ℕ → Type 0
IsRead (some (finite (pos a) d)) fallback n = (n * suc d ≤ a) × (a < suc n * suc d)
IsRead (some (finite (negsuc a) d)) fallback n = n ≡ 0
IsRead (some nan) fallback n = n ≡ fallback
IsRead (some infinite) fallback n = n ≡ fallback
IsRead none fallback n = n ≡ fallback

floor : (a d : ℕ) → (a / suc d * suc d ≤ a) × (a < suc (a / suc d) * suc d)
floor a d = (
  grind (arith, div-add-mod a (suc d), mod-lt a (zero-lt-suc d)),
  grind (arith, div-add-mod a (suc d), mod-lt a (zero-lt-suc d)),
)

normalize-IsRead :
    (o : Option JsNumber) (fallback : ℕ)
    → IsRead o fallback (normalize_non_negative_integer o fallback)
unfolding normalize_non_negative_integer
normalize-IsRead (some (finite (pos a) d)) fallback = floor a d
normalize-IsRead (some (finite (negsuc a) d)) fallback = refl
normalize-IsRead (some nan) fallback = refl
normalize-IsRead (some infinite) fallback = refl
normalize-IsRead none fallback = refl

-- The delay after some failures in a row, with the caller's options.
abbrev pub delay_after : PulseRelayRollupOptions → ℕ → ℕ
delay_after o failures =
    compute_pulse_relay_backoff_ms failures (configure o).failure_backoff_base_ms
      (configure o).failure_backoff_max_ms

-- Whatever the caller passes for the backoff: let the base be the caller's, rounded down, or zero if
-- it is negative, or 15000 if it is missing, NaN or infinite, and then raised to one; and the limit
-- likewise, with 300000, and raised to the base. Then the delay after one failure is the base, no
-- delay is below the base or above the limit, and from the first failure on, one more failure doubles
-- the delay until it meets the limit.
pub delay_after_lem :
    (o : PulseRelayRollupOptions) (failures : ℕ)
    → (b : ℕ) × (m : ℕ) × IsRead o.failure_backoff_base_ms 15000 b
      × IsRead o.failure_backoff_max_ms 300000 m
      × (delay_after o 1 ≡ max 1 b)
      × (max 1 b ≤ delay_after o failures)
      × (delay_after o failures ≤ max (max 1 b) m)
      × (delay_after o (suc (suc failures))
          ≡ min (max (max 1 b) m) (2 * delay_after o (suc failures)))
unfolding configure
delay_after_lem o failures =
    let b = normalize_non_negative_integer o.failure_backoff_base_ms 15000 in
    let m = normalize_non_negative_integer o.failure_backoff_max_ms 300000 in
    let (above, below) = backoff_bounds failures (max 1 b) (max (max 1 b) m) (omega arith) in
    (
      b,
      m,
      normalize-IsRead o.failure_backoff_base_ms 15000,
      normalize-IsRead o.failure_backoff_max_ms 300000,
      backoff_first (max 1 b) (max (max 1 b) m) (omega arith),
      above,
      below,
      backoff_doubles failures (max 1 b) (max (max 1 b) m),
    )
