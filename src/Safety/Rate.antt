-- ===== src/Safety/Rate.antt =====
-- How many triggers the rate limiter lets through.
use rtt.Prelude.{
  ℕ, zero, suc, ◌+◌, ◌-◌, ◌*◌, ◌^◌, ◌≤◌, ◌<◌, ◌≡◌, refl, ◌∙◌, true, List, [], ◌∷◌, ◌++◌, All,
  length, replicate, leb, max, if◌then◌else◌, arith,
}
use rtt.Safety.{RateLimiter, window_ns, try_acquire}

-- The limiter after calls at these times, and how many of them it let through.
unfoldable pub run : RateLimiter → List ℕ → RateLimiter × ℕ
run rl [] = (rl, 0)
run rl (t ∷ ts) =
    let (rl', granted) = try_acquire rl t in
    let (rl'', rest) = run rl' ts in (rl'', if granted then suc rest else rest)

-- Calls that fall in the window that is open.
abbrev pub InWindow : RateLimiter → List ℕ → Type 0
InWindow rl ts = All (λ t. t - rl.window_start_ns < window_ns) ts

try_acquire_inside :
    (rl : RateLimiter) (t : ℕ)
    → t - rl.window_start_ns < window_ns
    → rl.count_in_window + 1 < 2 ^ 64
    → let (rl', granted) = try_acquire rl t in
      (rl'.window_start_ns ≡ rl.window_start_ns)
      × (rl'.max_per_second ≡ rl.max_per_second)
      × (rl'.count_in_window ≡ rl.count_in_window + 1)
      × (granted ≡ leb (rl.count_in_window + 1) rl.max_per_second)
unfolding try_acquire
try_acquire_inside rl t h k = ground arith

window-bound :
    (rl : RateLimiter) (ts : List ℕ)
    → InWindow rl ts
    → rl.count_in_window + length ts < 2 ^ 64
    → (run rl ts).1 ≤ rl.max_per_second - rl.count_in_window
unfolding run
window-bound rl [] h k = ground arith
window-bound rl (t ∷ ts) h k =
    let one = try_acquire_inside rl t h.0 (omega arith) in
    let rl' = (try_acquire rl t).0 in
    let inside : InWindow rl' ts = rw one.0 h.1 in
    ground (arith, one, window-bound rl' ts inside (omega (arith, one)))

try_acquire_opening :
    (rl : RateLimiter) (t : ℕ)
    → window_ns ≤ t - rl.window_start_ns
    → try_acquire rl t ≡ (record rl { window_start_ns = t; count_in_window = 1 }, true)
unfolding try_acquire
try_acquire_opening rl t h = ground arith

-- From the call that opens a window to the next that opens one, at most `max_per_second` calls are
-- let through, or one if the maximum is 0, as long as the count of calls fits a `u64`.
pub per_window :
    (rl : RateLimiter) (t : ℕ) (ts : List ℕ)
    → window_ns ≤ t - rl.window_start_ns
    → All (λ u. u - t < window_ns) ts
    → length ts + 1 < 2 ^ 64
    → (run rl (t ∷ ts)).1 ≤ max 1 rl.max_per_second
unfolding run
per_window rl t ts h k fits =
    let opened : RateLimiter = record rl { window_start_ns = t; count_in_window = 1 } in
    let bound = window-bound opened ts k (omega arith) in
    ground (arith, try_acquire_opening rl t h, bound)

run-append :
    (rl : RateLimiter) (ts us : List ℕ)
    → (run rl (ts ++ us)).1 ≡ (run rl ts).1 + (run (run rl ts).0 us).1
unfolding run
run-append rl [] us = ground arith
run-append rl (t ∷ ts) us = ground (arith, run-append (try_acquire rl t).0 ts us)

-- `n` calls at one time of the open window, while the count stays within the maximum.
run-burst :
    (rl : RateLimiter) (n t : ℕ)
    → t - rl.window_start_ns < window_ns
    → rl.count_in_window + n ≤ rl.max_per_second
    → rl.max_per_second < 2 ^ 64
    → let (rl', granted) = run rl (replicate n t) in
      (granted ≡ n)
      × (rl'.window_start_ns ≡ rl.window_start_ns)
      × (rl'.max_per_second ≡ rl.max_per_second)
unfolding run
run-burst rl zero t h k fits = (refl, refl, refl)
run-burst rl (suc n) t h k fits =
    let one = try_acquire_inside rl t h (omega arith) in
    let rest =
      run-burst (try_acquire rl t).0 n t (ground (arith, one.0)) (omega (arith, one))
        (omega (arith, one)) in
    ground (arith, one, rest)

-- The same, when the first of the calls opens a window.
run-burst_opening :
    (rl : RateLimiter) (n t : ℕ)
    → window_ns ≤ t - rl.window_start_ns
    → 1 + n ≤ rl.max_per_second
    → rl.max_per_second < 2 ^ 64
    → (run rl (replicate (suc n) t)).1 ≡ suc n
unfolding run
run-burst_opening rl n t h k fits =
    let opened : RateLimiter = record rl { window_start_ns = t; count_in_window = 1 } in
    let rest = run-burst opened n t (omega arith) k fits in
    ground (arith, try_acquire_opening rl t h, rest.0)

-- The window does not slide: around the moment at which it is renewed, all but one of twice the
-- maximum number of calls are let through within a nanosecond. `t` opens a window, the rest of its
-- calls come in its last nanosecond, and the next window's at its end.
pub burst_across_windows :
    (rl : RateLimiter) (n t : ℕ)
    → rl.max_per_second ≡ suc n
    → rl.max_per_second < 2 ^ 64
    → window_ns ≤ t - rl.window_start_ns
    → let opened = (try_acquire rl t).0 in
      let late = replicate n (t + (window_ns - 1)) in
      let next = replicate (suc n) (t + window_ns) in (run opened (late ++ next)).1 ≡ 2 * n + 1
burst_across_windows rl n t m fits h =
    let opened : RateLimiter = record rl { window_start_ns = t; count_in_window = 1 } in
    let late = run-burst opened n (t + (window_ns - 1)) (omega arith) (omega arith) fits in
    let rl' = (run opened (replicate n (t + (window_ns - 1)))).0 in
    let next =
      run-burst_opening rl' n (t + window_ns) (omega (arith, late)) (omega (arith, late))
        (omega (arith, late)) in
    rw (try_acquire_opening rl t h) (
      run-append opened (replicate n (t + (window_ns - 1))) (replicate (suc n) (t + window_ns))
      ∙ omega (arith, late.0, next))
