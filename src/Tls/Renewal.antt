-- ===== src/Tls/Renewal.antt =====
-- When a serving certificate is renewed.
use istio_csr.Base.{ℕ, ◌+◌, ◌*◌, ◌/◌, ◌^◌, ◌≤◌, ◌<◌, ◌≡◌, arith}
use istio_csr.Base.Int64.{pos, ◌≤ℤ◌, wrap64}
use istio_csr.Tls.Start.{renewal_time}

-- For a certificate that ends in less than 2^62 nanoseconds, the renewal is due after two thirds of
-- the time that is left, rounded down.
pub renewal_time_bounds :
    (left : ℕ)
    → left < 2 ^ 62
    → (n : ℕ) × (renewal_time (pos left) ≡ pos n) × (3 * n ≤ 2 * left) × (2 * left < 3 * n + 3)
unfolding renewal_time wrap64
renewal_time_bounds left h = (2 * left / 3, ground arith, omega arith, omega arith)

-- For a certificate that ends in 2^62 nanoseconds or more, about 146 years, as far as time.Until
-- counts, the product wraps and the renewal is due at once.
pub renewal_time_wraps :
    (left : ℕ) → 2 ^ 62 ≤ left → left < 2 ^ 63 → renewal_time (pos left) ≤ℤ pos 0
unfolding renewal_time wrap64
renewal_time_wraps left h k = ground arith
