-- ===== src/Server/Certificate/Duration.antt =====
-- The duration that is asked of the issuer.
use istio_csr.Base.{◌-◌, ◌*◌, ◌^◌, ◌≤◌, ◌<◌, ◌≡◌, ℕ, arith, ap}
use istio_csr.Base.Int64.{
  ℤ, pos, negsuc, ◌≤ℤ◌, ◌<ℤ◌, scale, wrap64, min_ℤ, IsInt64, wrap64_of_IsInt64,
}
use istio_csr.Server.Certificate.{second, requested_duration}

-- Where the client's seconds fit an int64 of nanoseconds, the duration is theirs, or the maximum
-- if that is less.
pub requested_duration_lem :
    (v maximum : ℤ)
    → IsInt64 (scale v second)
    → requested_duration v maximum ≡ min_ℤ (scale v second) maximum
unfolding requested_duration
requested_duration_lem v maximum h =
    ap (λ d. min_ℤ d maximum) (wrap64_of_IsInt64 (scale v second) h)

pub requested_duration-le : (v maximum : ℤ) → requested_duration v maximum ≤ℤ maximum
unfolding requested_duration
requested_duration-le v maximum = ground arith

-- A client that asks for more seconds than an int64 of nanoseconds holds, up to twice as many, is
-- not given the maximum: the product wraps, and the duration that is asked for is negative.
pub requested_duration_wraps :
    (n maximum : ℕ)
    → 2 ^ 63 ≤ n * second
    → n * second < 2 ^ 64
    → (requested_duration (pos n) (pos maximum) ≡ negsuc (2 ^ 64 - n * second - 1))
      × (requested_duration (pos n) (pos maximum) <ℤ pos 0)
unfolding requested_duration wrap64
requested_duration_wraps n maximum lo hi = (ground arith, ground arith)
