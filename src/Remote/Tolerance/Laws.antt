-- ===== src/Remote/Tolerance/Laws.antt =====
-- The tolerance tests as intervals: which durations they accept.
use native.Mathlib.Nat.{mul-sub}
use lirc.Base.{ℕ, ◌+◌, ◌*◌, ◌/◌, ◌≤◌, ◌<◌, ◌≡◌, ◌↔◌, true, arith, max}
use lirc.Base.Int.{pos}
use lirc.Remote.{RemoteConf}
use lirc.Remote.Tolerance.{expect, expect_at_least, expect_at_most, upper_limit, lower_limit}

module _ (resolution : ℕ) (r : RemoteConf) where
  -- How far a duration may be from the expected one.
  abbrev pub slack : ℕ → ℕ
  slack e = max (e * r.eps / 100) (max resolution r.aeps)

  -- `expect` accepts exactly the durations within the slack of the expected one, the larger of the
  -- relative tolerance, the absolute tolerance and the resolution of the driver.
  pub expect_iff :
      (d e : ℕ)
      → (expect resolution r (pos d) (pos e) ≡ true) ↔ ((e ≤ d + slack e) × (d ≤ e + slack e))
  unfolding expect
  expect_iff d e = (λ h. ground arith, λ h. ground arith)

  -- `expect_at_least` accepts exactly the durations that the slack of the expected one brings up to
  -- it.
  pub expect_at_least_iff :
      (d e : ℕ) → (expect_at_least resolution r (pos d) (pos e) ≡ true) ↔ (e ≤ d + slack e)
  unfolding expect_at_least
  expect_at_least_iff d e = (λ h. ground arith, λ h. ground arith)

  -- `expect_at_most` accepts exactly the durations up to the expected one and its slack.
  pub expect_at_most_iff :
      (d e : ℕ) → (expect_at_most resolution r (pos d) (pos e) ≡ true) ↔ (d ≤ e + slack e)
  unfolding expect_at_most
  expect_at_most_iff d e = (λ h. ground arith, λ h. ground arith)

  -- The upper limit of a duration is the duration with its slack.
  pub upper_limit-eq : (e : ℕ) → upper_limit resolution r e ≡ e + slack e
  unfolding upper_limit
  upper_limit-eq e = ground arith

  lower_limit-le : (d e : ℕ) → 0 < d → e ≤ d + slack e → lower_limit resolution r e ≤ d
  unfolding lower_limit
  lower_limit-le d e p h = ground (arith, mul-sub e 100 r.eps)

  -- The filter limits cut nothing off: a positive duration that `expect` accepts lies between the
  -- lower and the upper limit of the expected one, and the upper limit passes `expect_at_most`.
  pub expect-within_limits :
      (d e : ℕ)
      → 0 < d
      → expect resolution r (pos d) (pos e) ≡ true
      → (lower_limit resolution r e ≤ d)
        × (d ≤ upper_limit resolution r e)
        × (expect_at_most resolution r (pos (upper_limit resolution r e)) (pos e) ≡ true)
  expect-within_limits d e p h =
      let near = (expect_iff d e).0 h in
      (
        lower_limit-le d e p near.0,
        omega (arith, near.1, upper_limit-eq e),
        (expect_at_most_iff (upper_limit resolution r e) e).1 (omega (arith, upper_limit-eq e)),
      )

  -- `expect` is the two one-sided tests together.
  pub expect_both :
      (d e : ℕ)
      → (expect resolution r (pos d) (pos e) ≡ true) ↔ (
          (expect_at_least resolution r (pos d) (pos e) ≡ true)
          × (expect_at_most resolution r (pos d) (pos e) ≡ true))
  expect_both d e = (
    λ h.
        let near = (expect_iff d e).0 h in
        ((expect_at_least_iff d e).1 near.0, (expect_at_most_iff d e).1 near.1),
    λ h. (expect_iff d e).1 ((expect_at_least_iff d e).0 h.0, (expect_at_most_iff d e).0 h.1),
  )
