-- ===== src/Remote/Tolerance.antt =====
-- The tolerance tests of lib/ir_remote.h: a measured duration against an expected one, with the
-- relative tolerance `eps` (percent) and the absolute one `aeps`, and the filter limits.
-- `resolution` is that of the current driver. A `lirc_t` is a signed `int`; the products are taken
-- to stay within it.
pub mod Laws
use lirc.Base.{ℕ, ◌+◌, ◌-◌, ◌*◌, ◌/◌, Bool, ◌||◌, ltb, leb, if◌then◌else◌}
use lirc.Base.Int.{ℤ, pos, pos_part, neg_part, ◌+ℤ◌, ◌-ℤ◌, leb_ℤ, scale_ℤ}
use lirc.Remote.{RemoteConf}

-- `abs` of a difference.
abbrev pub distance : ℤ → ℤ → ℕ
distance a b = let d = a -ℤ b in pos_part d + neg_part d

module _ (resolution : ℕ) (r : RemoteConf) where
  unfoldable pub aeps : ℕ
  aeps = if ltb r.aeps resolution then resolution else r.aeps

  unfoldable pub expect : ℤ → ℤ → Bool
  unfolding aeps
  expect delta exdelta =
      leb_ℤ (pos (distance exdelta delta)) (scale_ℤ exdelta r.eps 100)
      || leb (distance exdelta delta) aeps

  unfoldable pub expect_at_least : ℤ → ℤ → Bool
  unfolding aeps
  expect_at_least delta exdelta =
      leb_ℤ exdelta (delta +ℤ scale_ℤ exdelta r.eps 100) || leb_ℤ exdelta (delta +ℤ pos aeps)

  unfoldable pub expect_at_most : ℤ → ℤ → Bool
  unfolding aeps
  expect_at_most delta exdelta =
      leb_ℤ delta (exdelta +ℤ scale_ℤ exdelta r.eps 100) || leb_ℤ delta (exdelta +ℤ pos aeps)

  unfoldable pub upper_limit : ℕ → ℕ
  unfolding aeps
  upper_limit val =
      let eps_val = val * (100 + r.eps) / 100 in
      let aeps_val = val + aeps in if ltb aeps_val eps_val then eps_val else aeps_val

  -- A value that is not positive is raised to 1, so the truncated subtractions change nothing.
  unfoldable pub lower_limit : ℕ → ℕ
  unfolding aeps
  lower_limit val =
      let eps_val = val * (100 - r.eps) / 100 in
      let aeps_val = val - aeps in
      let eps_val' = if leb eps_val 0 then 1 else eps_val in
      let aeps_val' = if leb aeps_val 0 then 1 else aeps_val in
      if ltb eps_val' aeps_val' then eps_val' else aeps_val'
