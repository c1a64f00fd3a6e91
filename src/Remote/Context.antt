-- ===== src/Remote/Context.antt =====
-- `struct decode_ctx_t` of lib/ir_remote_types.h: what a driver's decoder hands over.
use lirc.Base.{ℕ, Bool}

pub record DecodeCtx : Type 0 where
  pub code : ℕ
  pub pre : ℕ
  pub post : ℕ
  pub repeat_flag : Bool
  pub max_remaining_gap : ℕ
  pub min_remaining_gap : ℕ
