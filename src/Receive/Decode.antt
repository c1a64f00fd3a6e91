-- ===== src/Receive/Decode.antt =====
-- `receive_decode` of lib/receive.c: one signal in the buffer against one remote.
use lirc.Base.{ℕ, ◌+◌, ◌-◌, ◌*◌, ◌^◌, Bool, true, false, not, ◌&&◌, ◌||◌, ltb, leb, ◌==◌}
use lirc.Base.{if◌then◌else◌, bit_and, List, [], ◌∷◌, Option, none, some, max}
use lirc.Base.Int.{ℤ, pos, ◌-ℤ◌, to_int32}
use lirc.Remote.{RemoteConf, IrRemote, IrNcode, bit_count, min_gap, max_gap, deref, time_elapsed}
use lirc.Remote.Context.{DecodeCtx}
use lirc.Remote.Flags.{
  has_flag, is_raw, is_rcmm, is_const, is_biphase, has_header, has_foot, has_pre, has_post,
  has_repeat, has_repeat_gap, no_head_rep, repeat_header,
}
use lirc.Remote.Code.{shr, gen_mask}
use lirc.Remote.Tolerance
use lirc.Receive.{
  Device, RecMode, mode2, pulse_mode, raw_mode, lirccode, RecBuffer, ok, M, ◌>>=◌, ◌>>◌, ret,
  rec_buffer, change, set_pending_space, rec_buffer_rewind, lirc_eof,
}
use lirc.Receive.Expect.{expectpulse, expectspace, sync_rec_buffer}
use lirc.Receive.Parts.{get_header, get_lead, get_trail, get_foot, get_gap, get_repeat, rest_of}
use lirc.Receive.Data.{get_data, failed}

-- The modes in which the driver gives pulses and spaces.
unfoldable pub has_timing : RecMode → Bool
has_timing mode2 = true
has_timing pulse_mode = true
has_timing raw_mode = true
has_timing lirccode = false

abbrev pub no_ctx : DecodeCtx
no_ctx = record {
  code = 0;
  pre = 0;
  post = 0;
  repeat_flag = false;
  max_remaining_gap = 0;
  min_remaining_gap = 0;
}

module _ (dev : Device) (fuel : ℕ) where
  -- `return 0` unless the attempt succeeds.
  abbrev try : {A : Type 0} → M dev.State Bool → M dev.State (Option A) → M dev.State (Option A)
  try attempt rest = do found ← attempt; if found then rest else ret none

  -- A value other than -1.
  abbrev try_code :
      {A : Type 0} → M dev.State ℕ → (ℕ → M dev.State (Option A)) → M dev.State (Option A)
  try_code attempt rest = do x ← attempt; if x == failed then ret none else rest x

  abbrev separated : RemoteConf → ℕ → ℕ → M dev.State ℕ → M dev.State ℕ
  separated r p s rest =
      let marked : M dev.State ℕ = do
        found ← expectpulse dev fuel r p
        if found then (do set_pending_space s; rest) else ret failed
      in if ltb 0 p && ltb 0 s then marked else rest

  -- In update mode the pre data has to be that of the configuration, toggle bits aside.
  unfoldable pub get_pre : RemoteConf → M dev.State ℕ
  get_pre r w =
      let toggles = shr r.toggle_bit_mask r.post_data_bits in
      let masked = λ (x : ℕ). bit_and x (2 ^ 64 - 1 - toggles) in
      let go : M dev.State ℕ = do
        pre ← get_data dev fuel r r.pre_data_bits 0
        if pre == failed
            then ret failed
            else if w.update_mode && not (r.pre_data == 0) && not (masked r.pre_data == masked pre)
            then ret failed
            else separated r r.pre_p r.pre_s (ret pre)
      in go w

  unfoldable pub get_post : RemoteConf → M dev.State ℕ
  get_post r =
      separated r r.post_p r.post_s
        (get_data dev fuel r r.post_data_bits (r.pre_data_bits + r.bits))

  -- The signals of a raw code, one after the other.
  unfoldable pub raw_signals : RemoteConf → List ℕ → M dev.State Bool
  raw_signals r [] = ret true
  raw_signals r (p ∷ []) = expectpulse dev fuel r p
  raw_signals r (p ∷ s ∷ rest) =
      let more = raw_signals r rest in
      do
        found ← expectpulse dev fuel r p
        let space : M dev.State Bool = do
          found' ← expectspace dev fuel r s
          if found' then more else ret false
        if found then space else ret false

  abbrev signals_of : IrNcode → List ℕ
  signals_of c = elim c.signals [ none ↦ [] | some xs ↦ xs ]

  -- The first raw code whose signals and gap are found; a failed one starts over at the sync.
  unfoldable pub raw_codes : RemoteConf → List IrNcode → M dev.State (Option ℕ)
  raw_codes r [] = ret none
  raw_codes r (c ∷ cs) =
      let more = raw_codes r cs in
      do
        found ← raw_signals r (signals_of c)
        b ← rec_buffer
        let gap = if is_const r then pos (min_gap r) -ℤ b.sum else pos (min_gap r)
        let ending : M dev.State (Option ℕ) = do
          long ← get_gap dev fuel r gap
          if long then ret (some c.code) else more
        let restart : M dev.State (Option ℕ) = do
          change rec_buffer_rewind
          x ← sync_rec_buffer dev fuel
          more
        if found then ending else restart

  abbrev remaining : RemoteConf → ℤ → (RemoteConf → ℕ) → ℕ
  remaining r sum gap = if is_const r then rest_of dev fuel (gap r) sum else gap r

  abbrev remaining_repeat : RemoteConf → ℤ → (RemoteConf → ℕ) → ℕ
  remaining_repeat r sum gap =
      if is_const r
      then rest_of dev fuel (gap r) sum
      else if has_repeat_gap r
      then r.repeat_gap
      else gap r

  -- What a repeat signal stands for: the last code; `none` where there is none.
  unfoldable pub repeat_ctx : IrRemote → ℤ → Option DecodeCtx
  repeat_ctx r sum = elim r.last_code [
    | none ↦ none
    | some c ↦ some (record {
      code = (deref r c).code;
      pre = r.pre_data;
      post = r.post_data;
      repeat_flag = true;
      max_remaining_gap = remaining_repeat r.conf sum max_gap;
      min_remaining_gap = remaining_repeat r.conf sum min_gap;
    })
  ]

  -- What the start of a signal decides: the end of the decoding, or the sync space and whether
  -- there was a header.
  pub data Start : Type 0 where
    ends : Option DecodeCtx → Start
    goes : ℕ → Bool → Start

  unfoldable pub header_part : IrRemote → ℕ → M dev.State Start
  header_part r sync =
      let late =
        has_flag r.conf no_head_rep
        && Tolerance.expect_at_most dev.resolution r.conf (pos sync) (pos (max_gap r.conf)) in
      let look : M dev.State Start = do
        found ← get_header dev fuel r.conf
        ret (if found then goes sync true else if late then goes sync false else ends none)
      in if has_header r.conf then look else ret (goes sync false)

  -- A repeat signal is looked for if this remote was decoded last.
  unfoldable pub repeat_part : IrRemote → ℕ → M dev.State Start
  unfolding header_part
  repeat_part r sync =
      let try_repeat : M dev.State Start = do
        found ← get_repeat dev fuel r.conf
        b ← rec_buffer
        let restart : M dev.State Start = do
          change rec_buffer_rewind
          x ← sync_rec_buffer dev fuel
          header_part r sync
        if found then ret (ends (repeat_ctx r b.sum)) else restart
      in let with_header : M dev.State Start = do
        found ← get_header dev fuel r.conf
        if found then try_repeat else ret (ends none)
        in if has_flag r.conf repeat_header && has_header r.conf then with_header else try_repeat

  unfoldable pub start_part : IrRemote → M dev.State Start
  unfolding repeat_part
  start_part r w =
      let was_last = elim w.last_remote as (λ _. Bool) [
        | none ↦ false
        | some last ↦ last.identity == r.identity
      ] in
      let go : M dev.State Start = do
        change (λ b. record (rec_buffer_rewind b) { is_biphase = is_biphase r.conf })
        sync ← sync_rec_buffer dev fuel
        if sync == 0
            then ret (ends none)
            else if has_repeat r.conf && was_last
            then repeat_part r sync
            else header_part r sync
      in go w

  -- The parts after the header; `header` is whether there was one.
  unfoldable pub body_part : RemoteConf → Bool → M dev.State (Option DecodeCtx)
  body_part r header =
      let part = λ (wanted : Bool) (get : M dev.State ℕ). if wanted then get else ret 0 in
      let gap = λ (b : RecBuffer).
        if is_rcmm r
        then 1000
        else if is_const r
        then rest_of dev fuel (min_gap r) b.sum
        else min_gap r in
      let less = λ (b : RecBuffer).
        if header && is_const r && has_flag r no_head_rep
        then record b { sum = b.sum -ℤ pos (r.phead + r.shead) }
        else b in
      try (get_lead dev fuel r) (
        try_code (part (has_pre r) (get_pre r)) λ pre.
          try_code (get_data dev fuel r r.bits r.pre_data_bits) λ code.
            try_code (part (has_post r) (get_post r)) λ post. try (get_trail dev fuel r) (
              try (if has_foot r then get_foot dev fuel r else ret true) (do
                change less
                b ← rec_buffer
                try (get_gap dev fuel r (pos (gap b)))
                    (ret (some (record no_ctx { code = code; pre = pre; post = post }))))))

  -- The length of the longest signal, in place of a measured one.
  abbrev estimate : RemoteConf → ℕ
  estimate r =
      r.phead
      + r.shead
      + max (r.pone + r.sone) (r.pzero + r.szero) * bit_count r
      + r.plead
      + r.ptrail
      + r.pfoot
      + r.sfoot
      + r.pre_p
      + r.pre_s
      + r.post_p
      + r.post_s

  -- A code that the driver decoded, split along the remote's layout; `sync` is an `int`.
  unfoldable pub lirccode_part : IrRemote → M dev.State (Option (DecodeCtx × ℤ × Bool))
  lirccode_part r w =
      let decoded = w.rec.decoded in
      let rest = shr decoded r.post_data_bits in
      let (current, s) = dev.gettimeofday w.dev in
      let elapsed = time_elapsed r.last_send current in
      let sum = if leb r.gap (estimate r.conf) then pos r.gap -ℤ pos 1 else pos (estimate r.conf) in
      let ctx = record no_ctx {
        code = bit_and rest (gen_mask r.bits);
        pre = shr rest r.bits;
        post = bit_and decoded (gen_mask r.post_data_bits);
      } in
      let b = w.rec in
      if not (dev.code_length == bit_count r.conf)
      then ok none w
      else ok (some (ctx, to_int32 (pos elapsed -ℤ sum), ltb elapsed 325000))
          (record w { rec = record b { sum = sum }; dev = s })

  -- The repeat flag and the gaps that follow.
  unfoldable pub finish_ctx : IrRemote → ℤ → Bool → ℤ → DecodeCtx → DecodeCtx
  finish_ctx r sync soon sum ctx = record ctx {
    repeat_flag =
        soon
        || ((not (has_repeat r.conf) || ltb r.reps r.min_code_repeat)
            && Tolerance.expect_at_most dev.resolution r.conf sync (pos r.max_remaining_gap));
    max_remaining_gap = remaining r.conf sum max_gap;
    min_remaining_gap = remaining r.conf sum min_gap;
  }

  abbrev finish : IrRemote → ℤ → Bool → DecodeCtx → M dev.State (Option DecodeCtx)
  finish r sync soon ctx = do b ← rec_buffer; ret (some (finish_ctx r sync soon b.sum ctx))

  unfoldable pub timed_part : IrRemote → ℕ → Bool → M dev.State (Option DecodeCtx)
  unfolding body_part
  timed_part r sync header =
      let raw : M dev.State (Option DecodeCtx) = do
        found ← raw_codes r.conf r.codes
        elim found [
          | none ↦ ret none
          | some c ↦ finish r (pos sync) false (record no_ctx { code = c })
        ]
      in let coded : M dev.State (Option DecodeCtx) = do
        found ← body_part r.conf header
        elim found [ none ↦ ret none | some ctx ↦ finish r (pos sync) false ctx ]
        in if is_raw r.conf then raw else coded

  unfoldable pub code_part : IrRemote → M dev.State (Option DecodeCtx)
  unfolding lirccode_part
  code_part r =
      let coded : M dev.State (Option DecodeCtx) = do
        found ← lirccode_part r
        elim found [ none ↦ ret none | some (ctx, sync, soon) ↦ finish r sync soon ctx ]
      in if is_raw r.conf then ret none else coded

  -- `none` is the result 0. The mode without timing is that of codes.
  unfoldable pub receive_decode : M dev.State (Option DecodeCtx)
  unfolding start_part timed_part code_part has_timing
  receive_decode w =
      let r = w.remote in
      let b = w.rec in
      let timed : M dev.State (Option DecodeCtx) = do
        start ← start_part r
        elim start [ ends result ↦ ret result | goes sync header ↦ timed_part r sync header ]
      in if b.at_eof && leb (b.wptr - b.rptr) 1
        then ok (some (record no_ctx { code = lirc_eof }))
            (record w { rec = record b { at_eof = false } })
        else if has_timing dev.rec_mode
        then timed w
        else code_part r w
