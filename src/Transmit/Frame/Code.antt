-- ===== src/Transmit/Frame/Code.antt =====
-- `send_code` puts a whole code into the buffer, part by part.
use lirc.Base.{
  ℕ, ◌+◌, ◌-◌, ◌≤◌, ◌≡◌, refl, arith, Bool, true, false, not, ◌&&◌, ◌||◌, if◌then◌else◌,
}
use lirc.Base.{ltb, ◌∙◌, List, [], ◌++◌}
use lirc.Base.Int.{pos, ◌-ℤ◌}
use lirc.Remote.{RemoteConf, IrRemote, bit_count}
use lirc.Remote.Flags.{has_flag, is_rcmm, is_xmp, has_pre, has_post}
use lirc.Remote.Flags.{no_head_rep, const_length}
use lirc.Transmit.{SendBuffer, send_pulse, send_space}
use lirc.Transmit.Frame.{
  send_header, send_foot, send_lead, send_trail, send_pre, send_post, send_code, send_parts,
  send_data,
}
use lirc.Transmit.Frame.Bits.{send_events-append, send_data-eq}
use lirc.Transmit.Frame.Events.{
  header_events, foot_events, optional_pulse, separator, pre_events, post_events, code_events,
  data_events,
}
use lirc.Transmit.Buffer.{Event, send_events, send_event}

send_header-eq :
    (r : RemoteConf) (b : SendBuffer) → send_header r b ≡ send_events (header_events r) b
unfolding send_header header_events send_events send_event
send_header-eq r b = ground arith

send_foot-eq : (r : RemoteConf) (b : SendBuffer) → send_foot r b ≡ send_events (foot_events r) b
unfolding send_foot foot_events send_events send_event
send_foot-eq r b = ground arith

send_lead-eq :
    (r : RemoteConf) (b : SendBuffer) → send_lead r b ≡ send_events (optional_pulse r.plead) b
unfolding send_lead optional_pulse send_events send_event
send_lead-eq r b = ground arith

send_trail-eq :
    (r : RemoteConf) (b : SendBuffer) → send_trail r b ≡ send_events (optional_pulse r.ptrail) b
unfolding send_trail optional_pulse send_events send_event
send_trail-eq r b = ground arith

separator-eq :
    (p s : ℕ) (b : SendBuffer)
    → (if ltb 0 p && ltb 0 s then send_space s (send_pulse p b) else b)
      ≡ send_events (separator p s) b
unfolding separator send_events send_event
separator-eq p s b = ground arith

-- An optional part: nothing is sent where the test fails.
optional-eq :
    (t : Bool) (es : List Event) (b : SendBuffer)
    → (if t then send_events es b else b) ≡ send_events (if t then es else []) b
unfolding send_events
optional-eq true es b = refl
optional-eq false es b = refl

-- The flags that leave a part out of a repeat.
unless-eq :
    (repeat flag : Bool) (es : List Event) (b : SendBuffer)
    → (if not repeat || not flag then send_events es b else b)
      ≡ send_events (if repeat && flag then [] else es) b
unfolding send_events
unless-eq true true es b = refl
unless-eq true false es b = refl
unless-eq false flag es b = refl

module _ (r : IrRemote) (plain : is_rcmm r.conf ≡ false) (no_xmp : is_xmp r.conf ≡ false)
    (width : bit_count r.conf ≤ 64) where
  part-eq :
      (x bits done base : ℕ) (b : SendBuffer)
      → bit_count r.conf ≡ base + bits + done
      → send_data r x bits done b ≡ send_events (data_events r base x bits) b
  part-eq x bits done base b e =
      let place : bit_count r.conf - done - bits ≡ base = omega arith in
      send_data-eq r x bits done b plain no_xmp width (omega arith) ∙ rw place refl

  send_pre-eq : (b : SendBuffer) → send_pre r b ≡ send_events (pre_events r) b
  unfolding send_pre pre_events
  send_pre-eq b =
      let bits = data_events r (r.bits + r.post_data_bits) r.pre_data r.pre_data_bits in
      rw
        (
          part-eq r.pre_data r.pre_data_bits 0 (r.bits + r.post_data_bits) b
              (unfold bit_count in omega arith),
          separator-eq r.pre_p r.pre_s (send_events bits b),
          ← send_events-append bits (separator r.pre_p r.pre_s) b,
        )
        (optional-eq (has_pre r.conf) (bits ++ separator r.pre_p r.pre_s) b)

  send_post-eq : (b : SendBuffer) → send_post r b ≡ send_events (post_events r) b
  unfolding send_post post_events
  send_post-eq b =
      let bits = data_events r 0 r.post_data r.post_data_bits in
      let gap = separator r.post_p r.post_s in
      rw
        (
          separator-eq r.post_p r.post_s b,
          part-eq r.post_data r.post_data_bits (r.pre_data_bits + r.bits) 0 (send_events gap b)
              (unfold bit_count in omega arith),
          ← send_events-append gap bits b,
        )
        (optional-eq (has_post r.conf) (gap ++ bits) b)

  send_parts-eq :
      (code : ℕ) (repeat : Bool) (b : SendBuffer)
      → send_parts r code repeat b ≡ send_events (code_events r code repeat) b
  unfolding send_parts code_events
  send_parts-eq code repeat b =
      let bits = data_events r r.post_data_bits code r.bits in
      let data_eq = λ (b : SendBuffer).
        part-eq code r.bits r.pre_data_bits r.post_data_bits b (unfold bit_count in omega arith) in
      simp (
        send_events-append, send_header-eq, send_lead-eq, send_pre-eq, data_eq, send_post-eq,
        send_trail-eq, send_foot-eq, unless-eq,
      )

  -- For a protocol other than RC-MM and XMP and a code of at most 64 bits, `send_code` puts the
  -- parts of a code into the buffer in the order of `code_events`; for the first
  -- frame of a remote with constant length whose repeats have no header, the header does not count
  -- in `sum`.
  pub send_code-eq :
      (code : ℕ) (repeat : Bool) (b : SendBuffer)
      → let sent = send_events (code_events r code repeat) b in
        send_code r code repeat b ≡ (
          if not repeat && has_flag r.conf no_head_rep && has_flag r.conf const_length
          then record sent { sum = sent.sum -ℤ pos (r.phead + r.shead) }
          else sent)
  unfolding send_code
  send_code-eq code repeat b = rw (send_parts-eq code repeat b) refl
