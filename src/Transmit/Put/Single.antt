-- ===== src/Transmit/Put/Single.antt =====
-- `init_send_or_sim` for one frame: what the buffer holds when it returns.
use native.Mathlib.Decide.{dec_lt}
use lirc.Base.{ℕ, zero, suc, ◌≤◌, ◌<◌, ◌≡◌, refl, arith, Bool, true, false, ◌&&◌}
use lirc.Base.{
  length, take, List, [], ◌∷◌, some, if◌then◌else◌, same_bytes, ltb, leb, ◌||◌, Bool-cases, inl,
  inr,
}
use lirc.Base.Int.{ℤ}
use lirc.Remote.{IrRemote, bit_count}
use lirc.Remote.Flags.{is_raw, is_rcmm, is_xmp, is_grundig, is_serial, is_bo, is_biphase}
use lirc.Transmit.{
  SendBuffer, DataPtr, own, wbuf_size, clear_send_buffer, sync_send_buffer, bad_send_buffer,
  check_send_buffer, add_send_buffer, all_positive, send_buffer_data,
}
use lirc.Transmit.Buffer.{send_events, merge_all, trimmed}
use lirc.Transmit.Buffer.Merge.{AllAbove, AllPositive, merge_all-AllAbove, trimmed-AllAbove}
use lirc.Transmit.Buffer.Stored.{total}
use lirc.Transmit.Buffer.Refine.{Holds, idle, send_events-Holds}
use lirc.Transmit.Buffer.Sync.{IsReady, sync-IsReady, clear-Holds}
use lirc.Transmit.Frame.{send_code}
use lirc.Transmit.Frame.Events.{code_events}
use lirc.Transmit.Frame.Code.{send_code-eq}
use lirc.Transmit.Put.{
  Sending, returns, init_sim, lirc_name, init_send_or_sim, send_loop, final_check, send_round,
  fails, checks, fill,
}

-- What the buffer carries, its `sum` left open.
pub record Carries (b : SendBuffer) (ds : List ℕ) : Type 0 where
  pub fits :
      length ds ≤ wbuf_size
      → (bad_send_buffer b ≡ false) × (b.wptr ≡ length ds) × (take b.wptr b.array ≡ ds)
  pub overflows : wbuf_size < length ds → bad_send_buffer b ≡ true

-- `sum` and `data` do not matter to `sync_send_buffer`.
abbrev with_sum : SendBuffer → DataPtr → ℤ → SendBuffer
with_sum b p x = record b { data_ptr = p; sum = x }

sync-with_sum :
    (b : SendBuffer) (p : DataPtr) (x : ℤ)
    → (y : ℤ) × (sync_send_buffer (with_sum b p x) ≡ with_sum (sync_send_buffer b) p y)
unfolding sync_send_buffer add_send_buffer
sync-with_sum b p x = ((sync_send_buffer (with_sum b p x)).sum, ground arith)

IsReady-Carries :
    {b : SendBuffer} {ds : List ℕ} (p : DataPtr) (y : ℤ)
    → IsReady b ds
    → Carries (with_sum b p y) ds
unfolding bad_send_buffer
IsReady-Carries p y h = record {
  fits = λ f. ((h.fits f).0, (h.fits f).1.count, (h.fits f).1.items);
  overflows = h.overflows;
}

all_positive_of_take : (n : ℕ) (xs : List ℕ) → AllAbove (take n xs) → all_positive n xs ≡ true
unfolding all_positive
all_positive_of_take zero xs h = refl
all_positive_of_take (suc n) [] h = refl
all_positive_of_take (suc n) (x ∷ xs) h = ground (arith, all_positive_of_take n xs h.1)

start-Holds :
    (t : Bool) (b : SendBuffer)
    → length b.array ≡ wbuf_size
    → Holds
        (if t then record (clear_send_buffer b) { is_biphase = true } else clear_send_buffer b)
        []
start-Holds false b h = clear-Holds b h
start-Holds true b h =
    unfold clear_send_buffer total in
    idle (record { room = h; kept = refl; count = refl; items = refl; time = refl }) refl refl refl

adjusted-Carries :
    (t : Bool) (b : SendBuffer) (x : ℤ) {ds : List ℕ}
    → Holds b ds
    → Carries
        (sync_send_buffer (record (if t then record b { sum = x } else b) { data_ptr = own }))
        (trimmed ds)
adjusted-Carries true b x h =
    let s = sync-with_sum b own x in rw (s.1) (IsReady-Carries own s.0 (sync-IsReady h))
adjusted-Carries false b x h =
    let s = sync-with_sum b own b.sum in rw (s.1) (IsReady-Carries own s.0 (sync-IsReady h))

-- The signal of a code: its parts merged, up to the last pulse.
pub signal : IrRemote → ℕ → Bool → List ℕ
signal r code repeat = trimmed (merge_all [] (code_events r code repeat))

-- The buffer after one frame of a protocol that is neither RC-MM nor XMP.
frame-Carries :
    (r : IrRemote) (code : ℕ) (repeat : Bool) {b : SendBuffer}
    → is_rcmm r.conf ≡ false
    → is_xmp r.conf ≡ false
    → bit_count r.conf ≤ 64
    → AllPositive (code_events r code repeat)
    → Holds b []
    → Carries
        (sync_send_buffer (record (send_code r code repeat b) { data_ptr = own }))
        (signal r code repeat)
unfolding signal
frame-Carries r code repeat {b} p q w above h = rw (send_code-eq r p q w code repeat b) (
    adjusted-Carries _ (send_events (code_events r code repeat) b) _
      (send_events-Holds (code_events r code repeat) h above))

-- `final_check` passes a signal that fits and has an item.
check-Carries :
    {b : SendBuffer} {ds : List ℕ}
    → b.data_ptr ≡ own
    → AllAbove ds
    → length ds ≤ wbuf_size
    → Carries b ds
    → check_send_buffer b ≡ some (ltb 0 (length ds))
unfolding check_send_buffer send_buffer_data
check-Carries {b} {ds} p a fit c =
    let f = c.fits fit in
    let all = all_positive_of_take b.wptr b.array (rw (f.2) a) in ground (arith, p, f.1, all)

-- One round of a simulation, by what the buffer carries after it.
abbrev framed : Sending → SendBuffer → Sending
framed s b = record s {
  buffer = record (send_code s.remote s.code.code false b) { data_ptr = own };
}

fill-sim :
    (s : Sending) (b : SendBuffer)
    → is_raw s.remote.conf ≡ false
    → fill true false (record s { buffer = b }) ≡ some (framed s b)
unfolding fill
fill-sim s b raw = rw (raw, fill)

abbrev synced : Sending → SendBuffer → Sending
synced s b = record s { buffer = sync_send_buffer (framed s b).buffer }

sim_round :
    (s : Sending) (b : SendBuffer)
    → is_raw s.remote.conf ≡ false
    → send_round true false (record s { buffer = b })
      ≡ (if bad_send_buffer (synced s b).buffer then fails (synced s b) else checks (synced s b))
unfolding send_round
sim_round s b raw = rw (fill-sim s b raw, send_round)

sim_loop :
    (fuel : ℕ) (s : Sending) (b : SendBuffer)
    → is_raw s.remote.conf ≡ false
    → send_loop (suc fuel) true false (record s { buffer = b }) ≡ (
        if bad_send_buffer (synced s b).buffer
        then returns false (synced s b)
        else final_check (synced s b))
unfolding send_loop
sim_loop fuel s b raw =
    rw (sim_round s b raw, send_loop)
      (elim (Bool-cases (bad_send_buffer (synced s b).buffer)) [ inl e ↦ rw e | inr e ↦ rw e ])

sim_start :
    (fuel : ℕ) (repeating : Bool) (s : Sending)
    → (is_grundig s.remote.conf || is_serial s.remote.conf || is_bo s.remote.conf) ≡ false
    → same_bytes s.remote.name lirc_name ≡ false
    → init_sim fuel repeating false s
      ≡ send_loop fuel true false (record s {
        buffer =
            if is_biphase s.remote.conf
            then record (clear_send_buffer s.buffer) { is_biphase = true }
            else clear_send_buffer s.buffer;
      })
unfolding init_sim init_send_or_sim
sim_start fuel repeating s ok name = rw (ok, name)

sync-data_ptr : (b : SendBuffer) → (sync_send_buffer b).data_ptr ≡ b.data_ptr
unfolding sync_send_buffer add_send_buffer
sync-data_ptr b = ground arith

signal-AllAbove :
    (r : IrRemote) (code : ℕ) (repeat : Bool)
    → AllPositive (code_events r code repeat)
    → AllAbove (signal r code repeat)
unfolding signal
signal-AllAbove r code repeat h =
    trimmed-AllAbove _ (merge_all-AllAbove (code_events r code repeat) [] tt h)

-- How the call ends, by the length of the signal.
sim_end :
    (t : Sending) {ds : List ℕ}
    → t.buffer.data_ptr ≡ own
    → AllAbove ds
    → Carries t.buffer ds
    → (if bad_send_buffer t.buffer then returns false t else final_check t)
      ≡ returns (ltb 0 (length ds) && leb (length ds) wbuf_size) t
unfolding final_check
sim_end t {ds} p a c = elim (dec_lt wbuf_size (length ds)) [
  | yes long ↦ rw (c.overflows long) (ground arith)
  | no short ↦
      let fit : length ds ≤ wbuf_size = omega arith in
      ground (arith, (c.fits fit).0, check-Carries p a fit c)
]

-- `init_sim` for a first frame and a remote that is not named "lirc", of a protocol that can be sent,
-- other than raw codes, RC-MM and XMP, with at most 64 bits and only positive pulses and spaces, on a
-- buffer of 256 items: with any fuel above 0 it returns, it returns 1 exactly if the signal of the code
-- has an item and at most 256, and a signal of at most 256 items is what the buffer then holds; the
-- remote does not change.
pub init_sim-signal :
    (fuel : ℕ) (repeating : Bool) (s : Sending)
    → (is_grundig s.remote.conf || is_serial s.remote.conf || is_bo s.remote.conf) ≡ false
    → same_bytes s.remote.name lirc_name ≡ false
    → is_raw s.remote.conf ≡ false
    → is_rcmm s.remote.conf ≡ false
    → is_xmp s.remote.conf ≡ false
    → bit_count s.remote.conf ≤ 64
    → length s.buffer.array ≡ wbuf_size
    → AllPositive (code_events s.remote s.code.code false)
    → let ds = signal s.remote s.code.code false in
      (t : Sending) × (init_sim (suc fuel) repeating false s
        ≡ returns (ltb 0 (length ds) && leb (length ds) wbuf_size) t)
      × (length ds ≤ wbuf_size → take t.buffer.wptr t.buffer.array ≡ ds)
      × (t.remote ≡ s.remote)
init_sim-signal fuel repeating s ok name raw p q w room above =
    let b : SendBuffer =
      if is_biphase s.remote.conf
      then record (clear_send_buffer s.buffer) { is_biphase = true }
      else clear_send_buffer s.buffer in
    let ds : List ℕ = signal s.remote s.code.code false in
    let c : Carries (synced s b).buffer ds =
      frame-Carries s.remote s.code.code false p q w above
        (start-Holds (is_biphase s.remote.conf) s.buffer room) in
    (
      synced s b,
      rw (sim_start (suc fuel) repeating s ok name, sim_loop fuel s b raw)
          (sim_end (synced s b) (sync-data_ptr (framed s b).buffer)
            (signal-AllAbove s.remote s.code.code false above) c),
      λ fit. (c.fits fit).2,
      refl,
    )
