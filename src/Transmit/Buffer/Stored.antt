-- ===== src/Transmit/Buffer/Stored.antt =====
-- What lies in the array of the buffer, and how one more item gets there.
use native.Mathlib.Numerals.{add-one}
use lirc.Base.{
  ℕ, zero, suc, ◌+◌, ◌≤◌, ◌<◌, ◌≡◌, true, false, List, [], ◌∷◌, ◌++◌, arith, refl, ap, ◌∙◌, lt→ltb,
  length-append,
}
use lirc.Base.{length, take, set, length-set}
use lirc.Base.Int.{pos}
use lirc.Transmit.{SendBuffer, wbuf_size, add_send_buffer, send_pulse, send_space}

unfoldable pub total : List ℕ → ℕ
total [] = 0
total (x ∷ xs) = x + total xs

pub total-append : (xs : List ℕ) (d : ℕ) → total (xs ++ (d ∷ [])) ≡ total xs + d
unfolding total
total-append [] d = omega arith
total-append (x ∷ xs) d = omega (arith, total-append xs d)

take-set :
    (xs : List ℕ) (i d : ℕ) → i < length xs → take (suc i) (set xs i d) ≡ take i xs ++ (d ∷ [])
take-set [] i d h = absurd (omega arith)
take-set (x ∷ xs) zero d h = refl
take-set (x ∷ xs) (suc i) d h = ap (λ t. x ∷ t) (take-set xs i d (omega arith))

-- The items `xs` lie in the array, and none was lost; `sum` is the time that they take.
pub record IsStored (b : SendBuffer) (xs : List ℕ) : Type 0 where
  pub room : length b.array ≡ wbuf_size
  pub kept : b.too_long ≡ false
  pub count : b.wptr ≡ length xs
  pub items : take b.wptr b.array ≡ xs
  pub time : b.sum ≡ pos (total xs)

pub add-IsStored :
    {b : SendBuffer} {xs : List ℕ} (d : ℕ)
    → IsStored b xs
    → length xs < wbuf_size
    → IsStored (add_send_buffer d b) (xs ++ (d ∷ []))
unfolding add_send_buffer
add-IsStored {b} {xs} d s h = rw (lt→ltb b.wptr wbuf_size (omega (arith, s.count))) (record {
  room = length-set b.array b.wptr d ∙ s.room;
  kept = s.kept;
  count = omega (arith, s.count, length-append xs (d ∷ []));
  items =
      rw (add-one b.wptr) (take-set b.array b.wptr d (omega (arith, s.count, s.room)))
      ∙ ap (λ t. t ++ (d ∷ [])) s.items;
  time = rw (s.time) (ground (arith, total-append xs d));
})

pub add_full :
    {b : SendBuffer} {xs : List ℕ} (d : ℕ)
    → IsStored b xs
    → wbuf_size ≤ length xs
    → (add_send_buffer d b).too_long ≡ true
unfolding add_send_buffer
add_full d s h = ground arith

-- What is pending does not matter here.
abbrev pub pending : SendBuffer → ℕ → ℕ → SendBuffer
pending b p s = record b { pendingp = p; pendings = s }

pub pending-IsStored :
    {b : SendBuffer} {xs : List ℕ} (p s : ℕ) → IsStored b xs → IsStored (pending b p s) xs
pending-IsStored p q s = record {
  room = s.room;
  kept = s.kept;
  count = s.count;
  items = s.items;
  time = s.time;
}

-- The branches of `send_pulse` and `send_space`, by what is pending.
pub send_pulse_more :
    (b : SendBuffer) (d : ℕ)
    → 0 < b.pendingp
    → send_pulse d b ≡ pending b (b.pendingp + d) b.pendings
unfolding send_pulse
send_pulse_more b d h = ground arith

pub send_pulse_first :
    (b : SendBuffer) (d : ℕ) → b.pendingp ≡ 0 → b.pendings ≡ 0 → send_pulse d b ≡ pending b d 0
unfolding send_pulse
send_pulse_first b d h k = ground arith

pub send_pulse_after :
    (b : SendBuffer) (d : ℕ)
    → b.pendingp ≡ 0
    → 0 < b.pendings
    → send_pulse d b ≡ pending (add_send_buffer b.pendings b) d 0
unfolding send_pulse
send_pulse_after b d h k = ground arith

pub send_space_more :
    (b : SendBuffer) (d : ℕ)
    → 0 < b.wptr
    → 0 < b.pendings
    → send_space d b ≡ pending b b.pendingp (b.pendings + d)
unfolding send_space
send_space_more b d w h = ground arith

pub send_space_first : (b : SendBuffer) (d : ℕ) → b.wptr ≡ 0 → b.pendingp ≡ 0 → send_space d b ≡ b
unfolding send_space
send_space_first b d h k = ground arith

pub send_space_after :
    (b : SendBuffer) (d : ℕ)
    → 0 < b.pendingp
    → b.pendings ≡ 0
    → send_space d b ≡ pending (add_send_buffer b.pendingp b) 0 d
unfolding send_space
send_space_after b d h k = ground arith

length-take_le : (n : ℕ) (xs : List ℕ) → length (take n xs) ≤ length xs
length-take_le zero xs = omega arith
length-take_le (suc n) [] = omega arith
length-take_le (suc n) (x ∷ xs) = omega (arith, length-take_le n xs)

pub IsStored-le : {b : SendBuffer} {xs : List ℕ} → IsStored b xs → length xs ≤ wbuf_size
IsStored-le {b} s = omega (arith, length-take_le b.wptr b.array, ap length s.items, s.room)
