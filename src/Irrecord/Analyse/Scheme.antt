-- ===== src/Irrecord/Analyse/Scheme.antt =====
-- The encoding of a recorded remote, lib/irrecord.c: `get_scheme` and `get_data_length`.
use lirc.Base.{ℕ, ◌+◌, ◌-◌, ◌*◌, ◌/◌, ◌%◌, ◌^◌, min, max, List, [], ◌∷◌, Option, none}
use lirc.Base.{some, Bool, true, false, not, ◌&&◌, ◌||◌, ltb, leb, if◌then◌else◌, get_or}
use lirc.Base.{bit_and}
use lirc.Base.Int.{pos}
use lirc.Remote.{RemoteConf}
use lirc.Remote.Flags.{is_biphase, is_rc6, has_header, has_repeat, has_flag, no_head_rep}
use lirc.Remote.Flags.{set_protocol, space_enc, rc5, rc6}
use lirc.Remote.Tolerance.{expect}
use lirc.Irrecord.{Lengths, Recording}
use lirc.Irrecord.Histogram.{calc_signal, MaxLength, get_max_length, unlink_length}
use lirc.Irrecord.Data.{minus32}
use lirc.Irrecord.Analyse.{Run, settled, endless, Analysed, with_max, dominates}

-- The loop over `lengths` from index `i` on: the index of the highest count, and the sum of all but
-- the first.
pub record LengthPeak : Type 0 where
  pub length : ℕ
  pub sum : ℕ

unfoldable pub longest_loop : List ℕ → List ℕ → ℕ → LengthPeak → LengthPeak
longest_loop lengths [] i l = l
longest_loop lengths (n ∷ ns) i l = longest_loop lengths ns (i + 1) (record {
  length = if ltb (get_or lengths l.length 0) n then i else l.length;
  sum = (l.sum + n) % 2 ^ 32;
})

unfoldable pub longest : List ℕ → LengthPeak
unfolding longest_loop
longest [] = record { length = 0; sum = 0 }
longest (n ∷ ns) = longest_loop (n ∷ ns) ns 1 (record { length = 0; sum = 0 })

-- The remote with a length, "not yet the number of bits", and space encoding.
unfoldable pub space_encoded : RemoteConf → ℕ → RemoteConf
space_encoded r length = set_protocol (record r { bits = length + 1 }) space_enc

-- Both of the most frequent pulses, and of the spaces, are looked at.
unfoldable pub is_rc6_like : ℕ → ℕ → ℕ → ℕ → ℕ → Bool
is_rc6_like length p p2 s s2 =
    ltb 20 length && (ltb p 550 || ltb p2 550) && (ltb s 550 || ltb s2 550)

-- The most frequent pulse goes to the front of the others. Where there is no other one the item
-- becomes its own successor.
unfoldable pub front_pulse : Recording → Lengths → List Lengths → Recording
front_pulse s l [] = record s { pulses_cyclic = true }
front_pulse s l (q ∷ qs) = record s { pulses = l ∷ q ∷ qs }

-- What `get_scheme` does where no signal length stands out: the most frequent pulse and space go to
-- the front of their lists. `maxs` is looked
-- for again after it has gone to the front, and is found there.
unfoldable pub guess_scheme : RemoteConf → Recording → ℕ → MaxLength → MaxLength → Run Analysed
unfolding with_max is_rc6_like space_encoded front_pulse
guess_scheme r s length p sp =
    let pulses' = unlink_length s.pulses p.position in
    let s' = front_pulse s p.item pulses' in
    let p2 : Lengths = elim (get_max_length pulses') [ none ↦ p.item | some m ↦ m.item ] in
    let spaces' = unlink_length s.spaces sp.position in
    elim (get_max_length spaces') [
      | none ↦ settled (record { conf = space_encoded r length; recording = s'; ok = true })
      | some sp2 ↦
          let front = sp.item ∷ spaces' in
          with_max front (λ again.
            let six =
              is_rc6_like length (calc_signal p.item) (calc_signal p2) (calc_signal again.item)
                (calc_signal sp2.item) in
            settled (record {
              conf = set_protocol r (if six then rc6 else rc5);
              recording = record s' { spaces = front };
              ok = true;
            }))
    ]

-- `lengths[length] >= TH_SPACE_ENC * sum / 100`.
unfoldable pub stands_out : Recording → LengthPeak → Bool
stands_out s l = leb (80 * l.sum % 2 ^ 32 / 100) (get_or s.lengths l.length 0)

unfoldable pub get_scheme : RemoteConf → Recording → Run Analysed
unfolding longest stands_out space_encoded with_max guess_scheme
get_scheme r s =
    let l = longest s.lengths in
    if stands_out s l
    then settled (record { conf = space_encoded r l.length; recording = s; ok = true })
    else if s.pulses_cyclic
    then endless
    else (with_max s.pulses (λ p. with_max s.spaces (λ sp. guess_scheme r s l.length p sp)))

-- The `int` (a - b) / d, as its pattern of 32 bits.
abbrev pub quotient32 : ℕ → ℕ → ℕ → ℕ
quotient32 a b d = if leb b a then (a - b) / d else (2 ^ 32 - (b - a) / d) % 2 ^ 32

-- The second most frequent item, if its count is at least a tenth of `most`.
unfoldable pub second_item : List Lengths → ℕ → Option Lengths
second_item ls most = elim (get_max_length ls) [
  | none ↦ none
  | some m ↦ if ltb m.item.count (most * 10 % 2 ^ 32 / 100) then none else some m.item
]

-- `resolution` is that of the current driver.
module _ (resolution : ℕ) where
  abbrev pub is_expected : RemoteConf → ℕ → ℕ → Bool
  is_expected r a b = expect resolution r (pos a) (pos b)

  abbrev pub half_sum : ℕ → ℕ → ℕ
  half_sum a b = (min a b + max a b / 2) / 2

  unfoldable pub biphase_bits : RemoteConf → ℕ → ℕ → ℕ → ℕ → RemoteConf
  biphase_bits r p1 p2 s1 s2 =
      let p = half_sum p1 p2 in
      let s = half_sum s1 s2 in record r { pone = p; sone = s; pzero = p; szero = s }

  unfoldable pub pulse_bits : RemoteConf → ℕ → ℕ → ℕ → RemoteConf
  pulse_bits r p1 p2 s1 =
      let r' = record r { pone = max p1 p2; sone = s1; pzero = min p1 p2; szero = s1 } in
      if is_expected r' r'.ptrail p1 || is_expected r' r'.ptrail p2
      then record r' { ptrail = 0 }
      else r'

  unfoldable pub space_bits : RemoteConf → ℕ → ℕ → ℕ → RemoteConf
  space_bits r p1 s1 s2 = record r { pone = p1; sone = max s1 s2; pzero = p1; szero = min s1 s2 }

  -- The timings of ones and zeros; `none` where no encoding is recognised.
  unfoldable pub encoding :
      RemoteConf → Lengths → Option Lengths → Lengths → Option Lengths → Option RemoteConf
  unfolding biphase_bits pulse_bits space_bits
  encoding r p none s none = none
  encoding r p (some p2) s none =
      if is_biphase r
      then none
      else some (pulse_bits r (calc_signal p) (calc_signal p2) (calc_signal s))
  encoding r p none s (some s2) =
      if is_biphase r
      then none
      else some (space_bits r (calc_signal p) (calc_signal s) (calc_signal s2))
  encoding r p (some p2) s (some s2) =
      if is_biphase r
      then some (biphase_bits r (calc_signal p) (calc_signal p2) (calc_signal s) (calc_signal s2))
      else none

  -- `remote->flags &= ~NO_HEAD_REP`.
  abbrev no_header : RemoteConf → RemoteConf
  no_header r = record r {
    phead = 0;
    shead = 0;
    flags = bit_and r.flags (2 ^ 32 - 1 - no_head_rep);
  }

  -- A header that looks like a bit is none.
  unfoldable pub remove_header : RemoteConf → RemoteConf
  remove_header r =
      if has_header r && (not (has_repeat r) || has_flag r no_head_rep)
      then if is_biphase r
        then if is_expected r r.shead r.sone then no_header (record r { plead = r.phead }) else r
        else if is_expected r r.phead r.pone && is_expected r r.shead r.sone
            || is_expected r r.phead r.pzero && is_expected r r.shead r.szero
        then no_header r
        else r
      else r

  -- The number of bits, from the length of the signal or from the number of pulses and spaces. The
  -- timings are taken not to be 0.
  unfoldable pub count_bits : RemoteConf → Recording → Run Analysed
  unfolding with_max
  count_bits r s =
      if is_biphase r
      then (with_max s.signal_lengths (λ m.
          let one = r.pone + r.sone in
          let bits' = quotient32 (calc_signal m.item + one / 2) (r.plead + r.phead + r.shead) one in
          settled (record {
            conf = record r { bits = if is_rc6 r then minus32 bits' 1 else bits' };
            recording = s;
            ok = true;
          })))
      else let extra = (if has_header r then 2 else 0) + (if ltb 0 r.ptrail then 2 else 0) in
        settled (record {
          conf = record r { bits = quotient32 (r.bits + 1) extra 2 };
          recording = s;
          ok = true;
        })

  -- An encoding that was not recognised ends the analysis.
  unfoldable pub bits_of : RemoteConf → Recording → Option RemoteConf → Run Analysed
  unfolding remove_header count_bits
  bits_of r s none = settled (record { conf = r; recording = s; ok = false })
  bits_of r s (some r') = count_bits (remove_header r') s

module _ (resolution eps aeps : ℕ) where
  -- With both histograms: `s` has lost the most frequent pulse and the most frequent space.
  unfoldable pub data_found : RemoteConf → Recording → MaxLength → MaxLength → Run Analysed
  unfolding second_item encoding bits_of
  data_found r s p sp =
      let r' = record r { eps = eps; aeps = aeps } in
      let p2 = second_item s.pulses p.item.count in
      let s2 = second_item s.spaces sp.item.count in
      bits_of resolution r' s (encoding resolution r' p.item p2 sp.item s2)

  unfoldable pub get_data_length : RemoteConf → Recording → Run Analysed
  unfolding with_max dominates data_found
  get_data_length r s =
      if s.pulses_cyclic
      then endless
      else (with_max s.pulses (λ p.
          if dominates p 10
          then (let s1 = record s { pulses = unlink_length s.pulses p.position } in
              with_max s.spaces (λ sp.
                if dominates sp 10
                then data_found r (record s1 { spaces = unlink_length s.spaces sp.position }) p sp
                else settled (record { conf = r; recording = s1; ok = false })))
          else settled (record { conf = r; recording = s; ok = false })))
