-- ===== src/Irrecord/Data.antt =====
-- Rearranging the codes of a recorded remote, lib/irrecord.c: `set_toggle_bit_mask`, `get_pre_data`,
-- `get_post_data`, `remove_pre_data`, `remove_post_data`, `invert_data` and `remove_trail`. The end of
-- `codes`, an entry without a name in the source, is the end of the list. `bits` is an `int`: a
-- negative one is kept as its pattern of 32 bits.
pub mod Fields
pub mod Laws
pub mod Invert
pub mod Signal
pub mod Inverted
pub mod Agree
use lirc.Base.{ℕ, zero, suc, ◌+◌, ◌-◌, ◌%◌, ◌^◌, List, [], ◌∷◌, ◌++◌, map, Option, none, some}
use lirc.Base.{Bool, true, false, not, ◌&&◌, ◌||◌, ltb, leb, ◌==◌, if◌then◌else◌}
use lirc.Base.{bit_and, bit_or, bit_xor}
use lirc.Base.Int.{pos}
use lirc.Remote.{IrRemote, IrNcode, RemoteConf, bit_count}
use lirc.Remote.Flags.{is_space_enc, has_pre, has_post}
use lirc.Remote.Code.{gen_mask, shl, shr}
use lirc.Remote.Tolerance.{expect}

-- `~x` on an `ir_code`.
abbrev pub complement : ℕ → ℕ
complement x = 2 ^ 64 - 1 - x

-- A change of the code and of all codes that follow it under the same name.
unfoldable pub on_codes : (ℕ → ℕ) → IrNcode → IrNcode
on_codes f c = record c { code = f c.code; next = map f c.next }

-- The loop that looks for a single bit, from `mask` down, with the number of rounds as fuel.
unfoldable pub single_bit : ℕ → ℕ → ℕ → Bool
single_bit zero mask xor = false
single_bit (suc fuel) mask xor =
    let rest = single_bit fuel (shr mask 1) xor in
    if mask == 0 then false else if mask == xor then true else rest

-- `codes->code &= ~xor`: only the first code of a name.
unfoldable pub clear_bits : ℕ → IrNcode → IrNcode
clear_bits xor c = record c { code = bit_and c.code (complement xor) }

unfoldable pub toggle_bits_found : IrRemote → ℕ → IrRemote
unfolding single_bit clear_bits
toggle_bits_found r xor =
    let bits = bit_count r.conf in
    if single_bit 65 (shl 1 (bits - 1)) xor
    then record r {
      conf = record r.conf { toggle_bit_mask = xor };
      codes = map (clear_bits xor) r.codes;
    }
    else if bits == 15 && xor == 0x3ff
    then record r { conf = record r.conf { toggle_mask = xor } }
    else record r { conf = record r.conf { toggle_bit_mask = xor } }

-- A list without codes is the null pointer. There is at least one bit.
unfoldable pub set_toggle_bit_mask : IrRemote → ℕ → IrRemote
unfolding toggle_bits_found
set_toggle_bit_mask r xor = elim r.codes [ [] ↦ r | _ ↦ toggle_bits_found r xor ]

-- The bits in which all codes agree, and the last code: each code is compared with the one before.
pub record Common : Type 0 where
  pub mask : ℕ
  pub last : ℕ

unfoldable pub compare_code : Common → ℕ → Common
compare_code c code = record {
  mask = bit_and c.mask (complement (bit_xor c.last code));
  last = code;
}

unfoldable pub compare_all : Common → List ℕ → Common
unfolding compare_code
compare_all c [] = c
compare_all c (x ∷ xs) = compare_all (compare_code c x) xs

-- All codes of the list in a row.
unfoldable pub all_codes : List IrNcode → List ℕ
all_codes [] = []
all_codes (c ∷ cs) = c.code ∷ (c.next ++ all_codes cs)

-- The first code is where the comparison starts: the codes that follow it under its name are not
-- compared. `none` if there are not two names.
unfoldable pub common_bits : List IrNcode → Option Common
unfolding compare_all all_codes
common_bits [] = none
common_bits (first ∷ []) = none
common_bits (first ∷ second ∷ rest) =
    some (compare_all (record { mask = 2 ^ 64 - 1; last = first.code }) (all_codes (second ∷ rest)))

-- The ones of a mask from the top, and from the bottom; 64 rounds are enough.
unfoldable pub leading_ones : ℕ → ℕ → ℕ
leading_ones zero mask = 0
leading_ones (suc fuel) mask =
    let rest = leading_ones fuel (shl mask 1) in if bit_and mask (2 ^ 63) == 0 then 0 else suc rest

unfoldable pub trailing_ones : ℕ → ℕ → ℕ
trailing_ones zero mask = 0
trailing_ones (suc fuel) mask =
    let rest = trailing_ones fuel (shr mask 1) in if bit_and mask 1 == 0 then 0 else suc rest

-- "only even numbers should go to pre/post data": both parts shall be a multiple of 8, or neither.
-- `left` is the pattern of the bits that are left.
unfoldable pub round_count : ℕ → ℕ → ℕ
round_count count left =
    if not (count % 8 == 0) && not (left % 8 == 0) then count - count % 8 else count

-- The pattern of `a - b`.
abbrev pub minus32 : ℕ → ℕ → ℕ
minus32 a b = (a + (2 ^ 32 - b)) % 2 ^ 32

unfoldable pub take_pre_data : IrRemote → Common → ℕ → IrRemote
unfolding on_codes
take_pre_data r c count =
    let bits' = r.bits - count in
    let mask = shl (gen_mask count) bits' in
    record r {
      conf = record r.conf {
        bits = bits';
        pre_data_bits = count;
        pre_data = shr (bit_and c.last mask) bits';
      };
      codes = map (on_codes (λ x. bit_and x (complement mask))) r.codes;
    }

-- `bits` is between 1 and 64, so that the number of ones less the unused bits is at most `bits`.
unfoldable pub get_pre_data : IrRemote → IrRemote
unfolding common_bits leading_ones round_count take_pre_data
get_pre_data r = if r.bits == 0 then r else elim (common_bits r.codes) [
  | none ↦ r
  | some c ↦
      let ones = leading_ones 64 c.mask in
      let count = round_count (ones + r.bits - 64) (64 - ones) in
      if leb (ones + r.bits) 64 || count == 0 then r else take_pre_data r c count
]

-- A count of 64, where all codes agree, is a shift that C leaves undefined; here it gives 0.
unfoldable pub take_post_data : IrRemote → Common → ℕ → IrRemote
unfolding on_codes
take_post_data r c count = record r {
  conf = record r.conf {
    bits = minus32 r.bits count;
    post_data_bits = count;
    post_data = bit_and c.last (gen_mask count);
  };
  codes = map (on_codes (λ x. shr x count)) r.codes;
}

unfoldable pub get_post_data : IrRemote → IrRemote
unfolding common_bits trailing_ones round_count take_post_data
get_post_data r = if r.bits == 0 then r else elim (common_bits r.codes) [
  | none ↦ r
  | some c ↦
      let ones = trailing_ones 64 c.mask in
      let count = round_count ones (minus32 r.bits ones) in
      if count == 0 then r else take_post_data r c count
]

unfoldable pub remove_pre_data : IrRemote → IrRemote
unfolding on_codes
remove_pre_data r =
    if r.pre_data_bits == 0 || not (r.pre_p == 0) || not (r.pre_s == 0) then r else record r {
      conf = record r.conf { bits = r.bits + r.pre_data_bits; pre_data = 0; pre_data_bits = 0 };
      codes = map (on_codes (λ x. bit_or x (shl r.pre_data r.bits))) r.codes;
    }

unfoldable pub remove_post_data : IrRemote → IrRemote
unfolding on_codes
remove_post_data r = if r.post_data_bits == 0 then r else record r {
  conf = record r.conf { bits = r.bits + r.post_data_bits; post_data = 0; post_data_bits = 0 };
  codes = map (on_codes (λ x. bit_or (shl x r.post_data_bits) r.post_data)) r.codes;
}

-- The timings of ones and zeros change places.
unfoldable pub swap_one_zero : RemoteConf → RemoteConf
swap_one_zero r = record r { pone = r.pzero; sone = r.szero; pzero = r.pone; szero = r.sone }

unfoldable pub invert_data : IrRemote → IrRemote
unfolding on_codes swap_one_zero
invert_data r =
    let conf' = record (swap_one_zero r.conf) {
      pre_data =
          if has_pre r.conf then bit_xor r.pre_data (gen_mask r.pre_data_bits) else r.pre_data;
      post_data =
          if has_post r.conf then bit_xor r.post_data (gen_mask r.post_data_bits) else r.post_data;
    } in
    let mask = gen_mask r.bits in
    record r {
      conf = conf';
      codes = if r.bits == 0 then r.codes else map (on_codes (λ x. bit_xor x mask)) r.codes;
    }

-- `resolution` is that of the current driver.
module _ (resolution : ℕ) where
  -- The bit that the trail pulse stands for, if it can be told.
  unfoldable pub trail_bit : RemoteConf → Option ℕ
  trail_bit r =
      if expect resolution r (pos r.ptrail) (pos r.pone)
      then some 1
      else if expect resolution r (pos r.ptrail) (pos r.pzero)
      then some 0
      else none

  -- Ones and zeros differ in their pulses, and not in their spaces.
  unfoldable pub only_pulses_differ : RemoteConf → Bool
  only_pulses_differ r =
      not (
        expect resolution r (pos r.pone) (pos r.pzero)
        || expect resolution r (pos r.pzero) (pos r.pone))
      && (expect resolution r (pos r.sone) (pos r.szero)
          && expect resolution r (pos r.szero) (pos r.sone))

  unfoldable pub remove_trail : RemoteConf → RemoteConf
  unfolding trail_bit only_pulses_differ
  remove_trail r =
      if not (is_space_enc r) || r.ptrail == 0 || not (only_pulses_differ r)
      then r
      else elim (trail_bit r) [
        | none ↦ r
        | some bit ↦ record r {
          post_data_bits = r.post_data_bits + 1;
          post_data = bit_or (shl r.post_data 1) bit;
          ptrail = 0;
        }
      ]
