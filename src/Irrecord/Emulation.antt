-- ===== src/Irrecord/Emulation.antt =====
-- The driver that lib/irrecord.c plays for `--analyse`, `emulation_readdata`: it gives the durations of
-- the raw codes of a remote, each code three times with its gap, and starts again after the last one.
-- A pointer to a code is its position; the position after the last code is the entry without a name.
use lirc.Base.{ℕ, zero, suc, ◌+◌, ◌%◌, List, [], ◌∷◌, Option, none, some}
use lirc.Base.{if◌then◌else◌, ltb, leb, ◌==◌, length, get_elem?, get_or, bit_and, bit_or}
use lirc.Remote.{IrRemote}
use lirc.Remote.Flags.{is_const}
use lirc.Receive.{pulse_mask}
use lirc.Irrecord.Data.{minus32}

pub record Emulation : Type 0 where
  pub next_code : Option ℕ
  pub current_code : Option ℕ
  pub current_index : ℕ
  pub current_rep : ℕ
  pub sum : ℕ

pub record Delivered : Type 0 where
  pub duration : ℕ
  pub emulation : Emulation

-- The durations of the code at a position; there are none at the end of the list.
abbrev pub signals_at : IrRemote → ℕ → List ℕ
signals_at r i = elim (get_elem? r.codes i) [
  | none ↦ []
  | some c ↦ elim c.signals [ none ↦ [] | some s ↦ s ]
]

-- The first duration of all, before a code.
unfoldable pub deliver_start : Emulation → Delivered
deliver_start e = record {
  duration = 1000000;
  emulation = record e {
    current_code = elim e.next_code [ none ↦ some 0 | some n ↦ some n ];
    current_rep = 0;
    sum = 0;
  };
}

-- A duration of the code at position `i`: pulses and spaces alternate.
unfoldable pub deliver_signal : IrRemote → Emulation → ℕ → Delivered
deliver_signal r e i =
    let s = get_or (signals_at r i) e.current_index 0 in
    let d = if e.current_index % 2 == 0 then bit_or s 0x01000000 else s in
    record {
      duration = d;
      emulation = record e {
        current_index = e.current_index + 1;
        sum = e.sum + bit_and d pulse_mask;
      };
    }

-- After the last duration of a code: the code to go on with, and a duration other than the gap.
pub record Following : Type 0 where
  pub position : ℕ
  pub repetition : ℕ
  pub pause : ℕ

unfoldable pub following : Emulation → ℕ → Following
following e i = elim e.next_code [
  | some n ↦ record { position = n; repetition = e.current_rep; pause = 0 }
  | none ↦
      if ltb 2 (e.current_rep + 1)
      then record { position = i + 1; repetition = 0; pause = 1000000 }
      else record { position = i; repetition = e.current_rep + 1; pause = 0 }
]

-- `gap - sum` is kept as its pattern of 32 bits.
unfoldable pub deliver_gap : IrRemote → Emulation → ℕ → Delivered
unfolding following deliver_start
deliver_gap r e i =
    let f = following e i in
    if leb (length r.codes) f.position
    then deliver_start
        (record e { current_code = none; current_index = 0; current_rep = f.repetition })
    else record {
      duration =
          if f.pause == 0 then if is_const r.conf then minus32 r.gap e.sum else r.gap else f.pause;
      emulation = record e {
        current_code = some f.position;
        current_index = 0;
        current_rep = f.repetition;
        sum = 0;
      };
    }

unfoldable pub emulation_readdata : IrRemote → Emulation → Delivered
unfolding deliver_start deliver_gap deliver_signal
emulation_readdata r e = elim e.current_code [
  | none ↦ deliver_start e
  | some i ↦
      if leb (length (signals_at r i)) e.current_index
      then deliver_gap r e i
      else deliver_signal r e i
]

-- A number of durations in a row.
unfoldable pub emulated_reads : IrRemote → Emulation → ℕ → List ℕ
unfolding emulation_readdata
emulated_reads r e zero = []
emulated_reads r e (suc n) =
    let d = emulation_readdata r e in d.duration ∷ emulated_reads r d.emulation n
