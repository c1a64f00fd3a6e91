-- ===== src/Transmit/Put/Fuel.antt =====
-- The loop of `init_send_or_sim` ends, for codes of one `ir_code` and for sequences, XMP excepted.
use mathlib.Core.Path.{subst}
use lirc.Base.{
  ℕ, zero, suc, ◌-◌, ◌<◌, ◌≡◌, ◌≢◌, refl, sym, ap, ◌∙◌, arith, Bool, true, false, ◌||◌, ◌&&◌,
}
use lirc.Base.{ltb, Option, none, some, if◌then◌else◌, Option-cases, Bool-cases, inl, inr}
use lirc.Remote.{IrRemote, IrNcode}
use lirc.Remote.Flags.{is_xmp, is_raw, has_repeat}
use lirc.Transmit.{SendBuffer, sync_send_buffer, bad_send_buffer, check_send_buffer}
use lirc.Transmit.Put.{
  Sending, Round, fails, checks, again, faults, returns, fault, out_of_fuel, advance, is_some, fill,
  fill_raw, unroll, set_gaps, concatenate, count_toggle, more_to_send, send_round, round_end,
  send_loop, final_check,
}
use lirc.Transmit.Put.Sequence.{WellFormed, rounds, passed, advance_step, advance-WellFormed}

-- The parts of the state that the loop is bounded by.
record Kept (s t : Sending) : Type 0 where
  code : t.code ≡ s.code
  conf : t.remote.conf ≡ s.remote.conf
  countdown : t.remote.repeat_countdown ≡ s.remote.repeat_countdown

abbrev OnSome : (Sending → Type 0) → Option Sending → Type 0
OnSome P none = Unit
OnSome P (some t) = P t

if_lem : {A : Type 0} (P : A → Type 0) (b : Bool) {x y : A} → P x → P y → P (if b then x else y)
if_lem P true p q = p
if_lem P false p q = q

if_cases :
    {A : Type 0} (P : A → Type 0) (b : Bool) {x y : A}
    → P x
    → (b ≡ false → P y)
    → P (if b then x else y)
if_cases P true p q = p
if_cases P false p q = q refl

if_true :
    {A : Type 0} (P : A → Type 0) (b : Bool) {x y : A}
    → (b ≡ true → P x)
    → P y
    → P (if b then x else y)
if_true P true p q = p refl
if_true P false p q = q

count_toggle-keeps :
    (sim : Bool) (r : IrRemote)
    → ((count_toggle sim r).conf ≡ r.conf)
      × ((count_toggle sim r).repeat_countdown ≡ r.repeat_countdown)
unfolding count_toggle
count_toggle-keeps sim r = (ground arith, ground arith)

fill-keeps : (sim repeat : Bool) (s : Sending) → OnSome (Kept s) (fill sim repeat s)
unfolding fill
fill-keeps sim repeat s = elim (Bool-cases (repeat && has_repeat s.remote.conf)) [
  | inl p ↦ rw p (record { code = refl; conf = refl; countdown = refl })
  | inr p ↦ rw p (elim (Bool-cases (is_raw s.remote.conf)) [
    | inr q ↦ rw q (record {
      code = refl;
      conf = (count_toggle-keeps sim s.remote).0;
      countdown = (count_toggle-keeps sim s.remote).1;
    })
    | inl q ↦
        rw q
          (elim s.code.signals
            as (λ o. OnSome (Kept s) (elim o [
              | none ↦ none
              | some xs ↦ some (record s { buffer = fill_raw xs s.buffer })
            ])) [ none ↦ tt | some xs ↦ record { code = refl; conf = refl; countdown = refl } ])
  ])
]

set_gaps-keeps :
    (repeat : Bool) (b : SendBuffer) (r : IrRemote)
    → ((set_gaps repeat b r).1.conf ≡ r.conf)
      × ((set_gaps repeat b r).1.repeat_countdown ≡ r.repeat_countdown)
unfolding set_gaps
set_gaps-keeps repeat b r = (ground arith, ground arith)

-- Another round has less to do than this one.
record Less (s t : Sending) : Type 0 where
  less : rounds t.remote.repeat_countdown t.code < rounds s.remote.repeat_countdown s.code
  conf : t.remote.conf ≡ s.remote.conf
  formed : WellFormed t.code

abbrev Shrinks : Sending → Round → Type 0
Shrinks s (again t) = Less s t
Shrinks s _ = Unit

-- The rounds that `concatenate` leaves.
abbrev rest_of_rounds : IrRemote → IrNcode → ℕ
rest_of_rounds r c = rounds (if passed c then r.repeat_countdown - 1 else r.repeat_countdown) c

countdown_if :
    (b : Bool) (r : IrRemote)
    → (if b then record r { repeat_countdown = r.repeat_countdown - 1 } else r).repeat_countdown
      ≡ (if b then r.repeat_countdown - 1 else r.repeat_countdown)
countdown_if true r = refl
countdown_if false r = refl

conf_if :
    (b : Bool) (r : IrRemote)
    → (if b then record r { repeat_countdown = r.repeat_countdown - 1 } else r).conf ≡ r.conf
conf_if true r = refl
conf_if false r = refl

concatenate-Shrinks :
    (s v : Sending)
    → rest_of_rounds v.remote v.code < rounds s.remote.repeat_countdown s.code
    → v.remote.conf ≡ s.remote.conf
    → WellFormed v.code
    → Shrinks s (elim (concatenate v) [ none ↦ faults | some w ↦ again w ])
unfolding concatenate
concatenate-Shrinks s v l c w = elim (Option-cases (unroll v.buffer)) [
  | inl e ↦ rw e tt
  | inr (b, e) ↦ rw e (record {
    less =
        subst (λ n. rounds n v.code < rounds s.remote.repeat_countdown s.code)
          (sym (countdown_if (passed v.code) v.remote)) l;
    conf = conf_if (passed v.code) v.remote ∙ c;
    formed = w;
  })
]

and-left : (a b : Bool) → (a && b) ≡ true → a ≡ true
and-left true b h = refl
and-left false b h = h

-- The state `v` is that of `s` after the code has moved on, and there is more to send.
more-Shrinks :
    (s v : Sending)
    → is_xmp s.remote.conf ≡ false
    → WellFormed s.code
    → v.code ≡ advance v.remote.conf s.code
    → v.remote.conf ≡ s.remote.conf
    → v.remote.repeat_countdown ≡ s.remote.repeat_countdown
    → more_to_send v.remote v.code ≡ true
    → Shrinks s (elim (concatenate v) [ none ↦ faults | some w ↦ again w ])
unfolding more_to_send
more-Shrinks s v p w code conf countdown h =
    let n : ℕ = v.remote.repeat_countdown in
    let p' : is_xmp v.remote.conf ≡ false = subst (λ c. is_xmp c ≡ false) (sym conf) p in
    let c : IrNcode = s.code in
    let step : (ltb 0 n || is_some v.code.transmit_state) ≡ true
        → rest_of_rounds v.remote v.code < rounds n c =
      subst
        (λ (d : IrNcode).
          (ltb 0 n || is_some d.transmit_state) ≡ true
          → rounds (if passed d then n - 1 else n) d < rounds n c)
        (sym code) (advance_step v.remote.conf c c.next c.transmit_state n p' w) in
    let formed : WellFormed v.code =
      subst WellFormed (sym code) (advance-WellFormed v.remote.conf c c.next c.transmit_state w) in
    concatenate-Shrinks s v
      (subst (λ m. rest_of_rounds v.remote v.code < rounds m c) countdown (step (and-left _ _ h)))
      conf formed

-- A round whose signals are in the buffer.
sent-Shrinks :
    (sim repeat : Bool) (s t : Sending)
    → is_xmp s.remote.conf ≡ false
    → WellFormed s.code
    → Kept s t
    → Shrinks s (round_end sim repeat t)
unfolding round_end
sent-Shrinks sim repeat s t p w k =
    let b : SendBuffer = sync_send_buffer t.buffer in
    let g : Bool × IrRemote = set_gaps repeat b t.remote in
    let v : Sending = record { remote = g.1; code = advance g.1.conf t.code; buffer = b } in
    elim (Bool-cases (bad_send_buffer b)) [
      | inl e ↦ rw e tt
      | inr e ↦ rw e (elim (Bool-cases sim) [
        | inl f ↦ rw f tt
        | inr f ↦ rw f (elim (Bool-cases g.0) [
          | inr fit ↦ rw fit tt
          | inl fit ↦ rw fit (elim (Bool-cases (more_to_send g.1 v.code)) [
            | inr more ↦ rw more tt
            | inl more ↦ rw more (
                more-Shrinks s v p w (ap (advance g.1.conf) k.code)
                  ((set_gaps-keeps repeat b t.remote).0 ∙ k.conf)
                  ((set_gaps-keeps repeat b t.remote).1 ∙ k.countdown) more)
          ])
        ])
      ])
    ]

send_round-Shrinks :
    (sim repeat : Bool) (s : Sending)
    → is_xmp s.remote.conf ≡ false
    → WellFormed s.code
    → Shrinks s (send_round sim repeat s)
unfolding send_round
send_round-Shrinks sim repeat s p w = elim (Option-cases (fill sim repeat s)) [
  | inl e ↦ rw (send_round, e) tt
  | inr (t, e) ↦
      let k : Kept s t = subst (OnSome (Kept s)) e (fill-keeps sim repeat s) in
      rw (send_round, e) (sent-Shrinks sim repeat s t p w k)
]

final_check-ends : (t : Sending) → final_check t ≢ out_of_fuel
unfolding final_check
final_check-ends t = elim (Option-cases (check_send_buffer t.buffer)) [
  | inl e ↦ rw (final_check, e) (λ q. grind arith)
  | inr (b, e) ↦ rw (final_check, e) (λ q. grind arith)
]

round_ends :
    (fuel : ℕ) (sim : Bool) (s : Sending) (m : Round)
    → Shrinks s m
    → ((t : Sending) → Less s t → send_loop fuel sim true t ≢ out_of_fuel)
    → (elim m [
      | fails t ↦ returns false t
      | checks t ↦ final_check t
      | again t ↦ send_loop fuel sim true t
      | faults ↦ fault
    ])
      ≢ out_of_fuel
round_ends fuel sim s (fails t) l more = λ q. grind arith
round_ends fuel sim s (checks t) l more = final_check-ends t
round_ends fuel sim s (again t) l more = more t l
round_ends fuel sim s faults l more = λ q. grind arith

-- For any protocol but XMP, and a code that has a `transmit_state` only if it is a sequence, the
-- loop of `init_send_or_sim` ends: with more fuel than its rounds, one for each repetition and each
-- code of the sequence that is left, it does not run out of fuel.
pub send_loop-ends :
    (fuel : ℕ) (sim repeat : Bool) (s : Sending)
    → is_xmp s.remote.conf ≡ false
    → WellFormed s.code
    → rounds s.remote.repeat_countdown s.code < fuel
    → send_loop fuel sim repeat s ≢ out_of_fuel
unfolding send_loop
send_loop-ends zero sim repeat s p w h = absurd (omega arith)
send_loop-ends (suc fuel) sim repeat s p w h =
    round_ends fuel sim s (send_round sim repeat s) (send_round-Shrinks sim repeat s p w) (λ t l.
      send_loop-ends fuel sim true t (subst (λ c. is_xmp c ≡ false) (sym l.conf) p) l.formed
        (omega (arith, l.less, h)))
