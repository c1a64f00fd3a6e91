-- ===== src/Irrecord/Data/Inverted.antt =====
-- The buttons that `invert_data` of lib/irrecord.c leaves, and what lib/transmit.c sends for them.
use mathlib.Core.Option.{some-injective}
use lirc.Base.{ℕ, zero, suc, ◌≤◌, ◌≡◌, refl, ap, sym, ◌∙◌, List, [], ◌∷◌, map, some, get_elem?}
use lirc.Base.{Bool, true, false, Bool-cases, inl, inr, ◌==◌, ==_iff, bit_xor, if◌then◌else◌}
use lirc.Base.Bits.{bit_xor-zero}
use lirc.Remote.{IrRemote, IrNcode}
use lirc.Remote.Flags.{is_rcmm, is_xmp}
use lirc.Remote.Code.{gen_mask}
use lirc.Transmit.{SendBuffer}
use lirc.Transmit.Frame.{send_code}
use lirc.Irrecord.Data.{invert_data, on_codes}
use lirc.Irrecord.Data.Signal.{IsPlain, send_code-inverted}

get_elem?-map :
    {A B : Type 0} (f : A → B) (xs : List A) (i : ℕ) (x : A)
    → get_elem? xs i ≡ some x
    → get_elem? (map f xs) i ≡ some (f x)
get_elem?-map f [] i x e = absurd cc
get_elem?-map f (y ∷ xs) zero x e = ap (λ t. some (f t)) (some-injective y x e)
get_elem?-map f (y ∷ xs) (suc i) x e = get_elem?-map f xs i x e

-- All codes of a button: its own, and those that follow it under its name.
abbrev pub button_codes : IrNcode → List ℕ
button_codes c = c.code ∷ c.next

module _ (r : IrRemote) where
  inverted-codes :
      (r.bits == 0) ≡ false
      → (invert_data r).codes ≡ map (on_codes (λ x. bit_xor x (gen_mask r.bits))) r.codes
  unfolding invert_data
  inverted-codes e = rw (e, if◌then◌else◌) refl

  inverted-no_bits : (r.bits == 0) ≡ true → (invert_data r).codes ≡ r.codes
  unfolding invert_data
  inverted-no_bits e = rw (e, if◌then◌else◌) refl

  xor-no_bits : (r.bits == 0) ≡ true → (x : ℕ) → bit_xor x (gen_mask r.bits) ≡ x
  unfolding gen_mask
  xor-no_bits e x =
      let none_left : r.bits ≡ 0 = (==_iff r.bits 0).0 e in
      ap (λ n. bit_xor x (gen_mask n)) none_left ∙ bit_xor-zero x

  -- The button and the code at the same places after `invert_data`.
  button-inverted :
      (i j : ℕ) (c : IrNcode) (code : ℕ)
      → get_elem? r.codes i ≡ some c
      → get_elem? (button_codes c) j ≡ some code
      → (c' : IrNcode) × (get_elem? (invert_data r).codes i ≡ some c')
        × (c'.name ≡ c.name)
        × (get_elem? (button_codes c') j ≡ some (bit_xor code (gen_mask r.bits)))
  unfolding on_codes
  button-inverted i j c code at at' = elim (Bool-cases (r.bits == 0)) [
    | inl e ↦ (
      c,
      ap (λ cs. get_elem? cs i) (inverted-no_bits e) ∙ at,
      refl,
      at' ∙ ap some (sym (xor-no_bits e code)),
    )
    | inr e ↦
        let flip : ℕ → ℕ = λ x. bit_xor x (gen_mask r.bits) in
        (
          on_codes flip c,
          ap (λ cs. get_elem? cs i) (inverted-codes e)
              ∙ get_elem?-map (on_codes flip) r.codes i c at,
          refl,
          get_elem?-map flip (button_codes c) j code at',
        )
  ]

-- Inverting a remote changes nothing of what is sent: for a remote without toggle bits that is
-- neither biphase nor RC-MM nor XMP, with at most 64 bits of pre data, of the code and of post data,
-- `invert_data` leaves at the place of each button one of the same name, and for each code of the
-- button, the further ones included, it leaves at the place of that code one for which `send_code`
-- with the inverted remote leaves the same buffer as for the code with the remote, for the first
-- frame and for a repetition.
pub send_code-invert_data :
    (r : IrRemote) (i j : ℕ) (c : IrNcode) (code : ℕ) (repeat : Bool) (b : SendBuffer)
    → IsPlain r
    → is_rcmm r.conf ≡ false
    → is_xmp r.conf ≡ false
    → r.pre_data_bits ≤ 64
    → r.bits ≤ 64
    → r.post_data_bits ≤ 64
    → get_elem? r.codes i ≡ some c
    → get_elem? (button_codes c) j ≡ some code
    → (c' : IrNcode) × (code' : ℕ) × (get_elem? (invert_data r).codes i ≡ some c')
      × (c'.name ≡ c.name)
      × (get_elem? (button_codes c') j ≡ some code')
      × (send_code (invert_data r) code' repeat b ≡ send_code r code repeat b)
send_code-invert_data r i j c code repeat b plain rcmm xmp wp wb wq at at' =
    let (c', k, name, k') = button-inverted r i j c code at at' in
    (
      c',
      bit_xor code (gen_mask r.bits),
      k,
      name,
      k',
      send_code-inverted r plain rcmm xmp code repeat b wp wb wq,
    )
