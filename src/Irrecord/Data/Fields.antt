-- ===== src/Irrecord/Data/Fields.antt =====
-- Taking a field from the top of a code and putting it back, as `get_pre_data` and `remove_pre_data`
-- of lib/irrecord.c do, and undoing a change of all codes.
use native.Mathlib.Numerals.{unary_clauses}
use native.Mathlib.Nat.{one-le-pow, mod-eq_of_lt, div-add-mod', mul-div_left}
use lirc.Base.{ℕ, zero, suc, ◌+◌, ◌-◌, ◌*◌, ◌/◌, ◌%◌, ◌^◌, ◌≤◌, ◌<◌, ◌≡◌, refl, arith, ap, sym, ◌∙◌}
use lirc.Base.{List, [], ◌∷◌, ◌++◌, map, bit_and, bit_or}
use lirc.Base.Bits.{two-pow-add, two-pow-le, bit_or-fields, bit_and-mask, mod-pow-lt}
use lirc.Base.Digits.{bit_and-div, bit_and-low, bit_or_comm}
use lirc.Remote.{IrNcode}
use lirc.Remote.Code.{gen_mask, shl, shr}
use lirc.Remote.Code.Laws.{gen_mask-eq, div-pow-lt}
use lirc.Irrecord.Data.{on_codes, all_codes, complement}
use lirc.Irrecord.Data.Agree.{Each, no_more, one_more}

Each-append : (P : ℕ → Type 0) (xs ys : List ℕ) → Each P (xs ++ ys) → Each P xs × Each P ys
Each-append P [] ys h = (no_more, h)
Each-append P (x ∷ xs) ys (one_more p h) =
    let rest = Each-append P xs ys h in (one_more p rest.0, rest.1)

module _ (f g : ℕ → ℕ) where
  map_undone : (xs : List ℕ) → Each (λ x. f (g x) ≡ x) xs → map f (map g xs) ≡ xs
  map_undone [] h = refl
  map_undone (x ∷ xs) (one_more e h) = rw (e, map_undone xs h) refl

  on_codes_undone :
      (c : IrNcode)
      → f (g c.code) ≡ c.code
      → Each (λ x. f (g x) ≡ x) c.next
      → on_codes f (on_codes g c) ≡ c
  unfolding on_codes
  on_codes_undone c e h =
      ap (λ t. record c { code = t; next = map f (map g c.next) }) e
      ∙ ap (λ t. record c { next = t }) (map_undone c.next h)

  pub map-on_codes_undone :
      (cs : List IrNcode)
      → Each (λ x. f (g x) ≡ x) (all_codes cs)
      → map (on_codes f) (map (on_codes g) cs) ≡ cs
  unfolding all_codes
  map-on_codes_undone [] h = refl
  map-on_codes_undone (c ∷ cs) (one_more e h) =
      let parts = Each-append (λ x. f (g x) ≡ x) c.next (all_codes cs) h in
      rw (on_codes_undone c e parts.0, map-on_codes_undone cs parts.1) refl

one_less : (t u : ℕ) → 0 < t → (t - 1) * u + u ≡ t * u
one_less zero u h = absurd (omega arith)
one_less (suc t) u h = simp unary_clauses (grind arith)

module _ (count left : ℕ) (small : count + left ≤ 64) where
  -- The mask is the difference of two powers.
  mask_top : (2 ^ count - 1) * 2 ^ left + 2 ^ left ≡ 2 ^ (count + left)
  mask_top =
      one_less (2 ^ count) (2 ^ left) (one-le-pow count 2 (omega arith))
      ∙ sym (two-pow-add count left)

  top_small : (2 ^ count - 1) * 2 ^ left < 2 ^ 64
  top_small =
      omega (arith, mask_top, two-pow-le (count + left) 64 small, one-le-pow left 2 (omega arith))

  above : 2 ^ (64 - (count + left)) * 2 ^ (count + left) ≡ 2 ^ 64
  above = sym (two-pow-add (64 - (count + left)) (count + left)) ∙ ap (λ (t : ℕ). 2 ^ t) width
    where
      width : 64 - (count + left) + (count + left) ≡ 64
      width = omega arith

  complement_mask :
      complement ((2 ^ count - 1) * 2 ^ left)
      ≡ (2 ^ (64 - (count + left)) - 1) * 2 ^ (count + left) + (2 ^ left - 1)
  complement_mask = omega (
    arith,
    mask_top,
    above,
    one-le-pow left 2 (omega arith),
    one_less (2 ^ (64 - (count + left))) (2 ^ (count + left)) (one-le-pow _ 2 (omega arith)),
  )

  field_mask-eq : shl (gen_mask count) left ≡ (2 ^ count - 1) * 2 ^ left
  field_mask-eq = rw (gen_mask-eq count (omega arith)) (mod-eq_of_lt top_small)

  -- What is left of a code without its pre data.
  without_pre :
      (x : ℕ)
      → x < 2 ^ (count + left)
      → bit_and x (complement (shl (gen_mask count) left)) ≡ x % 2 ^ left
  without_pre x h =
      rw (field_mask-eq, complement_mask)
        (bit_and-low left (count + left) x (2 ^ (64 - (count + left)) - 1) (omega arith) h)

  pub only_pre :
      (x : ℕ)
      → x < 2 ^ (count + left)
      → shr (bit_and x (shl (gen_mask count) left)) left ≡ x / 2 ^ left
  only_pre x h =
      let top = div-pow-lt count left x h in
      rw
        (
          field_mask-eq,
          bit_and-div left x ((2 ^ count - 1) * 2 ^ left),
          mul-div_left (2 ^ count - 1) (one-le-pow left 2 (omega arith)),
          bit_and-mask count (x / 2 ^ left),
        )
        (mod-eq_of_lt top)

  below_all : (x : ℕ) → x < 2 ^ (count + left) → x / 2 ^ left * 2 ^ left < 2 ^ 64
  below_all x h = omega (arith, div-add-mod' x (2 ^ left), two-pow-le (count + left) 64 small)

  pub put_back :
      (x : ℕ)
      → x < 2 ^ (count + left)
      → bit_or (bit_and x (complement (shl (gen_mask count) left))) (shl (x / 2 ^ left) left) ≡ x
  put_back x h =
      let fits = below_all x h in
      rw
        (
          without_pre x h,
          mod-eq_of_lt {n = x / 2 ^ left * 2 ^ left} {m = 2 ^ 64} fits,
          bit_or_comm (x % 2 ^ left),
          bit_or-fields left (x / 2 ^ left) (x % 2 ^ left) (mod-pow-lt left x),
        )
        (div-add-mod' x (2 ^ left))
