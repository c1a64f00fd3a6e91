-- ===== src/Irrecord/Data/Invert.antt =====
-- `invert_data` of lib/irrecord.c undoes itself.
use lirc.Base.{ℕ, ◌≡◌, refl, ap, ◌∙◌, List, [], ◌∷◌, map, ◌==◌, true, false}
use lirc.Base.{Bool, bit_xor, if◌then◌else◌}
use lirc.Base.Digits.{bit_xor-twice}
use lirc.Remote.{IrRemote, IrNcode}
use lirc.Remote.Flags.{has_pre, has_post}
use lirc.Remote.Code.{gen_mask}
use lirc.Irrecord.Data.{all_codes, on_codes, invert_data, swap_one_zero}
use lirc.Irrecord.Data.Agree.{Each, no_more, one_more}
use lirc.Irrecord.Data.Fields.{map-on_codes_undone}

flip_undone : (m : ℕ) (xs : List ℕ) → Each (λ x. bit_xor (bit_xor x m) m ≡ x) xs
flip_undone m [] = no_more
flip_undone m (x ∷ xs) = one_more (bit_xor-twice x m) (flip_undone m xs)

-- A remote with other data.
abbrev with_data : IrRemote → ℕ → ℕ → List IrNcode → IrRemote
with_data r pre post cs = record r {
  conf = record r.conf { pre_data = pre; post_data = post };
  codes = cs;
}

flip_twice :
    (b : Bool) (x m : ℕ)
    → (if b then bit_xor (if b then bit_xor x m else x) m else (if b then bit_xor x m else x)) ≡ x
flip_twice true x m = bit_xor-twice x m
flip_twice false x m = refl

flip_codes_twice :
    (b : Bool) (m : ℕ) (cs : List IrNcode)
    → let flipped = if b then cs else map (on_codes (λ x. bit_xor x m)) cs in
      (if b then flipped else map (on_codes (λ x. bit_xor x m)) flipped) ≡ cs
flip_codes_twice true m cs = refl
flip_codes_twice false m cs =
    map-on_codes_undone (λ x. bit_xor x m) (λ x. bit_xor x m) cs (flip_undone m (all_codes cs))

-- Inverting a remote twice gives it back: the timings, the pre and the post data, and every code.
pub invert_data-invert_data : (r : IrRemote) → invert_data (invert_data r) ≡ r
unfolding invert_data swap_one_zero has_pre has_post
invert_data-invert_data r =
    let pre = flip_twice (has_pre r.conf) r.pre_data (gen_mask r.pre_data_bits) in
    let post = flip_twice (has_post r.conf) r.post_data (gen_mask r.post_data_bits) in
    let codes' = flip_codes_twice (r.bits == 0) (gen_mask r.bits) r.codes in
    ap
      (λ t.
        with_data r t (invert_data (invert_data r)).post_data (invert_data (invert_data r)).codes)
      pre
    ∙ ap (λ t. with_data r r.pre_data t (invert_data (invert_data r)).codes) post
    ∙ ap (λ t. with_data r r.pre_data r.post_data t) codes'
