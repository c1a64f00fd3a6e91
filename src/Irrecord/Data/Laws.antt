-- ===== src/Irrecord/Data/Laws.antt =====
-- `remove_pre_data` of lib/irrecord.c undoes `get_pre_data`, and `invert_data` undoes itself.
use mathlib.Core.Path.{subst}
use mathlib.Core.Option.{some-injective}
use native.Mathlib.Nat.{div-div-eq-div-mul}
use lirc.Base.{ℕ, ◌+◌, ◌-◌, ◌/◌, ◌^◌, ◌≤◌, ◌<◌, ◌≡◌, refl, arith, ap, sym, ◌∙◌}
use lirc.Base.{
  List, [], ◌∷◌, ◌++◌, map, some, true, false, leb, ◌==◌, ◌||◌, Bool-cases, Option-cases, not,
  if◌then◌else◌, inl, inr,
}
use lirc.Base.{bit_and, bit_or}
use lirc.Base.Bits.{two-pow-add, two-pow-le}
use lirc.Remote.{IrRemote, IrNcode}
use lirc.Remote.Code.{gen_mask, shl}
use lirc.Irrecord.Data.{Common, compare_code, compare_all, common_bits, all_codes, on_codes}
use lirc.Irrecord.Data.{take_pre_data, get_pre_data, remove_pre_data, round_count, leading_ones}
use lirc.Irrecord.Data.{complement}
use lirc.Irrecord.Data.Agree.{Each, no_more, one_more, AllFit, AllAgree, compare_all-AllAgree}
use lirc.Irrecord.Data.Agree.{leading_ones-top, compare_code-fits}
use lirc.Irrecord.Data.Fields.{put_back, only_pre, map-on_codes_undone}

Each-map :
    {P Q R : ℕ → Type 0} (xs : List ℕ)
    → ((x : ℕ) → P x → Q x → R x)
    → Each P xs
    → Each Q xs
    → Each R xs
Each-map [] f no_more no_more = no_more
Each-map (x ∷ xs) f (one_more p ps) (one_more q qs) = one_more (f x p q) (Each-map xs f ps qs)

-- A remote with other pre data and codes.
abbrev rebuilt : IrRemote → ℕ → ℕ → ℕ → List IrNcode → IrRemote
rebuilt r bits' pre_bits pre cs = record r {
  conf = record r.conf { bits = bits'; pre_data_bits = pre_bits; pre_data = pre };
  codes = cs;
}

take_pre_data-undone :
    (r : IrRemote) (c : Common) (count : ℕ)
    → r.pre_data_bits ≡ 0
    → r.pre_data ≡ 0
    → r.pre_p ≡ 0
    → r.pre_s ≡ 0
    → r.bits ≤ 64
    → 0 < count
    → count ≤ r.bits
    → c.last < 2 ^ r.bits
    → AllFit r.bits (all_codes r.codes)
    → AllAgree (r.bits - count) (c.last / 2 ^ (r.bits - count)) (all_codes r.codes)
    → remove_pre_data (take_pre_data r c count) ≡ r
unfolding take_pre_data remove_pre_data
take_pre_data-undone r c count b0 p0 pp ps h some_bits few last fit agree =
    let left = r.bits - count in
    let width : r.bits ≡ count + left = omega arith in
    let n0 : (count == 0) ≡ false = ground arith in
    let q = c.last / 2 ^ left in
    let pre = only_pre count left (omega arith) c.last (rw (← width) last) in
    let undone : (x : ℕ)
        → x < 2 ^ r.bits
        → x / 2 ^ left ≡ q
        → bit_or (bit_and x (complement (shl (gen_mask count) left))) (shl q left) ≡ x =
      λ x hx e. rw (← e) (put_back count left (omega arith) x (rw (← width) hx)) in
    let guard : (count == 0 || not (r.pre_p == 0) || not (r.pre_s == 0)) ≡ false =
      rw (n0, pp, ps) refl in
    let back : ℕ → ℕ → ℕ = λ p x. bit_or x (shl p left) in
    let cleared : ℕ → ℕ = λ x. bit_and x (complement (shl (gen_mask count) left)) in
    let taken = map (on_codes cleared) r.codes in
    let total : left + count ≡ r.bits = omega arith in
    ap
      (λ g.
        if g
        then take_pre_data r c count
        else rebuilt r (left + count) 0 0
            (map (on_codes (back (take_pre_data r c count).pre_data)) taken))
      guard
    ∙ ap (λ p. rebuilt r (left + count) 0 0 (map (on_codes (back p)) taken)) pre
    ∙ ap (λ cs. rebuilt r (left + count) 0 0 cs)
        (map-on_codes_undone (back q) cleared r.codes
          (Each-map (all_codes r.codes) undone fit agree))
    ∙ ap (λ n. rebuilt r n 0 0 r.codes) total
    ∙ ap (λ n. rebuilt r r.bits n 0 r.codes) (sym b0)
    ∙ ap (λ n. rebuilt r r.bits r.pre_data_bits n r.codes) (sym p0)

-- The first name has one code only.
pub data FirstAlone : List IrNcode → Type 0 where
  no_codes : FirstAlone []
  alone : {c : IrNcode} → {cs : List IrNcode} → c.next ≡ [] → FirstAlone (c ∷ cs)

compare_all-fits :
    (n : ℕ) (xs : List ℕ) (c : Common)
    → c.mask < 2 ^ 64
    → c.last < 2 ^ n
    → AllFit n xs
    → ((compare_all c xs).mask < 2 ^ 64) × ((compare_all c xs).last < 2 ^ n)
unfolding compare_all
compare_all-fits n [] c hm hl no_more = (hm, hl)
compare_all-fits n (x ∷ xs) c hm hl (one_more h hs) =
    compare_all-fits n xs (compare_code c x) (compare_code-fits c x hm) (unfold compare_code in h)
      hs

-- The ones at the top of what the comparison leaves stand for bits that all codes share.
record Shared (n : ℕ) (cs : List IrNcode) (c : Common) : Type 0 where
  mask_fits : c.mask < 2 ^ 64
  last_fits : c.last < 2 ^ n
  agreed :
      (m k : ℕ)
      → m + k ≡ 64
      → 0 < m
      → c.mask / 2 ^ k ≡ 2 ^ m - 1
      → AllAgree k (c.last / 2 ^ k) (all_codes cs)

common_bits-Shared :
    (n : ℕ) (cs : List IrNcode) (c : Common)
    → n ≤ 64
    → common_bits cs ≡ some c
    → FirstAlone cs
    → AllFit n (all_codes cs)
    → Shared n cs c
unfolding common_bits all_codes
common_bits-Shared n [] c h e one fit = absurd cc
common_bits-Shared n (a ∷ []) c h e one fit = absurd cc
common_bits-Shared n (a ∷ b ∷ cs) c h e (alone none_next) (one_more ha fit) =
    let start : Common = record { mask = 2 ^ 64 - 1; last = a.code } in
    let others = all_codes (b ∷ cs) in
    let only : a.next ++ others ≡ others = ap (λ l. l ++ others) none_next in
    let fit' : AllFit n others = subst (λ l. AllFit n l) only fit in
    let fits = compare_all-fits n others start (omega arith) ha fit' in
    let is_c : compare_all start others ≡ c = some-injective _ _ e in
    let wide : (x : ℕ) → x < 2 ^ n → x < 2 ^ n → x < 2 ^ 64 =
      λ x p q. omega (arith, two-pow-le n 64 h) in
    subst (λ c. Shared n (a ∷ b ∷ cs) c) is_c
      (record {
        mask_fits = fits.0;
        last_fits = fits.1;
        agreed = λ m k w p top.
            let all =
              compare_all-AllAgree m k w p others start (omega arith) (wide a.code ha ha)
                (Each-map others wide fit' fit') top in
            subst (λ l. AllAgree k ((compare_all start others).last / 2 ^ k) (a.code ∷ l))
              (sym only)
              (one_more (sym all.2) (subst (λ q. AllAgree k q others) (sym all.2) all.0));
      })

round_count-le : (n l : ℕ) → round_count n l ≤ n
unfolding round_count
round_count-le n l = ground arith

remove_pre_data-none : (r : IrRemote) → r.pre_data_bits ≡ 0 → remove_pre_data r ≡ r
unfolding remove_pre_data
remove_pre_data-none r e =
    let none_there : (r.pre_data_bits == 0) ≡ true = ground arith in rw none_there refl

enough : (a n : ℕ) → (leb a 64 || n == 0) ≡ false → (64 < a) × (0 < n)
enough a n h = ground arith

-- Agreement above `k` bits is agreement above more of them.
coarser :
    (k m q : ℕ)
    → k ≤ m
    → (x : ℕ) → x / 2 ^ k ≡ q / 2 ^ k
    → x / 2 ^ k ≡ q / 2 ^ k
    → x / 2 ^ m ≡ q / 2 ^ m
coarser k m q h x e e' =
    let width : k + (m - k) ≡ m = omega arith in
    let split : (y : ℕ) → y / 2 ^ m ≡ y / 2 ^ k / 2 ^ (m - k) = λ y.
      ap (λ (t : ℕ). y / 2 ^ t) (sym width)
      ∙ ap (λ (t : ℕ). y / t) (two-pow-add k (m - k))
      ∙ sym (div-div-eq-div-mul y (2 ^ k) (2 ^ (m - k))) in
    split x ∙ ap (λ (t : ℕ). t / 2 ^ (m - k)) e ∙ sym (split q)

-- `remove_pre_data` puts back what `get_pre_data` takes out: for a remote without pre data, of at
-- most 64 bits, whose codes fit these and whose first name has one code only, the two calls in a row
-- give the remote unchanged.
pub remove_pre_data-get_pre_data :
    (r : IrRemote)
    → r.pre_data_bits ≡ 0
    → r.pre_data ≡ 0
    → r.pre_p ≡ 0
    → r.pre_s ≡ 0
    → r.bits ≤ 64
    → FirstAlone r.codes
    → AllFit r.bits (all_codes r.codes)
    → remove_pre_data (get_pre_data r) ≡ r
unfolding get_pre_data
remove_pre_data-get_pre_data r b0 p0 pp ps h one fit =
    let kept = remove_pre_data-none r b0 in
    elim (Bool-cases (r.bits == 0)) [
      | inl e ↦ rw (get_pre_data, e) kept
      | inr e ↦ elim (Option-cases (common_bits r.codes)) [
        | inl none_common ↦ rw (get_pre_data, e, none_common) kept
        | inr common ↦
            let c = common.0 in
            let ones = leading_ones 64 c.mask in
            let count = round_count (ones + r.bits - 64) (64 - ones) in
            elim (Bool-cases (leb (ones + r.bits) 64 || count == 0)) [
              | inl few ↦ rw (get_pre_data, e, common.1, few) kept
              | inr many ↦
                  let s = common_bits-Shared r.bits r.codes c h common.1 one fit in
                  let top = leading_ones-top 64 c.mask (omega arith) s.mask_fits in
                  let n = round_count-le (ones + r.bits - 64) (64 - ones) in
                  let some_left = enough (ones + r.bits) count many in
                  rw (get_pre_data, e, common.1, many)
                    (take_pre_data-undone r c count b0 p0 pp ps h some_left.1
                      (omega (arith, some_left.0, n)) s.last_fits fit
                      (Each-map (all_codes r.codes)
                        (coarser (64 - ones) (r.bits - count) c.last (omega (arith, n)))
                        (s.agreed ones (64 - ones) (omega (arith, top.0))
                          (omega (arith, some_left.0, h)) top.1)
                        (s.agreed ones (64 - ones) (omega (arith, top.0))
                          (omega (arith, some_left.0, h)) top.1)))
            ]
      ]
    ]
