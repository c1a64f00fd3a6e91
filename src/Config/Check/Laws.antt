-- ===== src/Config/Check/Laws.antt =====
-- What `sanityChecks` leaves of a remote that it accepts.
use native.Mathlib.Nat.{mod-eq_of_lt}
use lirc.Base.{ℕ, ◌^◌, ◌%◌, ◌≤◌, ◌<◌, ◌≡◌, refl, ap, sym, ◌∙◌, true, false, if◌then◌else◌}
use lirc.Base.{List, [], ◌∷◌, map, Option, some}
use lirc.Base.Bits.{mod-pow-lt}
use lirc.Remote.{IrNcode}
use lirc.Remote.Code.Laws.{and-gen_mask}
use lirc.Remote.Flags.{is_raw, protocol}
use lirc.Config.{Draft}
use lirc.Config.Check.{cut, cut_code, sanity_checks}

-- Numbers of `bits` bits.
abbrev pub AllBelow : ℕ → List ℕ → Type 0
AllBelow bits [] = Unit {0}
AllBelow bits (v ∷ vs) = (v < 2 ^ bits) × AllBelow bits vs

abbrev pub CodesFit : ℕ → List IrNcode → Type 0
CodesFit bits [] = Unit {0}
CodesFit bits (c ∷ cs) = AllBelow bits (c.code ∷ c.next) × CodesFit bits cs

-- Pre data, post data and all codes have the widths that the remote gives for them.
abbrev pub FitsWidths : Draft → Type 0
FitsWidths d =
    (d.conf.pre_data < 2 ^ d.conf.pre_data_bits)
    × (d.conf.post_data < 2 ^ d.conf.post_data_bits)
    × (cs : List IrNcode) × (d.codes ≡ some cs)
    × CodesFit d.conf.bits cs

cut-eq : (x bits : ℕ) → bits ≤ 64 → cut x bits ≡ x % 2 ^ bits
unfolding cut
cut-eq x bits h = and-gen_mask bits x h

cut-below : (x bits : ℕ) → bits ≤ 64 → cut x bits < 2 ^ bits
cut-below x bits h = rw (cut-eq x bits h) (mod-pow-lt bits x)

cut-same : (x bits : ℕ) → bits ≤ 64 → x < 2 ^ bits → cut x bits ≡ x
cut-same x bits h k = cut-eq x bits h ∙ mod-eq_of_lt k

list-below : (vs : List ℕ) (bits : ℕ) → bits ≤ 64 → AllBelow bits (map (λ x. cut x bits) vs)
list-below [] bits h = tt
list-below (v ∷ vs) bits h = (cut-below v bits h, list-below vs bits h)

list-same : (vs : List ℕ) (bits : ℕ) → bits ≤ 64 → AllBelow bits vs → map (λ x. cut x bits) vs ≡ vs
list-same [] bits h k = refl
list-same (v ∷ vs) bits h k = rw (cut-same v bits h k.0, list-same vs bits h k.1) refl

codes-fit : (cs : List IrNcode) (bits : ℕ) → bits ≤ 64 → CodesFit bits (map (cut_code bits) cs)
unfolding cut_code
codes-fit [] bits h = tt
codes-fit (c ∷ cs) bits h =
    ((cut-below c.code bits h, list-below c.next bits h), codes-fit cs bits h)

codes-same :
    (cs : List IrNcode) (bits : ℕ) → bits ≤ 64 → CodesFit bits cs → map (cut_code bits) cs ≡ cs
unfolding cut_code
codes-same [] bits h k = refl
codes-same (c ∷ cs) bits h k =
    let this : cut_code bits c ≡ c =
      rw (cut-same c.code bits h k.0.0, list-same c.next bits h k.0.1) refl in
    rw (this, codes-same cs bits h k.1) refl

-- The remote with all its data cut.
abbrev cut_draft : Draft → List IrNcode → Draft
cut_draft d cs = record d {
  conf = record d.conf {
    pre_data = cut d.conf.pre_data d.conf.pre_data_bits;
    post_data = cut d.conf.post_data d.conf.post_data_bits;
  };
  codes = some (map (cut_code d.conf.bits) cs);
}

accepted :
    (d : Draft) (cs : List IrNcode)
    → is_raw d.conf ≡ false
    → d.named ≡ true
    → d.codes ≡ some cs
    → sanity_checks d ≡ (cut_draft d cs, true)
unfolding sanity_checks
accepted d cs raw named codes = simp (named, raw, codes, if◌then◌else◌)

cut_draft-same :
    (d : Draft) (cs : List IrNcode)
    → d.conf.pre_data_bits ≤ 64
    → d.conf.post_data_bits ≤ 64
    → d.conf.bits ≤ 64
    → d.conf.pre_data < 2 ^ d.conf.pre_data_bits
    → d.conf.post_data < 2 ^ d.conf.post_data_bits
    → d.codes ≡ some cs
    → CodesFit d.conf.bits cs
    → cut_draft d cs ≡ d
cut_draft-same d cs p q b pre post e fit =
    let build = λ (x y : ℕ) (z : Option (List IrNcode)). record d {
      conf = record d.conf { pre_data = x; post_data = y };
      codes = z;
    } in
    let x = cut-same d.conf.pre_data d.conf.pre_data_bits p pre in
    let y = cut-same d.conf.post_data d.conf.post_data_bits q post in
    let z : some (map (cut_code d.conf.bits) cs) ≡ d.codes =
      ap some (codes-same cs d.conf.bits b fit) ∙ sym e in
    ap
      (λ v.
        build v (cut d.conf.post_data d.conf.post_data_bits) (some (map (cut_code d.conf.bits) cs)))
      x
    ∙ ap (λ v. build d.conf.pre_data v (some (map (cut_code d.conf.bits) cs))) y
    ∙ ap (build d.conf.pre_data d.conf.post_data) z

raw-cut_draft :
    (d : Draft) (cs : List IrNcode) → is_raw d.conf ≡ false → is_raw (cut_draft d cs).conf ≡ false
unfolding is_raw protocol
raw-cut_draft d cs raw = raw

-- A remote with a name and codes that is not raw and whose widths are at most 64 bits is accepted;
-- then all its data fit their widths, and checking it again changes nothing.
pub sanity_checks-FitsWidths :
    (d : Draft) (cs : List IrNcode)
    → is_raw d.conf ≡ false
    → d.conf.pre_data_bits ≤ 64
    → d.conf.post_data_bits ≤ 64
    → d.conf.bits ≤ 64
    → d.named ≡ true
    → d.codes ≡ some cs
    → (e : Draft) × (sanity_checks d ≡ (e, true)) × FitsWidths e × (sanity_checks e ≡ (e, true))
sanity_checks-FitsWidths d cs raw p q b named codes =
    let e : Draft = cut_draft d cs in
    let cs' = map (cut_code d.conf.bits) cs in
    let pre = cut-below d.conf.pre_data d.conf.pre_data_bits p in
    let post = cut-below d.conf.post_data d.conf.post_data_bits q in
    let fit = codes-fit cs d.conf.bits b in
    (
      e,
      accepted d cs raw named codes,
      (pre, post, cs', refl, fit),
      accepted e cs' (raw-cut_draft d cs raw) named refl
          ∙ ap (λ r. (r, true)) (cut_draft-same e cs' p q b pre post refl fit),
    )
