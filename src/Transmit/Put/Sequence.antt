-- ===== src/Transmit/Put/Sequence.antt =====
-- How `transmit_state` moves through a sequence in `init_send_or_sim`: the measure of its loop.
use native.Mathlib.Nat.{suc-mul}
use lirc.Base.{
  ℕ, zero, suc, ◌+◌, ◌-◌, ◌*◌, ◌<◌, ◌≡◌, ◌⊎◌, refl, ap, arith, Bool, true, false, not, ◌||◌,
}
use lirc.Base.{
  ltb, length, List, [], ◌∷◌, Option, none, some, if◌then◌else◌, Bool-cases, ltb→lt, inl, inr,
}
use lirc.Remote.{RemoteConf, IrNcode}
use lirc.Remote.Flags.{is_xmp}
use lirc.Transmit.Put.{next_state, advance, is_some}

-- The codes that are left of a sequence.
abbrev pub left : IrNcode → ℕ
left c = elim c.transmit_state [ none ↦ length c.next | some i ↦ length c.next - 1 - i ]

-- Only the state of a sequence is ever set.
abbrev pub WellFormed : IrNcode → Type 0
WellFormed c = c.next ≡ [] → c.transmit_state ≡ none

-- The rounds that repetitions and sequence can still take.
abbrev pub rounds : ℕ → IrNcode → ℕ
rounds countdown c = countdown * (length c.next + 1) + left c

-- A whole pass through the code is over.
abbrev pub passed : IrNcode → Bool
passed c = elim c.next [ [] ↦ true | _ ↦ not (is_some c.transmit_state) ]

-- A code by the fields that count here.
abbrev pub coded : IrNcode → List ℕ → Option ℕ → IrNcode
coded c next state = record c { next = next; transmit_state = state }

-- Where a sequence stands after its code `i`: at the next one, or at the end.
next_state-cases :
    (r : RemoteConf) (c : IrNcode) (x : ℕ) (xs : List ℕ) (i : ℕ)
    → is_xmp r ≡ false
    → let v = next_state r (coded c (x ∷ xs) (some i)) in
      (v ≡ none) ⊎ ((v ≡ some (i + 1)) × (i + 1 < suc (length xs)))
unfolding next_state
next_state-cases r c x xs i p = elim (Bool-cases (ltb (i + 1) (suc (length xs)))) [
  | inl l ↦ inr (rw (next_state, l, if◌then◌else◌) refl, ltb→lt (i + 1) (suc (length xs)) l)
  | inr l ↦ inl (rw (next_state, l, p, if◌then◌else◌) refl)
]

uses_one :
    (c : IrNcode) (x : ℕ) (xs : List ℕ) (i n : ℕ) (v : Option ℕ)
    → (v ≡ none) ⊎ ((v ≡ some (i + 1)) × (i + 1 < suc (length xs)))
    → (ltb 0 n || is_some v) ≡ true
    → rounds (if passed (coded c (x ∷ xs) v) then n - 1 else n) (coded c (x ∷ xs) v)
      < rounds n (coded c (x ∷ xs) (some i))
uses_one c x xs i zero none q h = grind arith
uses_one c x xs i (suc k) none q h = grind (arith, suc-mul k (length xs + 2))
uses_one c x xs i n (some j) (inl e) h = grind arith
uses_one c x xs i n (some j) (inr (e, l)) h =
    omega (arith, ap {B = ℕ} (λ o. elim o [ none ↦ j | some k ↦ k ]) e)

-- One more round uses up a repetition or a code of the sequence.
pub advance_step :
    (r : RemoteConf) (c : IrNcode) (next : List ℕ) (state : Option ℕ) (n : ℕ)
    → is_xmp r ≡ false
    → WellFormed (coded c next state)
    → let c' = advance r (coded c next state) in
      (ltb 0 n || is_some c'.transmit_state) ≡ true
      → rounds (if passed c' then n - 1 else n) c' < rounds n (coded c next state)
unfolding advance next_state
advance_step r c [] none n p w h = ground arith
advance_step r c [] (some i) n p w h = grind (arith, w refl)
advance_step r c (x ∷ xs) none n p w h = ground arith
advance_step r c (x ∷ xs) (some i) n p w h =
    uses_one c x xs i n (next_state r (coded c (x ∷ xs) (some i))) (next_state-cases r c x xs i p) h

pub advance-WellFormed :
    (r : RemoteConf) (c : IrNcode) (next : List ℕ) (state : Option ℕ)
    → WellFormed (coded c next state)
    → WellFormed (advance r (coded c next state))
unfolding advance next_state
advance-WellFormed r c [] state w = w
advance-WellFormed r c (x ∷ xs) state w = λ e. grind arith
