-- ===== src/Client/Execute/Strings.antt =====
-- The strings of an entry, one for each event.
use native.Mathlib.Nat.{mod_self, mod-eq_of_lt, mod-add-mod}
use lirc.Base.{
  ℕ, zero, suc, ◌+◌, ◌/◌, ◌%◌, ◌<◌, ◌≡◌, refl, ap, sym, ◌∙◌, arith, Bool, true, false, not, ◌&&◌,
  ◌||◌, ltb, ◌==◌, if◌then◌else◌, bit_and, bit_or,
}
use lirc.Base.{List, [], ◌∷◌, length, get_elem?, Option, none, some, Bool-cases, inl, inr, ==_iff}
use lirc.Base.{Option-cases}
use lirc.Base.Bits.{or_digit, bit_and-bit, bit_and-one}
use lirc.Remote.{Name}
use lirc.Client.{LircConfigEntry, once, ecno, has}
use lirc.Client.Execute.{is_some, admits_prog, execute_entry}

get-some : (xs : List Name) (i : ℕ) → i < length xs → (x : Name) × (get_elem? xs i ≡ some x)
get-some [] i h = absurd (omega arith)
get-some (x ∷ xs) zero h = (x, refl)
get-some (x ∷ xs) (suc i) h = get-some xs i (omega arith)

wrap-mod : (i l : ℕ) → i < l → (if suc i == l then 0 else suc i) ≡ (i + 1) % l
wrap-mod i l h = elim (Bool-cases (suc i == l)) [
  | inl e ↦
      let same : i + 1 ≡ l = omega (arith, (==_iff (suc i) l).0 e) in
      rw (e, if◌then◌else◌, same) (sym (mod_self l))
  | inr e ↦
      let less : i + 1 < l = ground arith in
      let next : suc i ≡ i + 1 = omega arith in
      rw (e, if◌then◌else◌) (next ∙ sym (mod-eq_of_lt less))
]

bit-three : (f : ℕ) → bit_or f 8 / 8 % 2 ≡ 1
bit-three f =
    let a = or_digit f 8 in
    let b = or_digit (f / 2) 4 in
    let c = or_digit (f / 2 / 2) 2 in
    let d = or_digit (f / 2 / 2 / 2) 1 in omega (arith, a, b, c, d)

has-bit_or-ecno : (f : ℕ) → has (bit_or f ecno) ecno ≡ true
has-bit_or-ecno f = ground (arith, bit_and-bit 3 (bit_or f 8), bit-three f)

has-bit_or-once : (f : ℕ) → has (bit_or f ecno) once ≡ has f once
has-bit_or-once f =
    let same : bit_and (bit_or f 8) 1 ≡ bit_and f 1 =
      omega (arith, bit_and-one (bit_or f 8), bit_and-one f, or_digit f 8) in
    ap (λ n. not (n == 0)) same

-- The entry changes the mode, and has the flag `once`.
abbrev pub is_once : LircConfigEntry → Bool
is_once scan = is_some scan.change_mode && has scan.flags once

-- The entry after a number of executions.
abbrev pub executed : Option Name → ℕ → LircConfigEntry → LircConfigEntry
executed prog zero scan = scan
executed prog (suc k) scan = (execute_entry prog (executed prog k scan)).0

module _ (prog : Option Name) (scan : LircConfigEntry) where
  execute_entry-next :
      scan.next_config < length scan.config
      → admits_prog scan.prog prog ≡ true
      → is_once scan ≡ false
      → execute_entry prog scan ≡ (
        record scan { next_config = (scan.next_config + 1) % length scan.config },
        get_elem? scan.config scan.next_config,
      )
  unfolding execute_entry
  execute_entry-next h own free =
      let (s, e) = get-some scan.config scan.next_config h in
      rw (execute_entry, e, own, free, if◌then◌else◌)
        (ap (λ n. (record scan { next_config = n }, some s))
          (wrap-mod scan.next_config (length scan.config) h))

  execute_entry-foreign : admits_prog scan.prog prog ≡ false → (execute_entry prog scan).1 ≡ none
  unfolding execute_entry
  execute_entry-foreign other = elim (Option-cases (get_elem? scan.config scan.next_config)) [
    | inl e ↦ rw (execute_entry, e) refl
    | inr (s, e) ↦ rw (execute_entry, e, other, if◌then◌else◌) refl
  ]

  execute_entry-spent :
      is_once scan ≡ true → has scan.flags ecno ≡ true → execute_entry prog scan ≡ (scan, none)
  unfolding execute_entry
  execute_entry-spent one spent = elim (Option-cases (get_elem? scan.config scan.next_config)) [
    | inl e ↦ rw (execute_entry, e, one, spent, if◌then◌else◌) refl
    | inr (s, e) ↦ elim (Bool-cases (admits_prog scan.prog prog)) [
      | inl own ↦ rw (execute_entry, e, one, spent, own, if◌then◌else◌) refl
      | inr other ↦ rw (execute_entry, e, one, spent, other, if◌then◌else◌) refl
    ]
  ]

  -- The first execution of an entry with `once` sets the flag `ecno`.
  execute_entry-first :
      scan.next_config < length scan.config
      → admits_prog scan.prog prog ≡ true
      → is_once scan ≡ true
      → has scan.flags ecno ≡ false
      → execute_entry prog scan ≡ (
        record scan {
          next_config = (scan.next_config + 1) % length scan.config;
          flags = bit_or scan.flags ecno;
        },
        get_elem? scan.config scan.next_config,
      )
  unfolding execute_entry
  execute_entry-first h own one fresh =
      let (s, e) = get-some scan.config scan.next_config h in
      rw (execute_entry, e, own, one, fresh, if◌then◌else◌)
        (ap (λ n. (record scan { next_config = n; flags = bit_or scan.flags ecno }, some s))
          (wrap-mod scan.next_config (length scan.config) h))

  execute_entry-prog : (execute_entry prog scan).0.prog ≡ scan.prog
  unfolding execute_entry
  execute_entry-prog =
      let fires = admits_prog scan.prog prog && not (is_once scan && has scan.flags ecno) in
      elim (Bool-cases (is_once scan && not (has scan.flags ecno))) [
        | inl a ↦ elim (Option-cases (get_elem? scan.config scan.next_config)) [
          | inl e ↦ rw (execute_entry, e, a, if◌then◌else◌) refl
          | inr (s, e) ↦ elim (Bool-cases fires) [
            | inl b ↦ rw (execute_entry, e, b, if◌then◌else◌, a) refl
            | inr b ↦ rw (execute_entry, e, b, if◌then◌else◌, a) refl
          ]
        ]
        | inr a ↦ elim (Option-cases (get_elem? scan.config scan.next_config)) [
          | inl e ↦ rw (execute_entry, e, a, if◌then◌else◌) refl
          | inr (s, e) ↦ elim (Bool-cases fires) [
            | inl b ↦ rw (execute_entry, e, b, if◌then◌else◌, a) refl
            | inr b ↦ rw (execute_entry, e, b, if◌then◌else◌, a) refl
          ]
        ]
      ]

-- An entry that has given its string for good.
abbrev IsSpent : LircConfigEntry → Type 0
IsSpent scan = (is_once scan ≡ true) × (has scan.flags ecno ≡ true)

module _ (prog : Option Name) (scan : LircConfigEntry) where
  executed-prog : (k : ℕ) → (executed prog k scan).prog ≡ scan.prog
  executed-prog zero = refl
  executed-prog (suc k) = execute_entry-prog prog (executed prog k scan) ∙ executed-prog k

  executed-spent : (k : ℕ) → IsSpent scan → executed prog k scan ≡ scan
  executed-spent zero h = refl
  executed-spent (suc k) h =
      ap (λ x. (execute_entry prog x).0) (executed-spent k h)
      ∙ ap (λ r. r.0) (execute_entry-spent prog scan h.0 h.1)

  -- After some executions of an entry that is not `once`.
  executed-next :
      (k : ℕ)
      → scan.next_config < length scan.config
      → admits_prog scan.prog prog ≡ true
      → is_once scan ≡ false
      → executed prog k scan
        ≡ record scan { next_config = (scan.next_config + k) % length scan.config }
  executed-next zero h own free =
      let plus_zero : scan.next_config + 0 ≡ scan.next_config = omega arith in
      let same : (scan.next_config + 0) % length scan.config ≡ scan.next_config =
        ap (λ n. n % length scan.config) plus_zero ∙ mod-eq_of_lt h in
      ap (λ n. record scan { next_config = n }) (sym same)
  executed-next (suc k) h own free =
      let l = length scan.config in
      let n = (scan.next_config + k) % l in
      let x : LircConfigEntry = record scan { next_config = n } in
      let below : n < l = ground arith in
      let next : (n + 1) % l ≡ (scan.next_config + suc k) % l =
        mod-add-mod (scan.next_config + k) l 1 ∙ ap (λ t. t % l) (omega arith) in
      ap (λ y. (execute_entry prog y).0) (executed-next k h own free)
      ∙ ap (λ r. r.0) (execute_entry-next prog x below own free)
      ∙ ap (λ t. record scan { next_config = t }) next

executed-suc :
    (prog : Option Name) (scan : LircConfigEntry) (k : ℕ)
    → executed prog (suc k) scan ≡ executed prog k (execute_entry prog scan).0
executed-suc prog scan zero = refl
executed-suc prog scan (suc k) = ap (λ x. (execute_entry prog x).0) (executed-suc prog scan k)

-- The entry after its first execution, where it has `once`.
abbrev given_once : LircConfigEntry → LircConfigEntry
given_once scan = record scan {
  next_config = (scan.next_config + 1) % length scan.config;
  flags = bit_or scan.flags ecno;
}

given_once-IsSpent : (scan : LircConfigEntry) → is_once scan ≡ true → IsSpent (given_once scan)
given_once-IsSpent scan one = (
  ap (λ b. is_some scan.change_mode && b) (has-bit_or-once scan.flags) ∙ one,
  has-bit_or-ecno scan.flags,
)

module _ (prog : Option Name) (scan : LircConfigEntry) where
  spent-none : (k : ℕ) → IsSpent scan → (execute_entry prog (executed prog k scan)).1 ≡ none
  spent-none k h =
      ap (λ x. (execute_entry prog x).1) (executed-spent prog scan k h)
      ∙ ap (λ r. r.1) (execute_entry-spent prog scan h.0 h.1)

module _ (prog : Option Name) (scan : LircConfigEntry) (h : scan.next_config < length scan.config)
    (own : admits_prog scan.prog prog ≡ true) where
  free-in_turn :
      (k : ℕ)
      → is_once scan ≡ false
      → (execute_entry prog (executed prog k scan)).1
        ≡ get_elem? scan.config ((scan.next_config + k) % length scan.config)
  free-in_turn k free =
      let x : LircConfigEntry = record scan {
        next_config = (scan.next_config + k) % length scan.config;
      } in
      let below : x.next_config < length x.config = ground arith in
      ap (λ y. (execute_entry prog y).1) (executed-next prog scan k h own free)
      ∙ ap (λ r. r.1) (execute_entry-next prog x below own free)

  once-in_turn :
      (k : ℕ)
      → is_once scan ≡ true
      → has scan.flags ecno ≡ false
      → (execute_entry prog (executed prog k scan)).1 ≡ (
          if not (ltb 0 k)
          then get_elem? scan.config ((scan.next_config + k) % length scan.config)
          else none)
  once-in_turn zero one fresh =
      let plus_zero : scan.next_config ≡ scan.next_config + 0 = omega arith in
      ap (λ r. r.1) (execute_entry-first prog scan h own one fresh)
      ∙ ap (get_elem? scan.config)
          (sym (mod-eq_of_lt h) ∙ ap (λ n. n % length scan.config) plus_zero)
  once-in_turn (suc k) one fresh =
      let later : ltb 0 (suc k) ≡ true = ground arith in
      rw (later, if◌then◌else◌)
        (ap (λ y. (execute_entry prog y).1)
            (executed-suc prog scan k
              ∙ ap (λ r. executed prog k r.0) (execute_entry-first prog scan h own one fresh))
          ∙ spent-none prog (given_once scan) k (given_once-IsSpent scan one))

-- What an entry gives after `k` executions without `lirc_clearmode` in between, which clears `ecno`.
-- An entry that has no program, or another one than `lirc_prog`, gives nothing. Any other gives its
-- strings in turn, from the first one again after the last, one for each execution, starting with the
-- one at `next_config`; but an entry that changes the mode and has the flag `once` gives a string at
-- its first execution only, and none if `ecno` is set at the start. `next_config` is within the
-- strings before.
pub execute_entry-in_turn :
    (prog : Option Name) (scan : LircConfigEntry) (k : ℕ)
    → scan.next_config < length scan.config
    → (execute_entry prog (executed prog k scan)).1 ≡ (
        if admits_prog scan.prog prog && not (is_once scan && (has scan.flags ecno || ltb 0 k))
        then get_elem? scan.config ((scan.next_config + k) % length scan.config)
        else none)
execute_entry-in_turn prog scan k h = elim (Bool-cases (admits_prog scan.prog prog)) [
  | inr other ↦
      let x = executed prog k scan in
      let other' = ap (λ p. admits_prog p prog) (executed-prog prog scan k) ∙ other in
      rw other (execute_entry-foreign prog x other')
  | inl own ↦ elim (Bool-cases (is_once scan)) [
    | inr free ↦ rw (own, free) (free-in_turn prog scan h own k free)
    | inl one ↦ elim (Bool-cases (has scan.flags ecno)) [
      | inl spent ↦ rw (own, one, spent) (spent-none prog scan k (one, spent))
      | inr fresh ↦ rw (own, one, fresh) (once-in_turn prog scan h own k one fresh)
    ]
  ]
]
