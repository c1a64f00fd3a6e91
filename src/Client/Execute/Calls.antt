-- ===== src/Client/Execute/Calls.antt =====
-- Successive calls of `lirc_code2char` for one event.
use lirc.Base.{
  ℕ, zero, suc, ◌+◌, ◌-◌, ◌≤◌, ◌<◌, ◌≡◌, refl, ap, sym, ◌∙◌, arith, Bool, true, false, not, ◌&&◌,
  ltb, if◌then◌else◌,
}
use lirc.Base.{
  map, length, length-set, set, get_elem?, List, [], ◌∷◌, Option, none, some, Bool-cases,
  Option-cases, ◌⊎◌, inl, inr,
}
use mathlib.Core.Option.{some-injective}
use mathlib.Core.Path.{subst}
use lirc.Remote.{Name}
use lirc.Client.{LircConfigEntry, LircConfig, quit, changes_mode, has}
use lirc.Client.Match.{IsCode, lirc_iscode}
use lirc.Client.Execute.Returns.{
  EntriesNamed, ending, entry_result, go_on, scan_entries-end, scan_entries-step,
  scan_entries-returns,
}
use lirc.Client.Execute.{
  Scanning, clear_ecno, right_mode, is_some, lirc_execute, triggered, scan_entry, scan_entries,
  next_start, lirc_code2char_internal,
}

length-map : {A B : Type 0} (f : A → B) (xs : List A) → length (map f xs) ≡ length xs
length-map f [] = refl
length-map f (x ∷ xs) = ap suc (length-map f xs)

-- The number of entries, and what the next call starts from.
abbrev Kept : Scanning → Scanning → Type 0
Kept s t =
    (length t.entries ≡ length s.entries) × (t.next ≡ s.next) × (t.quit_happened ≡ s.quit_happened)

execute-Kept :
    (prog : Option Name) (i : ℕ) (scan : LircConfigEntry) (s : Scanning)
    → Kept s (lirc_execute prog i scan s)
unfolding lirc_execute
execute-Kept prog i scan s =
    elim (Bool-cases (has scan.flags changes_mode && is_some s.current_mode)) [
      | inl e ↦ (
        rw (e, if◌then◌else◌)
            (length-set (map (clear_ecno s.current_mode) s.entries) i _
              ∙ length-map (clear_ecno s.current_mode) s.entries),
        refl,
        refl,
      )
      | inr e ↦ (rw (e, if◌then◌else◌) (length-set s.entries i _), refl, refl)
    ]

-- A string was found only together with `quit`.
abbrev Inv : ℕ → ℕ → Scanning → Type 0
Inv start n t =
    (length t.entries ≡ n)
    × ((t.string ≡ none) ⊎ ((start < t.next) × (t.next ≤ n) × (t.quit_happened ≡ true)))

abbrev Out : ℕ → ℕ → Scanning → Type 0
Out start n t = (length t.entries ≡ n) × ((t.string ≡ none) ⊎ ((start < t.next) × (t.next ≤ n)))

Inv-Out : (start n : ℕ) (t : Scanning) → Inv start n t → Out start n t
Inv-Out start n t (e, inl h) = (e, inl h)
Inv-Out start n t (e, inr h) = (e, inr (h.0, h.1))

-- The loop goes on, or it ends.
abbrev Stepped : ℕ → ℕ → Scanning × Bool → Type 0
Stepped start n r = ((r.1 ≡ true) × Inv start n r.0) ⊎ ((r.1 ≡ false) × Out start n r.0)

is_some-none : {A : Type 0} (x : Option A) → is_some x ≡ false → x ≡ none
is_some-none none e = refl
is_some-none (some x) e = cc

ending-Stepped :
    (start n i : ℕ) (scan : LircConfigEntry) (t : Scanning)
    → start ≤ i
    → i < n
    → length t.entries ≡ n
    → Stepped start n (ending scan i t)
ending-Stepped start n i scan t h k e = elim (Bool-cases (has scan.flags quit)) [
  | inl q ↦ rw (q, if◌then◌else◌) (inl (refl, (e, inr (omega (arith, e), omega (arith, e), refl))))
  | inr q ↦ elim (Bool-cases (is_some t.string)) [
    | inl x ↦ rw (q, x, if◌then◌else◌) (inr (refl, (e, inr (omega arith, omega arith))))
    | inr x ↦ rw (q, x, if◌then◌else◌) (inl (refl, (e, inl (is_some-none t.string x))))
  ]
]

triggered-Stepped :
    (prog : Option Name) (start n level i : ℕ) (scan : LircConfigEntry) (s : Scanning)
    → start ≤ i
    → i < n
    → length s.entries ≡ n
    → Stepped start n (triggered prog level i scan s)
unfolding triggered
triggered-Stepped prog start n level i scan s h k e =
    let stored : Scanning = record s { entries = set s.entries i scan } in
    let same : length stored.entries ≡ n = length-set s.entries i scan ∙ e in
    elim (Bool-cases (ltb 1 level)) [
      | inl l ↦
          rw (l, if◌then◌else◌)
            (ending-Stepped start n i scan (lirc_execute prog i scan stored) h k
              ((execute-Kept prog i scan stored).0 ∙ same))
      | inr l ↦
          rw (l, if◌then◌else◌)
            (ending-Stepped start n i scan (record stored { string = none }) h k same)
    ]

not-some : {A : Type 0} {x : Option A} {y : A} → x ≡ none → ¬ (x ≡ some y)
not-some {A} {x} {y} e f = cc

same-some : {A : Type 0} {x : Option A} {y z : A} → x ≡ some y → x ≡ some z → y ≡ z
same-some {A} {x} {y} {z} e f = some-injective y z (sym e ∙ f)

module _ (prog : Option Name) (remote button : Name) (rep start n : ℕ) where
  entry_result-Stepped :
      (i : ℕ) (active : Bool) (c : IsCode) (s : Scanning)
      → start ≤ i
      → i < n
      → Inv start n s
      → Stepped start n (entry_result prog remote button rep i active c s)
  entry_result-Stepped i true c s h k v = triggered-Stepped prog start n c.level i c.scan s h k v.0
  entry_result-Stepped i false c s h k v = inl (refl, (length-set s.entries i c.scan ∙ v.0, v.1))

  scan_entry-none :
      (i : ℕ) (scan : LircConfigEntry) (s : Scanning)
      → lirc_iscode scan remote button rep ≡ none
      → scan_entry prog remote button rep i scan s ≡ none
  unfolding scan_entry
  scan_entry-none i scan s e = rw (scan_entry, e) refl

  scan_entry-some :
      (i : ℕ) (scan : LircConfigEntry) (s : Scanning) (c : IsCode)
      → lirc_iscode scan remote button rep ≡ some c
      → scan_entry prog remote button rep i scan s
        ≡ some (
            entry_result prog remote button rep i
              (ltb 0 c.level && right_mode scan.mode s.current_mode && not s.quit_happened)
              c
              s)
  unfolding scan_entry
  scan_entry-some i scan s c e = rw (scan_entry, e) refl

  scan_entry-Stepped :
      (i : ℕ) (scan : LircConfigEntry) (s : Scanning) (r : Scanning × Bool)
      → start ≤ i
      → i < n
      → Inv start n s
      → scan_entry prog remote button rep i scan s ≡ some r
      → Stepped start n r
  scan_entry-Stepped i scan s r h k v e = elim (Option-cases (lirc_iscode scan remote button rep)) [
    | inl x ↦ absurd (not-some (scan_entry-none i scan s x) e)
    | inr (c, x) ↦ subst (Stepped start n) (same-some (scan_entry-some i scan s c x) e) (
        entry_result-Stepped i
          (ltb 0 c.level && right_mode scan.mode s.current_mode && not s.quit_happened) c s h k v)
  ]

  scan_entries-crash :
      (k i : ℕ) (scan : LircConfigEntry) (s : Scanning)
      → get_elem? s.entries i ≡ some scan
      → scan_entry prog remote button rep i scan s ≡ none
      → scan_entries prog remote button rep (suc k) i s ≡ none
  unfolding scan_entries
  scan_entries-crash k i scan s e f = rw (scan_entries, e, f) refl

  scan_entries-Out :
      (k i : ℕ) (s t : Scanning)
      → start ≤ i
      → i + k ≤ n
      → Inv start n s
      → scan_entries prog remote button rep k i s ≡ some t
      → Out start n t
  unfolding scan_entries
  scan_entries-Out zero i s t h k v e =
      subst (Out start n) (some-injective s t e) (Inv-Out start n s v)
  scan_entries-Out (suc j) i s t h k v e = elim (Option-cases (get_elem? s.entries i)) [
    | inl x ↦
        subst (Out start n) (same-some (scan_entries-end prog remote button rep j i s x) e)
          (Inv-Out start n s v)
    | inr (scan, x) ↦ elim (Option-cases (scan_entry prog remote button rep i scan s)) [
      | inl y ↦ absurd (not-some (scan_entries-crash j i scan s x y) e)
      | inr ((u, go), y) ↦
          let stepped = scan_entry-Stepped i scan s (u, go) h (omega arith) v y in
          let rest : go_on prog remote button rep j i (u, go) ≡ some t =
            sym (scan_entries-step prog remote button rep j i scan s (u, go) x y) ∙ e in
          elim stepped [
            | inl (g, w) ↦
                scan_entries-Out j (suc i) u t (omega arith) (omega arith) w
                  (ap (λ b. go_on prog remote button rep j i (u, b)) (sym g) ∙ rest)
            | inr (g, w) ↦
                subst (Out start n)
                  (some-injective u t
                    (ap (λ b. go_on prog remote button rep j i (u, b)) (sym g) ∙ rest))
                  w
          ]
    ]
  ]

abbrev begin : LircConfig → Scanning
begin config = record {
  entries = config.first;
  current_mode = config.current_mode;
  next = config.next;
  quit_happened = false;
  string = none;
}

abbrev answer : Scanning → LircConfig × Option Name
answer t = (
  record { current_mode = t.current_mode; first = t.entries; next = next_start t.string t.next },
  t.string,
)

module _ (prog : Option Name) (config : LircConfig) (remote button : Name) (rep : ℕ) where
  abbrev scanned : Option Scanning
  scanned =
      scan_entries prog remote button rep (length config.first - config.next) config.next
        (begin config)

  code2char-answer :
      (t : Scanning)
      → scanned ≡ some t
      → lirc_code2char_internal prog config remote button rep ≡ some (answer t)
  unfolding lirc_code2char_internal
  code2char-answer t e = rw (lirc_code2char_internal, e) refl

-- A call moves forward, or starts again.
abbrev Progress : LircConfig → LircConfig × Option Name → Type 0
Progress config r =
    (length r.0.first ≡ length config.first)
    × (((r.1 ≡ none) × (r.0.next ≡ 0))
        ⊎ ((s : Name) × (r.1 ≡ some s)
            × (config.next < r.0.next)
            × (r.0.next ≤ length config.first)))

answer-Progress :
    (config : LircConfig) (t : Scanning)
    → Out config.next (length config.first) t
    → Progress config (answer t)
answer-Progress config t (e, h) = elim (Option-cases t.string) [
  | inl x ↦ (e, inl (x, ap (λ s. next_start s t.next) x))
  | inr (s, x) ↦ elim h [
    | inl y ↦ absurd (not-some y x)
    | inr y ↦
        let same : next_start t.string t.next ≡ t.next = ap (λ u. next_start u t.next) x in
        (e, inr (s, x, omega (arith, y.0, same), omega (arith, y.1, same)))
  ]
]

-- Each call of `lirc_code2char` for an event returns, and either it gives a string, and `config->next`
-- has moved forward, at most to the end of the list; or it gives none, and `config->next` is the first
-- entry again, also after an entry with the flag `quit`. The number of entries stays the same.
-- `config->next` is within the list before the call, and no code of an entry is `LIRC_ALL`.
pub lirc_code2char-progress :
    (prog : Option Name) (config : LircConfig) (remote button : Name) (rep : ℕ)
    → config.next ≤ length config.first
    → EntriesNamed config.first
    → (config' : LircConfig) × (string : Option Name) × (lirc_code2char_internal prog config remote
          button rep
        ≡ some (config', string))
      × (length config'.first ≡ length config.first)
      × (((string ≡ none) × (config'.next ≡ 0))
          ⊎ ((s : Name) × (string ≡ some s)
              × (config.next < config'.next)
              × (config'.next ≤ length config.first)))
lirc_code2char-progress prog config remote button rep h named =
    let n = length config.first in
    let k = n - config.next in
    let (t, x) = scan_entries-returns prog remote button rep k config.next (begin config) named in
    let out : Out config.next n t =
      scan_entries-Out prog remote button rep config.next n k config.next (begin config) t
        (omega arith) (omega arith) (refl, inl refl) x in
    let moved = answer-Progress config t out in
    ((answer t).0, t.string, code2char-answer prog config remote button rep t x, moved.0, moved.1)
