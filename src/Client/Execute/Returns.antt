-- ===== src/Client/Execute/Returns.antt =====
-- The loop of `lirc_code2char_internal` returns where no code is `LIRC_ALL`.
use mathlib.Core.Option.{some-injective}
use mathlib.Core.Path.{subst}
use lirc.Base.{
  ℕ, zero, suc, ◌≡◌, refl, ap, sym, ◌∙◌, Bool, true, false, not, ◌&&◌, ltb, if◌then◌else◌,
}
use lirc.Base.{
  map, set, get_elem?, length, List, [], ◌∷◌, Option, none, some, Bool-cases, Option-cases, inl,
  inr,
}
use lirc.Remote.{Name}
use lirc.Client.{LircConfigEntry, quit, once, ecno, changes_mode, has}
use lirc.Client.Match.{IsCode}
use lirc.Client.Match.Rebase.{AllNamed}
use lirc.Client.Match.Sequence.{lirc_iscode-some}
use lirc.Client.Execute.{
  Scanning, same_name, clear_ecno, is_some, admits_prog, execute_entry, lirc_execute, triggered,
  right_mode, scan_entry, scan_entries,
}

-- No code of an entry is `LIRC_ALL`.
abbrev pub EntriesNamed : List LircConfigEntry → Type 0
EntriesNamed [] = Unit {0}
EntriesNamed (e ∷ es) = AllNamed e.code × EntriesNamed es

named-get :
    (es : List LircConfigEntry) (i : ℕ) (e : LircConfigEntry)
    → EntriesNamed es
    → get_elem? es i ≡ some e
    → AllNamed e.code
named-get [] i e h k = cc
named-get (x ∷ es) zero e h k = subst (λ y. AllNamed y.code) (some-injective x e k) h.0
named-get (x ∷ es) (suc i) e h k = named-get es i e h.1 k

named-set :
    (es : List LircConfigEntry) (i : ℕ) (e : LircConfigEntry)
    → EntriesNamed es
    → AllNamed e.code
    → EntriesNamed (set es i e)
named-set [] i e h k = tt
named-set (x ∷ es) zero e h k = (k, h.1)
named-set (x ∷ es) (suc i) e h k = (h.0, named-set es i e h.1 k)

clear-code : (m : Option Name) (e : LircConfigEntry) → (clear_ecno m e).code ≡ e.code
clear-code m e = elim (Bool-cases (same_name e.change_mode m)) [
  | inl x ↦ rw (x, if◌then◌else◌) refl
  | inr x ↦ rw (x, if◌then◌else◌) refl
]

named-clear :
    (m : Option Name) (es : List LircConfigEntry)
    → EntriesNamed es
    → EntriesNamed (map (clear_ecno m) es)
named-clear m [] h = tt
named-clear m (e ∷ es) h = (subst AllNamed (sym (clear-code m e)) h.0, named-clear m es h.1)

execute_entry-code :
    (prog : Option Name) (scan : LircConfigEntry) → (execute_entry prog scan).0.code ≡ scan.code
unfolding execute_entry
execute_entry-code prog scan =
    let onced = is_some scan.change_mode && has scan.flags once in
    let fires = admits_prog scan.prog prog && not (onced && has scan.flags ecno) in
    elim (Bool-cases (onced && not (has scan.flags ecno))) [
      | inl a ↦ elim (Option-cases (get_elem? scan.config scan.next_config)) [
        | inl x ↦ rw (execute_entry, x, a, if◌then◌else◌) refl
        | inr (s, x) ↦ elim (Bool-cases fires) [
          | inl b ↦ rw (execute_entry, x, b, if◌then◌else◌, a) refl
          | inr b ↦ rw (execute_entry, x, b, if◌then◌else◌, a) refl
        ]
      ]
      | inr a ↦ elim (Option-cases (get_elem? scan.config scan.next_config)) [
        | inl x ↦ rw (execute_entry, x, a, if◌then◌else◌) refl
        | inr (s, x) ↦ elim (Bool-cases fires) [
          | inl b ↦ rw (execute_entry, x, b, if◌then◌else◌, a) refl
          | inr b ↦ rw (execute_entry, x, b, if◌then◌else◌, a) refl
        ]
      ]
    ]

execute-named :
    (prog : Option Name) (i : ℕ) (scan : LircConfigEntry) (s : Scanning)
    → AllNamed scan.code
    → EntriesNamed s.entries
    → EntriesNamed (lirc_execute prog i scan s).entries
unfolding lirc_execute
execute-named prog i scan s h k =
    elim (Bool-cases (has scan.flags changes_mode && is_some s.current_mode)) [
      | inl e ↦
          let this = clear_ecno s.current_mode scan in
          let same = execute_entry-code prog this ∙ clear-code s.current_mode scan in
          rw (e, if◌then◌else◌)
            (named-set (map (clear_ecno s.current_mode) s.entries) i (execute_entry prog this).0
              (named-clear s.current_mode s.entries k) (subst AllNamed (sym same) h))
      | inr e ↦
          rw (e, if◌then◌else◌)
            (named-set s.entries i (execute_entry prog scan).0 k
              (subst AllNamed (sym (execute_entry-code prog scan)) h))
    ]

-- What follows the execution of an entry leaves the entries as they are.
abbrev pub ending : LircConfigEntry → ℕ → Scanning → Scanning × Bool
ending scan i t =
    if has scan.flags quit
    then (record t { quit_happened = true; next = length t.entries }, true)
    else if is_some t.string
    then (record t { next = suc i }, false)
    else (t, true)

ending-named :
    (scan : LircConfigEntry) (i : ℕ) (t : Scanning)
    → EntriesNamed t.entries
    → EntriesNamed (ending scan i t).0.entries
ending-named scan i t h = elim (Bool-cases (has scan.flags quit)) [
  | inl q ↦ rw (q, if◌then◌else◌) h
  | inr q ↦ elim (Bool-cases (is_some t.string)) [
    | inl x ↦ rw (q, x, if◌then◌else◌) h
    | inr x ↦ rw (q, x, if◌then◌else◌) h
  ]
]

triggered-named :
    (prog : Option Name) (level i : ℕ) (scan : LircConfigEntry) (s : Scanning)
    → AllNamed scan.code
    → EntriesNamed s.entries
    → EntriesNamed (triggered prog level i scan s).0.entries
unfolding triggered
triggered-named prog level i scan s h k =
    let stored : Scanning = record s { entries = set s.entries i scan } in
    let kept = named-set s.entries i scan k h in
    elim (Bool-cases (ltb 1 level)) [
      | inl l ↦
          rw (l, if◌then◌else◌)
            (ending-named scan i (lirc_execute prog i scan stored)
              (execute-named prog i scan stored h kept))
      | inr l ↦ rw (l, if◌then◌else◌) (ending-named scan i (record stored { string = none }) kept)
    ]

module _ (prog : Option Name) (remote button : Name) (rep : ℕ) where
  abbrev pub entry_result : ℕ → Bool → IsCode → Scanning → Scanning × Bool
  entry_result i active c s =
      if active
      then triggered prog c.level i c.scan s
      else (record s { entries = set s.entries i c.scan }, true)

  entry_result-named :
      (i : ℕ) (active : Bool) (c : IsCode) (s : Scanning)
      → AllNamed c.scan.code
      → EntriesNamed s.entries
      → EntriesNamed (entry_result i active c s).0.entries
  entry_result-named i true c s h k = triggered-named prog c.level i c.scan s h k
  entry_result-named i false c s h k = named-set s.entries i c.scan k h

  scan_entry-returns :
      (i : ℕ) (scan : LircConfigEntry) (s : Scanning)
      → AllNamed scan.code
      → EntriesNamed s.entries
      → (r : Scanning × Bool) × (scan_entry prog remote button rep i scan s ≡ some r)
        × EntriesNamed r.0.entries
  unfolding scan_entry
  scan_entry-returns i scan s h k =
      let (c, e, same) = lirc_iscode-some scan remote button rep h in
      let active = ltb 0 c.level && right_mode scan.mode s.current_mode && not s.quit_happened in
      (
        entry_result i active c s,
        rw (scan_entry, e) refl,
        entry_result-named i active c s (subst AllNamed (sym same) h) k,
      )

  pub scan_entries-end :
      (k i : ℕ) (s : Scanning)
      → get_elem? s.entries i ≡ none
      → scan_entries prog remote button rep (suc k) i s ≡ some s
  unfolding scan_entries
  scan_entries-end k i s e = rw (scan_entries, e) refl

  abbrev pub go_on : ℕ → ℕ → Scanning × Bool → Option Scanning
  go_on k i (t, true) = scan_entries prog remote button rep k (suc i) t
  go_on k i (t, false) = some t

  pub scan_entries-step :
      (k i : ℕ) (scan : LircConfigEntry) (s : Scanning) (r : Scanning × Bool)
      → get_elem? s.entries i ≡ some scan
      → scan_entry prog remote button rep i scan s ≡ some r
      → scan_entries prog remote button rep (suc k) i s ≡ go_on k i r
  unfolding scan_entries
  scan_entries-step k i scan s (t, true) e f = rw (scan_entries, e, f) refl
  scan_entries-step k i scan s (t, false) e f = rw (scan_entries, e, f) refl

  pub scan_entries-returns :
      (k i : ℕ) (s : Scanning)
      → EntriesNamed s.entries
      → (t : Scanning) × (scan_entries prog remote button rep k i s ≡ some t)
  unfolding scan_entries
  scan_entries-returns zero i s h = (s, refl)
  scan_entries-returns (suc k) i s h = elim (Option-cases (get_elem? s.entries i)) [
    | inl x ↦ (s, scan_entries-end k i s x)
    | inr (scan, x) ↦
        let (r, e, named) = scan_entry-returns i scan s (named-get s.entries i scan h x) h in
        let (u, go) = r in
        let rest = scan_entries-returns k (suc i) r.0 named in
        let step = scan_entries-step k i scan s r x e in
        elim (Bool-cases r.1) [
          | inl b ↦ (rest.0, step ∙ ap (λ c. go_on k i (r.0, c)) b ∙ rest.1)
          | inr b ↦ (r.0, step ∙ ap (λ c. go_on k i (r.0, c)) b)
        ]
  ]
