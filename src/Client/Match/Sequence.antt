-- ===== src/Client/Match/Sequence.antt =====
-- What `lirc_iscode` makes of a sequence: all of its branches.
use mathlib.Core.Option.{some-injective}
use mathlib.Core.Path.{subst}
use lirc.Base.{
  ℕ, suc, ◌≤◌, ◌<◌, ◌≡◌, refl, sym, ◌∙◌, arith, Bool, true, false, if◌then◌else◌, ◌==◌, ◌&&◌, ◌||◌,
  not,
}
use lirc.Base.{length, Option, none, some, Bool-cases, Option-cases, ◌⊎◌, inl, inr}
use lirc.Remote.{Name}
use lirc.Client.{LircConfigEntry, toggle_reset, has, rep_filter}
use lirc.Client.Match.{IsCode, lirc_iscode, iscode_next, iscode_other, code_at_matches, rebase}
use lirc.Client.Match.Rebase.{none≢some, AllNamed, Longest, rebase-Longest, rebase-some}

module _ (scan : LircConfigEntry) (remote button : Name) (rep : ℕ) where
  iscode-matched :
      (length scan.code == 0) ≡ false
      → code_at_matches scan.code scan.next_code remote button ≡ true
      → lirc_iscode scan remote button rep ≡ some (iscode_next scan rep)
  unfolding lirc_iscode
  iscode-matched a b = rw (a, b, if◌then◌else◌) refl

  iscode-other :
      (length scan.code == 0) ≡ false
      → code_at_matches scan.code scan.next_code remote button ≡ false
      → lirc_iscode scan remote button rep ≡ iscode_other scan remote button rep
  unfolding lirc_iscode
  iscode-other a b = rw (a, b, if◌then◌else◌) refl

  abbrev reset : LircConfigEntry
  reset = if has scan.flags toggle_reset then record scan { next_config = 0 } else scan

  reset-code : reset.code ≡ scan.code
  reset-code = elim (Bool-cases (has scan.flags toggle_reset)) [
    | inl e ↦ rw (e, if◌then◌else◌) refl
    | inr e ↦ rw (e, if◌then◌else◌) refl
  ]

  abbrev rebased : Option ℕ
  rebased = rebase scan.code remote button scan.next_code scan.next_code

  other-repeated :
      (rep == 0) ≡ false
      → iscode_other scan remote button rep ≡ some (record { level = 0; scan = scan })
  unfolding iscode_other
  other-repeated e = rw (e, if◌then◌else◌) refl

  other-crash : (rep == 0) ≡ true → rebased ≡ none → iscode_other scan remote button rep ≡ none
  unfolding iscode_other
  other-crash e f = rw (e, f, if◌then◌else◌) refl

  other-found :
      (m : ℕ)
      → (rep == 0) ≡ true
      → rebased ≡ some m
      → iscode_other scan remote button rep
        ≡ some (record { level = 0; scan = record reset { next_code = m } })
  unfolding iscode_other
  other-found m e f = rw (e, f, if◌then◌else◌) refl

-- After a wrong button the sequence is not given up: `lirc_iscode` returns, and the new `next_code` is
-- the length of the longest start of the sequence that the codes seen so far and the new button can
-- stand for, and 0 if there is none. No code of the entry is `LIRC_ALL`, and the event is no
-- repetition.
pub lirc_iscode-Longest :
    (scan : LircConfigEntry) (remote button : Name)
    → AllNamed scan.code
    → (length scan.code == 0) ≡ false
    → code_at_matches scan.code scan.next_code remote button ≡ false
    → (c : IsCode) × (lirc_iscode scan remote button 0 ≡ some c)
      × (c.level ≡ 0)
      × Longest scan.code remote button scan.next_code scan.next_code c.scan.next_code
lirc_iscode-Longest scan remote button named some_code other =
    let n = scan.next_code in
    let (m, x) = rebase-some scan.code remote button n n named in
    (
      record { level = 0; scan = record (reset scan remote button 0) { next_code = m } },
      iscode-other scan remote button 0 some_code other ∙ other-found scan remote button 0 m refl x,
      refl,
      rebase-Longest scan.code remote button n n m x,
    )

-- The codes are kept, and the position is within them.
abbrev Keeps : LircConfigEntry → IsCode → Type 0
Keeps scan c =
    (c.scan.code ≡ scan.code)
    × (c.scan.next_code < length scan.code)
    × ((c.level < 2) ⊎ (c.scan.next_code ≡ 0))

step-le : (moved : Bool) (n l : ℕ) → n < l → (if moved then suc n else n) ≤ l
step-le true n l h = omega arith
step-le false n l h = omega arith

flag-lt : (b : Bool) → (if b then 1 else 0) < 2
flag-lt true = omega arith
flag-lt false = omega arith

-- A sequence that is complete, or goes on.
abbrev settled : LircConfigEntry → ℕ → ℕ → ℕ → IsCode
settled scan next_code complete iscode =
    if next_code == length scan.code
    then record { level = complete; scan = record scan { next_code = 0 } }
    else record { level = iscode; scan = record scan { next_code = next_code } }

settled-Keeps :
    (scan : LircConfigEntry) (next_code complete iscode : ℕ)
    → scan.next_code < length scan.code
    → next_code ≤ length scan.code
    → iscode < 2
    → Keeps scan (settled scan next_code complete iscode)
settled-Keeps scan next_code complete iscode h k l =
    elim (Bool-cases (next_code == length scan.code)) [
      | inl e ↦ rw (e, if◌then◌else◌) (refl, omega arith, inr refl)
      | inr e ↦ rw (e, if◌then◌else◌) (refl, ground (arith, e), inl (omega arith))
    ]

iscode_next-Keeps :
    (scan : LircConfigEntry) (rep : ℕ)
    → scan.next_code < length scan.code
    → Keeps scan (iscode_next scan rep)
unfolding iscode_next
iscode_next-Keeps scan rep h =
    let single = length scan.code == 1 in
    let moved : Bool = single || rep == 0 in
    let next_code = if moved then suc scan.next_code else scan.next_code in
    let iscode = if moved && not single then 1 else 0 in
    settled-Keeps scan next_code (if not single || rep_filter scan rep then 2 else iscode) iscode h
      (step-le moved scan.next_code (length scan.code) h) (flag-lt (moved && not single))

iscode_other-Keeps :
    (scan : LircConfigEntry) (remote button : Name) (rep : ℕ) (c : IsCode)
    → scan.next_code < length scan.code
    → iscode_other scan remote button rep ≡ some c
    → Keeps scan c
iscode_other-Keeps scan remote button rep c h e = elim (Bool-cases (rep == 0)) [
  | inr x ↦
      subst (Keeps scan) (some-injective _ c (sym (other-repeated scan remote button rep x) ∙ e))
        (refl, h, inl (omega arith))
  | inl x ↦ elim (Option-cases (rebased scan remote button rep)) [
    | inl y ↦ absurd (none≢some (sym (other-crash scan remote button rep x y) ∙ e))
    | inr (m, y) ↦
        let n = scan.next_code in
        let longest = rebase-Longest scan.code remote button n n m y in
        subst (Keeps scan) (some-injective _ c (sym (other-found scan remote button rep m x y) ∙ e))
          (reset-code scan remote button rep, omega (arith, h, longest.0), inl (omega arith))
  ]
]

iscode-Keeps :
    (scan : LircConfigEntry) (remote button : Name) (rep : ℕ) (c : IsCode)
    → scan.next_code < length scan.code
    → lirc_iscode scan remote button rep ≡ some c
    → Keeps scan c
iscode-Keeps scan remote button rep c h e =
    let some_code : (length scan.code == 0) ≡ false = ground arith in
    elim (Bool-cases (code_at_matches scan.code scan.next_code remote button)) [
      | inl x ↦
          subst (Keeps scan)
            (some-injective _ c (sym (iscode-matched scan remote button rep some_code x) ∙ e))
            (iscode_next-Keeps scan rep h)
      | inr x ↦
          iscode_other-Keeps scan remote button rep c h
            (sym (iscode-other scan remote button rep some_code x) ∙ e)
    ]

iscode_next-code : (scan : LircConfigEntry) (rep : ℕ) → (iscode_next scan rep).scan.code ≡ scan.code
unfolding iscode_next
iscode_next-code scan rep =
    let next_code =
      if length scan.code == 1 || rep == 0 then suc scan.next_code else scan.next_code in
    elim (Bool-cases (next_code == length scan.code)) [
      | inl e ↦ rw (e, if◌then◌else◌) refl
      | inr e ↦ rw (e, if◌then◌else◌) refl
    ]

iscode-empty :
    (scan : LircConfigEntry) (remote button : Name) (rep : ℕ)
    → (length scan.code == 0) ≡ true
    → lirc_iscode scan remote button rep
      ≡ some (record { level = if rep_filter scan rep then 1 else 0; scan = scan })
unfolding lirc_iscode
iscode-empty scan remote button rep e = rw (e, if◌then◌else◌) refl

iscode_by :
    (scan : LircConfigEntry) (remote button : Name) (rep : ℕ)
    → AllNamed scan.code
    → (empty : Bool) → (length scan.code == 0) ≡ empty
    → (hit : Bool) → code_at_matches scan.code scan.next_code remote button ≡ hit
    → (new : Bool) → (rep == 0) ≡ new
    → (c : IsCode) × (lirc_iscode scan remote button rep ≡ some c) × (c.scan.code ≡ scan.code)
iscode_by scan remote button rep h true e hit f new g = (
  record { level = if rep_filter scan rep then 1 else 0; scan = scan },
  iscode-empty scan remote button rep e,
  refl,
)
iscode_by scan remote button rep h false e true f new g =
    (iscode_next scan rep, iscode-matched scan remote button rep e f, iscode_next-code scan rep)
iscode_by scan remote button rep h false e false f false g = (
  record { level = 0; scan = scan },
  iscode-other scan remote button rep e f ∙ other-repeated scan remote button rep g,
  refl,
)
iscode_by scan remote button rep h false e false f true g =
    let (m, x) = rebase-some scan.code remote button scan.next_code scan.next_code h in
    (
      record { level = 0; scan = record (reset scan remote button rep) { next_code = m } },
      iscode-other scan remote button rep e f ∙ other-found scan remote button rep m g x,
      reset-code scan remote button rep,
    )

-- `lirc_iscode` returns, and keeps the codes of the entry.
pub lirc_iscode-some :
    (scan : LircConfigEntry) (remote button : Name) (rep : ℕ)
    → AllNamed scan.code
    → (c : IsCode) × (lirc_iscode scan remote button rep ≡ some c) × (c.scan.code ≡ scan.code)
lirc_iscode-some scan remote button rep h =
    iscode_by scan remote button rep h (length scan.code == 0) refl
      (code_at_matches scan.code scan.next_code remote button) refl (rep == 0) refl

-- Whatever the event, `lirc_iscode` returns, keeps the codes of the entry, and keeps `next_code` within
-- them; a complete sequence starts again. No code of the entry is `LIRC_ALL`, and `next_code` is within
-- the codes before.
pub lirc_iscode-next_code :
    (scan : LircConfigEntry) (remote button : Name) (rep : ℕ)
    → AllNamed scan.code
    → scan.next_code < length scan.code
    → (c : IsCode) × (lirc_iscode scan remote button rep ≡ some c)
      × (c.scan.code ≡ scan.code)
      × (c.scan.next_code < length scan.code)
      × ((c.level < 2) ⊎ (c.scan.next_code ≡ 0))
lirc_iscode-next_code scan remote button rep named h =
    let (c, e, same) = lirc_iscode-some scan remote button rep named in
    let kept = iscode-Keeps scan remote button rep c h e in (c, e, kept.0, kept.1, kept.2)
