-- ===== src/Client/Match.antt =====
-- `lirc_iscode` of lib/lirc_client.c: a button, or a sequence of buttons, and how much of it was seen.
pub mod Rebase
pub mod Sequence
use lirc.Base.{
  ℕ, zero, suc, ◌+◌, ◌-◌, Bool, true, false, not, ◌&&◌, ◌||◌, ltb, leb, ◌==◌, if◌then◌else◌,
}
use lirc.Base.{List, [], ◌∷◌, length, drop, get_elem?, Option, none, some}
use lirc.Base.Text.{same_word}
use lirc.Remote.{Name}
use lirc.Client.{LircCode, LircConfigEntry, toggle_reset, has, rep_filter}

-- A name of an entry against one that is given.
unfoldable pub admits : Option Name → Name → Bool
admits none name = true
admits (some n) name = same_word n name

unfoldable pub code_matches : LircCode → Name → Name → Bool
unfolding admits
code_matches c remote button = admits c.remote remote && admits c.button button

-- A name against that of a later code; `none` is an access through `LIRC_ALL`.
unfoldable pub admits_code : Option Name → Option Name → Option Bool
admits_code none name = some true
admits_code (some n) none = none
admits_code (some n) (some m) = some (same_word n m)

unfoldable pub same_code : LircCode → LircCode → Option Bool
unfolding admits_code
same_code prev next = elim (admits_code prev.remote next.remote) [
  | none ↦ none
  | some false ↦ some false
  | some true ↦ admits_code prev.button next.button
]

-- The inner loop, for `count` codes: those from `prev` on against those from `next` on.
unfoldable pub prefix_again : List LircCode → ℕ → List LircCode → Option Bool
unfolding same_code
prefix_again prev zero next = some true
prefix_again prev (suc count) [] = some true
prefix_again [] (suc count) (y ∷ next) = some true
prefix_again (x ∷ prev) (suc count) (y ∷ next) =
    let rest = prefix_again prev count next in
    elim (same_code x y) [ none ↦ none | some false ↦ some false | some true ↦ rest ]

-- The code at a position admits the button.
abbrev pub code_at_matches : List LircCode → ℕ → Name → Name → Bool
code_at_matches code i remote button = elim (get_elem? code i) [
  | none ↦ false
  | some c ↦ code_matches c remote button
]

-- The outer loop, which looks for the longest start of the sequence that the codes seen so far, `n`
-- of them, and the new one end with: first all but one of them, then fewer. The result is the new
-- `next_code`.
unfoldable pub rebase : List LircCode → Name → Name → ℕ → ℕ → Option ℕ
unfolding prefix_again code_matches
rebase code remote button n zero = some 0
rebase code remote button n (suc k) =
    let rest = rebase code remote button n k in
    elim (prefix_again code k (drop (n - k) code)) [
      | none ↦ none
      | some false ↦ rest
      | some true ↦ if code_at_matches code k remote button then some (suc k) else rest
    ]

-- What an event means for an entry: 2 if its sequence is complete, 1 if it goes on, else 0.
pub record IsCode : Type 0 where
  pub level : ℕ
  pub scan : LircConfigEntry

-- The button that was waited for.
unfoldable pub iscode_next : LircConfigEntry → ℕ → IsCode
unfolding rep_filter
iscode_next scan rep =
    let single = length scan.code == 1 in
    let moved : Bool = single || rep == 0 in
    let next_code = if moved then suc scan.next_code else scan.next_code in
    let iscode = if moved && not single then 1 else 0 in
    if next_code == length scan.code
    then record {
      level = if not single || rep_filter scan rep then 2 else iscode;
      scan = record scan { next_code = 0 };
    }
    else record { level = iscode; scan = record scan { next_code = next_code } }

-- Another button.
unfoldable pub iscode_other : LircConfigEntry → Name → Name → ℕ → Option IsCode
unfolding rebase
iscode_other scan remote button rep =
    let reset : LircConfigEntry =
      if has scan.flags toggle_reset then record scan { next_config = 0 } else scan in
    let found = rebase scan.code remote button scan.next_code scan.next_code in
    if not (rep == 0) then some (record { level = 0; scan = scan }) else elim found [
      | none ↦ none
      | some next_code ↦ some (record { level = 0; scan = record reset { next_code = next_code } })
    ]

unfoldable pub lirc_iscode : LircConfigEntry → Name → Name → ℕ → Option IsCode
unfolding iscode_next iscode_other rep_filter
lirc_iscode scan remote button rep =
    if length scan.code == 0
    then some (record { level = if rep_filter scan rep then 1 else 0; scan = scan })
    else if code_at_matches scan.code scan.next_code remote button
    then some (iscode_next scan rep)
    else iscode_other scan remote button rep
