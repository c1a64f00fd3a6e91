-- ===== src/Config/Read/Errors.antt =====
-- Files that end in an error, and what is then lost.
use mathlib.Core.Bool.{and-false}
use lirc.Base.{
  ℕ, ◌-◌, ◌≡◌, refl, ap, ◌∙◌, Bool, true, false, not, ◌||◌, ◌==◌, ◌&&◌, ltb, if◌then◌else◌, List,
  [], ◌∷◌, ◌++◌,
}
use lirc.Base.{Option, none, some, get_or, take, drop, length, Bool-cases, ◌⊎◌, inl, inr}
use lirc.Base.Text.{bytes, same_word, words}
use lirc.Remote.{Name}
use lirc.Remote.Flags.{is_raw, has_flag, rc6, has_toggle_bit_mask}
use lirc.Transmit.{SendBuffer}
use lirc.Config.{Draft, Outcome, done, crash, outside, ◌>>=◌}
use lirc.Config.Check.{sanity_checks}
use lirc.Config.Define.{define_remote, unknown}
use lirc.Config.Finish.{
  kick_reverse, kick_rc6, kick_toggle_bit, start_toggle_state, finish_remote, finish_remotes,
}
use lirc.Config.Include.{lirc_parse_include, lirc_parse_relative}
use lirc.Config.Lengths.{calculate_signal_lengths}
use lirc.Config.Lines.{c_string, is_too_long, strip_line}
use lirc.Config.Read.{
  FileResult, append_included, read_included, read_each, read_all_included, words_line, read_line,
  read_lines, read_end,
}
use lirc.Config.Sections.{Parser, id_none, id_remote, same_mode, mode_line, end_remote}

define_remote-dynamic :
    (key val : Name) (val2 : Option Name) (d : Draft)
    → same_word (bytes "name") key ≡ false
    → same_word (bytes "dyncodes_name") key ≡ false
    → define_remote true key val val2 d ≡ unknown d
unfolding define_remote
define_remote-dynamic key val val2 d name dyn = rw (name, dyn, if◌then◌else◌) refl

append_included-keeps :
    (ds : List Draft) (p : Parser)
    → ((append_included ds p).parse_error ≡ p.parse_error)
      × ((append_included ds p).buffer ≡ p.buffer)
append_included-keeps ds p = elim (Bool-cases (same_mode p.mode id_none || p.orphan)) [
  | inl e ↦ rw (e, if◌then◌else◌) (refl, refl)
  | inr e ↦ rw (e, if◌then◌else◌) (refl, refl)
]

-- A raw remote with a name is accepted as it is.
sanity_checks-raw :
    (d : Draft) → d.named ≡ true → is_raw d.conf ≡ true → sanity_checks d ≡ (d, true)
unfolding sanity_checks
sanity_checks-raw d named raw = simp (named, raw, if◌then◌else◌)

calculate-crash :
    (b : SendBuffer) (d : Draft) → d.codes ≡ none → calculate_signal_lengths b d ≡ crash
unfolding calculate_signal_lengths
calculate-crash b d codes = rw (codes) refl

kick_reverse-raw : (d : Draft) → is_raw d.conf ≡ true → kick_reverse d ≡ done d
unfolding kick_reverse
kick_reverse-raw d raw = rw (raw, if◌then◌else◌) refl

kick_rc6-none : (d : Draft) → d.toggle_bit ≡ 0 → kick_rc6 d ≡ done d
unfolding kick_rc6
kick_rc6-none d toggle =
    let off : (has_flag d.conf rc6 && d.conf.rc6_mask == 0 && ltb 0 d.toggle_bit) ≡ false =
      ap (λ n. has_flag d.conf rc6 && d.conf.rc6_mask == 0 && ltb 0 n) toggle ∙ and-false _ in
    rw (off, if◌then◌else◌) refl

kick_toggle_bit-none : (d : Draft) → d.toggle_bit ≡ 0 → kick_toggle_bit d ≡ done d
unfolding kick_toggle_bit
kick_toggle_bit-none d toggle =
    let off : ltb 0 d.toggle_bit ≡ false = ap (ltb 0) toggle in rw (off, if◌then◌else◌) refl

start_toggle_state-raw : (d : Draft) → is_raw d.conf ≡ true → start_toggle_state d ≡ d
unfolding start_toggle_state
start_toggle_state-raw d raw =
    let off : (has_toggle_bit_mask d.conf && not (is_raw d.conf)) ≡ false =
      ap (λ b. has_toggle_bit_mask d.conf && not b) raw ∙ and-false _ in
    rw (off, if◌then◌else◌) refl

-- A result, or none.
abbrev Stops : {A : Type 0} → Outcome A → Type 0
Stops (done a) = ⊥
Stops crash = Unit {0}
Stops outside = Unit {0}

Outcome-cases : {A : Type 0} (o : Outcome A) → ((a : A) × (o ≡ done a)) ⊎ Stops o
Outcome-cases (done a) = inl (a, refl)
Outcome-cases crash = inr tt
Outcome-cases outside = inr tt

not_done_after :
    {A B : Type 0} (o : Outcome A) (f : A → Outcome B) {b : B} → Stops o → ¬ ((o >>= f) ≡ done b)
not_done_after (done a) f h e = absurd h
not_done_after crash f h e = cc
not_done_after outside f h e = cc

finish_remote-crash :
    (b : SendBuffer) (d : Draft)
    → is_raw d.conf ≡ true
    → d.codes ≡ none
    → d.toggle_bit ≡ 0
    → finish_remote b d ≡ crash
unfolding finish_remote
finish_remote-crash b d raw codes toggle =
    simp
      (
        kick_reverse-raw d raw,
        kick_rc6-none d toggle,
        kick_toggle_bit-none d toggle,
        start_toggle_state-raw d raw,
      )
      (calculate-crash b _ codes)

-- A remote at the end with which the work on the list crashes, after others that can be finished.
finish_remotes-crash :
    (d : Draft) (ds es : List Draft) (b b' : SendBuffer)
    → ((c : SendBuffer) → finish_remote c d ≡ crash)
    → finish_remotes b ds ≡ done (b', es)
    → finish_remotes b (ds ++ d ∷ []) ≡ crash
unfolding finish_remotes
finish_remotes-crash d [] es b b' h e = rw (h b) refl
finish_remotes-crash d (x ∷ ds) es b b' h e = elim (Outcome-cases (finish_remote b x)) [
  | inr stop ↦ absurd (not_done_after (finish_remote b x) _ stop e)
  | inl (r, first) ↦ elim (Outcome-cases (finish_remotes r.0 ds)) [
    | inr stop ↦ absurd (
        not_done_after (finish_remotes r.0 ds) (λ rs. done (rs.0, r.1 ∷ rs.1)) stop (rw first at e))
    | inl (rs, rest) ↦ rw (first, finish_remotes-crash d ds rs.1 r.0 rs.0 h rest) refl
  ]
]

or-true : (b : Bool) → (b || true) ≡ true
or-true true = refl
or-true false = refl

-- A remote with the name for its dynamic codes.
abbrev with_name : Draft → Draft
with_name d =
    let named : Name = elim d.dyncodes_name [ none ↦ bytes "unknown" | some n ↦ n ] in
    record d { dyncodes_name = some named; dyncodes_named = some named }

module _ (file : Name → Option (List ℕ)) (glob : Name → List Name) where
  -- What is left when the loop stops.
  read_lines-error :
      (dynamic_codes : Bool) (child : Option (Name → List ℕ → SendBuffer → Outcome FileResult))
      (name : Name) (l : List ℕ) (ls : List (List ℕ)) (p q : Parser)
      → read_line file glob dynamic_codes child name l p ≡ done q
      → q.parse_error ≡ true
      → (read_lines file glob dynamic_codes child name (l ∷ ls) p
          >>= read_end file glob dynamic_codes)
        ≡ done (q.buffer, none)
  unfolding read_lines read_end
  read_lines-error dynamic_codes child name l ls p q e bad = simp (e, bad, if◌then◌else◌)

  module _ (dynamic_codes : Bool) (child : Name → List ℕ → SendBuffer → Outcome FileResult)
      (val path : Name) (p : Parser) (parsed : lirc_parse_include val ≡ some path) where
    included-missing :
        file path ≡ none
        → read_included file glob dynamic_codes (some child) val p
          ≡ done (record p {
            top = [];
            after = [];
            orphan = p.orphan || not (same_mode p.mode id_none);
          })
    unfolding read_included
    included-missing missing = rw (read_included, parsed, missing) refl

    pub included-failed :
        (text : List ℕ) (b : SendBuffer)
        → file path ≡ some text
        → child path text p.buffer ≡ done (b, none)
        → read_included file glob dynamic_codes (some child) val p
          ≡ done (record p { buffer = b; parse_error = true })
    unfolding read_included
    included-failed text b found failed = rw (read_included, parsed, found, failed) refl

    pub included-read :
        (text : List ℕ) (b : SendBuffer) (ds : List Draft)
        → file path ≡ some text
        → child path text p.buffer ≡ done (b, some ds)
        → read_included file glob dynamic_codes (some child) val p
          ≡ done (append_included ds (record p { buffer = b; parse_error = false }))
    unfolding read_included
    included-read text b ds found good = rw (read_included, parsed, found, good) refl

  -- With the option "lircd:dynamic-codes" a line of a remote section that starts with any word but
  -- `name`, `dyncodes_name`, `include`, `begin` and `end`, such as `bits` or `one`, ends the reading of
  -- the file, and none of its remotes is kept, whatever the rest of the file says. The line has two
  -- words at least, and is neither too long nor a comment.
  pub read_lines-dynamic :
      (child : Option (Name → List ℕ → SendBuffer → Outcome FileResult)) (name : Name) (l : List ℕ)
      (ls : List (List ℕ)) (key val : Name) (more : List Name) (p : Parser)
      → is_too_long (c_string l) ≡ false
      → (get_or (strip_line (c_string l)) 0 0 == b'#') ≡ false
      → words (strip_line (c_string l)) ≡ key ∷ val ∷ more
      → same_word (bytes "include") key ≡ false
      → same_word (bytes "begin") key ≡ false
      → same_word (bytes "end") key ≡ false
      → same_word (bytes "name") key ≡ false
      → same_word (bytes "dyncodes_name") key ≡ false
      → p.mode ≡ id_remote
      → (read_lines file glob true child name (l ∷ ls) p >>= read_end file glob true)
        ≡ done (p.buffer, none)
  unfolding read_line words_line mode_line
  read_lines-dynamic child name l ls key val more p short hash w inc beg en nm dyn m =
      let q : Parser = record p { parse_error = p.parse_error || true } in
      let line : read_line file glob true child name l p ≡ done q =
        rw
          (
            short,
            hash,
            w,
            if◌then◌else◌,
            inc,
            beg,
            en,
            m,
            define_remote-dynamic key val _ p.current nm dyn,
          )
          refl in
      read_lines-error true child name l ls p q line (or-true p.parse_error)

  -- A file whose last line, outside all sections, includes a file that cannot be opened, and that was
  -- read without an error before: whatever remotes it had, reading it returns the empty list, and not
  -- `(void*)-1`, the value of a failure. `glob` finds one path, which can be parsed, and the include
  -- is not nested too deeply.
  pub read_all_included-missing :
      (dynamic_codes : Bool) (child : Name → List ℕ → SendBuffer → Outcome FileResult)
      (name val path : Name) (p : Parser)
      → glob (lirc_parse_relative 256 (take (length val - 2) (drop 1 val)) (some name)) ≡ path ∷ []
      → lirc_parse_include (take 255 (b'"' ∷ (path ++ (b'"' ∷ [])))) ≡ some path
      → file path ≡ none
      → p.mode ≡ id_none
      → p.parse_error ≡ false
      → (read_all_included file glob dynamic_codes (some child) name val p
          >>= read_end file glob dynamic_codes)
        ≡ done (p.buffer, some [])
  unfolding read_all_included read_each read_end finish_remotes same_mode
  read_all_included-missing dynamic_codes child name val path p found parsed missing m ok =
      let quoted = take 255 (b'"' ∷ (path ++ (b'"' ∷ []))) in
      let e = included-missing dynamic_codes child quoted path p parsed missing in
      rw (found) (
        ap (λ o. o >>= done >>= read_end file glob dynamic_codes) e
        ∙ rw (m, ok, if◌then◌else◌) refl)

  -- A raw remote with a name, but without `raw_codes` and without `toggle_bit`, is accepted at its
  -- end, and if the file ends directly after it, without an error so far, reading the file crashes:
  -- there is no result, neither a list nor `(void*)-1`. The remotes before it in the file can all be
  -- finished, and every file that was included within its section could be opened.
  pub end_remote-raw :
      (dynamic_codes : Bool) (p : Parser) (b : SendBuffer) (ds : List Draft)
      → p.current.named ≡ true
      → is_raw p.current.conf ≡ true
      → p.current.codes ≡ none
      → p.current.toggle_bit ≡ 0
      → finish_remotes p.buffer p.top ≡ done (b, ds)
      → p.orphan ≡ false
      → p.parse_error ≡ false
      → (end_remote dynamic_codes p >>= read_end file glob dynamic_codes) ≡ crash
  unfolding end_remote read_end same_mode
  end_remote-raw true p b ds named raw codes toggle top own ok =
      let last =
        finish_remotes-crash (with_name p.current) p.top ds p.buffer b
          (λ c. finish_remote-crash c (with_name p.current) raw codes toggle) top in
      simp (sanity_checks-raw p.current named raw, own, ok, if◌then◌else◌) (rw last refl)
  end_remote-raw false p b ds named raw codes toggle top own ok =
      let last =
        finish_remotes-crash p.current p.top ds p.buffer b
          (λ c. finish_remote-crash c p.current raw codes toggle) top in
      simp (sanity_checks-raw p.current named raw, own, ok, if◌then◌else◌) (rw last refl)
