-- ===== src/Config/Dump/Section.antt =====
-- The whole `codes` section, printed and read back.
use mathlib.Core.List.{append_assoc, append-nil}
use lirc.Base.{
  ℕ, ◌+◌, ◌/◌, ◌≤◌, ◌≡◌, refl, ap, sym, ◌∙◌, Bool, false, true, if◌then◌else◌, ◌==◌, List, [], ◌∷◌,
  ◌++◌, map,
}
use lirc.Base.{Option, none, some, length, get_or}
use lirc.Base.Text.{bytes, same_word, words}
use lirc.Remote.{RemoteConf, IrNcode, Name}
use lirc.Remote.Flags.{is_raw}
use lirc.Transmit.{SendBuffer}
use lirc.Config.{Outcome, done}
use lirc.Config.Array.{VoidArray, init_void_array, add_void_array}
use lirc.Config.Dump.{
  fprint_remote_signal, fprint_all_signals, fprint_remote_signal_head, fprint_remote_signal_foot,
  fprint_remote_signals, newline,
}
use lirc.Config.Dump.CodeLine.{read_line-printed}
use lirc.Config.Dump.LineText.{
  plain, add_codes, AllCodes, IsButtonName, line_body, code_text-line, no_newlines,
}
use lirc.Config.Lines.{line_len, chunks, fgets_all, c_string, is_too_long, strip_line}
use lirc.Config.Lines.Laws.{fgets_all-line}
use lirc.Config.Read.{FileResult, words_line, read_line, read_lines}
use lirc.Config.Sections.{Parser, id_remote, id_codes, same_mode, begin_section, end_section}

-- Every button has a name that can be read, codes of 64 bits, and a line that fits the buffer.
abbrev pub AllButtons : ℕ → List IrNcode → Type 0
AllButtons bits [] = Unit {0}
AllButtons bits (c ∷ cs) =
    (IsButtonName c.name × AllCodes (c.code ∷ c.next) × (length (line_body bits c) + 2 ≤ line_len))
    × AllButtons bits cs

-- The lines of the buttons.
abbrev button_lines : ℕ → List IrNcode → List (List ℕ)
button_lines bits [] = []
button_lines bits (c ∷ cs) = (line_body bits c ++ newline) ∷ button_lines bits cs

signal-line :
    (conf : RemoteConf) (c : IrNcode)
    → is_raw conf ≡ false
    → fprint_remote_signal conf c ≡ line_body conf.bits c ++ newline
unfolding fprint_remote_signal
signal-line conf c raw = rw (raw, if◌then◌else◌) (code_text-line conf.bits c)

lines-fprint :
    (conf : RemoteConf) (cs : List IrNcode) (rest : List ℕ)
    → is_raw conf ≡ false
    → AllButtons conf.bits cs
    → fgets_all line_len (fprint_all_signals conf cs ++ rest)
      ≡ button_lines conf.bits cs ++ fgets_all line_len rest
unfolding fprint_all_signals
lines-fprint conf [] rest raw h = refl
lines-fprint conf (c ∷ cs) rest raw h =
    let body = line_body conf.bits c in
    let more = fprint_all_signals conf cs ++ rest in
    let text : fprint_all_signals conf (c ∷ cs) ≡ (body ++ newline) ++ fprint_all_signals conf cs =
      ap (λ t. t ++ fprint_all_signals conf cs) (signal-line conf c raw) in
    ap (λ t. fgets_all line_len (t ++ rest)) text
    ∙ ap (fgets_all line_len) (
        append_assoc (body ++ newline) (fprint_all_signals conf cs) rest
        ∙ append_assoc body newline more)
    ∙ fgets_all-line body more (no_newlines conf.bits c h.0.0) h.0.2
    ∙ ap (λ ls. (body ++ newline) ∷ ls) (lines-fprint conf cs rest raw h.1)

abbrev begin_line : List ℕ
begin_line = bytes "      begin codes" ++ newline

abbrev end_line : List ℕ
end_line = bytes "      end codes" ++ newline

section_text :
    (conf : RemoteConf) (cs : List IrNcode)
    → is_raw conf ≡ false
    → fprint_remote_signals conf cs
      ≡ begin_line ++ (fprint_all_signals conf cs ++ (end_line ++ newline))
unfolding fprint_remote_signals fprint_remote_signal_head fprint_remote_signal_foot
section_text conf cs raw = rw (raw, if◌then◌else◌) refl

fgets_all-begin :
    (t : List ℕ) → fgets_all line_len (begin_line ++ t) ≡ begin_line ∷ fgets_all line_len t
unfolding fgets_all chunks
fgets_all-begin t = refl

fgets_all-end : fgets_all line_len (end_line ++ newline) ≡ end_line ∷ newline ∷ []
unfolding fgets_all chunks
fgets_all-end = refl

section_lines :
    (conf : RemoteConf) (cs : List IrNcode)
    → is_raw conf ≡ false
    → AllButtons conf.bits cs
    → fgets_all line_len (fprint_remote_signals conf cs)
      ≡ begin_line ∷ (button_lines conf.bits cs ++ (end_line ∷ newline ∷ []))
section_lines conf cs raw h =
    ap (fgets_all line_len) (section_text conf cs raw)
    ∙ fgets_all-begin (fprint_all_signals conf cs ++ (end_line ++ newline))
    ∙ ap (λ ls. begin_line ∷ ls)
        (lines-fprint conf cs (end_line ++ newline) raw h
          ∙ ap (λ ls. button_lines conf.bits cs ++ ls) fgets_all-end)

items-add_codes :
    (ar : VoidArray IrNcode) (cs : List IrNcode)
    → (add_codes ar cs).items ≡ ar.items ++ map plain cs
unfolding add_void_array
items-add_codes ar [] = sym (append-nil ar.items)
items-add_codes ar (c ∷ cs) =
    items-add_codes (add_void_array ar (plain c)) cs
    ∙ append_assoc ar.items (plain c ∷ []) (map plain cs)

module _ (file : Name → Option (List ℕ)) (glob : Name → List Name) (dynamic_codes : Bool)
    (child : Option (Name → List ℕ → SendBuffer → Outcome FileResult)) (name : Name) where
  read_lines-step :
      (l : List ℕ) (ls : List (List ℕ)) (p q : Parser)
      → read_line file glob dynamic_codes child name l p ≡ done q
      → q.parse_error ≡ false
      → read_lines file glob dynamic_codes child name (l ∷ ls) p
        ≡ read_lines file glob dynamic_codes child name ls q
  unfolding read_lines
  read_lines-step l ls p q e ok = simp (e, ok)

  read_lines-buttons :
      (bits : ℕ) (cs : List IrNcode) (ls : List (List ℕ)) (p : Parser)
      → AllButtons bits cs
      → p.mode ≡ id_codes
      → p.parse_error ≡ false
      → read_lines file glob dynamic_codes child name (button_lines bits cs ++ ls) p
        ≡ read_lines file glob dynamic_codes child name ls
            (record p { codes_list = add_codes p.codes_list cs })
  read_lines-buttons bits [] ls p h m ok = refl
  read_lines-buttons bits (c ∷ cs) ls p h m ok =
      let q : Parser = record p { codes_list = add_void_array p.codes_list (plain c) } in
      read_lines-step (line_body bits c ++ newline) (button_lines bits cs ++ ls) p q
        (read_line-printed file glob dynamic_codes child name bits c p h.0.0 h.0.1 m) ok
      ∙ read_lines-buttons bits cs ls q h.1 m ok

  begin_codes :
      (p : Parser)
      → p.mode ≡ id_remote
      → p.current.codes ≡ none
      → read_line file glob dynamic_codes child name (bytes "      begin codes" ++ newline) p
        ≡ done (record p { codes_list = init_void_array 30; mode = id_codes })
  unfolding read_line words_line begin_section c_string is_too_long strip_line words same_word
      lirc.Base.same_bytes lirc.Base.Text.words_from same_mode
  begin_codes p m none_yet = rw (m, none_yet, if◌then◌else◌) refl

  end_codes :
      (p : Parser)
      → p.mode ≡ id_codes
      → read_line file glob dynamic_codes child name (bytes "      end codes" ++ newline) p
        ≡ done (record p {
          current = record p.current { codes = some p.codes_list.items };
          mode = id_remote;
        })
  unfolding read_line words_line end_section c_string is_too_long strip_line words same_word
      lirc.Base.same_bytes lirc.Base.Text.words_from same_mode
  end_codes p m = rw (m, if◌then◌else◌) refl

  empty_line : (p : Parser) → read_line file glob dynamic_codes child name newline p ≡ done p
  unfolding read_line words_line c_string is_too_long strip_line words lirc.Base.Text.words_from
  empty_line p = refl

  -- For a protocol that is not raw, the `codes` section that `fprint_remote_signals` prints is read back
  -- inside a remote section: the lines that `fgets` returns are all accepted, and the remote then has
  -- exactly the printed buttons, in their order, with all their codes. The names of the buttons are
  -- words that can be read there, the codes have 64 bits, and each line fits the buffer.
  pub read_lines-fprint_remote_signals :
      (conf : RemoteConf) (cs : List IrNcode) (p : Parser)
      → is_raw conf ≡ false
      → AllButtons conf.bits cs
      → p.mode ≡ id_remote
      → p.current.codes ≡ none
      → p.parse_error ≡ false
      → read_lines file glob dynamic_codes child name
          (fgets_all line_len (fprint_remote_signals conf cs))
          p
        ≡ done (record p {
          current = record p.current { codes = some (map plain cs) };
          codes_list = add_codes (init_void_array 30) cs;
          mode = id_remote;
        })
  unfolding read_lines init_void_array
  read_lines-fprint_remote_signals conf cs p raw h m none_yet ok =
      let q : Parser = record p { codes_list = init_void_array 30; mode = id_codes } in
      let r : Parser = record q { codes_list = add_codes q.codes_list cs } in
      let t : Parser = record r {
        current = record r.current { codes = some r.codes_list.items };
        mode = id_remote;
      } in
      let rest = end_line ∷ newline ∷ [] in
      ap (λ ls. read_lines file glob dynamic_codes child name ls p) (section_lines conf cs raw h)
      ∙ read_lines-step begin_line (button_lines conf.bits cs ++ rest) p q
          (begin_codes p m none_yet) ok
      ∙ read_lines-buttons conf.bits cs rest q h refl ok
      ∙ read_lines-step end_line (newline ∷ []) r t (end_codes r refl) ok
      ∙ read_lines-step newline [] t t (empty_line t) ok
      ∙ ap (λ items. done (record t { current = record t.current { codes = some items } }))
          (items-add_codes (init_void_array 30) cs)
