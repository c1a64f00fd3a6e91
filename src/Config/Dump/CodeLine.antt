-- ===== src/Config/Dump/CodeLine.antt =====
-- The `codes` section that lib/dump_config.c prints, and lib/config_file.c reading it.
use mathlib.Core.Bool.{or-false}
use mathlib.Core.List.{append_assoc}
use lirc.Base.{ℕ, ◌+◌, ◌/◌, ◌≡◌, refl, ap, sym, ◌∙◌, arith}
use lirc.Base.{Bool, false, ◌||◌, ◌==◌, if◌then◌else◌, List, [], ◌∷◌, ◌++◌, map}
use lirc.Base.{Option, get_or}
use lirc.Base.Text.{words}
use lirc.Base.Text.Words.{Each, Each-append}
use lirc.Remote.{IrNcode, Name}
use lirc.Config.{Outcome, done}
use lirc.Config.Array.{add_void_array}
use lirc.Config.Dump.{spaces, newline}
use lirc.Config.Lines.{c_string, is_too_long, strip_line}
use lirc.Config.Lines.Laws.{c_string-text, strip_line-line}
use lirc.Config.Numbers.Print.{print_digit}
use lirc.Config.Numbers.Print.ReadBack.{s_strtocode-print_hex}
use lirc.Transmit.{SendBuffer}
use lirc.Config.Read.{FileResult, words_line, read_line}
use lirc.Config.Sections.{Parser, id_codes, define_nodes, code_line, mode_line}
use lirc.Config.Dump.LineText.{
  node, plain, AllCodes, IsButtonName, Ends, line_body, words-padded, Ends-line_body, no_zeros,
}

define_nodes-printed :
    (width : ℕ) (vs : List ℕ) → AllCodes vs → define_nodes (map (node width) vs) ≡ (vs, false)
unfolding define_nodes
define_nodes-printed width [] h = refl
define_nodes-printed width (v ∷ vs) h =
    rw (s_strtocode-print_hex width v h.0, define_nodes-printed width vs h.1) refl

code_line-printed :
    (width : ℕ) (c : IrNcode) (p : Parser)
    → AllCodes (c.code ∷ c.next)
    → code_line c.name (node width c.code) (map (node width) c.next) p
      ≡ done (record p { codes_list = add_void_array p.codes_list (plain c) })
unfolding code_line
code_line-printed width c p h =
    let q = λ (b : Bool). record p {
      codes_list = add_void_array p.codes_list (plain c);
      parse_error = b;
    } in
    rw
      (s_strtocode-print_hex width c.code h.0, define_nodes-printed width c.next h.1, if◌then◌else◌)
      (ap (λ b. done (q b)) (or-false (p.parse_error || false) ∙ or-false p.parse_error))

module _ (file : Name → Option (List ℕ)) (glob : Name → List Name) (dynamic_codes : Bool) where
  -- A line is taken apart when its newline is cut.
  read_line-line :
      (child : Option (Name → List ℕ → SendBuffer → Outcome FileResult)) (name : Name) (s : List ℕ)
      (p : Parser)
      → Ends s
      → Each (λ x. x == 0) false s
      → (get_or s 0 0 == b'#') ≡ false
      → read_line file glob dynamic_codes child name (s ++ newline) p
        ≡ words_line file glob dynamic_codes child name (words s) p
  unfolding read_line
  read_line-line child name s p (u, d, e) zeros hash =
      let raw = s ++ newline in
      let text : c_string raw ≡ raw =
        c_string-text raw (Each-append (λ x. x == 0) false s newline zeros (refl, tt)) in
      let (stripped, fits) = strip_line-line u (print_digit d) (ground arith) in
      let same : raw ≡ u ++ (print_digit d ∷ newline) =
        ap (λ t. t ++ newline) e ∙ append_assoc u (print_digit d ∷ []) newline in
      let cut : strip_line raw ≡ s = ap strip_line same ∙ stripped ∙ sym e in
      let short : is_too_long raw ≡ false = ap is_too_long same ∙ fits in
      rw (text, short, cut, hash, if◌then◌else◌) refl

  words_line-codes :
      (child : Option (Name → List ℕ → SendBuffer → Outcome FileResult)) (name : Name)
      (key val : Name) (more : List Name) (p : Parser)
      → IsButtonName key
      → p.mode ≡ id_codes
      → words_line file glob dynamic_codes child name (key ∷ val ∷ more) p
        ≡ code_line key val more p
  unfolding words_line mode_line
  words_line-codes child name [] val more p h m = absurd h
  words_line-codes child name (x ∷ w) val more p h m = rw (h.3, h.4, h.5, if◌then◌else◌, m) refl

  not-comment : (bits : ℕ) (c : IrNcode) → (get_or (line_body bits c) 0 0 == b'#') ≡ false
  unfolding spaces
  not-comment bits c = refl

  -- One line.
  pub read_line-printed :
      (child : Option (Name → List ℕ → SendBuffer → Outcome FileResult)) (name : Name) (bits : ℕ)
      (c : IrNcode) (p : Parser)
      → IsButtonName c.name
      → AllCodes (c.code ∷ c.next)
      → p.mode ≡ id_codes
      → read_line file glob dynamic_codes child name (line_body bits c ++ newline) p
        ≡ done (record p { codes_list = add_void_array p.codes_list (plain c) })
  read_line-printed child name bits c p h k m =
      let width = (bits + 3) / 4 in
      read_line-line child name (line_body bits c) p (Ends-line_body bits c k) (no_zeros bits c h)
        (not-comment bits c)
      ∙ ap (λ ws. words_line file glob dynamic_codes child name ws p)
          (words-padded width c.name c.code c.next h)
      ∙ words_line-codes child name c.name (node width c.code) (map (node width) c.next) p h m
      ∙ code_line-printed width c p k
