-- ===== src/Config/Read.antt =====
-- `read_config_recursive` of lib/config_file.c, and the reading of included files.
-- Opening a file and `glob` are parameters; memory does not run out. What is only logged is left out.
pub mod Errors
pub mod Included
use lirc.Base.{ℕ, zero, suc, ◌+◌, ◌-◌, ◌^◌, ◌%◌, Bool, true, false, not, ◌&&◌, ◌||◌, ltb, leb, ◌==◌}
use lirc.Base.{if◌then◌else◌, List, [], ◌∷◌, ◌++◌, length, take, drop, get_or, Option, none, some}
use lirc.Base.Text.{bytes, same_word, words}
use lirc.Remote.{RemoteConf, IrNcode, Name}
use lirc.Remote.Flags.{set_protocol}
use lirc.Remote.Flags
use lirc.Transmit.{SendBuffer}
use lirc.Config.{Draft, new_draft, Outcome, done, crash, outside, ◌>>=◌}
use lirc.Config.Numbers.{s_strtocode, s_strtoui}
use lirc.Config.Array.{VoidArray, init_void_array, add_void_array, get_void_array}
use lirc.Config.Define.{define_remote}
use lirc.Config.Check.{sanity_checks}
use lirc.Config.Sort.{sort_by_bit_count}
use lirc.Config.Finish.{finish_remotes}
use lirc.Config.Include.{lirc_parse_include, lirc_parse_relative}
use lirc.Config.Lines.{line_len, fgets_all, c_string, is_too_long, strip_line}
use lirc.Config.Sections.{
  Parser, add_signals, begin_section, end_section, fail, id_none, id_raw_name, mode_line, same_mode,
}

-- What reading a file gives: the remotes, or `none` for `(void*)-1`. The global `parse_error` is
-- cleared when the reading starts, and is then set exactly if the result is `none`.
abbrev pub FileResult : Type 0
FileResult = SendBuffer × Option (List Draft)

-- `ir_remotes_append` of what was included.
abbrev pub append_included : List Draft → Parser → Parser
append_included ds p =
    if same_mode p.mode id_none || p.orphan
    then record p { top = p.top ++ ds }
    else record p { after = p.after ++ ds }

module _ (file : Name → Option (List ℕ)) (glob : Name → List Name) (dynamic_codes : Bool) where
  -- `read_included`: a file that cannot be opened gives the list NULL. `child` reads a file, unless
  -- too many are open, and leaves `parse_error` as its result says.
  unfoldable pub read_included :
      Option (Name → List ℕ → SendBuffer → Outcome FileResult) → Name → Parser → Outcome Parser
  unfolding lirc_parse_include same_mode
  read_included none val p = done p
  read_included (some child) val p = elim (lirc_parse_include val) [
    | none ↦ done p
    | some path ↦ elim (file path) [
      | none ↦
          done
            (record p { top = []; after = []; orphan = p.orphan || not (same_mode p.mode id_none) })
      | some text ↦ child path text p.buffer >>= λ r. elim r.1 [
        | none ↦ done (record p { buffer = r.0; parse_error = true })
        | some ds ↦ done (append_included ds (record p { buffer = r.0; parse_error = false }))
      ]
    ]
  ]

  unfoldable pub read_each :
      Option (Name → List ℕ → SendBuffer → Outcome FileResult) → List Name → Parser → Outcome Parser
  unfolding read_included
  read_each child [] p = done p
  read_each child (path ∷ paths) p =
      read_included child (take 255 (b'"' ∷ (path ++ (b'"' ∷ [])))) p >>= λ q.
      read_each child paths q

  unfoldable pub read_all_included :
      Option (Name → List ℕ → SendBuffer → Outcome FileResult)
      → Name
      → Name
      → Parser
      → Outcome Parser
  unfolding read_each lirc_parse_relative
  read_all_included child name val p =
      let pattern = take (length val - 2) (drop 1 val) in
      read_each child (glob (lirc_parse_relative 256 pattern (some name))) p

  -- One line, taken apart.
  unfoldable pub words_line :
      Option (Name → List ℕ → SendBuffer → Outcome FileResult)
      → Name
      → List Name
      → Parser
      → Outcome Parser
  unfolding read_all_included begin_section end_section mode_line add_signals
  words_line child name [] p = done p
  words_line child name (key ∷ []) p =
      if same_mode p.mode id_raw_name then add_signals (key ∷ []) p else fail p
  words_line child name (key ∷ val ∷ more) p =
      if same_word (bytes "include") key
      then read_all_included child name val p
      else if same_word (bytes "begin") key
      then begin_section key val more p
      else if same_word (bytes "end") key
      then end_section dynamic_codes key val more p
      else mode_line dynamic_codes key val more p

  unfoldable pub read_line :
      Option (Name → List ℕ → SendBuffer → Outcome FileResult)
      → Name
      → List ℕ
      → Parser
      → Outcome Parser
  unfolding words_line c_string is_too_long strip_line words
  read_line child name raw p =
      let buf = c_string raw in
      let line = strip_line buf in
      if is_too_long buf
      then fail p
      else if get_or line 0 0 == b'#'
      then done p
      else words_line child name (words line) p

  -- The loop ends at the first error.
  unfoldable pub read_lines :
      Option (Name → List ℕ → SendBuffer → Outcome FileResult)
      → Name
      → List (List ℕ)
      → Parser
      → Outcome Parser
  unfolding read_line
  read_lines child name [] p = done p
  read_lines child name (l ∷ ls) p = read_line child name l p >>= λ q. elim q.parse_error [
    | true ↦ done q
    | false ↦ read_lines child name ls q
  ]

  abbrev pub start : SendBuffer → Parser
  start b = record {
    top = [];
    current = new_draft;
    after = [];
    orphan = false;
    mode = id_none;
    codes_list = record { items = []; chunk_size = 30; capacity = 0 };
    raw_codes = record { items = []; chunk_size = 30; capacity = 0 };
    raw_name = [];
    raw_code = 0;
    signals = record { items = []; chunk_size = 50; capacity = 0 };
    parse_error = false;
    buffer = b;
  }

  -- After the last line: an open section is an error.
  unfoldable pub read_end : Parser → Outcome FileResult
  unfolding finish_remotes same_mode
  read_end p =
      if p.parse_error || not (same_mode p.mode id_none)
      then done (p.buffer, none)
      else (finish_remotes p.buffer p.top >>= λ r. done (r.0, some r.1))

  -- `levels` is `MAX_INCLUDES + 1 - depth`: without one left no file is included.
  unfoldable pub read_config_recursive : ℕ → Name → List ℕ → SendBuffer → Outcome FileResult
  unfolding read_lines read_end fgets_all
  read_config_recursive zero name text b =
      read_lines none name (fgets_all line_len text) (start b) >>= read_end
  read_config_recursive (suc levels) name text b =
      read_lines (some (read_config_recursive levels)) name (fgets_all line_len text) (start b)
      >>= read_end

  abbrev pub max_includes : ℕ
  max_includes = 10

  unfoldable pub read_config : Name → List ℕ → SendBuffer → Outcome (SendBuffer × List Draft)
  unfolding read_config_recursive sort_by_bit_count
  read_config name text b = read_config_recursive (max_includes + 1) name text b >>= λ r.
      done (r.0, sort_by_bit_count r.1)
