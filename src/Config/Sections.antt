-- ===== src/Config/Sections.antt =====
-- The sections of a file in lib/config_file.c: what each line of `read_config_recursive` does.
-- Memory does not run out. What is only logged is left out.
use lirc.Base.{ℕ, ◌+◌, ◌^◌, ◌%◌, Bool, true, false, not, ◌||◌, ltb, ◌==◌}
use lirc.Base.{if◌then◌else◌, List, [], ◌∷◌, ◌++◌, length, get_or, Option, none, some}
use lirc.Base.Text.{bytes, same_word}
use lirc.Remote.{RemoteConf, IrNcode, Name}
use lirc.Remote.Flags.{set_protocol}
use lirc.Remote.Flags
use lirc.Transmit.{SendBuffer}
use lirc.Config.{Draft, new_draft, Outcome, done, outside, ◌>>=◌}
use lirc.Config.Numbers.{s_strtocode, s_strtoui}
use lirc.Config.Array.{VoidArray, init_void_array, add_void_array, get_void_array}
use lirc.Config.Define.{define_remote}
use lirc.Config.Check.{sanity_checks}

-- `enum directive`.
pub data Mode : Type 0 where
  id_none id_remote id_codes id_raw_codes id_raw_name : Mode

unfoldable pub same_mode : Mode → Mode → Bool
same_mode id_none id_none = true
same_mode id_remote id_remote = true
same_mode id_codes id_codes = true
same_mode id_raw_codes id_raw_codes = true
same_mode id_raw_name id_raw_name = true
same_mode _ _ = false

-- The variables of the loop over the lines. The list `top_rem` is `top` in the mode `id_none`; inside a
-- remote section it is `top`, `current` (the remote `rem`) and `after`, what was included since, but
-- `top` alone if `orphan`: then `rem` is in no list any more. `buffer` is that of lib/transmit.c.
pub record Parser : Type 0 where
  pub top : List Draft
  pub current : Draft
  pub after : List Draft
  pub orphan : Bool
  pub mode : Mode
  pub codes_list : VoidArray IrNcode
  pub raw_codes : VoidArray IrNcode
  pub raw_name : Name
  pub raw_code : ℕ
  pub signals : VoidArray ℕ
  pub parse_error : Bool
  pub buffer : SendBuffer

abbrev pub fail : Parser → Outcome Parser
fail p = done (record p { parse_error = true })

-- `checkMode`, and what follows where it succeeds.
unfoldable pub check_mode : Mode → Parser → Outcome Parser → Outcome Parser
unfolding same_mode
check_mode m p next = if same_mode p.mode m then next else fail p

-- `addSignal` for one word after the other. A duration is a signed `lirc_t` in the array.
unfoldable pub add_signals : List Name → Parser → Outcome Parser
unfolding s_strtoui add_void_array
add_signals [] p = done p
add_signals (w ∷ ws) p =
    let (t, failed) = s_strtoui w in
    let q : Parser = record p { signals = add_void_array p.signals t } in
    elim failed [
      | true ↦ fail p
      | false ↦ elim (ltb t (2 ^ 31)) [ true ↦ add_signals ws q | false ↦ outside ]
    ]

-- `defineNode` for the words after the code, up to a comment or an error.
unfoldable pub define_nodes : List Name → List ℕ × Bool
unfolding s_strtocode
define_nodes [] = ([], false)
define_nodes (w ∷ ws) =
    let (code, failed) = s_strtocode w in
    let (nodes, failed2) = define_nodes ws in
    if get_or w 0 0 == b'#'
    then ([], false)
    else if failed
    then (code ∷ [], true)
    else (code ∷ nodes, failed2)

-- A line of a `codes` section.
unfoldable pub code_line : Name → Name → List Name → Parser → Outcome Parser
unfolding s_strtocode define_nodes add_void_array
code_line key val more p =
    let (code, failed) = s_strtocode val in
    let (nodes, failed2) = if failed then ([], false) else define_nodes more in
    let c : IrNcode = record {
      name = key;
      code = code;
      signals = none;
      next = nodes;
      current = none;
      transmit_state = none;
    } in
    done (record p {
      codes_list = add_void_array p.codes_list c;
      parse_error = p.parse_error || failed || failed2;
    })

-- The raw code that was begun is complete; its length has to be odd.
unfoldable pub end_raw_code : Parser → Parser
unfolding add_void_array get_void_array
end_raw_code p =
    let xs = get_void_array p.signals in
    let c : IrNcode = record {
      name = p.raw_name;
      code = p.raw_code;
      signals = some xs;
      next = [];
      current = none;
      transmit_state = none;
    } in
    record p {
      raw_codes = add_void_array p.raw_codes c;
      parse_error = p.parse_error || length xs % 2 == 0;
    }

abbrev has_codes : Draft → Bool
has_codes d = elim d.codes [ none ↦ false | some cs ↦ true ]

unfoldable pub begin_section : Name → Name → List Name → Parser → Outcome Parser
unfolding check_mode code_line init_void_array
begin_section key val more p =
    let raw : RemoteConf = set_protocol p.current.conf Flags.raw_codes in
    if same_word (bytes "codes") val
    then check_mode id_remote p (
        if has_codes p.current
        then fail p
        else done (record p { codes_list = init_void_array 30; mode = id_codes }))
    else if same_word (bytes "raw_codes") val
    then check_mode id_remote p (
        if has_codes p.current
        then fail p
        else done (record p {
          current = record p.current { conf = raw };
          raw_code = 0;
          raw_codes = init_void_array 30;
          mode = id_raw_codes;
        }))
    else if same_word (bytes "remote") val
    then check_mode id_none p
        (done (record p { mode = id_remote; current = new_draft; after = []; orphan = false }))
    else if same_mode p.mode id_codes
    then code_line key val more p
    else fail p

-- The end of a remote: `rem->next = NULL` cuts off what was included inside the section.
unfoldable pub end_remote : Bool → Parser → Outcome Parser
unfolding sanity_checks
end_remote dynamic_codes p =
    let (d, accepted) = sanity_checks p.current in
    let named : Name = elim d.dyncodes_name [ none ↦ bytes "unknown" | some n ↦ n ] in
    let e : Draft =
      if dynamic_codes
      then record d { dyncodes_name = some named; dyncodes_named = some named }
      else d in
    if not accepted
    then fail p
    else done (record p {
      top = if p.orphan then p.top else p.top ++ (e ∷ []);
      after = [];
      mode = id_none;
    })

-- `rem->codes` is set, and the remote section goes on.
abbrev pub close_codes : VoidArray IrNcode → Parser → Outcome Parser
close_codes ar p =
    done (record p { current = record p.current { codes = some ar.items }; mode = id_remote })

unfoldable pub end_section : Bool → Name → Name → List Name → Parser → Outcome Parser
unfolding check_mode end_raw_code end_remote code_line
end_section dynamic_codes key val more p =
    let q : Parser =
      if same_mode p.mode id_raw_name then record (end_raw_code p) { mode = id_raw_codes } else p in
    if same_word (bytes "codes") val
    then check_mode id_codes p (close_codes p.codes_list p)
    else if same_word (bytes "raw_codes") val
    then check_mode id_raw_codes q (close_codes q.raw_codes q)
    else if same_word (bytes "remote") val
    then check_mode id_remote p (end_remote dynamic_codes p)
    else if same_mode p.mode id_codes
    then code_line key val more p
    else fail p

-- A line of a `raw_codes` section: the name of the next button, or durations.
unfoldable pub raw_line : Name → Name → List Name → Parser → Outcome Parser
unfolding end_raw_code init_void_array add_signals
raw_line key val more p =
    let q : Parser = if same_mode p.mode id_raw_name then end_raw_code p else p in
    if same_word (bytes "name") key
    then done (record q {
      raw_name = val;
      raw_code = q.raw_code + 1;
      signals = init_void_array 50;
      mode = id_raw_name;
    })
    else if same_mode p.mode id_raw_codes
    then fail p
    else add_signals (key ∷ val ∷ more) p

abbrev first_of : List Name → Option Name
first_of [] = none
first_of (w ∷ ws) = some w

-- Any other line, by the mode; outside all sections it says nothing.
unfoldable pub mode_line : Bool → Name → Name → List Name → Parser → Outcome Parser
unfolding code_line raw_line define_remote
mode_line dynamic_codes key val more p = elim p.mode [
  | id_none ↦ done p
  | id_remote ↦ define_remote dynamic_codes key val (first_of more) p.current >>= λ r.
      done (record p { current = r.draft; parse_error = p.parse_error || r.failed })
  | id_codes ↦ code_line key val more p
  | id_raw_codes ↦ raw_line key val more p
  | id_raw_name ↦ raw_line key val more p
]
