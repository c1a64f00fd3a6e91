-- ===== src/Tests/Config.antt =====
-- The reader of lib/config_file.c on a small file, and its theorems at concrete inputs.
use lirc.Base.{
  ℕ, ◌+◌, ◌<◌, ◌≤◌, ◌≡◌, refl, arith, true, false, Bool, List, [], ◌∷◌, ◌++◌, none, some, Option,
  map, length, get_or, ◌⊎◌, ◌==◌, if◌then◌else◌,
}
use lirc.Base.{same_bytes}
use lirc.Base.Text.{bytes, words, words_from, same_word}
use mathlib.Core.List.{Perm}
use lirc.Remote.{Name, IrNcode, RemoteConf}
use lirc.Transmit.{send_buffer_init, SendBuffer}
use lirc.Config.{Draft, Outcome, done, crash, new_draft, zero_conf, ◌>>=◌}
use lirc.Config.Array.{init_void_array, add_void_array, get_void_array}
use lirc.Config.Array.Room.{HasRoom, init-HasRoom, add-HasRoom}
use lirc.Config.Check.{sanity_checks}
use lirc.Config.Check.Laws.{FitsWidths, sanity_checks-FitsWidths}
use lirc.Config.Dump.{fprint_remote_signals}
use lirc.Config.Dump.LineText.{plain, add_codes}
use lirc.Config.Dump.Section.{AllButtons, read_lines-fprint_remote_signals}
use lirc.Config.Include.{
  lirc_parse_relative, lirc_parse_include, drop_last_while, drop_while, dirname,
}
use lirc.Config.Lines.{line_len, fgets_all, c_string, is_too_long, strip_line}
use lirc.Config.Lines.Laws.{joined_lines, EachBelow, NoneTooLong, fgets_all_lem}
use lirc.Config.Numbers.{s_strtou32, s_strtocode}
use lirc.Config.Numbers.Print.{print_decimal, print_hex}
use lirc.Config.Numbers.Print.ReadBack.{s_strtou32-print_decimal, s_strtocode-print_hex}
use lirc.Config.Read.{
  FileResult, start, read_lines, read_end, read_all_included, read_config, read_config_recursive,
}
use lirc.Config.Sections.{Parser, Mode, id_none, id_remote, end_remote}
use lirc.Config.Read.Errors.{read_lines-dynamic, read_all_included-missing, end_remote-raw}
use lirc.Config.Read.Included.{AllRead, no_more, next_file, read_all_included-AllRead}
use lirc.Config.Finish.{finish_remotes}
use lirc.Config.Sort.{sort_by_bit_count, any_manual}
use lirc.Config.Sort.Laws.{IsSorted, sort_by_bit_count_lem}

-- The lines of a file.
abbrev file_of : List Name → List ℕ
file_of [] = []
file_of (l ∷ ls) = l ++ (b'\n' ∷ file_of ls)

abbrev tv_file : List ℕ
tv_file = file_of (
    bytes "# a remote"
    ∷ bytes "begin remote"
    ∷ bytes "  name tv"
    ∷ bytes "  flags SPACE_ENC|CONST_LENGTH"
    ∷ bytes "  bits 3"
    ∷ bytes "  header 9000 4500"
    ∷ bytes "  one 560 1690"
    ∷ bytes "  zero 560 560"
    ∷ bytes "  ptrail 560"
    ∷ bytes "  gap 40000"
    ∷ bytes "  begin codes"
    ∷ bytes "    on 0x5"
    ∷ bytes "  end codes"
    ∷ bytes "end remote"
    ∷ [])

abbrev no_file : Name → Option (List ℕ)
no_file name = none

abbrev no_glob : Name → List Name
no_glob name = []

abbrev min_gaps : Outcome (SendBuffer × List Draft) → List ℕ
min_gaps (done r) = map (λ d. d.conf.min_gap_length) r.1
min_gaps _ = []

tv_result :
    min_gaps (read_config no_file no_glob false (bytes "lircd.conf") tv_file send_buffer_init)
    ≡ 20320 ∷ []
unfolding lirc.Base.Text.same_word lirc.Base.Text.words_from lirc.Base.Text.words
    lirc.Base.same_bytes lirc.Remote.get_ir_code lirc.Remote.get_next_ir_code_node
    lirc.Remote.bit_count lirc.Remote.min_gap lirc.Remote.max_gap lirc.Remote.get_duty_cycle
    lirc.Remote.time_elapsed lirc.Remote.time_left lirc.Remote.deref lirc.Remote.Flags.has_flag
    lirc.Remote.Flags.protocol lirc.Remote.Flags.set_protocol lirc.Remote.Flags.is_raw
    lirc.Remote.Flags.is_space_enc lirc.Remote.Flags.is_space_first lirc.Remote.Flags.is_rc5
    lirc.Remote.Flags.is_rcmm lirc.Remote.Flags.is_grundig lirc.Remote.Flags.is_bo
    lirc.Remote.Flags.is_serial lirc.Remote.Flags.is_xmp lirc.Remote.Flags.is_rc6
    lirc.Remote.Flags.is_biphase lirc.Remote.Flags.is_const lirc.Remote.Flags.has_repeat
    lirc.Remote.Flags.has_header lirc.Remote.Flags.has_foot lirc.Remote.Flags.has_repeat_gap
    lirc.Remote.Flags.has_pre lirc.Remote.Flags.has_post lirc.Remote.Flags.has_toggle_bit_mask
    lirc.Remote.Flags.has_ignore_mask lirc.Remote.Flags.has_repeat_mask
    lirc.Remote.Flags.has_toggle_mask lirc.Remote.Code.gen_mask lirc.Remote.Code.bits_set
    lirc.Remote.Code.reverse lirc.Remote.Code.gen_ir_code lirc.Remote.Code.match_ir_code
    lirc.Remote.Code.map_code lirc.Transmit.clear_send_buffer lirc.Transmit.add_send_buffer
    lirc.Transmit.send_pulse lirc.Transmit.send_space lirc.Transmit.bad_send_buffer
    lirc.Transmit.send_buffer_data lirc.Transmit.check_send_buffer lirc.Transmit.flush_send_buffer
    lirc.Transmit.sync_send_buffer lirc.Transmit.send_buffer_length lirc.Transmit.send_buffer_sum
    lirc.Transmit.send_signals lirc.Transmit.Frame.send_header lirc.Transmit.Frame.send_foot
    lirc.Transmit.Frame.send_lead lirc.Transmit.Frame.send_trail lirc.Transmit.Frame.send_data
    lirc.Transmit.Frame.send_pre lirc.Transmit.Frame.send_post lirc.Transmit.Frame.send_repeat
    lirc.Transmit.Frame.send_parts lirc.Transmit.Frame.send_code lirc.Transmit.Put.init_send_or_sim
    lirc.Transmit.Put.send_buffer_put lirc.Transmit.Put.init_sim
    lirc.Config.Lengths.calculate_signal_lengths send_buffer_init read_config
tv_result = refl

-- Two buttons of a remote that is not raw.
abbrev buttons : List IrNcode
buttons =
    record {
      name = bytes "KEY_ON";
      code = 5;
      signals = none;
      next = 250 ∷ [];
      current = none;
      transmit_state = none;
    }
    ∷ record {
      name = bytes "KEY_OFF";
      code = 4095;
      signals = none;
      next = [];
      current = none;
      transmit_state = none;
    }
    ∷ []

abbrev conf12 : RemoteConf
conf12 = record zero_conf { bits = 12; flags = 2; pre_data_bits = 4; pre_data = 21 }

abbrev parser : Mode → Draft → Parser
parser m d = record (start no_file no_glob false send_buffer_init) { mode = m; current = d }

abbrev in_remote : Parser
in_remote = parser id_remote (record new_draft { conf = conf12 })

all_buttons : AllButtons 12 buttons
unfolding same_word same_bytes lirc.Config.Dump.spaces lirc.Config.Dump.fprint_nodes print_hex
    lirc.Config.Numbers.Print.digits lirc.Config.Numbers.Print.digit_count
all_buttons = (
  (
    (
      (refl, (refl, (refl, (refl, (refl, (refl, tt)))))),
      (refl, (refl, (refl, (refl, (refl, (refl, tt)))))),
      (refl, (refl, (refl, (refl, (refl, (refl, tt)))))),
      refl,
      refl,
      refl,
    ),
    (omega arith, (omega arith, tt)),
    omega arith,
  ),
  (
    (
      (
        (refl, (refl, (refl, (refl, (refl, (refl, (refl, tt))))))),
        (refl, (refl, (refl, (refl, (refl, (refl, (refl, tt))))))),
        (refl, (refl, (refl, (refl, (refl, (refl, (refl, tt))))))),
        refl,
        refl,
        refl,
      ),
      (omega arith, tt),
      omega arith,
    ),
    tt,
  ),
)

read_lines-fprint_remote_signals_example :
    read_lines no_file no_glob false none
      (bytes "lircd.conf")
      (fgets_all line_len (fprint_remote_signals conf12 buttons))
      in_remote
    ≡ done (record in_remote {
      current = record in_remote.current { codes = some (map plain buttons) };
      codes_list = add_codes (init_void_array 30) buttons;
      mode = id_remote;
    })
unfolding lirc.Remote.Flags.is_raw lirc.Remote.Flags.protocol
read_lines-fprint_remote_signals_example =
    read_lines-fprint_remote_signals no_file no_glob false none (bytes "lircd.conf") conf12 buttons
      in_remote refl all_buttons refl refl refl

s_strtou32-print_decimal_example : s_strtou32 (print_decimal 4294967301) ≡ (5, false)
s_strtou32-print_decimal_example = s_strtou32-print_decimal 4294967301 (omega arith)

s_strtocode-print_hex_example : s_strtocode (48 ∷ 120 ∷ print_hex 4 250) ≡ (250, false)
s_strtocode-print_hex_example = s_strtocode-print_hex 4 250 (omega arith)

abbrev draft12 : Draft
draft12 = record new_draft { named = true; conf = conf12; codes = some buttons }

sanity_checks-FitsWidths_example :
    (e : Draft) × (sanity_checks draft12 ≡ (e, true)) × FitsWidths e × (sanity_checks e ≡ (e, true))
unfolding lirc.Remote.Flags.is_raw lirc.Remote.Flags.protocol
sanity_checks-FitsWidths_example =
    sanity_checks-FitsWidths draft12 buttons refl (omega arith) (omega arith) (omega arith) refl
      refl

fgets_all_lem_example :
    (joined_lines (fgets_all line_len tv_file) ≡ tv_file)
    × EachBelow line_len (fgets_all line_len tv_file)
    × NoneTooLong (fgets_all line_len tv_file)
fgets_all_lem_example = fgets_all_lem tv_file

sort_by_bit_count_lem_example :
    Perm (sort_by_bit_count (some (draft12 ∷ new_draft ∷ []))) (draft12 ∷ new_draft ∷ [])
    × (((any_manual (draft12 ∷ new_draft ∷ []) ≡ true)
          × (sort_by_bit_count (some (draft12 ∷ new_draft ∷ [])) ≡ draft12 ∷ new_draft ∷ []))
        ⊎ ((any_manual (draft12 ∷ new_draft ∷ []) ≡ false)
            × IsSorted (sort_by_bit_count (some (draft12 ∷ new_draft ∷ [])))))
    × (sort_by_bit_count none ≡ [])
sort_by_bit_count_lem_example = sort_by_bit_count_lem (draft12 ∷ new_draft ∷ [])

add-HasRoom_example :
    HasRoom {A = ℕ} (add_void_array {A = ℕ} (init_void_array 30) 7)
    × (length (init_void_array {A = ℕ} 30).items + 1
        < (add_void_array {A = ℕ} (init_void_array 30) 7).capacity)
    × (get_void_array (add_void_array {A = ℕ} (init_void_array 30) 7)
        ≡ get_void_array (init_void_array 30) ++ (7 ∷ []))
add-HasRoom_example = add-HasRoom (init_void_array 30) 7 (init-HasRoom ℕ 30 (omega arith))

read_lines-dynamic_example :
    (read_lines no_file no_glob true none (bytes "lircd.conf") (bytes "  bits 12" ∷ []) in_remote
      >>= read_end no_file no_glob true)
    ≡ done (send_buffer_init, none)
unfolding c_string is_too_long strip_line words words_from same_word same_bytes
read_lines-dynamic_example =
    read_lines-dynamic no_file no_glob none (bytes "lircd.conf") (bytes "  bits 12") []
      (bytes "bits") (bytes "12") [] in_remote refl refl refl refl refl refl refl refl refl

-- An `include` line finds one file.
abbrev one_glob : Name → List Name
one_glob pattern = pattern ∷ []

abbrev after_two : Parser
after_two = record (parser id_none new_draft) { top = draft12 ∷ draft12 ∷ [] }

abbrev no_child : Name → List ℕ → SendBuffer → Outcome FileResult
no_child name text b = done (b, none)

read_all_included-missing_example :
    (read_all_included no_file one_glob false
        (some no_child)
        (bytes "/etc/lircd.conf")
        (bytes "\"/no\"")
        after_two
      >>= read_end no_file one_glob false)
    ≡ done (send_buffer_init, some [])
unfolding lirc_parse_relative lirc_parse_include drop_last_while drop_while dirname
read_all_included-missing_example =
    read_all_included-missing no_file one_glob false no_child (bytes "/etc/lircd.conf")
      (bytes "\"/no\"") (bytes "/no") after_two refl refl refl refl refl

-- Two files: the first cannot be read without an error.
abbrev two_files : Name → Option (List ℕ)
two_files name = some (if get_or name 1 0 == b'a' then bytes "nonsense" else bytes "# no remote")

abbrev two_paths : Name → List Name
two_paths pattern = bytes "/a" ∷ bytes "/b" ∷ []

two_files-AllRead :
    AllRead two_files two_paths false 3 send_buffer_init
      (bytes "/a" ∷ bytes "/b" ∷ [])
      (none ∷ some [] ∷ [])
      send_buffer_init
unfolding lirc_parse_include drop_last_while drop_while send_buffer_init read_config_recursive
    lirc.Config.Read.read_line lirc.Config.Read.read_end strip_line words words_from same_word
    same_bytes c_string is_too_long
two_files-AllRead =
    next_file (bytes "/a") (bytes "/a") (bytes "nonsense") none refl refl refl
      (next_file (bytes "/b") (bytes "/b") (bytes "# no remote") (some []) refl refl refl no_more)

-- The second file is read, and the error of the first one is forgotten.
read_all_included-AllRead_example :
    (read_all_included two_files two_paths false
        (some (read_config_recursive two_files two_paths false 3))
        (bytes "/etc/lircd.conf")
        (bytes "\"/*\"")
        after_two
      >>= read_end two_files two_paths false)
    ≡ (finish_remotes send_buffer_init (draft12 ∷ draft12 ∷ []) >>= λ r. done (r.0, some r.1))
unfolding send_buffer_init
read_all_included-AllRead_example =
    read_all_included-AllRead two_files two_paths false 3 (bytes "/etc/lircd.conf") (bytes "\"/*\"")
      (bytes "/a" ∷ bytes "/b" ∷ []) (none ∷ some [] ∷ []) send_buffer_init after_two refl
      two_files-AllRead refl refl

abbrev raw_remote : Parser
raw_remote =
    parser id_remote (record new_draft { named = true; conf = record zero_conf { flags = 1 } })

end_remote-raw_example : (end_remote false raw_remote >>= read_end no_file no_glob false) ≡ crash
unfolding lirc.Remote.Flags.is_raw lirc.Remote.Flags.protocol finish_remotes
end_remote-raw_example =
    end_remote-raw no_file no_glob false raw_remote send_buffer_init [] refl refl refl refl refl
      refl refl
