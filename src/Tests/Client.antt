-- ===== src/Tests/Client.antt =====
-- The entries of lib/lirc_client.c at concrete inputs.
use lirc.Base.{ℕ, ◌<◌, ◌≤◌, ◌≡◌, refl, arith, List, [], ◌∷◌, ◌⊎◌, none, some, Option, length}
use lirc.Base.{same_bytes}
use lirc.Base.Text.{bytes, same_word}
use lirc.Remote.{Name}
use lirc.Client.{LircCode, LircConfigEntry, LircConfig}
use lirc.Client.Match.{IsCode, lirc_iscode}
use lirc.Client.Match.Rebase.{AllNamed, Longest}
use lirc.Client.Match.Sequence.{lirc_iscode-Longest, lirc_iscode-next_code}
use lirc.Client.Execute.{lirc_code2char_internal, execute_entry}
use lirc.Client.Execute.Strings.{executed, execute_entry-in_turn}
use lirc.Client.Execute.Calls.{lirc_code2char-progress}

abbrev code_of : Option Name → LircCode
code_of b = record { remote = some (bytes "tv"); button = b }

-- The sequence 1 1 2.
abbrev sequence : List LircCode → ℕ → LircConfigEntry
sequence code next_code = record {
  prog = some (bytes "irexec");
  code = code;
  rep_delay = 0;
  ign_first_events = 0;
  rep = 0;
  config = bytes "run" ∷ [];
  change_mode = none;
  flags = 0;
  mode = none;
  next_config = 0;
  next_code = next_code;
}

abbrev one_one_two : List LircCode
one_one_two =
    code_of (some (bytes "1")) ∷ code_of (some (bytes "1")) ∷ code_of (some (bytes "2")) ∷ []

-- After 1 1 another 1: the last two are the start of the sequence again.
abbrev again : IsCode
again = record { level = 0; scan = sequence one_one_two 2 }

again_run : lirc_iscode (sequence one_one_two 2) (bytes "tv") (bytes "1") 0 ≡ some again
unfolding same_word same_bytes lirc_iscode
again_run = refl

one_one_two-AllNamed : AllNamed one_one_two
one_one_two-AllNamed = (
  ((bytes "tv", refl), (bytes "1", refl)),
  (((bytes "tv", refl), (bytes "1", refl)), (((bytes "tv", refl), (bytes "2", refl)), tt)),
)

lirc_iscode-Longest_example :
    (c : IsCode) × (lirc_iscode (sequence one_one_two 2) (bytes "tv") (bytes "1") 0 ≡ some c)
    × (c.level ≡ 0)
    × Longest one_one_two (bytes "tv") (bytes "1") 2 2 c.scan.next_code
unfolding same_word same_bytes lirc_iscode
lirc_iscode-Longest_example =
    lirc_iscode-Longest (sequence one_one_two 2) (bytes "tv") (bytes "1") one_one_two-AllNamed refl
      refl

lirc_iscode-next_code_example :
    (c : IsCode) × (lirc_iscode (sequence one_one_two 2) (bytes "tv") (bytes "1") 0 ≡ some c)
    × (c.scan.code ≡ one_one_two)
    × (c.scan.next_code < length one_one_two)
    × ((c.level < 2) ⊎ (c.scan.next_code ≡ 0))
lirc_iscode-next_code_example =
    lirc_iscode-next_code (sequence one_one_two 2) (bytes "tv") (bytes "1") 0 one_one_two-AllNamed
      (omega arith)

-- The second code may be any button: the comparison with it is an access through `LIRC_ALL`.
any_crash :
    lirc_iscode
      (sequence (code_of (some (bytes "1")) ∷ code_of none ∷ code_of (some (bytes "2")) ∷ []) 2)
      (bytes "tv")
      (bytes "3")
      0
    ≡ none
unfolding same_word same_bytes lirc_iscode
any_crash = refl

abbrev config : LircConfig
config = record {
  current_mode = none;
  first = sequence (code_of (some (bytes "1")) ∷ []) 0 ∷ [];
  next = 0;
}

lirc_code2char-progress_example :
    (config' : LircConfig) × (string : Option Name) × (lirc_code2char_internal none config
        (bytes "tv")
        (bytes "1")
        0
      ≡ some (config', string))
    × (length config'.first ≡ length config.first)
    × (((string ≡ none) × (config'.next ≡ 0))
        ⊎ ((s : Name) × (string ≡ some s)
            × (config.next < config'.next)
            × (config'.next ≤ length config.first)))
lirc_code2char-progress_example =
    lirc_code2char-progress none config (bytes "tv") (bytes "1") 0 (omega arith)
      ((((bytes "tv", refl), (bytes "1", refl)), tt), tt)

-- The last string, then the first one again.
abbrev two_strings : LircConfigEntry
two_strings = record (sequence [] 0) { config = bytes "up" ∷ bytes "down" ∷ []; next_config = 1 }

execute_entry-in_turn_example :
    (execute_entry none (executed none 4 two_strings)).1 ≡ some (bytes "down")
execute_entry-in_turn_example = execute_entry-in_turn none two_strings 4 (omega arith)

-- With a change of mode and `once` only the first execution gives a string.
abbrev one_string : LircConfigEntry
one_string = record two_strings { change_mode = some (bytes "tv"); flags = 1 }

one_string_given : (execute_entry none one_string).1 ≡ some (bytes "down")
unfolding execute_entry
one_string_given = refl

one_string_later : (execute_entry none (executed none 1 one_string)).1 ≡ none
unfolding execute_entry
one_string_later = refl
