-- ===== src/Lib.antt =====
-- LIRC, the core of its library: how the code of a button becomes pulses and spaces, how received
-- pulses and spaces become a code again, and how a code becomes the message to the clients.
--
-- The parts, and the files that model them:
-- * Remote models lib/ir_remote_types.h and the queries of lib/ir_remote.h: `IrRemote` is
--   `struct ir_remote`, its part that the configuration sets is `RemoteConf`, `IrNcode` is
--   `struct ir_ncode`. Remote/Flags has the protocols and options, Remote/Code the bit masks,
--   `gen_ir_code` and `map_code`, Remote/Tolerance the tests `expect`, `expect_at_least` and
--   `expect_at_most`, Remote/Context `struct decode_ctx_t`.
-- * Transmit models lib/transmit.c: `SendBuffer` is the static `send_buffer`, and the operations have
--   the names of its functions. Transmit/Frame encodes a code (`send_data`, `send_code`);
--   Transmit/Put is `init_send_or_sim`, one round of its `goto` loop a function `send_round`.
--   Transmit/Buffer and Transmit/Frame/Events describe independently what is sent: a list of pulses
--   and spaces, merged where two of a kind follow each other.
-- * Receive models lib/receive.c: `RecBuffer` is `rec_buffer`, `World` adds the remote, the state of
--   the device and the statics that the decoder reads. Receive/Expect has the single pulses and
--   spaces, Receive/Parts header, foot, gap and repeat, Receive/Data and Receive/Serial `get_data`,
--   Receive/Decode `receive_decode`.
-- * Decode models the search for a button in lib/ir_remote.c: Decode itself the sequences
--   (`find_longest_match`), Decode/Find `get_code`, Decode/Set `set_code`, Decode/All `decode_all` and
--   `write_message`, Decode/Gap `map_gap`. Remotes has the functions on the list of all remotes.
-- * Release models lib/release.c.
-- * Config models the reader of lib/config_file.c: `Draft` is a remote while its section is read.
--   Config/Numbers has the numbers, Config/Flags `parseFlags`, Config/Array `struct void_array`,
--   Config/Define `defineRemote`, Config/Include the paths of included files, Config/Lines what `fgets`
--   returns, Config/Sections what a line does (`Parser` is the variables of the loop), Config/Read the loop with
--   `read_all_included`, Config/Check `sanityChecks`, Config/Finish and Config/Lengths what is done
--   with a remote after the last line, Config/Sort `sort_by_bit_count`. Config/Dump models the
--   lines that lib/dump_config.c prints.
-- * Client models what lib/lirc_client.c does with an event: Client/Match `lirc_iscode`,
--   Client/Execute `lirc_execute` and the loop of `lirc_code2char_internal`.
-- * Irrecord models lib/irrecord.c, which finds out how a remote sends: Irrecord/Histogram the lists
--   of `struct lengths` (`add_length`, `merge_lengths`, `get_max_length`), Irrecord/Analyse what is
--   concluded from them (`get_header_length` and its like, `get_scheme`, `get_data_length`),
--   Irrecord/Capture `get_lengths`, one call for each duration, with its loop,
--   Irrecord/Press what is learnt from single presses (`get_gap_length`, `get_toggle_bit_mask`),
--   Irrecord/Emulation the driver that `--analyse` reads from, and Irrecord/Data the functions that
--   rearrange the codes (`get_pre_data`, `invert_data` and their like). `Recording` is the static
--   variables.
-- * Base has what all of them share: Boolean tests, lists, texts, integers, bit fields. Tests applies the
--   theorems to small remotes, files and entries.
--
-- `decode_all` calls the decoder of the driver (`receive_decode` for most), then `get_code`, `set_code`
-- and the press of lib/release.c. A decoder fills a `DecodeCtx`; `map_code` and `map_gap` do so for
-- drivers that decode in hardware. The remotes come from the reader of Config, which sends every code
-- to the buffer of Transmit (`init_sim`) to measure it.
--
-- Conventions. A `lirc_t` duration is a native number, `sum` and what may be negative a `ℤ`; the
-- arithmetic on durations is taken to stay within an `int`, an `ir_code` is cut to 64 bits by every
-- left shift, and `unsigned long` differences of times wrap round at 64 bits. A pointer into a list
-- is an index, a null pointer `none`; an access through a null pointer gives `fault`,
-- `crash` or `null_pointer`. Static
-- variables are passed explicitly. The device (its data, its clock, its codes) and `decode_func` are
-- parameters, and so are the files that are included and `glob`. Texts are lists of bytes; `strtok`,
-- `strtoul`, `dirname` and the formats of `printf` that the source uses are written out. A file that
-- gives a negative number for a field that is a natural number here ends in `outside`.
--
-- Bounds and fuel. The buffers have the sizes of the source, 256 items. The loop of
-- `init_send_or_sim` runs on fuel; one unit is enough for `init_sim`, and for a send
-- of any protocol but XMP one more than the rounds of repetitions and sequence. The fuel of
-- `get_next_rec_buffer_internal` bounds the number of timeout packets that a device gives in a row,
-- and that of the serial loop its rounds. Included files are read by recursion on the levels that
-- `MAX_INCLUDES` leaves. `merge_lengths` has one round for each item, and the loops over the bits of an
-- `ir_code` have 64.
--
-- Not modelled: the sockets of lib/lirc_client.c and its reader of .lircrc files, `record_buttons`
-- and `analyse_remote` of lib/irrecord.c with its files, logging (with `check_ncode_dups`, which only logs), option and driver
-- management, memory management (failures of `malloc`, `free_config`, `ncode_dup`, `ncode_free`),
-- `send_ir_ncode`, which sleeps and calls the driver, and the daemons, plugins and tools, which
-- move data between devices and sockets.
pub mod Base
pub mod Remote
pub mod Transmit
pub mod Receive
pub mod Decode
pub mod Release
pub mod Remotes
pub mod Tests
pub mod Config
pub mod Irrecord
pub mod Client
