-- ===== src/Decode.antt =====
-- lib/ir_remote.c: from the bits of a signal to the button of a remote.
-- The lists of codes are searched in place: a code of several `ir_code`s remembers in `current` how
-- far its sequence has been received.
pub mod Find
pub mod Set
pub mod All
pub mod Gap
use lirc.Base.{ℕ, zero, suc, ◌+◌, ◌-◌, ◌%◌, ◌/◌, Bool, true, false, not, ◌&&◌, ◌||◌, ltb, ◌==◌}
use lirc.Base.{if◌then◌else◌, bit_and, bit_xor, bit_or, List, [], ◌∷◌, length, Option, none, some}
use lirc.Remote.{IrRemote, IrNcode, RemoteConf, bit_count, get_ir_code, get_next_ir_code_node}
use lirc.Remote.{first_node, next_node}
use lirc.Remote.Code.{Parts, shl, shr, gen_mask, gen_ir_code, match_ir_code}
use lirc.Remote.Flags.{has_repeat_mask}

-- The codes of a sequence by their place: the code of the button, then those of the list.
abbrev pub place : ℕ → Option ℕ
place zero = none
place (suc k) = some k

-- The inner loop of `find_longest_match`: whether the sequence, from its place `k` on, is what was
-- received from the node `search` on, for `left` more codes.
unfoldable pub run_matches : IrNcode → ℕ → ℕ → ℕ → Bool
run_matches c search k zero = true
run_matches c search k (suc left) =
    let rest = run_matches c search (k + 1) left in
    if get_ir_code c (place k) == get_ir_code c (some (search + k)) then rest else false

-- The code that a place of the sequence would give with the remote's pre and post data.
abbrev pub code_at : RemoteConf → IrNcode → Option ℕ → ℕ
code_at r c node = gen_ir_code r r.pre_data (get_ir_code c node) r.post_data

-- The outer loop, with the rounds left; `flag` stays false once a comparison has failed.
-- The result is the place after which the signal `all` fits.
unfoldable pub search_loop : RemoteConf → IrNcode → ℕ → ℕ → Bool → ℕ → ℕ → Option ℕ
search_loop r c all current flag search zero = none
search_loop r c all current flag search (suc left) =
    let k = current - search in
    let flag' = flag && run_matches c search 0 k in
    let rest = search_loop r c all current flag' (search + 1) left in
    if flag' && match_ir_code r (code_at r c (place k)) all then some k else rest

-- What the search over the codes of a remote has found so far.
pub record Search : Type 0 where
  pub found : Option ℕ
  pub found_code : Bool
  pub have_code : Bool

-- `codes` stands at index `i`.
unfoldable pub find_longest_match : RemoteConf → ℕ → ℕ → IrNcode → Search → IrNcode × Search
unfolding search_loop
find_longest_match r all i c s =
    let missed = record c { current = none } in
    elim c.current [
      | none ↦ (missed, s)
      | some now ↦ elim (search_loop r c all now true 0 (now + 1)) [
        | none ↦ (missed, s)
        | some k ↦ (
          record c { current = get_next_ir_code_node c (place k) },
          record s { found_code = true; found = if s.have_code then s.found else some i },
        )
      ]
    ]

-- The signal fits the code that comes next in the sequence, as it is or as a repeat.
unfoldable pub fits_code : RemoteConf → ℕ → Bool → IrNcode → Bool
fits_code r all repeat_flag c =
    match_ir_code r (code_at r c c.current) all
    || (repeat_flag
        && has_repeat_mask r
        && match_ir_code r (code_at r c c.current) (bit_xor all r.repeat_mask))

-- The sequence moves on; `current` is null again after its last code.
unfoldable pub step_current : IrNcode → Option ℕ
step_current c = elim c.current [ none ↦ first_node c | some i ↦ next_node c i ]

abbrev pub is_null {ℓ} : {A : Type ℓ} → Option A → Bool
is_null none = true
is_null (some a) = false

-- One round of the search of `get_code`.
unfoldable pub try_code : RemoteConf → ℕ → Bool → ℕ → IrNcode → Search → IrNcode × Search
unfolding find_longest_match fits_code step_current
try_code r all repeat_flag i c s =
    let now = step_current c in
    let c' = record c { current = now } in
    let first = record s { found = some i; found_code = true; have_code = is_null now } in
    if fits_code r all repeat_flag c
    then (c', if s.have_code then record s { found_code = true } else first)
    else find_longest_match r all i c s

unfoldable pub scan_codes :
    RemoteConf → ℕ → Bool → ℕ → List IrNcode → Search → List IrNcode × Search
scan_codes r all repeat_flag i [] s = ([], s)
scan_codes r all repeat_flag i (c ∷ cs) s =
    let (c', s') = try_code r all repeat_flag i c s in
    let (cs', s'') = scan_codes r all repeat_flag (i + 1) cs s' in (c' ∷ cs', s'')

-- The part of the signal that a bit of the toggle mask falls into.
pub data Field : Type 0 where
  in_post in_code in_pre : Field

abbrev pub field_of : RemoteConf → ℕ → Field → Field
field_of r bit f =
    if bit == r.post_data_bits + r.bits
    then in_pre
    else if bit == r.post_data_bits
    then in_code
    else f

abbrev pub flip_bit : Field → ℕ → Parts → Parts
flip_bit in_post b p = record p { post = bit_xor p.post b }
flip_bit in_code b p = record p { code = bit_xor p.code b }
flip_bit in_pre b p = record p { pre = bit_xor p.pre b }

-- The loop over the bits of the toggle mask; `at` is `current_bit`, `left` the rounds to go.
unfoldable pub flip_loop : RemoteConf → ℕ → ℕ → ℕ → Field → ℕ → Parts → Parts
flip_loop r zero bit at f mask p = p
flip_loop r (suc left) bit at f mask p =
    let at' = if bit == r.post_data_bits || bit == r.post_data_bits + r.bits then 0 else at in
    let f' = field_of r bit f in
    flip_loop r left (bit + 1) (at' + 1) f' (mask / 2) (flip_bit f' (shl (bit_and mask 1) at') p)

unfoldable pub flip_toggle_mask : RemoteConf → Parts → Parts
unfolding flip_loop
flip_toggle_mask r p = flip_loop r (bit_count r) 0 0 in_post r.toggle_mask p
