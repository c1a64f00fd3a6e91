-- ===== src/Decode/Find.antt =====
-- `get_code` of lib/ir_remote.c: the button that a signal belongs to.
use lirc.Base.{ℕ, ◌+◌, ◌%◌, Bool, true, false, not, ◌&&◌, ◌||◌, ◌==◌}
use lirc.Base.{if◌then◌else◌, bit_and, bit_xor, bit_or, set, get_or, Option, none, some}
use lirc.Remote.{IrRemote, RemoteConf, CodeRef, in_codes, in_dyncodes, ncode_eof, ncode_eof_value}
use lirc.Remote.Code.{Parts, shr, gen_mask, gen_ir_code}
use lirc.Remote.Flags.{
  has_toggle_bit_mask, has_ignore_mask, has_toggle_mask, has_repeat_mask, has_pre, has_post,
}
use lirc.Decode.{Search, scan_codes, flip_toggle_mask}

-- Two pointers to codes are the same.
unfoldable pub same_ref : CodeRef → CodeRef → Bool
same_ref (in_codes i) (in_codes j) = i == j
same_ref (in_dyncodes i) (in_dyncodes j) = i == j
same_ref ncode_eof ncode_eof = true
same_ref _ _ = false

unfoldable pub same_pointer : Option CodeRef → Option CodeRef → Bool
unfolding same_ref
same_pointer none none = true
same_pointer (some a) (some b) = same_ref a b
same_pointer _ _ = false

-- The bits of pre and post data that may differ: toggle bits and ignored bits.
unfoldable pub pre_mask : RemoteConf → ℕ
pre_mask r =
    let high = λ (m : ℕ). shr m (r.bits + r.post_data_bits) in
    let t = if has_toggle_bit_mask r then high r.toggle_bit_mask else 0 in
    if has_ignore_mask r then bit_or t (high r.ignore_mask) else t

unfoldable pub post_mask : RemoteConf → ℕ
post_mask r =
    let low = λ (m : ℕ). bit_and m (gen_mask r.post_data_bits) in
    let t = if has_toggle_bit_mask r then low r.toggle_bit_mask else 0 in
    if has_ignore_mask r then bit_or t (low r.ignore_mask) else t

-- The pre data and the post data are those of the remote, as far as they count.
unfoldable pub right_remote : RemoteConf → Parts → Bool
unfolding pre_mask post_mask
right_remote r p =
    (not (has_pre r) || bit_or p.pre (pre_mask r) == bit_or r.pre_data (pre_mask r))
    && (not (has_post r) || bit_or p.post (post_mask r) == bit_or r.post_data (post_mask r))

-- An unknown code takes one of the two places for unknown buttons, in turn.
unfoldable pub take_dyncode : ℕ → IrRemote → IrRemote × CodeRef
take_dyncode code r =
    let now = get_or r.dyncodes r.dyncode ncode_eof_value in
    let n = if now.code == code then r.dyncode else (r.dyncode + 1) % 2 in
    let c = get_or r.dyncodes n ncode_eof_value in
    (
      record r { dyncode = n; dyncodes = set r.dyncodes n (record c { code = code }) },
      in_dyncodes n,
    )

-- A signal with toggled bits completes the press that the one before it began.
unfoldable pub pair_toggle : IrRemote → CodeRef → IrRemote × Option CodeRef
unfolding same_pointer
pair_toggle r found =
    let cleared = record r { toggle_code = none } in
    if not (has_toggle_mask r.conf)
    then (r, some found)
    else if r.toggle_mask_state % 2 == 0
    then (record r { toggle_code = some found }, some found)
    else if same_pointer (some found) r.toggle_code
    then (cleared, some found)
    else (cleared, none)

-- The whole signal as one number, a repeat with its repeat mask undone.
unfoldable pub whole_code : RemoteConf → Bool → Parts → ℕ
whole_code r repeat_flag p =
    let all = gen_ir_code r p.pre p.code p.post in
    if repeat_flag && has_repeat_mask r then bit_xor all r.repeat_mask else all

-- The code that was found, with the state of the toggle bits in the signal. `dyncodes` is the static
-- switch for unknown buttons.
unfoldable pub get_code : Bool → IrRemote → Parts → Bool → IrRemote × Option (CodeRef × ℕ)
unfolding flip_toggle_mask right_remote whole_code take_dyncode pair_toggle
get_code dyncodes r parts repeat_flag =
    let toggles = has_toggle_mask r.conf && not (r.toggle_mask_state % 2 == 0) in
    let p = if toggles then flip_toggle_mask r.conf parts else parts in
    let all = whole_code r.conf repeat_flag p in
    let start : Search = record { found = none; found_code = false; have_code = false } in
    let (codes, s) = scan_codes r.conf all repeat_flag 0 r.codes start in
    let r' = record r { codes = codes } in
    let state = bit_and all r.toggle_bit_mask in
    let paired : IrRemote → CodeRef → IrRemote × Option (CodeRef × ℕ) = λ r found.
      let (r'', result) = pair_toggle r found in
      elim result [ none ↦ (r'', none) | some c ↦ (r'', some (c, state)) ] in
    let unknown : IrRemote × Option (CodeRef × ℕ) =
      let (r'', c) = take_dyncode p.code r' in
      if dyncodes && not s.found_code then paired r'' c else (r', none) in
    let result : IrRemote × Option (CodeRef × ℕ) = elim s.found [
      | none ↦ unknown
      | some i ↦ paired r' (in_codes i)
    ] in
    if right_remote r.conf p then result else (r, none)
