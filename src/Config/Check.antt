-- ===== src/Config/Check.antt =====
-- `sanityChecks` of lib/config_file.c; what it only logs is left out.
pub mod Laws
use lirc.Base.{ℕ, Bool, true, false, not, if◌then◌else◌, bit_and, List, map, Option, none, some}
use lirc.Remote.{RemoteConf, IrNcode}
use lirc.Remote.Code.{gen_mask}
use lirc.Remote.Flags.{is_raw}
use lirc.Config.{Draft}

-- A value is cut to its width; where it fits, that changes nothing.
unfoldable pub cut : ℕ → ℕ → ℕ
unfolding gen_mask
cut x bits = bit_and x (gen_mask bits)

unfoldable pub cut_code : ℕ → IrNcode → IrNcode
unfolding cut
cut_code bits c = record c { code = cut c.code bits; next = map (λ x. cut x bits) c.next }

-- The remote, and whether it is accepted.
unfoldable pub sanity_checks : Draft → Draft × Bool
unfolding cut cut_code
sanity_checks d =
    let c = d.conf in
    let conf : RemoteConf = record c {
      pre_data = cut c.pre_data c.pre_data_bits;
      post_data = cut c.post_data c.post_data_bits;
    } in
    let e : Draft = record d { conf = conf } in
    let checked : Draft × Bool = elim d.codes [
      | none ↦ (e, false)
      | some cs ↦ (record e { codes = some (map (cut_code c.bits) cs) }, true)
    ] in
    if not d.named then (d, false) else if is_raw c then (d, true) else checked
