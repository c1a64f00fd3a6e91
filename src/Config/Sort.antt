-- ===== src/Config/Sort.antt =====
-- `sort_by_bit_count` of lib/config_file.c: the remotes that decode faster come first.
pub mod Laws
use lirc.Base.{
  ℕ, Bool, true, false, not, ◌&&◌, ◌||◌, ltb, ◌==◌, if◌then◌else◌, length, List, [], ◌∷◌,
}
use lirc.Base.{Option, none, some}
use lirc.Base.Int.{ℤ, pos, negsuc}
use lirc.Remote.{bit_count}
use lirc.Remote.Flags.{is_raw}
use lirc.Config.{Draft}

-- The number of codes; every remote that is sorted has a list of them, since
-- `calculate_signal_lengths` has gone through it.
abbrev pub code_count : Draft → ℕ
code_count d = elim d.codes [ none ↦ 0 | some cs ↦ length cs ]

abbrev pub compare_sizes : ℕ → ℕ → ℤ
compare_sizes a b = if a == b then pos 0 else if ltb a b then negsuc 0 else pos 1

unfoldable pub remote_bits_cmp : Draft → Draft → ℤ
unfolding is_raw bit_count
remote_bits_cmp r1 r2 =
    let raw1 = is_raw r1.conf in
    let raw2 = is_raw r2.conf in
    if not raw1 && raw2
    then negsuc 0
    else if raw1 && not raw2
    then pos 1
    else if raw1 && raw2
    then compare_sizes (code_count r1) (code_count r2)
    else compare_sizes (bit_count r1.conf) (bit_count r2.conf)

abbrev pub not_after : ℤ → Bool
not_after (pos n) = n == 0
not_after (negsuc n) = true

-- The scan for the place of a remote.
unfoldable pub insert_remote : Draft → List Draft → List Draft
unfolding remote_bits_cmp
insert_remote rem [] = rem ∷ []
insert_remote rem (scan ∷ rs) = elim (not_after (remote_bits_cmp scan rem)) [
  | true ↦ scan ∷ insert_remote rem rs
  | false ↦ rem ∷ scan ∷ rs
]

unfoldable pub sort_loop : List Draft → List Draft → List Draft
unfolding insert_remote
sort_loop top [] = top
sort_loop top (rem ∷ rs) = sort_loop (insert_remote rem top) rs

unfoldable pub any_manual : List Draft → Bool
any_manual [] = false
any_manual (r ∷ rs) = not (r.manual_sort == 0) || any_manual rs

-- `none` is the list `(void*)-1` of a failed reading: both loops stop at it.
unfoldable pub sort_by_bit_count : Option (List Draft) → List Draft
unfolding sort_loop any_manual
sort_by_bit_count none = []
sort_by_bit_count (some remotes) = if any_manual remotes then remotes else sort_loop [] remotes
