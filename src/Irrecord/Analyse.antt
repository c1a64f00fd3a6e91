-- ===== src/Irrecord/Analyse.antt =====
-- What lib/irrecord.c concludes from the histograms of a remote: `get_trail_length`,
-- `get_lead_length`, `get_header_length` and `get_repeat_length`.
-- A histogram without any item is the null pointer.
pub mod Scheme
use lirc.Base.{ℕ, zero, suc, ◌+◌, ◌-◌, ◌*◌, ◌/◌, ◌%◌, ◌^◌, min, max, List, [], ◌∷◌, Option, none}
use lirc.Base.{some, Bool, true, false, not, ◌&&◌, ◌||◌, ltb, leb, ◌==◌, if◌then◌else◌, get_or}
use lirc.Base.{bit_and, bit_or}
use lirc.Base.Int.{pos}
use lirc.Remote.{IrRemote, RemoteConf}
use lirc.Remote.Flags.{is_biphase, is_rc6, has_header, no_head_rep, repeat_header, const_length}
use lirc.Remote.Tolerance.{distance}
use lirc.Irrecord.{Lengths, Recording}
use lirc.Irrecord.Histogram.{calc_signal, MaxLength, get_max_length, unlink_length}

-- What a call comes to: it returns, it follows a null pointer, or it never ends.
pub data Run (A : Type 0) : Type 0 where
  settled : A → Run A
  null_pointer : Run A
  endless : Run A

-- A remote's configuration, the recording, and the `int` that is returned.
pub record Analysed : Type 0 where
  pub conf : RemoteConf
  pub recording : Recording
  pub ok : Bool

-- `max_length->count`, where the list may be empty.
unfoldable pub with_max : List Lengths → (MaxLength → Run Analysed) → Run Analysed
with_max ls k = elim (get_max_length ls) [ none ↦ null_pointer | some m ↦ k m ]

-- `max_count >= sum * threshold / 100`.
unfoldable pub dominates : MaxLength → ℕ → Bool
dominates m threshold = leb (m.total * threshold % 2 ^ 32 / 100) m.item.count

unfoldable pub get_trail_length : RemoteConf → Recording → Run Analysed
unfolding with_max dominates
get_trail_length r s =
    if is_biphase r
    then settled (record { conf = r; recording = s; ok = true })
    else with_max s.trails (λ m. settled (record {
      conf = if dominates m 90 then record r { ptrail = calc_signal m.item } else r;
      recording = s;
      ok = true;
    }))

-- The list that `first_1lead` points to afterwards: without the item that was unlinked, unless
-- that one was its head.
unfoldable pub leads_left : List Lengths → MaxLength → List Lengths
leads_left ls m = if m.position == 0 then ls else unlink_length ls m.position

-- `eps` and `aeps` are the variables of irrecord.c.
module _ (eps aeps : ℕ) where
  -- A lead pulse hides in a longer pulse of twice its length.
  unfoldable pub is_hidden_lead : ℕ → ℕ → Bool
  is_hidden_lead a b =
      let d = distance (pos (2 * a)) (pos b) in ltb d (b * eps % 2 ^ 32 / 100) || ltb d aeps

  unfoldable pub hidden_lead : RemoteConf → Recording → MaxLength → Run Analysed
  unfolding with_max is_hidden_lead leads_left
  hidden_lead r s m = with_max (unlink_length s.leads1 m.position) (λ m2.
      let a = min (calc_signal m.item) (calc_signal m2.item) in
      let b = max (calc_signal m.item) (calc_signal m2.item) in
      settled (record {
        conf = if is_hidden_lead a b then record r { plead = a } else r;
        recording = record s { leads1 = leads_left s.leads1 m };
        ok = true;
      }))

  -- With a header it has returned before, so that the list is always `first_1lead`.
  unfoldable pub get_lead_length : RemoteConf → Recording → Run Analysed
  unfolding with_max dominates hidden_lead
  get_lead_length r s =
      let same = settled (record { conf = r; recording = s; ok = true }) in
      if not (is_biphase r) || has_header r || is_rc6 r
      then same
      else with_max s.leads1 (λ m.
        if dominates m 90
        then settled
            (record { conf = record r { plead = calc_signal m.item }; recording = s; ok = true })
        else hidden_lead r s m)

unfoldable pub get_header_length : RemoteConf → Recording → Run Analysed
unfolding with_max dominates
get_header_length r s =
    let same : Run Analysed = settled (record { conf = r; recording = s; ok = true }) in
    elim (get_max_length s.headerp) [
      | none ↦ same
      | some p ↦
          if dominates p 90
          then (with_max s.headers (λ h.
              if dominates h 90
              then (let r' = record r { phead = calc_signal p.item; shead = calc_signal h.item } in
                  settled (record {
                    conf =
                        if ltb s.first_lengths s.second_lengths
                        then record r' { flags = bit_or r.flags no_head_rep }
                        else r';
                    recording = s;
                    ok = true;
                  }))
              else same))
          else same
    ]

unfoldable pub repeat_flags : RemoteConf → Recording → ℕ
repeat_flags r s =
    if ltb s.count_3repeats s.count_5repeats && has_header r
    then bit_or r.flags repeat_header
    else r.flags

-- The gap between repeats is only asked for where the length of a signal is not constant.
unfoldable pub repeat_found : RemoteConf → Recording → MaxLength → MaxLength → Run Analysed
unfolding with_max repeat_flags
repeat_found r s p h =
    let flags' = repeat_flags r s in
    let r' = record r {
      flags = flags';
      prepeat = calc_signal p.item;
      srepeat = calc_signal h.item;
    } in
    if bit_and flags' const_length == 0
    then (with_max s.repeat_gaps (λ g. settled (record {
      conf = record r' { repeat_gap = calc_signal g.item };
      recording = s;
      ok = true;
    })))
    else settled (record { conf = r'; recording = s; ok = true })

unfoldable pub get_repeat_length : RemoteConf → Recording → Run Analysed
unfolding with_max dominates repeat_found
get_repeat_length r s =
    let same : Run Analysed = settled (record { conf = r; recording = s; ok = true }) in
    let refused : Run Analysed = settled (record { conf = r; recording = s; ok = false }) in
    let threes = ltb 40 s.count_3repeats in
    let fives = ltb 40 s.count_5repeats in
    if threes && fives
    then refused
    else if not threes && not fives
    then same
    else (with_max s.repeatp (λ p.
        if dominates p 90
        then (with_max s.repeats (λ h.
            if dominates h 90
            then if ltb s.count_3repeats s.count_5repeats && not (has_header r)
              then refused
              else repeat_found r s p h
            else same))
        else same))
