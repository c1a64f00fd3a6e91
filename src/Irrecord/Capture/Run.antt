-- ===== src/Irrecord/Capture/Run.antt =====
-- `analyse_get_lengths` of lib/irrecord.c: `get_lengths` for one duration after the other. What the
-- driver gives is a list; after its end `readdata` gives 0.
use lirc.Base.{ℕ, List, [], ◌∷◌, none, Bool, true, false, if◌then◌else◌}
use lirc.Remote.{RemoteConf}
use lirc.Irrecord.{Recording}
use lirc.Irrecord.Analyse.{Run, settled, null_pointer, endless}
use lirc.Irrecord.Capture.{LengthsState, LengthsStatus, len_ok, len_again, len_again_info}
use lirc.Irrecord.Capture.{mode_get_gap}
use lirc.Irrecord.Capture.Gap.{Captured}
use lirc.Irrecord.Capture.Step.{get_lengths}

-- The statuses with which the loop goes on, and the one that ends it with success.
unfoldable pub keeps_reading : LengthsStatus → Bool
keeps_reading len_again = true
keeps_reading len_again_info = true
keeps_reading _ = false

unfoldable pub is_ok : LengthsStatus → Bool
is_ok len_ok = true
is_ok _ = false

-- What `lengths_state_init` leaves, and the counters that it resets.
unfoldable pub lengths_state_init : LengthsState
lengths_state_init = record {
  keypresses = 0;
  retval = true;
  count = 0;
  current = 0;
  average = 0;
  maxspace = 0;
  total = 0;
  remaining_gap = 0;
  header = 0;
  first_signal = none;
  mode = mode_get_gap;
}

unfoldable pub reset_counters : Recording → Recording
reset_counters s = record s {
  count_spaces = 0;
  count_3repeats = 0;
  count_5repeats = 0;
  count_signals = 0;
  first_length = 0;
  first_lengths = 0;
  second_lengths = 0;
}

-- The remote's configuration and the recording after the loop, and whether it succeeded.
pub record Measurement : Type 0 where
  pub conf : RemoteConf
  pub recording : Recording
  pub success : Bool

-- A call after the one that has returned.
unfoldable pub after_call : Run Captured → (Captured → Run Measurement) → Run Measurement
after_call null_pointer k = null_pointer
after_call endless k = endless
after_call (settled c) k = k c

unfoldable pub follows_null : {A : Type 0} → Run A → Bool
follows_null null_pointer = true
follows_null _ = false

abbrev ended : Captured → Run Measurement
ended c = settled (record { conf = c.conf; recording = c.recording; success = is_ok c.status })

module _ (resolution eps aeps : ℕ) where
  unfoldable pub analyse_get_lengths :
      RemoteConf → LengthsState → Recording → List ℕ → Run Measurement
  unfolding keeps_reading after_call
  analyse_get_lengths r state s [] =
      after_call (get_lengths resolution eps aeps r state s false 0) ended
  analyse_get_lengths r state s (d ∷ ds) =
      after_call (get_lengths resolution eps aeps r state s false d) (λ c.
        if keeps_reading c.status
        then analyse_get_lengths c.conf c.state c.recording ds
        else ended c)
