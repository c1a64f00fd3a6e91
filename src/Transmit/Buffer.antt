-- ===== src/Transmit/Buffer.antt =====
-- What the operations of the sending buffer do to a signal: pulses and spaces that follow one
-- another are merged, and a leading space is dropped.
pub mod Merge
pub mod Stored
pub mod Refine
pub mod Sync
use lirc.Base.{ℕ, ◌+◌, List, [], ◌∷◌, ◌<◌}
use lirc.Transmit.{SendBuffer, send_pulse, send_space}

-- One call of `send_pulse` or `send_space`.
pub data Event : Type 0 where
  pulse space : ℕ → Event

unfoldable pub send_event : Event → SendBuffer → SendBuffer
send_event (pulse d) b = send_pulse d b
send_event (space d) b = send_space d b

unfoldable pub send_events : List Event → SendBuffer → SendBuffer
send_events [] b = b
send_events (e ∷ es) b = send_events es (send_event e b)

abbrev pub duration : Event → ℕ
duration (pulse d) = d
duration (space d) = d

-- A signal is the list of its durations: pulses at even positions, spaces at odd ones.
unfoldable pub merge : List ℕ → Event → List ℕ
merge [] (pulse d) = d ∷ []
merge [] (space d) = []
merge (x ∷ []) (pulse d) = (x + d) ∷ []
merge (x ∷ []) (space d) = x ∷ d ∷ []
merge (x ∷ y ∷ []) (pulse d) = x ∷ y ∷ d ∷ []
merge (x ∷ y ∷ []) (space d) = x ∷ (y + d) ∷ []
merge (x ∷ y ∷ z ∷ r) e = x ∷ y ∷ merge (z ∷ r) e

unfoldable pub merge_all : List ℕ → List Event → List ℕ
merge_all ds [] = ds
merge_all ds (e ∷ es) = merge_all (merge ds e) es

-- A signal ends with a pulse: a space at its end is dropped.
unfoldable pub trimmed : List ℕ → List ℕ
trimmed [] = []
trimmed (x ∷ []) = x ∷ []
trimmed (x ∷ y ∷ []) = x ∷ []
trimmed (x ∷ y ∷ z ∷ r) = x ∷ y ∷ trimmed (z ∷ r)
