-- ===== src/Sim/Handoff/Steps.antt =====
-- handoff.rs: the steps that the threads take, in any order, and what they reach.
use umwelt_rs.Base.{ℕ, ◌≤◌, ◌<◌, ◌≡◌, ◌≢◌, Bool, true, false, List, [], ◌∷◌, ◌++◌, length}
use umwelt_rs.Sim.Handoff.{
  Payload, free, by_tick, Io, parked, scanning, draining, holding, sending, Shared, handoff_new,
  slot_of, stash, signal, drop_frame, grow, wake, leave, scan, scan_end, lock, take, deliver,
  end_pass, panic, close,
}

-- The I/O thread reads the slots, so they cannot grow.
abbrev pub reads_slots : Io → Bool
reads_slots (scanning i found) = true
reads_slots (holding i rest) = true
reads_slots io = false

-- One step: of a thread of the tick, of the I/O thread, or of who closes the handoff.
pub data Step (s : Shared) : Shared → Type 0 where
  grows : (i : ℕ) → reads_slots s.io ≡ false → length s.slots ≤ i → Step s (grow i s)
  stashes :
      (i : ℕ) (p : Payload)
      → i < length s.slots
      → p ≢ []
      → (slot_of s i).lock ≡ free
      → Step s (stash i p s)
  signals : (i : ℕ) → (slot_of s i).lock ≡ by_tick → Step s (signal i s)
  misses : (i : ℕ) → (slot_of s i).lock ≢ free → Step s (drop_frame s)
  wakes : s.io ≡ parked → s.running ≡ true → s.has_work ≡ true → Step s (wake s)
  leaves : s.io ≡ parked → s.running ≡ false → Step s (leave s)
  scans :
      (i : ℕ) (found : List ℕ)
      → s.io ≡ scanning i found
      → i < length s.slots
      → Step s (scan i found s)
  scans_end :
      (i : ℕ) (found : List ℕ)
      → s.io ≡ scanning i found
      → length s.slots ≤ i
      → Step s (scan_end found s)
  locks :
      (i : ℕ) (rest : List ℕ)
      → s.io ≡ draining (i ∷ rest)
      → (slot_of s i).lock ≡ free
      → Step s (lock i rest s)
  takes : (i : ℕ) (rest : List ℕ) → s.io ≡ holding i rest → Step s (take i rest s)
  delivers :
      (i : ℕ) (p : Payload) (rest : List ℕ)
      → s.io ≡ sending i p rest
      → s.alive ≡ true
      → Step s (deliver i p rest s)
  ends : s.io ≡ draining [] → Step s (end_pass s)
  panics : (i : ℕ) (p : Payload) (rest : List ℕ) → s.io ≡ sending i p rest → Step s (panic s)
  closes : Step s (close s)

abbrev pub payloads_of : {s t : Shared} → Step s t → List (ℕ × Payload)
payloads_of (stashes i p l r f) = (i, p) ∷ []
payloads_of _ = []

-- What the steps reach from a new handoff, and the payloads stashed on the way.
pub data Reach : Shared → List (ℕ × Payload) → Type 0 where
  start : Reach handoff_new []
  step_on :
      {s t : Shared} {stashed : List (ℕ × Payload)}
      → Reach s stashed
      → (x : Step s t) → Reach t (stashed ++ payloads_of x)
