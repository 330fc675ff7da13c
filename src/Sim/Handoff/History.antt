-- ===== src/Sim/Handoff/History.antt =====
-- handoff.rs: what reaches the wrapped sink.
use mathlib.Core.List.{Sublist, sublist-append_left}
use mathlib.Core.List.Sublist
use umwelt_rs.Base.{ℕ, ◌≡◌, refl, sym, ap, ◌∙◌, List, [], ◌++◌, append-nil}
use umwelt_rs.Sim.Handoff.{
  Payload, parked, scanning, Shared, slot_of, signal, drop_frame, grow, wake, leave, scan, scan_end,
  lock, take, deliver, end_pass, panic, close,
}
use umwelt_rs.Sim.Handoff.Steps.{
  Step, grows, stashes, signals, misses, wakes, leaves, scans, scans_end, locks, takes, delivers,
  ends, panics, closes, payloads_of, Reach, start, step_on,
}
use umwelt_rs.Sim.Handoff.Line.{
  for_viewer, last_of, waiting, in_flight, line, IsLatest, line-signal, line-grow, line-lock,
  line-take, line-deliver, line-end_pass, idle_line, stash-IsLatest, kept_line,
}

pub Step-IsLatest :
    {s t : Shared} (x : Step s t) (j : ℕ) (stashed : List (ℕ × Payload))
    → IsLatest (line s j) (for_viewer j stashed)
    → IsLatest (line t j) (for_viewer j (stashed ++ payloads_of x))
unfolding wake leave scan scan_end drop_frame panic close end_pass
Step-IsLatest {s} (stashes i p l r f) j stashed h = stash-IsLatest s i j p stashed l r h
Step-IsLatest {s} (grows i r l) j stashed h = kept_line s (grow i s) j stashed (line-grow s i) h
Step-IsLatest {s} (signals i f) j stashed h = kept_line s (signal i s) j stashed (line-signal s i) h
Step-IsLatest {s} (misses i f) j stashed h = kept_line s (drop_frame s) j stashed (λ k. refl) h
Step-IsLatest {s} (wakes e r w) j stashed h =
    kept_line s (wake s) j stashed (λ k. idle_line s parked e k refl) h
Step-IsLatest {s} (leaves e r) j stashed h =
    kept_line s (leave s) j stashed (λ k. idle_line s parked e k refl) h
Step-IsLatest {s} (scans i found e l) j stashed h =
    kept_line s (scan i found s) j stashed (λ k. idle_line s (scanning i found) e k refl) h
Step-IsLatest {s} (scans_end i found e l) j stashed h =
    kept_line s (scan_end found s) j stashed (λ k. idle_line s (scanning i found) e k refl) h
Step-IsLatest {s} (locks i rest e f) j stashed h =
    kept_line s (lock i rest s) j stashed (line-lock s i rest e) h
Step-IsLatest {s} (takes i rest e) j stashed h =
    kept_line s (take i rest s) j stashed (line-take s i rest e) h
Step-IsLatest {s} (delivers i p rest e a) j stashed h =
    kept_line s (deliver i p rest s) j stashed (line-deliver s i p rest e) h
Step-IsLatest {s} (ends e) j stashed h = kept_line s (end_pass s) j stashed (line-end_pass s e) h
Step-IsLatest {s} (panics i p rest e) j stashed h = kept_line s (panic s) j stashed (λ k. refl) h
Step-IsLatest {s} closes j stashed h = kept_line s (close s) j stashed (λ k. refl) h

pub Reach-IsLatest :
    {s : Shared} {stashed : List (ℕ × Payload)}
    → Reach s stashed
    → (j : ℕ) → IsLatest (line s j) (for_viewer j stashed)
unfolding for_viewer
Reach-IsLatest start j = record { among = Sublist.refl []; newest = refl }
Reach-IsLatest (step_on {s} {t} {stashed} r x) j = Step-IsLatest x j stashed (Reach-IsLatest r j)

-- Whatever steps the threads have taken, in whatever order, the wrapped sink was handed, for each
-- viewer, payloads that were stashed for it, in their order; and when the buffer of the viewer is
-- empty and no payload of it is in a call, the last one stashed was the last one handed over.
pub handoff_lem :
    (s : Shared) (stashed : List (ℕ × Payload))
    → Reach s stashed
    → (j : ℕ)
    → Sublist (for_viewer j s.sent) (for_viewer j stashed)
      × ((slot_of s j).buf ≡ []
          → in_flight s.io j ≡ []
          → last_of (for_viewer j s.sent) ≡ last_of (for_viewer j stashed))
handoff_lem s stashed r j =
    let h = Reach-IsLatest r j in
    (
      Sublist.trans
          (sublist-append_left (for_viewer j s.sent) (in_flight s.io j ++ waiting (slot_of s j)))
          h.among,
      λ empty landed.
          let none_waits : waiting (slot_of s j) ≡ [] = rw empty refl in
          let all : line s j ≡ for_viewer j s.sent =
            rw (landed, none_waits) (append-nil (for_viewer j s.sent)) in
          ap last_of (sym all) ∙ h.newest,
    )
