-- ===== src/Tests/Handoffs.antt =====
-- handoff.rs: one payload on its way, and a flush that looks while it is in a call of the sink.
use mathlib.Core.List.{Sublist}
use umwelt_rs.Base.{◌≡◌, refl, arith, [], ◌∷◌}
use umwelt_rs.Sim.Handoff.{
  Payload, Shared, handoff_new, slot_of, grow, stash, signal, wake, scan, scan_end, lock, take,
  deliver, pending, pending_of,
}
use umwelt_rs.Sim.Handoff.Steps.{
  grows, stashes, signals, wakes, scans, scans_end, locks, takes, delivers, Reach, start, step_on,
}
use umwelt_rs.Sim.Handoff.Line.{for_viewer, last_of, in_flight}
use umwelt_rs.Sim.Handoff.History.{handoff_lem}

abbrev payload : Payload
payload = 7 ∷ []

abbrev waiting_one : Shared
waiting_one = signal 0 (stash 0 payload (grow 0 handoff_new))

abbrev held_one : Shared
held_one = lock 0 [] (scan_end (0 ∷ []) (scan 0 [] (wake waiting_one)))

abbrev calling : Shared
calling = take 0 [] held_one

abbrev landed : Shared
landed = deliver 0 payload [] calling

calling-Reach : Reach calling ((0, payload) ∷ [])
unfolding grow stash signal wake scan scan_end lock take
calling-Reach =
    step_on
      (step_on
        (step_on
          (step_on
            (step_on
              (step_on
                (step_on (step_on start (grows 0 refl (omega arith)))
                  (stashes 0 payload (omega arith) (λ e. cc) refl))
                (signals 0 refl))
              (wakes refl refl refl))
            (scans 0 [] refl (omega arith)))
          (scans_end 1 (0 ∷ []) refl (omega arith)))
        (locks 0 [] refl refl))
      (takes 0 [] refl)

landed-Reach : Reach landed ((0, payload) ∷ [])
unfolding grow stash signal wake scan scan_end lock take deliver
landed-Reach = step_on calling-Reach (delivers 0 payload [] refl refl)

-- Nothing is pending, and nothing has reached the sink.
pending-calling : (pending calling ≡ 0) × (calling.sent ≡ [])
unfolding grow stash signal wake scan scan_end lock take pending pending_of
pending-calling = (refl, refl)

handoff_lem_example :
    Sublist (for_viewer 0 landed.sent) (for_viewer 0 ((0, payload) ∷ []))
    × ((slot_of landed 0).buf ≡ []
        → in_flight landed.io 0 ≡ []
        → last_of (for_viewer 0 landed.sent) ≡ last_of (for_viewer 0 ((0, payload) ∷ [])))
handoff_lem_example = handoff_lem landed ((0, payload) ∷ []) landed-Reach 0
