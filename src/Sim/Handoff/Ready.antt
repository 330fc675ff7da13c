-- ===== src/Sim/Handoff/Ready.antt =====
-- handoff.rs: the marks agree with the buffers, and no payload waits unnoticed.
use mathlib.Core.Path.{subst}
use umwelt_rs.Base.{
  ℕ, ◌+◌, ◌≤◌, ◌≡◌, ◌≢◌, refl, sym, ap, ◌∙◌, arith, Bool, true, false, leb, ◌&&◌, ◌||◌, ◌==◌,
  ==_iff, not, if◌then◌else◌, List, [], ◌∷◌, ◌++◌, length, length-append, get_or, Bool-cases, inl,
  inr,
}
use umwelt_rs.Base.Arrays.{set, get_or-lt}
use umwelt_rs.Base.Sets.{member, member-append}
use umwelt_rs.Sim.Handoff.{
  Payload, Slot, slot_default, free, by_tick, by_io, Io, parked, scanning, draining, holding,
  sending, stopped, Shared, is_nil, slot_of, stash, signal, drop_frame, grow, wake, leave, scan,
  scan_end, lock, take, deliver, end_pass, panic, close,
}
use umwelt_rs.Sim.Handoff.Steps.{
  Step, grows, stashes, signals, misses, wakes, leaves, scans, scans_end, locks, takes, delivers,
  ends, panics, closes, Reach, start, step_on,
}
use umwelt_rs.Sim.Handoff.Kept.{
  covers, excused, in_call, alive_at, IsKept, IsSound, differ, not_nil, write, still, default_of,
  past_end,
}

module _ (s : Shared) (h : IsSound s) where
  stash-IsSound : (i : ℕ) (p : Payload) → p ≢ [] → IsSound (stash i p s)
  unfolding stash
  stash-IsSound i p r = record {
    slots =
        write (excused s) s.io i (record { buf = p; ready = true; lock = by_tick }) s.slots
          (record { marked = ground (arith, not_nil p r); awaited = λ q. ground arith })
          (λ j t. h.slots j);
    count = h.count;
    gone = h.gone;
    over = h.over;
    last = h.last;
  }

  signal-IsSound : (i : ℕ) → IsSound (signal i s)
  unfolding signal
  signal-IsSound i = record {
    slots =
        write true s.io i (record (slot_of s i) { lock = free }) s.slots
          (record { marked = (h.slots i).marked; awaited = λ q. refl })
          (λ j t. still (excused s) true s.io s.io j (slot_of s j) (h.slots j) (λ q n. refl));
    count = h.count;
    gone = h.gone;
    over = h.over;
    last = h.last;
  }

  grow-IsSound : (i : ℕ) → IsSound (grow i s)
  unfolding grow
  grow-IsSound i = record {
    slots = λ j.
        subst (λ (v : Slot). IsKept (excused s) s.io j v) (sym (default_of s.slots (i + 1) j))
          (h.slots j);
    count = h.count;
    gone = h.gone;
    over = h.over;
    last = h.last;
  }

  -- A pass that begins covers every slot.
  begins-IsSound :
      (closing has_work : Bool)
      → s.io ≡ parked
      → (closing ≡ true → s.running ≡ false)
      → IsSound (record s { closing = closing; has_work = has_work; io = scanning 0 [] })
  begins-IsSound closing has_work e last =
      let live = alive_at s parked h e refl (λ w. cc) in
      record {
        slots = λ j.
            still (excused s) (has_work || not s.alive) s.io (scanning 0 []) j (slot_of s j)
              (h.slots j) (λ q n. ground arith);
        count = h.count;
        gone = λ f. absurd (differ (sym f ∙ live));
        over = λ w. absurd (cc);
        last = last;
      }

  scan-IsSound : (i : ℕ) (found : List ℕ) → s.io ≡ scanning i found → IsSound (scan i found s)
  unfolding scan member
  scan-IsSound i found e =
      let live = alive_at s (scanning i found) h e refl (λ w. cc) in
      record {
        slots = λ j.
            let k = subst (λ (io : Io). IsKept (excused s) io j (slot_of s j)) e (h.slots j) in
            still (excused s) (excused s) (scanning i found)
              (scanning (i + 1) (if (slot_of s i).ready then found ++ i ∷ [] else found)) j
              (slot_of s j) k
              (λ q n. elim (Bool-cases (slot_of s i).ready) [
                | inl t ↦ rw (t, member-append j found (i ∷ [])) (ground (arith, n))
                | inr t ↦
                    let apart : i ≢ j =
                      λ w. differ (sym t ∙ ap (λ (x : ℕ). (slot_of s x).ready) w ∙ q) in
                    rw t (ground (arith, n, apart))
              ]);
        count = h.count;
        gone = λ f. absurd (differ (sym f ∙ live));
        over = λ w. absurd (cc);
        last = h.last;
      }

  take-IsSound : (i : ℕ) (rest : List ℕ) → s.io ≡ holding i rest → IsSound (take i rest s)
  unfolding take member
  take-IsSound i rest e =
      let live = alive_at s (holding i rest) h e refl (λ w. cc) in
      let k = λ (j : ℕ). subst (λ (io : Io). IsKept (excused s) io j (slot_of s j)) e (h.slots j) in
      let v : Slot = record { buf = []; ready = false; lock = free } in
      let old : (io : Io)
          → ((j : ℕ) → covers io j ≡ member j rest)
          → (j : ℕ) → IsKept (excused s) io j (get_or (set s.slots i v) j slot_default) =
        λ io c.
          write (excused s) io i v s.slots
            (record { marked = refl; awaited = λ q. absurd (differ q) })
            (λ j t. still (excused s) (excused s) (holding i rest) io j (slot_of s j) (k j) (λ q n.
              rw (c j) (elim (Bool-cases (i == j)) [
                | inl w ↦ absurd (differ (sym (past_end i j s.slots w t) ∙ q))
                | inr w ↦ ground (arith, n, w)
              ]))) in
      elim (Bool-cases (is_nil (slot_of s i).buf)) [
        | inl t ↦ rw t (record {
          slots = old (draining rest) (λ j. refl);
          count = h.count;
          gone = λ f. absurd (differ (sym f ∙ live));
          over = λ w. absurd (cc);
          last = h.last;
        })
        | inr t ↦ rw t (record {
          slots = old (sending i (slot_of s i).buf rest) (λ j. refl);
          count = h.count;
          gone = λ f. absurd (differ (sym f ∙ live));
          over = λ w. absurd (cc);
          last = h.last;
        })
      ]

  deliver-IsSound :
      (i : ℕ) (p : Payload) (rest : List ℕ)
      → s.io ≡ sending i p rest
      → s.alive ≡ true
      → IsSound (deliver i p rest s)
  unfolding deliver
  deliver-IsSound i p rest e live = record {
    slots = λ j.
        still (excused s) (excused s) (sending i p rest) (draining rest) j (slot_of s j)
          (subst (λ (io : Io). IsKept (excused s) io j (slot_of s j)) e (h.slots j)) (λ q n. n);
    count = omega (arith, h.count, length-append s.sent ((i, p) ∷ []));
    gone = λ f. absurd (differ (sym f ∙ live));
    over = λ w. absurd (cc);
    last = h.last;
  }

  end_pass-IsSound : s.io ≡ draining [] → IsSound (end_pass s)
  unfolding end_pass member
  end_pass-IsSound e =
      let live = alive_at s (draining []) h e refl (λ w. cc) in
      let k = λ (j : ℕ). subst (λ (io : Io). IsKept (excused s) io j (slot_of s j)) e (h.slots j) in
      elim (Bool-cases s.closing) [
        | inl t ↦ rw t (record {
          slots = λ j.
              still (excused s) (s.has_work || not (s.alive && false)) (draining []) stopped j
                (slot_of s j) (k j) (λ q n. ground arith);
          count = h.count;
          gone = λ f. inr (refl, h.last t);
          over = λ w. ground arith;
          last = λ w. h.last t;
        })
        | inr t ↦ rw t (record {
          slots = λ j.
              still (excused s) (s.has_work || not (s.alive && true)) (draining []) parked j
                (slot_of s j) (k j) (λ q n. ground (arith, n));
          count = h.count;
          gone = λ f. absurd (ground (arith, live, f));
          over = λ w. absurd (cc);
          last = λ w. absurd (differ w);
        })
      ]

  lock-IsSound : (i : ℕ) (rest : List ℕ) → s.io ≡ draining (i ∷ rest) → IsSound (lock i rest s)
  unfolding lock member
  lock-IsSound i rest e =
      let live = alive_at s (draining (i ∷ rest)) h e refl (λ w. cc) in
      let k = λ (j : ℕ). subst (λ (io : Io). IsKept (excused s) io j (slot_of s j)) e (h.slots j) in
      record {
        slots =
            write (excused s) (holding i rest) i (record (slot_of s i) { lock = by_io }) s.slots
              (record { marked = (h.slots i).marked; awaited = λ q. ground (arith, self i) })
              (λ j t.
                still (excused s) (excused s) (draining (i ∷ rest)) (holding i rest) j (slot_of s j)
                  (k j) (λ q n. n));
        count = h.count;
        gone = λ f. absurd (differ (sym f ∙ live));
        over = λ w. absurd (cc);
        last = h.last;
      }
    where
      self : (i : ℕ) → (i == i) ≡ true
      self i = (==_iff i i).1 refl

  drop_frame-IsSound : IsSound (drop_frame s)
  unfolding drop_frame
  drop_frame-IsSound = record {
    slots = h.slots;
    count = h.count;
    gone = h.gone;
    over = h.over;
    last = h.last;
  }

  panic-IsSound :
      (i : ℕ) (p : Payload) (rest : List ℕ) → s.io ≡ sending i p rest → IsSound (panic s)
  unfolding panic
  panic-IsSound i p rest e = record {
    slots = λ j.
        still (excused s) (s.has_work || true) s.io s.io j (slot_of s j) (h.slots j)
          (λ q n. ground arith);
    count = h.count;
    gone = λ f. inl (ap in_call e);
    over = λ w. refl;
    last = h.last;
  }

  close-IsSound : IsSound (close s)
  unfolding close
  close-IsSound = record {
    slots = h.slots;
    count = h.count;
    gone = λ f. elim (h.gone f) [ inl c ↦ inl c | inr (c, _) ↦ inr (c, refl) ];
    over = h.over;
    last = λ w. refl;
  }

  scan_end-IsSound :
      (i : ℕ) (found : List ℕ)
      → s.io ≡ scanning i found
      → length s.slots ≤ i
      → IsSound (scan_end found s)
  unfolding scan_end
  scan_end-IsSound i found e l =
      let live = alive_at s (scanning i found) h e refl (λ w. cc) in
      record {
        slots = λ j.
            still (excused s) (excused s) (scanning i found) (draining found) j (slot_of s j)
              (subst (λ (io : Io). IsKept (excused s) io j (slot_of s j)) e (h.slots j))
              (λ q n. elim (Bool-cases (leb i j)) [
                | inl t ↦
                    let none : (slot_of s j).ready ≡ false =
                      ap (λ (v : Slot). v.ready) (get_or-lt s.slots j slot_default (grind arith)) in
                    absurd (differ (sym none ∙ q))
                | inr t ↦ ground (arith, n, t)
              ]);
        count = h.count;
        gone = λ f. absurd (differ (sym f ∙ live));
        over = λ w. absurd (cc);
        last = h.last;
      }

pub Step-IsSound : {s t : Shared} → Step s t → IsSound s → IsSound t
unfolding wake leave
Step-IsSound {s} (grows i r l) h = grow-IsSound s h i
Step-IsSound {s} (stashes i p l r f) h = stash-IsSound s h i p r
Step-IsSound {s} (signals i f) h = signal-IsSound s h i
Step-IsSound {s} (misses i f) h = drop_frame-IsSound s h
Step-IsSound {s} (wakes e r w) h = begins-IsSound s h s.closing false e h.last
Step-IsSound {s} (leaves e r) h = begins-IsSound s h true s.has_work e (λ w. r)
Step-IsSound {s} (scans i found e l) h = scan-IsSound s h i found e
Step-IsSound {s} (scans_end i found e l) h = scan_end-IsSound s h i found e l
Step-IsSound {s} (locks i rest e f) h = lock-IsSound s h i rest e
Step-IsSound {s} (takes i rest e) h = take-IsSound s h i rest e
Step-IsSound {s} (delivers i p rest e a) h = deliver-IsSound s h i p rest e a
Step-IsSound {s} (ends e) h = end_pass-IsSound s h e
Step-IsSound {s} (panics i p rest e) h = panic-IsSound s h i p rest e
Step-IsSound {s} closes h = close-IsSound s h

pub Reach-IsSound : {s : Shared} {stashed : List (ℕ × Payload)} → Reach s stashed → IsSound s
Reach-IsSound start = record {
  slots = λ j. record { marked = refl; awaited = λ q. absurd (differ q) };
  count = refl;
  gone = λ f. absurd (differ (sym f));
  over = λ w. absurd (cc);
  last = λ w. absurd (differ w);
}
Reach-IsSound (step_on r x) = Step-IsSound x (Reach-IsSound r)
