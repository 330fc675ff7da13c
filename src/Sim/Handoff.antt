-- ===== src/Sim/Handoff.antt =====
-- handoff.rs: what the threads of the tick leave, and the thread that drains it. A state is what the
-- threads share, where the I/O thread stands, and what the wrapped sink was handed.
pub mod Steps
pub mod Kept
pub mod Ready
pub mod Line
pub mod History
use umwelt_rs.Base.{
  ℕ, zero, suc, ◌+◌, ◌-◌, Bool, true, false, leb, ◌==◌, ◌&&◌, ◌||◌, not, if◌then◌else◌, List, [],
  ◌∷◌, ◌++◌, length, get_or,
}
use umwelt_rs.Base.Arrays.{set, resize}
use umwelt_rs.Base.Sets.{member}

abbrev pub Payload : Type 0
Payload = List ℕ

-- Who holds the lock of a slot's buffer.
pub data Holder : Type 0 where
  free : Holder
  by_tick : Holder
  by_io : Holder

pub record Slot : Type 0 where
  pub buf : Payload
  pub ready : Bool
  pub lock : Holder

abbrev pub slot_default : Slot
slot_default = record { buf = []; ready = false; lock = free }

-- Where the I/O thread stands: between passes; at slot `i` of the scan, the ready ones found; about to
-- lock the first of those left; with a slot's lock; in a call of the wrapped sink; at its end.
pub data Io : Type 0 where
  parked : Io
  scanning : ℕ → List ℕ → Io
  draining : List ℕ → Io
  holding : ℕ → List ℕ → Io
  sending : ℕ → Payload → List ℕ → Io
  stopped : Io

pub record Shared : Type 0 where
  pub slots : List Slot
  pub has_work : Bool
  pub delivered : ℕ
  pub dropped : ℕ
  pub running : Bool
  pub alive : Bool
  pub io : Io
  -- The `ready` of the pass, and whether the pass is the last one.
  pub batch : List ℕ
  pub closing : Bool
  -- The calls of the wrapped sink, in order.
  pub sent : List (ℕ × Payload)
  pub flushes : ℕ

abbrev pub handoff_new : Shared
handoff_new = record {
  slots = [];
  has_work = false;
  delivered = 0;
  dropped = 0;
  running = true;
  alive = true;
  io = parked;
  batch = [];
  closing = false;
  sent = [];
  flushes = 0;
}

abbrev pub slot_of : Shared → ℕ → Slot
slot_of s i = get_or s.slots i slot_default

abbrev set_slot : ℕ → Slot → Shared → Shared
set_slot i v s = record s { slots = set s.slots i v }

-- `stash`, with the lock: the payload and its mark, and then the signal.
unfoldable pub stash : ℕ → Payload → Shared → Shared
stash i payload s = set_slot i (record { buf = payload; ready = true; lock = by_tick }) s

unfoldable pub signal : ℕ → Shared → Shared
signal i s = record (set_slot i (record (slot_of s i) { lock = free }) s) { has_work = true }

-- `stash`, without it.
unfoldable pub drop_frame : Shared → Shared
drop_frame s = record s { dropped = s.dropped + 1 }

-- `while slots.len() <= viewer.index() { slots.push(Slot::default()); }`.
unfoldable pub grow : ℕ → Shared → Shared
grow viewer s = record s { slots = resize s.slots (viewer + 1) slot_default }

-- A pass begins, on a signal or as the last one.
unfoldable pub wake : Shared → Shared
wake s = record s { has_work = false; io = scanning 0 [] }

unfoldable pub leave : Shared → Shared
leave s = record s { closing = true; io = scanning 0 [] }

unfoldable pub scan : ℕ → List ℕ → Shared → Shared
scan i found s = record s {
  io = scanning (i + 1) (if (slot_of s i).ready then found ++ i ∷ [] else found);
}

unfoldable pub scan_end : List ℕ → Shared → Shared
scan_end found s = record s { io = draining found; batch = found }

unfoldable pub lock : ℕ → List ℕ → Shared → Shared
lock i rest s = record (set_slot i (record (slot_of s i) { lock = by_io }) s) {
  io = holding i rest;
}

abbrev pub is_nil : Payload → Bool
is_nil [] = true
is_nil (b ∷ bs) = false

-- The buffer is swapped for the empty spare one, and the lock is given back.
unfoldable pub take : ℕ → List ℕ → Shared → Shared
take i rest s =
    let v = slot_of s i in
    let emptied = set_slot i (record { buf = []; ready = false; lock = free }) s in
    if is_nil v.buf
    then record emptied { io = draining rest }
    else record emptied { io = sending i v.buf rest }

unfoldable pub deliver : ℕ → Payload → List ℕ → Shared → Shared
deliver i payload rest s = record s {
  sent = s.sent ++ (i, payload) ∷ [];
  delivered = s.delivered + 1;
  io = draining rest;
}

abbrev any : List ℕ → ℕ
any [] = 0
any (i ∷ is) = 1

-- The batch is flushed; behind the last pass the thread ends.
unfoldable pub end_pass : Shared → Shared
end_pass s = record s {
  flushes = s.flushes + any s.batch;
  io = if s.closing then stopped else parked;
  alive = s.alive && not s.closing;
}

-- The wrapped sink panics, and takes the thread with it.
unfoldable pub panic : Shared → Shared
panic s = record s { alive = false }

unfoldable pub close : Shared → Shared
close s = record s { running = false }

unfoldable pub healthy : Shared → Bool
healthy s = s.alive

-- Slots whose buffer is not empty.
unfoldable pub pending_of : List Slot → ℕ
pending_of [] = 0
pending_of (v ∷ vs) = let rest = pending_of vs in if is_nil v.buf then rest else suc rest

unfoldable pub pending : Shared → ℕ
pending s = pending_of s.slots
