-- ===== src/Lib.antt =====
-- umwelt: a library that simulates a region of a world and sends each viewer what is near it.
--
-- The program. A world is divided into square regions on a grid (src/map.rs), each simulated by one
-- server. A region is a box of powers of two, cut into cells (src/config.rs); positions are fixed
-- point numbers (src/fixed.rs, src/pos.rs). A viewer draws from the box of cells around its own
-- (src/subscription.rs). What it is told travels in payloads (src/packet.rs) of records
-- (src/codec.rs), as many as a budget allows (src/budget.rs), and every entity is named by a key that
-- an edge mints or a region composes (src/id.rs). Regions and edges exchange messages
-- (src/net/region/protocol.rs) that are read with one cursor (src/net/wire.rs); a region keeps which
-- edge manages which entity (src/net/region/edges.rs). An edge and its game clients exchange messages
-- of their own, framed on a stream (src/net/edge/protocol.rs), and an edge keeps a shadow of an
-- observer in each square that it sees into (src/net/edge/seam.rs). A region keeps, for each viewer,
-- what its client has been told of each entity (src/ghost.rs), sums how far each entity has moved
-- (src/odometer.rs), and selects by both what the next payload tells (src/select.rs); the payloads
-- are handed to their sink by a thread of its own (src/sim/handoff.rs).
--
-- The files. Each module models the file that its first line names:
--   Fixed         src/fixed.rs; Fixed/Bounds has the laws of the checked operations
--   Placement     Placement and Side of src/map.rs
--   Pos           src/pos.rs; Pos/World has the two frames
--   Entity        EntityId and EntityKind of src/entity.rs
--   Config        src/config.rs; Config/Valid has what a built configuration satisfies, Config/Cells
--                 the cells and the clamping
--   Subscription  src/subscription.rs; Subscription/Coverage has what the box covers,
--                 Subscription/Cells its size
--   Map           src/map.rs; Map/Wf has the two tables, Map/Locate the location of a position,
--                 Map/RoundTrip the encoding
--   Codec         src/codec.rs; Codec/RoundTrip has the packed position, Codec/Record the record
--   Packet        src/packet.rs; Packet/Chunks has runs of values, Packet/Read the reads of any
--                 bytes, Packet/RoundTrip and Packet/Payload the parts, Packet/Delivery the whole
--   Budget        src/budget.rs; Budget/Fits has the bounds
--   Id            the mint and the composed names of src/id.rs; Id/Disjoint has their laws
--   Net/Error     src/net/error.rs; Net/Wire src/net/wire.rs, with Net/Wire/RoundTrip for what is
--                 read back and Net/Wire/Total for what a read has consumed
--   Net/Region/Protocol  src/net/region/protocol.rs, with Messages for the commands and reports,
--                 and Pairs, RoundTrip, Sizes and Params for the laws
--   Net/Region/Edges     src/net/region/edges.rs; Owners has the table of owners against the sets of
--                 the edges, Reach every sequence of calls, Outcomes claims and releases, Slots what
--                 a call does to one slot, Expiry the edges that go
--   Net/Edge/Protocol    src/net/edge/protocol.rs, with ToClient for the messages of an edge, and
--                 RoundTrip and Answers for what is read back
--   Net/Edge/Framer      Framer of src/net/edge/protocol.rs and read_stream of
--                 src/net/edge/server.rs; Bytes has the framer as a function of bytes, Stream the
--                 cuts of a stream, Delivery what is sent and received
--   Net/Edge/Seam        src/net/edge/seam.rs; Sides and View have the squares that an observer
--                 sees into, Shadow where its shadow stands
--   Ghost         src/ghost.rs; Ring has the distances round the slots, Probe the search, Shift,
--                 Moved, Removal and Order the backward shift, Table the map that the slots stand
--                 for, and Remove, Insert, Grow, Room, Sent, Seen, Evict and Eviction the operations
--   Entity/Live   LiveSet and LiveIter of src/entity.rs; Words has the ids of its words, Iter the
--                 iterator, Refines and Reach the operations on the set that it stands for
--   Odometer      src/odometer.rs; Entries has one entry through a call, Accumulate a whole one
--   Gather        DiscoveredEntities of src/gather.rs
--   Select        src/select.rs; Nearest has the ghost set, Ranking its scores, Ties its order, Prefix
--                 the records,
--                 Commit the writes to the ghosts, and Selected a whole selection
--   Sim/Handoff   src/sim/handoff.rs; Steps has the steps of the threads, Kept and Ready the
--                 marks and the wake-ups, Line and History what reaches the sink
--   Base          names, lists, integers, results, bits and bytes that the others share
--   Tests         runs and instances at concrete inputs
--
-- How the code is read. A machine integer is a native natural number, or an integer over two of
-- them, and wraps where a release build wraps. A Vec is a list, a HashMap an association list, a
-- Result or an Option itself; a panic is an Option that holds nothing. A position of a record is the
-- raw 32 bits of its axes. A decoder is a function from the cursor to a value and the cursor behind
-- it; an encoder takes the buffer and gives the buffer. A BTreeSet is the ascending list of its
-- members, the time that a call reads is an argument of it, and a call that a lock makes one step is
-- one function; expire, which takes its lock several times, is its scan and its detaches, with other
-- calls in between. Where threads share a state, a step is what one of them does under one lock, and the
-- steps come in any order. Loops over slices are recursion on the list, loops over a count recursion
-- on the count, and the logarithm of a u32 is by recursion on its 32 bits.
--
-- Fuel. The loop that takes bodies off a stream has a round for every byte of the buffer and one more,
-- and a body takes four bytes. A probe and a backward shift have as many rounds as there are slots,
-- and visit no slot twice; the theorems on them state that they end. Doubling has 64 rounds, which
-- leave a usize. The eviction has twice as many rounds as slots and one more: each leaves a slot behind
-- or takes a ghost out. A loop over the ids of a live set has 64 rounds for every word, and a word has
-- 64 bits.
--
-- What is not here. Floating point and formatting; the transports and the broker, which are
-- third-party clients; the simulation itself (src/sim but for the handoff of its payloads), the
-- snapshots and the walk over their cells, the sessions of regions (src/net/region/session.rs), the
-- state of an edge (src/net/edge) and the control plane, whose code is not modelled.
pub mod Base
pub mod Fixed
pub mod Pos
pub mod Placement
pub mod Entity
pub mod Config
pub mod Subscription
pub mod Ghost
pub mod Odometer
pub mod Gather
pub mod Select
pub mod Sim
pub mod Map
pub mod Codec
pub mod Packet
pub mod Budget
pub mod Id
pub mod Net
pub mod Tests
