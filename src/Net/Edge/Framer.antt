-- ===== src/Net/Edge/Framer.antt =====
-- net/edge/protocol.rs, net/edge/server.rs: messages on a stream, each behind its length, and the
-- loop that reads a client's stream.
pub mod Bytes
pub mod Stream
pub mod Delivery
use umwelt_rs.Base.{
  ℕ, zero, suc, ◌+◌, ◌-◌, ltb, if◌then◌else◌, Option, none, some, List, [], ◌∷◌, ◌++◌, map, length,
  take, drop,
}
use umwelt_rs.Base.Result.{Result, ok, err}
use umwelt_rs.Base.Bytes.{from_le}
use umwelt_rs.Net.Error.{NetError, malformed}
use umwelt_rs.Net.Wire.{Writer, ◌>>◌, put_u32, put_bytes, clear}
use umwelt_rs.Net.Edge.Protocol.{FromClient, decode, max_message_bytes}

-- The bytes read, and how far they have been handed out.
pub record Framer : Type 0 where
  pub buf : List ℕ
  pub at : ℕ

abbrev pub framer_new : Framer
framer_new = record { buf = []; at = 0 }

unfoldable pub frame : List ℕ → Writer
frame body = do clear; put_u32 (length body); put_bytes body

-- What earlier reads handed out is dropped first.
unfoldable pub push : Framer → List ℕ → Framer
push f bytes =
    if ltb 0 f.at
    then record { buf = drop f.at f.buf ++ bytes; at = 0 }
    else record { buf = f.buf ++ bytes; at = f.at }

-- The next body, if it has arrived, and the framer behind it.
unfoldable pub take_body : Framer → Result NetError (Option (List ℕ) × Framer)
take_body f =
    let head = f.at in
    let waiting = length f.buf - head in
    let len = from_le (take 4 (drop head f.buf)) in
    if ltb waiting 4
    then ok (none, f)
    else if ltb max_message_bytes len
    then err (malformed "client frame length")
    else if ltb waiting (4 + len)
    then ok (none, f)
    else ok (some (take len (drop (head + 4) f.buf)), record f { at = head + 4 + len })

-- The bodies that a loop took, and the framer that it left or the error that closed the stream.
abbrev pub Taken : Type 0
Taken = List (List ℕ) × Result NetError Framer

abbrev pub taken_first : List ℕ → Taken → Taken
taken_first body (bodies, end) = (body ∷ bodies, end)

abbrev pub after_take : Result NetError (Option (List ℕ) × Framer) → (Framer → Taken) → Taken
after_take (err e) go = ([], err e)
after_take (ok (none, f)) go = ([], ok f)
after_take (ok (some body, f)) go = taken_first body (go f)

-- The inner loop: `take` until nothing more has arrived. The fuel bounds the bodies.
unfoldable pub take_all : ℕ → Framer → Taken
take_all zero f = ([], ok f)
take_all (suc fuel) f = after_take (take_body f) (take_all fuel)

abbrev pub taken_before : List (List ℕ) → Taken → Taken
taken_before first (bodies, end) = (first ++ bodies, end)

abbrev pub after_read : Taken → (Framer → Taken) → Taken
after_read (bodies, err e) go = (bodies, err e)
after_read (bodies, ok f) go = taken_before bodies (go f)

-- The outer loop, over the reads until the stream ends. A body takes at least four bytes of the
-- buffer, so as many rounds as it has bytes are enough.
unfoldable pub read_bodies : Framer → List (List ℕ) → Taken
read_bodies f [] = ([], ok f)
read_bodies f (read ∷ reads) =
    let pushed = push f read in
    after_read (take_all (suc (length pushed.buf)) pushed) (λ g. read_bodies g reads)

-- What the stream of a client hands on: a message, or one that is counted as refused.
unfoldable pub read_stream : List (List ℕ) → List (Result NetError FromClient)
read_stream reads = map decode (read_bodies framer_new reads).0
