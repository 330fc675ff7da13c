-- ===== src/Net/Edge/Framer/Delivery.antt =====
-- net/edge/protocol.rs, net/edge/server.rs, net/edge/client.rs: what a client frames onto its stream
-- is what its edge takes off it.
use umwelt_rs.Base.{
  ℕ, ◌+◌, ◌≤◌, ◌<◌, ◌≡◌, refl, sym, ap, ◌∙◌, arith, List, [], ◌∷◌, ◌++◌, map, length, take, drop,
  take_run, drop_run, drop_add, length-append, append_assoc, append-nil, concat, All,
}
use umwelt_rs.Base.Int.{IsU32}
use umwelt_rs.Base.Result.{ok, err}
use umwelt_rs.Base.Bytes.{le_bytes, from_le, length-le_bytes, from_le-le_bytes}
use umwelt_rs.Net.Error.{NetError, malformed}
use umwelt_rs.Net.Wire.{◌>>◌, put_le, put_bytes, clear}
use umwelt_rs.Net.Edge.Protocol.{FromClient, encode, decode, max_message_bytes}
use umwelt_rs.Net.Edge.Protocol.RoundTrip.{IsFromClient, from_client_size, encode-Whole}
use umwelt_rs.Net.Edge.Framer.{framer_new, frame, read_bodies, read_stream, Taken}
use umwelt_rs.Net.Edge.Framer.Bytes.{
  view, next, Framed, next_of, parse, parse_gives, parse_refuses, parse_waits, next_nil,
  parsed_first, parsed_before, Parsed,
}
use umwelt_rs.Net.Edge.Framer.Stream.{read_bodies-parse}

-- The bytes of some bodies on a stream.
abbrev pub sent : List (List ℕ) → List ℕ
sent bodies = concat (map (λ b. frame b []) bodies)

abbrev pub IsBody : List ℕ → Type 0
IsBody b = length b ≤ max_message_bytes

frame-Framed : (b rest : List ℕ) → IsBody b → Framed (frame b [] ++ rest) b rest
unfolding frame ◌>>◌ put_le put_bytes clear
frame-Framed b rest h =
    let n = length b in
    let front = le_bytes 4 n in
    let four = length-le_bytes 4 n in
    let whole = append_assoc front b rest in
    record {
      len = n;
      prefix =
          ap from_le (ap (take 4) whole ∙ take_run 4 front (b ++ rest) four)
          ∙ from_le-le_bytes 4 n (omega arith);
      small = h;
      arrived =
          omega
            (arith, ap length whole, length-append front (b ++ rest), length-append b rest, four);
      body =
          ap (λ (xs : List ℕ). take n (drop 4 xs)) whole
          ∙ ap (take n) (drop_run 4 front (b ++ rest) four)
          ∙ take_run n b rest refl;
      left =
          drop_add 4 n (4 + n) _ refl
          ∙ ap (λ (xs : List ℕ). drop n (drop 4 xs)) whole
          ∙ ap (drop n) (drop_run 4 front (b ++ rest) four)
          ∙ drop_run n b rest refl;
    }

parsed_before-first :
    (b : List ℕ) (bs : List (List ℕ)) (p : Parsed)
    → parsed_first b (parsed_before bs p) ≡ parsed_before (b ∷ bs) p
parsed_before-first b bs (cs, e) = refl

parsed_before-nil : (p : Parsed) → parsed_before [] p ≡ p
parsed_before-nil (cs, e) = refl

parse-sent :
    (bodies : List (List ℕ)) (rest : List ℕ)
    → All IsBody bodies
    → parse (sent bodies ++ rest) ≡ parsed_before bodies (parse rest)
parse-sent [] rest h = sym (parsed_before-nil (parse rest))
parse-sent (b ∷ bs) rest h =
    ap parse (append_assoc (frame b []) (sent bs) rest)
    ∙ parse_gives _ b (sent bs ++ rest) (next_of (frame-Framed b (sent bs ++ rest) h.0))
    ∙ ap (parsed_first b) (parse-sent bs rest h.1)
    ∙ parsed_before-first b bs (parse rest)

-- The bodies of a run, and its end.
abbrev bodies_of : Parsed → List (List ℕ)
bodies_of (bodies, end) = bodies

bodies_of-view : (t : Taken) → t.0 ≡ bodies_of (view t)
bodies_of-view (bodies, ok f) = refl
bodies_of-view (bodies, err e) = refl

taken-bodies :
    (reads : List (List ℕ)) → (read_bodies framer_new reads).0 ≡ bodies_of (parse (concat reads))
taken-bodies reads =
    bodies_of-view (read_bodies framer_new reads) ∙ ap bodies_of (read_bodies-parse reads)

-- Two cuts of one sequence of bytes into reads give the same bodies.
read_bodies_cut :
    (reads others : List (List ℕ))
    → concat reads ≡ concat others
    → (read_bodies framer_new reads).0 ≡ (read_bodies framer_new others).0
read_bodies_cut reads others e =
    taken-bodies reads ∙ ap (λ (xs : List ℕ). bodies_of (parse xs)) e ∙ sym (taken-bodies others)

-- Bodies within the limit, framed onto a stream, are what is taken off it, in their order, however
-- the stream is cut into reads.
pub read_bodies-sent :
    (bodies reads : List (List ℕ))
    → All IsBody bodies
    → concat reads ≡ sent bodies
    → (read_bodies framer_new reads).0 ≡ bodies
read_bodies-sent bodies reads h e =
    taken-bodies reads
    ∙ ap (λ (xs : List ℕ). bodies_of (parse xs)) (e ∙ sym (append-nil (sent bodies)))
    ∙ ap bodies_of (parse-sent bodies [] h)
    ∙ ap (λ p. bodies_of (parsed_before bodies p)) (parse_waits [] next_nil)
    ∙ append-nil bodies

abbrev pub IsSent : FromClient → Type 0
IsSent m = IsFromClient m × (from_client_size m ≤ max_message_bytes)

decoded :
    (ms : List FromClient) → All IsSent ms → (map decode (map (λ m. encode m []) ms) ≡ map ok ms)
decoded [] h = refl
decoded (m ∷ ms) h =
    let w = encode-Whole m h.0.0 in
    let r : decode (encode m []) ≡ ok m = ap decode (w.written []) ∙ w.read in
    rw (r, decoded ms h.1)

encoded : (ms : List FromClient) → All IsSent ms → All IsBody (map (λ m. encode m []) ms)
encoded [] h = tt
encoded (m ∷ ms) h =
    let w = encode-Whole m h.0.0 in
    (omega (arith, h.0.1, w.within, ap length (w.written [])), encoded ms h.1)

-- Messages of a client, of values in range and within the limit, encoded and framed onto its
-- stream, are received by its edge, all of them and in their order, however the stream is cut into
-- reads.
pub read_stream-sent :
    (ms : List FromClient) (reads : List (List ℕ))
    → All IsSent ms
    → concat reads ≡ sent (map (λ m. encode m []) ms)
    → read_stream reads ≡ map ok ms
unfolding read_stream
read_stream-sent ms reads h e =
    ap (map decode) (read_bodies-sent (map (λ m. encode m []) ms) reads (encoded ms h) e)
    ∙ decoded ms h

closed-view :
    (t : Taken) (bs : List (List ℕ)) (r : NetError) → view t ≡ (bs, err r) → t ≡ (bs, err r)
closed-view (cs, ok f) bs r q = cc
closed-view (cs, err e) bs r q = cc

next_oversized :
    (n : ℕ) (rest : List ℕ)
    → IsU32 n
    → max_message_bytes < n
    → next (le_bytes 4 n ++ rest) ≡ err (malformed "client frame length")
unfolding next
next_oversized n rest u big =
    let four = length-le_bytes 4 n in
    let prefix : from_le (take 4 (le_bytes 4 n ++ rest)) ≡ n =
      ap from_le (take_run 4 (le_bytes 4 n) rest four) ∙ from_le-le_bytes 4 n u in
    ground (arith, prefix, four, length-append (le_bytes 4 n) rest)

-- A length past the limit closes the stream behind the bodies before it, whatever follows.
pub read_bodies-oversized :
    (bodies reads : List (List ℕ)) (n : ℕ) (rest : List ℕ)
    → All IsBody bodies
    → IsU32 n
    → max_message_bytes < n
    → concat reads ≡ sent bodies ++ (le_bytes 4 n ++ rest)
    → read_bodies framer_new reads ≡ (bodies, err (malformed "client frame length"))
read_bodies-oversized bodies reads n rest h u big e = closed-view _ bodies _ (
    read_bodies-parse reads
    ∙ ap parse e
    ∙ parse-sent bodies _ h
    ∙ ap (parsed_before bodies) (parse_refuses _ _ (next_oversized n rest u big))
    ∙ ap (λ (bs : List (List ℕ)). (bs, err (malformed "client frame length"))) (append-nil bodies))
