-- ===== src/Net/Edge/Framer/Bytes.antt =====
-- net/edge/protocol.rs: the framer as a function of the bytes that it holds.
use umwelt_rs.Base.{
  ℕ, zero, suc, ◌+◌, ◌≤◌, ◌<◌, ◌≡◌, refl, ap, ◌∙◌, arith, ltb, if◌then◌else◌, Option, none, some,
  List, [], ◌∷◌, ◌++◌, length, take, drop, take_append-le, drop_append-le, length-drop,
  length-append,
}
use umwelt_rs.Base.Result.{Result, ok, err}
use umwelt_rs.Base.Bytes.{from_le}
use umwelt_rs.Net.Error.{NetError, malformed}
use umwelt_rs.Net.Edge.Protocol.{max_message_bytes}
use umwelt_rs.Net.Edge.Framer.{Framer, Taken}

-- The bytes not yet handed out.
abbrev pub held : Framer → List ℕ
held f = drop f.at f.buf

-- The first body of some bytes, and the bytes behind it.
unfoldable pub next : List ℕ → Result NetError (Option (List ℕ) × List ℕ)
next xs =
    let len = from_le (take 4 xs) in
    if ltb (length xs) 4
    then ok (none, xs)
    else if ltb max_message_bytes len
    then err (malformed "client frame length")
    else if ltb (length xs) (4 + len)
    then ok (none, xs)
    else ok (some (take len (drop 4 xs)), drop (4 + len) xs)

-- The bodies of some bytes, and the bytes left or the error.
abbrev pub Parsed : Type 0
Parsed = List (List ℕ) × Result NetError (List ℕ)

abbrev pub parsed_first : List ℕ → Parsed → Parsed
parsed_first body (bodies, end) = (body ∷ bodies, end)

abbrev pub after_next : Result NetError (Option (List ℕ) × List ℕ) → (List ℕ → Parsed) → Parsed
after_next (err e) go = ([], err e)
after_next (ok (none, xs)) go = ([], ok xs)
after_next (ok (some body, xs)) go = parsed_first body (go xs)

parse_fuel : ℕ → List ℕ → Parsed
parse_fuel zero xs = ([], ok xs)
parse_fuel (suc fuel) xs = after_next (next xs) (parse_fuel fuel)

unfoldable pub parse : List ℕ → Parsed
unfolding parse_fuel
parse xs = parse_fuel (suc (length xs)) xs

abbrev pub forget : Result NetError Framer → Result NetError (List ℕ)
forget (ok f) = ok (held f)
forget (err e) = err e

-- What a loop took, without the framer.
abbrev pub view : Taken → Parsed
view (bodies, end) = (bodies, forget end)

-- A complete frame at the front: its length, its body and what follows.
pub record Framed (xs : List ℕ) (b r : List ℕ) : Type 0 where
  pub len : ℕ
  pub prefix : from_le (take 4 xs) ≡ len
  pub small : len ≤ max_message_bytes
  pub arrived : 4 + len ≤ length xs
  pub body : take len (drop 4 xs) ≡ b
  pub left : drop (4 + len) xs ≡ r

pub next_of : {xs b r : List ℕ} → Framed xs b r → next xs ≡ ok (some b, r)
unfolding next
next_of {xs = xs} f = ground (arith, f.prefix, f.small, f.arrived, f.body, f.left)

pub Framed-next : (xs b r : List ℕ) → next xs ≡ ok (some b, r) → Framed xs b r
unfolding next
Framed-next xs b r h = record {
  len = from_le (take 4 xs);
  prefix = refl;
  small = ground arith;
  arrived = ground arith;
  body = ground arith;
  left = ground arith;
}

Framed-append : {xs b r : List ℕ} (ys : List ℕ) → Framed xs b r → Framed (xs ++ ys) b (r ++ ys)
Framed-append {xs = xs} {b = b} {r = r} ys f =
    let front : 4 ≤ length xs = omega (arith, f.arrived) in
    record {
      len = f.len;
      prefix = rw (take_append-le 4 xs ys front) f.prefix;
      small = f.small;
      arrived = omega (arith, f.arrived, length-append xs ys);
      body =
          ap (take f.len) (drop_append-le 4 xs ys front)
          ∙ take_append-le f.len (drop 4 xs) ys (omega (arith, f.arrived, length-drop 4 xs))
          ∙ f.body;
      left = drop_append-le (4 + f.len) xs ys f.arrived ∙ ap (λ (zs : List ℕ). zs ++ ys) f.left;
    }

next_append :
    (xs ys r b : List ℕ) → next xs ≡ ok (some b, r) → next (xs ++ ys) ≡ ok (some b, r ++ ys)
next_append xs ys r b h = next_of (Framed-append ys (Framed-next xs b r h))

next_append-err : (xs ys : List ℕ) (e : NetError) → next xs ≡ err e → next (xs ++ ys) ≡ err e
unfolding next
next_append-err xs ys e h = ground (arith, take_append-le 4 xs ys, length-append xs ys)

next_waits : (xs r : List ℕ) → next xs ≡ ok (none, r) → r ≡ xs
unfolding next
next_waits xs r h = ground arith

pub next-shorter : (xs r b : List ℕ) → next xs ≡ ok (some b, r) → length r < length xs
unfolding next
next-shorter xs r b h = ground (arith, length-drop (4 + from_le (take 4 xs)) xs)

-- What `next` says of some bytes.
data Next (xs : List ℕ) : Type 0 where
  waits : next xs ≡ ok (none, xs) → Next xs
  refuses : (e : NetError) → next xs ≡ err e → Next xs
  gives : (b r : List ℕ) → next xs ≡ ok (some b, r) → Next xs

Next-cases : (xs : List ℕ) → Next xs
Next-cases xs = judge (next xs) refl
  where
    judge : (o : Result NetError (Option (List ℕ) × List ℕ)) → next xs ≡ o → Next xs
    judge (err e) h = refuses e h
    judge (ok (none, r)) h = waits (h ∙ ap (λ (q : List ℕ). ok (none, q)) (next_waits xs r h))
    judge (ok (some b, r)) h = gives b r h

-- More fuel than bytes changes nothing.
parse_fuel_any :
    (n m : ℕ) (xs : List ℕ) → length xs < n → length xs < m → parse_fuel n xs ≡ parse_fuel m xs
unfolding parse_fuel
parse_fuel_any zero m xs h k = absurd (omega arith)
parse_fuel_any (suc n) zero xs h k = absurd (omega arith)
parse_fuel_any (suc n) (suc m) xs h k = elim (Next-cases xs) [
  | waits e ↦ rw e
  | refuses r e ↦ rw e
  | gives b r e ↦
      let less = next-shorter xs r b e in
      rw e (ap (parsed_first b) (parse_fuel_any n m r (omega (arith, less)) (omega (arith, less))))
]

pub parse_lem : (xs : List ℕ) → parse xs ≡ after_next (next xs) parse
unfolding parse parse_fuel
parse_lem xs = elim (Next-cases xs) [
  | waits e ↦ rw e
  | refuses r e ↦ rw e
  | gives b r e ↦
      let less = next-shorter xs r b e in
      rw e (
        ap (parsed_first b)
          (parse_fuel_any (length xs) (suc (length r)) r (omega (arith, less)) (omega arith)))
]

pub parse_waits : (xs : List ℕ) → next xs ≡ ok (none, xs) → parse xs ≡ ([], ok xs)
parse_waits xs e = parse_lem xs ∙ rw e

pub parse_refuses : (xs : List ℕ) (r : NetError) → next xs ≡ err r → parse xs ≡ ([], err r)
parse_refuses xs r e = parse_lem xs ∙ rw e

pub parse_gives : (xs b r : List ℕ) → next xs ≡ ok (some b, r) → parse xs ≡ parsed_first b (parse r)
parse_gives xs b r e = parse_lem xs ∙ rw e

abbrev pub parsed_before : List (List ℕ) → Parsed → Parsed
parsed_before first (bodies, end) = (first ++ bodies, end)

abbrev pub parsed_then : Parsed → (List ℕ → Parsed) → Parsed
parsed_then (bodies, err e) go = (bodies, err e)
parsed_then (bodies, ok r) go = parsed_before bodies (go r)

parsed_then-first :
    (b : List ℕ) (p : Parsed) (go : List ℕ → Parsed)
    → parsed_first b (parsed_then p go) ≡ parsed_then (parsed_first b p) go
parsed_then-first b (bs, err e) go = refl
parsed_then-first b (bs, ok r) go = refl

-- Bytes that arrive later are read behind what was left of the earlier ones.
parse_append_of :
    (k : ℕ) (xs ys : List ℕ)
    → length xs < k
    → parse (xs ++ ys) ≡ parsed_then (parse xs) (λ r. parse (r ++ ys))
parse_append_of zero xs ys h = absurd (omega arith)
parse_append_of (suc k) xs ys h = elim (Next-cases xs) [
  | waits e ↦ rw (parse_waits xs e)
  | refuses r e ↦ parse_refuses (xs ++ ys) r (next_append-err xs ys r e) ∙ rw (parse_refuses xs r e)
  | gives b r e ↦
      parse_gives (xs ++ ys) b (r ++ ys) (next_append xs ys r b e)
      ∙ ap (parsed_first b) (parse_append_of k r ys (omega (arith, next-shorter xs r b e)))
      ∙ parsed_then-first b (parse r) (λ r. parse (r ++ ys))
      ∙ rw (parse_gives xs b r e)
]

pub parse-append :
    (xs ys : List ℕ) → parse (xs ++ ys) ≡ parsed_then (parse xs) (λ r. parse (r ++ ys))
parse-append xs ys = parse_append_of (suc (length xs)) xs ys (omega arith)

-- What is left holds no complete body.
abbrev pub IsDrained : Result NetError (List ℕ) → Type 0
IsDrained (ok r) = parse r ≡ ([], ok r)
IsDrained (err e) = Unit

abbrev pub end_of : Parsed → Result NetError (List ℕ)
end_of (bodies, end) = end

parse-IsDrained_of : (k : ℕ) (xs : List ℕ) → length xs < k → IsDrained (end_of (parse xs))
parse-IsDrained_of zero xs h = absurd (omega arith)
parse-IsDrained_of (suc k) xs h = elim (Next-cases xs) [
  | waits e ↦ rw (parse_waits xs e) (parse_waits xs e)
  | refuses r e ↦ rw (parse_refuses xs r e) tt
  | gives b r e ↦
      rw (parse_gives xs b r e) (parse-IsDrained_of k r (omega (arith, next-shorter xs r b e)))
]

pub parse-IsDrained : (xs : List ℕ) → IsDrained (end_of (parse xs))
parse-IsDrained xs = parse-IsDrained_of (suc (length xs)) xs (omega arith)

pub next_nil : next [] ≡ ok (none, [])
unfolding next
next_nil = refl
