-- ===== src/Net/Edge/Framer/Stream.antt =====
-- net/edge/protocol.rs, net/edge/server.rs: however a stream is cut into reads, the bodies that the
-- reading loop takes are those of its bytes.
use umwelt_rs.Base.{
  ℕ, zero, suc, ◌+◌, ◌≤◌, ◌<◌, ◌≡◌, refl, sym, ap, ◌∙◌, arith, lt→ltb, Option, none, some, List, [],
  ◌∷◌, ◌++◌, length, take, drop, drop_add, length-drop, length-append, append-nil, append_assoc,
  concat,
}
use mathlib.Core.Path.{subst}
use umwelt_rs.Base.Result.{Result, ok, err}
use umwelt_rs.Base.Bytes.{from_le}
use umwelt_rs.Net.Error.{NetError}
use umwelt_rs.Net.Edge.Framer.{
  Framer, framer_new, push, take_body, Taken, taken_first, after_take, take_all, taken_before,
  after_read, read_bodies,
}
use umwelt_rs.Net.Edge.Framer.Bytes.{
  held, view, next, next-shorter, Parsed, parsed_first, after_next, parse, parse_lem, parsed_before,
  parsed_then, parse-append, IsDrained, parse-IsDrained, end_of, parse_waits, next_nil,
}

abbrev pub IsFramer : Framer → Type 0
IsFramer f = f.at ≤ length f.buf

-- What a `take` says, without the framer.
abbrev on_held :
    Result NetError (Option (List ℕ) × Framer) → Result NetError (Option (List ℕ) × List ℕ)
on_held (err e) = err e
on_held (ok (o, f)) = ok (o, held f)

abbrev IsTaken : Result NetError (Option (List ℕ) × Framer) → Type 0
IsTaken (err e) = Unit
IsTaken (ok (o, f)) = IsFramer f

on_held-take_body : (f : Framer) → IsFramer f → on_held (take_body f) ≡ next (held f)
unfolding take_body next
on_held-take_body f h =
    let n = length-drop f.at f.buf in
    let len = from_le (take 4 (drop f.at f.buf)) in
    ground (
      arith,
      n,
      drop_add f.at 4 (f.at + 4) f.buf refl,
      drop_add f.at (4 + len) (f.at + 4 + len) f.buf (omega arith),
    )

take_body-IsTaken : (f : Framer) → IsFramer f → IsTaken (take_body f)
unfolding take_body
take_body-IsTaken f h = ground arith

held-push_of :
    (buf : List ℕ) (at : ℕ) (bytes : List ℕ)
    → held (push (record { buf = buf; at = at }) bytes) ≡ drop at buf ++ bytes
unfolding push
held-push_of buf zero bytes = refl
held-push_of buf (suc at) bytes = rw (lt→ltb 0 (suc at) (omega arith))

held-push : (f : Framer) (bytes : List ℕ) → held (push f bytes) ≡ held f ++ bytes
held-push f bytes = held-push_of f.buf f.at bytes

push-IsFramer : (f : Framer) (bytes : List ℕ) → IsFramer f → IsFramer (push f bytes)
unfolding push
push-IsFramer f bytes h = ground (arith, length-append f.buf bytes)

-- The framer that a loop leaves is a framer.
abbrev Ends : Taken → Type 0
Ends (bodies, ok f) = IsFramer f
Ends (bodies, err e) = Unit

Ends-first : (b : List ℕ) (t : Taken) → Ends t → Ends (taken_first b t)
Ends-first b (bs, ok f) h = h
Ends-first b (bs, err e) h = h

take_all-Ends : (fuel : ℕ) (f : Framer) → IsFramer f → Ends (take_all fuel f)
unfolding take_all
take_all-Ends zero f h = h
take_all-Ends (suc fuel) f h = went (take_body f) (take_body-IsTaken f h) (take_all-Ends fuel)
  where
    went :
        (o : Result NetError (Option (List ℕ) × Framer))
        → IsTaken o
        → ((g : Framer) → IsFramer g → Ends (take_all fuel g))
        → Ends (after_take o (take_all fuel))
    went (err e) k go = tt
    went (ok (none, g)) k go = k
    went (ok (some b, g)) k go = Ends-first b (take_all fuel g) (go g k)

view-first : (b : List ℕ) (t : Taken) → view (taken_first b t) ≡ parsed_first b (view t)
view-first b (bs, ok f) = refl
view-first b (bs, err e) = refl

view-take_all :
    (fuel : ℕ) (f : Framer)
    → IsFramer f
    → length (held f) < fuel
    → view (take_all fuel f) ≡ parse (held f)
unfolding take_all
view-take_all zero f h l = absurd (omega arith)
view-take_all (suc fuel) f h l =
    went (take_body f) (take_body-IsTaken f h) (on_held-take_body f h) (view-take_all fuel)
    ∙ sym (parse_lem (held f))
  where
    went :
        (o : Result NetError (Option (List ℕ) × Framer))
        → IsTaken o
        → on_held o ≡ next (held f)
        → ((g : Framer)
            → IsFramer g
            → length (held g) < fuel
            → view (take_all fuel g) ≡ parse (held g))
        → view (after_take o (take_all fuel)) ≡ after_next (next (held f)) parse
    went (err e) k q go = rw (← q)
    went (ok (none, g)) k q go = rw (← q)
    went (ok (some b, g)) k q go = rw (← q) (
        view-first b (take_all fuel g)
        ∙ ap (parsed_first b) (go g k (omega (arith, next-shorter (held f) (held g) b (sym q)))))

view_before :
    (bs : List (List ℕ)) (t : Taken) → view (taken_before bs t) ≡ parsed_before bs (view t)
view_before bs (cs, ok f) = refl
view_before bs (cs, err e) = refl

-- A framer that holds no complete body, reading on.
view-read_bodies :
    (f : Framer) (reads : List (List ℕ))
    → IsFramer f
    → parse (held f) ≡ ([], ok (held f))
    → view (read_bodies f reads) ≡ parse (held f ++ concat reads)
unfolding read_bodies
view-read_bodies f [] h d = sym (ap parse (append-nil (held f)) ∙ d)
view-read_bodies f (read ∷ reads) h d =
    let pushed = push f read in
    let fuel = suc (length pushed.buf) in
    let seen =
      view-take_all fuel pushed (push-IsFramer f read h)
        (omega (arith, length-drop pushed.at pushed.buf)) in
    went (take_all fuel pushed) (take_all-Ends fuel pushed (push-IsFramer f read h))
      (subst (λ p. IsDrained (end_of p)) (sym seen) (parse-IsDrained (held pushed)))
      (λ g. view-read_bodies g reads)
    ∙ ap (λ (p : Parsed). parsed_then p (λ r. parse (r ++ concat reads)))
        (seen ∙ ap parse (held-push f read))
    ∙ sym (parse-append (held f ++ read) (concat reads))
    ∙ ap parse (append_assoc (held f) read (concat reads))
  where
    went :
        (t : Taken)
        → Ends t
        → IsDrained (end_of (view t))
        → ((g : Framer)
            → IsFramer g
            → parse (held g) ≡ ([], ok (held g))
            → view (read_bodies g reads) ≡ parse (held g ++ concat reads))
        → view (after_read t (λ g. read_bodies g reads))
          ≡ parsed_then (view t) (λ r. parse (r ++ concat reads))
    went (bs, err e) k q go = refl
    went (bs, ok g) k q go = view_before bs (read_bodies g reads) ∙ ap (parsed_before bs) (go g k q)

-- However a stream is cut into reads, the reading loop takes the bodies of its bytes, and ends with
-- the bytes left or the error that they call for.
pub read_bodies-parse :
    (reads : List (List ℕ)) → view (read_bodies framer_new reads) ≡ parse (concat reads)
read_bodies-parse reads = view-read_bodies framer_new reads (omega arith) (parse_waits [] next_nil)
