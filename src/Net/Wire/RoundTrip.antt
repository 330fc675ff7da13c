-- ===== src/Net/Wire/RoundTrip.antt =====
-- net/wire.rs: a reader that reads back what a writer wrote, and how such pairs compose.
use Prim.Native.String.{String}
use mathlib.Core.List.{append_assoc, append-nil}
use umwelt_rs.Base.{
  ℕ, ◌+◌, ◌*◌, ◌^◌, ◌<◌, ◌≡◌, refl, sym, ap, ◌∙◌, arith, List, [], ◌∷◌, ◌++◌, length, take, drop,
  length-append, All, Bool, true, false, ==_iff, drop-append, take-append, ltb, leb, ◌==◌,
}
use umwelt_rs.Base.Int.{
  ℤ, as_u32, as_i32, as_u64, as_i64, IsI32, IsI64, as_u32-IsU32, as_u64-IsU64, as_i32-as_u32,
  as_i64-as_u64,
}
use umwelt_rs.Base.Result.{Result, ok}
use umwelt_rs.Base.Bytes.{le_bytes, from_le-le_bytes, length-le_bytes}
use umwelt_rs.Net.Error.{NetError}
use umwelt_rs.Net.Wire.{
  Cursor, Reader, Writer, ◌>>=◌, ◌>>◌, return, take_bytes, get_le, get_i32, get_i64, rest, finish,
  get_many, decode_with, put_le, put_i32, put_i64, put_bytes, put_many, usize_mod, new,
}

abbrev pub cursor : List ℕ → ℕ → String → Cursor
cursor buf at what = record { buf = buf; at = at; what = what }

-- `p` reads the bytes `xs`, wherever they stand in a buffer, as `v`, and stops behind them. Where
-- `last` is true the bytes have to stand at the end.
pub record Reads {A : Type 0} (last : Bool) (p : Reader A) (xs : List ℕ) (v : A) : Type 0 where
  pub run :
      (pre post buf : List ℕ) (what : String)
      → (last ≡ true → post ≡ [])
      → buf ≡ pre ++ (xs ++ post)
      → length buf < usize_mod
      → p (cursor buf (length pre) what) ≡ ok (v, cursor buf (length (pre ++ xs)) what)

-- `w` appends the bytes `xs`.
pub record Appends (w : Writer) (xs : List ℕ) : Type 0 where
  pub run : (out : List ℕ) → w out ≡ out ++ xs

-- `p` reads back, as `v`, what `w` appends, which is `n` bytes.
pub record Pairs {A : Type 0} (last : Bool) (n : ℕ) (w : Writer) (p : Reader A) (v : A)
    : Type 0 where
  pub bytes : List ℕ
  pub size : length bytes ≡ n
  pub appends : Appends w bytes
  pub reads : Reads last p bytes v

at_end :
    {A : Type 0} (v : A) (pre : List ℕ) (buf : List ℕ) (what : String)
    → ◌≡◌ {A = Result NetError (A × Cursor)}
        (ok (v, cursor buf (length pre) what))
        (ok (v, cursor buf (length (pre ++ [])) what))
at_end v pre buf what = rw append-nil

pub Reads-return : {A : Type 0} (v : A) → Reads false (return v) [] v
unfolding return
Reads-return v = record { run = λ pre post buf what l e h. at_end v pre buf what }

pub Reads-return_last : {A : Type 0} (v : A) → Reads true (return v) [] v
unfolding return
Reads-return_last v = record { run = λ pre post buf what l e h. at_end v pre buf what }

pub Reads-finish : {A : Type 0} (v : A) → Reads true (finish v) [] v
unfolding finish
Reads-finish v = record {
  run = λ pre post buf what l e h.
      let whole : buf ≡ pre = e ∙ rw (l refl) (append-nil pre) in
      let same : (length pre == length buf) ≡ true = rw whole ((==_iff _ _).1 refl) in
      rw same (at_end v pre buf what);
}

Reads-rest : (xs : List ℕ) → Reads true rest xs xs
unfolding rest
Reads-rest xs = record {
  run = λ pre post buf what l e h.
      let whole : buf ≡ pre ++ xs = e ∙ rw (l refl) (ap (◌++◌ pre) (append-nil xs)) in
      rw whole (rw (drop-append pre xs));
}

-- `e` says why the first part stands at the end, if it has to.
pub Reads-bind_of :
    {A B : Type 0} {f l : Bool} {p : Reader A} (k : A → Reader B) {xs ys : List ℕ} {a : A} {b : B}
    → (f ≡ true → (l ≡ true) × (ys ≡ []))
    → Reads f p xs a
    → Reads l (k a) ys b
    → Reads l (p >>= k) (xs ++ ys) b
unfolding ◌>>=◌
Reads-bind_of {p = p} k {xs = xs} {ys = ys} {a = a} {b = b} last r s = record {
  run = λ pre post buf what l e h.
      let first =
        r.run pre (ys ++ post) buf what (λ q. let (lt, none_left) = last q in rw none_left (l lt))
          (e ∙ ap (◌++◌ pre) (append_assoc xs ys post)) h in
      let second =
        s.run (pre ++ xs) post buf what l
          (e ∙ rw (append_assoc xs ys post, append_assoc pre xs (ys ++ post))) h in
      rw (first, ◌>>=◌) (second ∙ rw (append_assoc pre xs ys));
}

pub Reads-bind :
    {A B : Type 0} {l : Bool} {p : Reader A} (k : A → Reader B) {xs ys : List ℕ} {a : A} {b : B}
    → Reads false p xs a
    → Reads l (k a) ys b
    → Reads l (p >>= k) (xs ++ ys) b
Reads-bind k r s = Reads-bind_of k (λ q. cc) r s

Reads-take : (xs : List ℕ) (n : ℕ) → n ≡ length xs → Reads false (take_bytes n) xs xs
unfolding take_bytes
Reads-take xs n q = record {
  run = λ pre post buf what l e h.
      let size : length buf ≡ length pre + (length xs + length post) =
        ap length e ∙ length-append pre (xs ++ post) ∙ omega (arith, length-append xs post) in
      let inside : ltb (length buf) (length pre + n) ≡ false = ground arith in
      let small : leb usize_mod (length pre + n) ≡ false = ground arith in
      let got : take n (drop (length pre) buf) ≡ xs =
        ap (λ (b : List ℕ). take n (drop (length pre) b)) e
        ∙ ap (take n) (drop-append pre (xs ++ post))
        ∙ rw q (take-append xs post) in
      let stop : length pre + n ≡ length (pre ++ xs) = omega (arith, length-append pre xs) in
      rw (small, inside) (λ i. ok (got i, cursor buf (stop i) what));
}

Reads-nil :
    {A : Type 0} {l : Bool} (p : Reader A) {xs : List ℕ} {v : A}
    → Reads l p (xs ++ []) v
    → Reads l p xs v
Reads-nil p {xs = xs} r = rw (append-nil xs) at r

-- One step, and what comes of its value without reading on.
pub pair_then :
    {A B : Type 0} {l : Bool} {n : ℕ} {w : Writer} {p : Reader A} (k : A → Reader B) {a : A} {b : B}
    → Pairs false n w p a
    → Reads l (k a) [] b
    → Pairs l n w (p >>= k) b
pair_then k x r = record {
  bytes = x.bytes;
  size = x.size;
  appends = x.appends;
  reads = Reads-nil _ (Reads-bind k x.reads r);
}

-- The same of a step that reads to the end.
pub pair_last :
    {A B : Type 0} {n : ℕ} {w : Writer} {p : Reader A} (k : A → Reader B) {a : A} {b : B}
    → Pairs true n w p a
    → Reads true (k a) [] b
    → Pairs true n w (p >>= k) b
pair_last k x r = record {
  bytes = x.bytes;
  size = x.size;
  appends = x.appends;
  reads = Reads-nil _ (Reads-bind_of k (λ q. (refl, refl)) x.reads r);
}

-- One step, and the steps behind it.
pub pair_seq :
    {A B : Type 0} {l : Bool} {n m : ℕ} {w u : Writer} {p : Reader A} (k : A → Reader B) {a : A}
    {b : B}
    → Pairs false n w p a
    → Pairs l m u (k a) b
    → Pairs l (n + m) (w >> u) (p >>= k) b
unfolding ◌>>◌
pair_seq {w = w} {u = u} k x y = record {
  bytes = x.bytes ++ y.bytes;
  size = length-append x.bytes y.bytes ∙ omega (arith, x.size, y.size);
  appends = record {
    run = λ out.
        ap u (x.appends.run out)
        ∙ y.appends.run (out ++ x.bytes)
        ∙ append_assoc out x.bytes y.bytes;
  };
  reads = Reads-bind k x.reads y.reads;
}

pub pair_le : (k v : ℕ) → v < 256 ^ k → Pairs false k (put_le k v) (get_le k) v
unfolding put_le get_le
pair_le k v h = record {
  bytes = le_bytes k v;
  size = length-le_bytes k v;
  appends = record { run = λ out. refl };
  reads = Reads-nil _ (
      Reads-bind _ (Reads-take (le_bytes k v) k (sym (length-le_bytes k v)))
        (rw (from_le-le_bytes k v h) (Reads-return v)));
}

-- A pair through a conversion of the value and back.
pair_via :
    {A B : Type 0} {n : ℕ} {w : Writer} {p : Reader A} {a : A} (f : A → B) (b : B)
    → Pairs false n w p a
    → f a ≡ b
    → Pairs false n w (p >>= λ x. return (f x)) b
pair_via f b x e = pair_then _ x (rw e (Reads-return b))

pub pair_i32 : (a : ℤ) → IsI32 a → Pairs false 4 (put_i32 a) get_i32 a
unfolding put_i32 get_i32
pair_i32 a h = pair_via as_i32 a (pair_le 4 (as_u32 a) (as_u32-IsU32 a)) (as_i32-as_u32 a h)

pub pair_i64 : (a : ℤ) → IsI64 a → Pairs false 8 (put_i64 a) get_i64 a
unfolding put_i64 get_i64
pair_i64 a h = pair_via as_i64 a (pair_le 8 (as_u64 a) (as_u64-IsU64 a)) (as_i64-as_u64 a h)

pub pair_rest : (b : List ℕ) → Pairs true (length b) (put_bytes b) rest b
unfolding put_bytes
pair_rest b = record {
  bytes = b;
  size = refl;
  appends = record { run = λ out. refl };
  reads = Reads-rest b;
}

pub pair_take : (b : List ℕ) (n : ℕ) → n ≡ length b → Pairs false n (put_bytes b) (take_bytes n) b
unfolding put_bytes
pair_take b n e = record {
  bytes = b;
  size = sym e;
  appends = record { run = λ out. refl };
  reads = Reads-take b n e;
}

pub pair_many :
    {A : Type 0} (n : ℕ) (w : A → Writer) (p : Reader A) (vs : List A)
    → All (λ v. Pairs false n (w v) p v) vs
    → Pairs false (length vs * n) (put_many w vs) (get_many p (length vs)) vs
unfolding put_many get_many
pair_many n w p [] h = record {
  bytes = [];
  size = omega arith;
  appends = record { run = λ out. sym (append-nil out) };
  reads = Reads-return [];
}
pair_many n w p (v ∷ vs) (h, hs) =
    let more = pair_many n w p vs hs in
    record {
      bytes = h.bytes ++ more.bytes;
      size = length-append h.bytes more.bytes ∙ omega (arith, h.size, more.size);
      appends = record {
        run = λ out.
            ap (put_many w vs) (h.appends.run out)
            ∙ more.appends.run (out ++ h.bytes)
            ∙ append_assoc out h.bytes more.bytes;
      };
      reads = Reads-bind _ h.reads (Reads-nil _ (Reads-bind _ more.reads (Reads-return (v ∷ vs))));
    }

-- The same pair, its size written another way.
pub pair_size :
    {A : Type 0} {l : Bool} {n m : ℕ} {w : Writer} {p : Reader A} {v : A}
    → Pairs l n w p v
    → n ≡ m
    → Pairs l m w p v
pair_size x e = record { bytes = x.bytes; size = x.size ∙ e; appends = x.appends; reads = x.reads }

-- A body of `n` bytes that a decoder reads back whole.
pub record RoundTrips {A : Type 0} (n : ℕ) (w : Writer) (decode : List ℕ → Result NetError A)
    (v : A) : Type 0 where
  pub body : List ℕ
  pub size : length body ≡ n
  pub written : (out : List ℕ) → w out ≡ out ++ body
  pub read : decode body ≡ ok v

pub round_trip :
    {A : Type 0} {n : ℕ} {w : Writer} {p : Reader A} {v : A} (what : String)
    → Pairs true n w p v
    → n < usize_mod
    → RoundTrips n w (decode_with p what) v
unfolding decode_with new
round_trip {n = n} {p = p} {v = v} what x h =
    let first : p (new x.bytes what) ≡ ok (v, cursor x.bytes (length x.bytes) what) =
      x.reads.run [] [] x.bytes what (λ q. refl) (sym (append-nil x.bytes))
        (omega (arith, x.size)) in
    record {
      body = x.bytes;
      size = x.size;
      written = x.appends.run;
      read = rw (first, decode_with);
    }
