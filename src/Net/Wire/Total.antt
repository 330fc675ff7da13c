-- ===== src/Net/Wire/Total.antt =====
-- net/wire.rs: what a successful read has consumed, on any bytes.
use Prim.Native.String.{String}
use umwelt_rs.Base.{
  ℕ, zero, suc, ◌+◌, ◌*◌, ◌≤◌, ◌≡◌, refl, sym, ap, ◌∙◌, arith, List, [], length, take, drop,
  length-take, length-drop, Bool, true, false, ◌==◌, ==_iff, if◌then◌else◌, Bool-cases, inl, inr,
}
use mathlib.Core.Path.{subst}
use umwelt_rs.Base.Result.{Result, ok, err, ok_inj}
use umwelt_rs.Net.Error.{NetError, malformed}
use umwelt_rs.Net.Wire.{
  Cursor, Reader, ◌>>=◌, return, fail, take_bytes, get_le, get_i32, finish, get_many, decode_with,
  new, continue, value,
}

-- A read from within the buffer keeps the buffer, stays within it, and if it answers `a` having
-- moved by `n`, then `P a n`.
pub record Takes {A : Type 0} (P : A → ℕ → Type 0) (p : Reader A) : Type 0 where
  pub run :
      (c c' : Cursor) (a : A)
      → c.at ≤ length c.buf
      → p c ≡ ok (a, c')
      → (n : ℕ) × (c'.buf ≡ c.buf) × (c'.at ≡ c.at + n) × (c'.at ≤ length c.buf) × P a n

answers :
    {A : Type 0} (a b : A) (c c' : Cursor)
    → ◌≡◌ {A = Result NetError (A × Cursor)} (ok (a, c)) (ok (b, c'))
    → (a ≡ b) × (c ≡ c')
answers {A} a b c c' e =
    (ap (λ (x : A × Cursor). x.0) (ok_inj e), ap (λ (x : A × Cursor). x.1) (ok_inj e))

continue-ok :
    {A B : Type 0} (r : Result NetError (A × Cursor)) (k : A → Reader B) (b : B) (c' : Cursor)
    → continue r k ≡ ok (b, c')
    → (a : A) × (c : Cursor) × (r ≡ ok (a, c)) × (k a c ≡ ok (b, c'))
continue-ok (ok (a, c)) k b c' e = (a, c, refl, e)
continue-ok (err x) k b c' e = cc

-- What `Takes` says of one run.
abbrev Moved : {A : Type 0} (P : A → ℕ → Type 0) (c c' : Cursor) (a : A) → Type 0
Moved P c c' a = (n : ℕ) × (c'.buf ≡ c.buf) × (c'.at ≡ c.at + n) × (c'.at ≤ length c.buf) × P a n

pub Takes-return : {A : Type 0} (P : A → ℕ → Type 0) (a : A) → P a 0 → Takes P (return a)
unfolding return
Takes-return P a h = record {
  run = λ c c' b l e.
      let (p, q) = answers a b c c' e in
      (
        0,
        ap (λ (x : Cursor). x.buf) (sym q),
        omega (arith, ap (λ (x : Cursor). x.at) q),
        omega (arith, ap (λ (x : Cursor). x.at) q),
        subst (λ x. P x 0) p h,
      );
}

pub Takes-fail : {A : Type 0} (P : A → ℕ → Type 0) (e : NetError) → Takes P (fail e)
unfolding fail
Takes-fail P e = record { run = λ c c' b l q. cc }

join :
    {A B : Type 0} (P : A → ℕ → Type 0) (R : B → ℕ → Type 0) (k : A → Reader B) (c c1 c' : Cursor)
    (a : A) (b : B)
    → ((a : A) (n : ℕ) → P a n → Takes (λ b m. R b (n + m)) (k a))
    → Moved P c c1 a
    → k a c1 ≡ ok (b, c')
    → Moved R c c' b
join P R k c c1 c' a b f (n, same, at, in_buf, post) e =
    let (m, same', at', in_buf', post') =
      (f a n post).run c1 c' b (omega (arith, ap length same)) e in
    (n + m, same' ∙ same, omega (arith, at, at'), omega (arith, in_buf', ap length same), post')

pub Takes-bind :
    {A B : Type 0} (P : A → ℕ → Type 0) (R : B → ℕ → Type 0) (p : Reader A) (k : A → Reader B)
    → Takes P p
    → ((a : A) (n : ℕ) → P a n → Takes (λ b m. R b (n + m)) (k a))
    → Takes R (p >>= k)
unfolding ◌>>=◌
Takes-bind P R p k h f = record {
  run = λ c c' b l e.
      let (a, c1, first, second) = continue-ok (p c) k b c' e in
      join P R k c c1 c' a b f (h.run c c1 a l first) second;
}

pub Takes-if :
    {A : Type 0} (P : A → ℕ → Type 0) (t : Bool) (p q : Reader A)
    → (t ≡ true → Takes P p)
    → (t ≡ false → Takes P q)
    → Takes P (if t then p else q)
Takes-if P true p q h k = h refl
Takes-if P false p q h k = k refl

-- Only the fact about the moved distance and the value is used further on.
pub Takes-weaken :
    {A : Type 0} (P R : A → ℕ → Type 0) (p : Reader A)
    → Takes P p
    → ((a : A) (n : ℕ) → P a n → R a n)
    → Takes R p
Takes-weaken P R p h f = record {
  run = λ c c' a l e.
      let (n, same, at, in_buf, post) = h.run c c' a l e in (n, same, at, in_buf, f a n post);
}

taken :
    (n : ℕ) (b : List ℕ) (c c' : Cursor)
    → take_bytes n c ≡ ok (b, c')
    → (c.at + n ≤ length c.buf) × (take n (drop c.at c.buf) ≡ b) × (record c { at = c.at + n } ≡ c')
unfolding take_bytes
taken n b c c' e = ground arith

pub Takes-bytes : (n : ℕ) → Takes (λ b m. (m ≡ n) × (length b ≡ n)) (take_bytes n)
Takes-bytes n = record {
  run = λ c c' b l e.
      let (in_buf, got, stop) = taken n b c c' e in
      (
        n,
        ap (λ (x : Cursor). x.buf) (sym stop),
        ap (λ (x : Cursor). x.at) (sym stop),
        omega (arith, ap (λ (x : Cursor). x.at) stop),
        (
          refl,
          sym (ap length got)
              ∙ length-take n (drop c.at c.buf) (omega (arith, length-drop c.at c.buf)),
        ),
      );
}

pub Takes-le : (k : ℕ) → Takes (λ v n. n ≡ k) (get_le k)
unfolding get_le
Takes-le k = Takes-bind _ _ _ _ (Takes-bytes k) (λ a n h. Takes-return _ _ (omega (arith, h.0)))

pub Takes-i32 : Takes (λ v n. n ≡ 4) get_i32
unfolding get_i32
Takes-i32 = Takes-bind _ _ _ _ (Takes-le 4) (λ a n h. Takes-return _ _ (omega arith))

pub Takes-many :
    {A : Type 0} (k : ℕ) (p : Reader A) (m : ℕ)
    → Takes (λ v n. n ≡ k) p
    → Takes (λ vs n. (n ≡ m * k) × (length vs ≡ m)) (get_many p m)
unfolding get_many
Takes-many k p zero h = Takes-return _ [] (omega arith, refl)
Takes-many k p (suc m) h = Takes-bind _ _ _ _ h λ a n e.
    Takes-bind _ _ _ _ (Takes-many k p m h)
      (λ as' j e'. Takes-return _ _ (omega (arith, e, e'.0), ap suc e'.1))

value-ok :
    {A : Type 0} (r : Result NetError (A × Cursor)) (a : A)
    → value r ≡ ok a
    → (c : Cursor) × (r ≡ ok (a, c))
value-ok (ok (b, c)) a e = (c, ap (λ x. ok (x, c)) (ok_inj e))
value-ok (err x) a e = cc

finish-ok :
    {A : Type 0} (a b : A) (c c' : Cursor)
    → finish a c ≡ ok (b, c')
    → (c.at ≡ length c.buf) × (a ≡ b)
unfolding finish
finish-ok {A} a b c c' e = elim (Bool-cases (c.at == length c.buf)) [
  | inl q ↦ ((==_iff _ _).0 q, (answers a b c c' (rw q at e)).0)
  | inr q ↦ absurd (never (rw q at e))
]
  where
    never : ¬ (◌≡◌ {A = Result NetError (A × Cursor)} (err (malformed c.what)) (ok (b, c')))
    never f = cc

-- A message that a reader accepts to its end has no byte more than the reader took.
pub Takes-whole :
    {A : Type 0} (P : A → ℕ → Type 0) (p : Reader A) (what : String) (body : List ℕ) (v : A)
    → Takes P p
    → decode_with (p >>= finish) what body ≡ ok v
    → P v (length body)
unfolding decode_with new ◌>>=◌
Takes-whole P p what body v h e =
    let (c', run) = value-ok ((p >>= finish) (new body what)) v e in
    let (a, c1, first, second) = continue-ok (p (new body what)) finish v c' run in
    let (n, same, at, in_buf, post) = h.run (new body what) c1 a (omega arith) first in
    let (at_end, a_v) = finish-ok a v c1 c' second in
    let n_len : n ≡ length body = omega (arith, at, at_end, ap length same) in
    subst (λ m. P v m) n_len (subst (λ x. P x n) a_v post)
