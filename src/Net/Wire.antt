-- ===== src/Net/Wire.antt =====
-- net/wire.rs: the cursor that every message is read with, and the appends that write one.
pub mod RoundTrip
pub mod Total
use Prim.Native.String.{String}
use umwelt_rs.Base.{
  ℕ, zero, suc, ◌+◌, ◌^◌, ltb, leb, ◌==◌, if◌then◌else◌, List, [], ◌∷◌, ◌++◌, length, take, drop,
}
use umwelt_rs.Base.Int.{ℤ, as_u32, as_i32, as_u64, as_i64}
use umwelt_rs.Base.Result.{Result, ok, err}
use umwelt_rs.Base.Bytes.{le_bytes, from_le}
use umwelt_rs.Net.Error.{NetError, malformed}

pub record Cursor : Type 0 where
  pub buf : List ℕ
  pub at : ℕ
  pub what : String

abbrev pub usize_mod : ℕ
usize_mod = 2 ^ 64

-- A read moves the cursor, or fails.
abbrev pub Reader : Type 0 → Type 0
Reader A = Cursor → Result NetError (A × Cursor)

-- What follows a read: `?` returns its error.
abbrev pub continue :
    {A B : Type 0} → Result NetError (A × Cursor) → (A → Reader B) → Result NetError (B × Cursor)
continue (ok (a, c)) f = f a c
continue (err e) f = err e

infixl 5 ◌>>=◌
unfoldable pub ◌>>=◌ : {A B : Type 0} → Reader A → (A → Reader B) → Reader B
◌>>=◌ m f c = continue (m c) f

unfoldable pub return : {A : Type 0} → A → Reader A
return a c = ok (a, c)

unfoldable pub fail : {A : Type 0} → NetError → Reader A
fail e c = err e

unfoldable pub new : List ℕ → String → Cursor
new buf what = record { buf = buf; at = 0; what = what }

-- `checked_add` fails where the sum is no `usize`.
unfoldable pub take_bytes : ℕ → Reader (List ℕ)
take_bytes n c =
    let end = c.at + n in
    if leb usize_mod end
    then err (malformed c.what)
    else if ltb (length c.buf) end
    then err (malformed c.what)
    else ok (take n (drop c.at c.buf), record c { at = end })

-- A little-endian number of `k` bytes.
unfoldable pub get_le : ℕ → Reader ℕ
unfolding ◌>>=◌ return take_bytes
get_le k = take_bytes k >>= λ b. return (from_le b)

abbrev pub get_u8 : Reader ℕ
get_u8 = get_le 1

abbrev pub get_u16 : Reader ℕ
get_u16 = get_le 2

abbrev pub get_u32 : Reader ℕ
get_u32 = get_le 4

abbrev pub get_u64 : Reader ℕ
get_u64 = get_le 8

unfoldable pub get_i32 : Reader ℤ
unfolding ◌>>=◌ return get_le
get_i32 = get_u32 >>= λ n. return (as_i32 n)

unfoldable pub get_i64 : Reader ℤ
unfolding ◌>>=◌ return get_le
get_i64 = get_u64 >>= λ n. return (as_i64 n)

-- Everything after the cursor.
unfoldable pub rest : Reader (List ℕ)
rest c = ok (drop c.at c.buf, record c { at = length c.buf })

-- The result of a message: its value, once the cursor stands at the end.
unfoldable pub finish : {A : Type 0} → A → Reader A
finish a c = if c.at == length c.buf then ok (a, c) else err (malformed c.what)

-- `for _ in 0..n { v.push(read(c)?); }`.
unfoldable pub get_many : {A : Type 0} → Reader A → ℕ → Reader (List A)
unfolding ◌>>=◌ return
get_many p zero = return []
get_many p (suc n) = p >>= λ a. get_many p n >>= λ rest. return (a ∷ rest)

abbrev pub value : {A : Type 0} → Result NetError (A × Cursor) → Result NetError A
value (ok (a, c)) = ok a
value (err e) = err e

-- Reads a whole body with a reader.
unfoldable pub decode_with : {A : Type 0} → Reader A → String → List ℕ → Result NetError A
unfolding new
decode_with p what body = value (p (new body what))

-- What an encoder does to the buffer that it is given.
abbrev pub Writer : Type 0
Writer = List ℕ → List ℕ

infixl 5 ◌>>◌
unfoldable pub ◌>>◌ : Writer → Writer → Writer
◌>>◌ m k out = k (m out)

unfoldable pub put_le : ℕ → ℕ → Writer
put_le k v out = out ++ le_bytes k v

abbrev pub put_u8 : ℕ → Writer
put_u8 v = put_le 1 v

abbrev pub put_u16 : ℕ → Writer
put_u16 v = put_le 2 v

abbrev pub put_u32 : ℕ → Writer
put_u32 v = put_le 4 v

abbrev pub put_u64 : ℕ → Writer
put_u64 v = put_le 8 v

unfoldable pub put_i32 : ℤ → Writer
unfolding put_le
put_i32 v = put_u32 (as_u32 v)

unfoldable pub put_i64 : ℤ → Writer
unfolding put_le
put_i64 v = put_u64 (as_u64 v)

unfoldable pub put_bytes : List ℕ → Writer
put_bytes b out = out ++ b

unfoldable pub clear : Writer
clear out = []

unfoldable pub put_many : {A : Type 0} → (A → Writer) → List A → Writer
put_many w [] out = out
put_many w (a ∷ rest) out = put_many w rest (w a out)
