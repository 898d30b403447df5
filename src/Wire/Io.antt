-- ===== src/Wire/Io.antt =====
-- Go's io.Reader and io.Writer as the two transports use them. A reader is what it has yet to
-- give and the error that ends it; a writer is any state with a write operation.
use aii_plugin_sdk.Prelude.{
  Option, Result, [], arith, drop, drop-append, err, if◌then◌else◌, leb, length, length-append,
  length-take, none, ok, take, take-append, true, ℕ, ◌++◌, ◌∷◌, ◌≡◌,
}
use aii_plugin_sdk.Prelude.Bytes.{Bytes}

-- `io.EOF`, `io.ErrUnexpectedEOF`, and any other error of the reader or writer.
pub data IoError : Type 0 where
  eof unexpected_eof broken : IoError

-- `ending` is what a read returns once `bytes` are used up: `eof` or `broken`.
pub record Reader : Type 0 where
  pub bytes : Bytes
  pub ending : IoError

-- An end of file after some but not all of the bytes is unexpected.
abbrev cut_short : Bytes → IoError → IoError
cut_short [] e = e
cut_short (_ ∷ _) eof = unexpected_eof
cut_short (_ ∷ _) e = e

-- `io.ReadFull(r, buf)` with `n = len(buf)`.
unfoldable pub read_full : ℕ → Reader → Result IoError (Bytes × Reader)
read_full n r =
    if leb n (length r.bytes)
    then ok (take n r.bytes, record r { bytes = drop n r.bytes })
    else err (cut_short r.bytes r.ending)

pub read_full-append :
    (xs ys : Bytes) (e : IoError)
    → read_full (length xs) (record { bytes = xs ++ ys; ending = e })
      ≡ ok (xs, record { bytes = ys; ending = e })
unfolding read_full
read_full-append xs ys e =
    let fits : leb (length xs) (length (xs ++ ys)) ≡ true = ground (arith, length-append xs ys) in
    rw (fits, take-append xs ys, drop-append xs ys)

-- What a successful read has taken, and what it leaves.
pub read_full-ok :
    (n : ℕ) (r : Reader) {xs : Bytes} {r' : Reader}
    → read_full n r ≡ ok (xs, r')
    → (xs ≡ take n r.bytes) × (r' ≡ record r { bytes = drop n r.bytes }) × (length xs ≡ n)
unfolding read_full
read_full-ok n r h = ground (arith, length-take n r.bytes)

-- A writer that takes everything.
abbrev pub append_write : Bytes → Bytes → Bytes × Option IoError
append_write sent xs = (sent ++ xs, none)
