-- ===== src/Net/Stream.antt =====
-- What the codec relies on of tokio's byte streams, which are not part of the repository.
use longship_x.Prelude.{ℕ, ◌≤◌, ◌<◌, ◌≡◌, Result, ok, err, List, ◌++◌, length, take, drop}
use longship_x.Net.Error.{IoKind, unexpected_eof}

-- `AsyncReadExt::read_exact`: as many bytes as asked for, or an error.
pub record AsyncRead : Type 1 where
  pub Reader : Type 0
  pub read_exact : ℕ → Reader → Result (List ℕ) IoKind × Reader

-- A stream whose peer sends `remaining` and then closes: a read takes bytes off the front, and one
-- that the end cuts short fails with `UnexpectedEof`.
pub record Sends (r : AsyncRead) : Type 0 where
  pub remaining : r.Reader → List ℕ
  pub read_enough :
      (n : ℕ) (s : r.Reader)
      → n ≤ length (remaining s)
      → ((r.read_exact n s).0 ≡ ok (take n (remaining s)))
        × (remaining (r.read_exact n s).1 ≡ drop n (remaining s))
  pub read_short :
      (n : ℕ) (s : r.Reader) → length (remaining s) < n → (r.read_exact n s).0 ≡ err unexpected_eof

-- `AsyncWriteExt::write_all` followed by `flush`.
pub record AsyncWrite : Type 1 where
  pub Writer : Type 0
  pub write_all : List ℕ → Writer → Result (Unit {0}) IoKind × Writer

-- A stream whose peer keeps reading: every write succeeds, and appends.
pub record Accepts (w : AsyncWrite) : Type 0 where
  pub written : w.Writer → List ℕ
  pub write_ok : (bytes : List ℕ) (s : w.Writer) → (w.write_all bytes s).0 ≡ ok tt
  pub write_appends :
      (bytes : List ℕ) (s : w.Writer) → written (w.write_all bytes s).1 ≡ written s ++ bytes
