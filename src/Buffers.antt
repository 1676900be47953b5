-- ===== src/Buffers.antt =====
-- What the streams of crates/mqtt-tokio use of the `bytes` crate: the writers and readers of
-- unsigned numbers (`put_u16`, `put_u64`, `get_u32` and the like), as an interface, since that crate
-- is not part of the repository. A float is written as the number of its bits.
pub mod BigEndian
use mqtt_async_embedded.Prelude.{ℕ, zero, suc, ◌*◌, ◌<◌, ◌≡◌, List, ◌++◌, length}

-- How many values a number of so many bytes has.
unfoldable pub size : ℕ → ℕ
size zero = 1
size (suc w) = size w * 256

-- `put w v` are the bytes that are written for a number of `w` bytes, and `get w` reads such a
-- number from the front of a buffer that is long enough.
pub record Buffers : Type 0 where
  pub put : ℕ → ℕ → List ℕ
  pub get : ℕ → List ℕ → ℕ × List ℕ
  pub length-put : (w v : ℕ) → length (put w v) ≡ w
  pub get-put : (w v : ℕ) (rest : List ℕ) → v < size w → get w (put w v ++ rest) ≡ (v, rest)
