-- ===== src/Client/Network/Buffer.antt =====
-- Reads and writes of a byte buffer, with a fault outside of it.
use headquarter.Base.{ℕ, ◌+◌, ◌≡◌, arith, List, ◌++◌, length, take, drop}
use headquarter.Base.{
  leb, if◌then◌else◌, Outcome, ok, fault, length-append, length-take, length-drop,
}

-- `memcpy(buf + offset, bytes, length bytes)`.
unfoldable pub write_at : List ℕ → ℕ → List ℕ → Outcome (List ℕ)
write_at buf offset bytes =
    if leb (offset + length bytes) (length buf)
    then ok (take offset buf ++ (bytes ++ drop (offset + length bytes) buf))
    else fault

-- The first `n` bytes of a buffer.
unfoldable pub read_bytes : List ℕ → ℕ → Outcome (List ℕ)
read_bytes buf n = if leb n (length buf) then ok (take n buf) else fault

-- A write that stays inside keeps the length of the buffer.
pub length-write_at :
    (buf : List ℕ) (offset : ℕ) (bytes : List ℕ) {out : List ℕ}
    → write_at buf offset bytes ≡ ok out
    → length out ≡ length buf
unfolding write_at
length-write_at buf offset bytes {out} h = ground (
  arith,
  length-append (take offset buf) (bytes ++ drop (offset + length bytes) buf),
  length-append bytes (drop (offset + length bytes) buf),
  length-take offset buf,
  length-drop (offset + length bytes) buf,
)
