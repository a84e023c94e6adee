-- ===== src/Client/Kstr/Header.antt =====
-- `struct kstr_hdr` of code/client/kstr.h, whose units lie behind it in memory, and its functions in
-- code/client/kstr.c. They work on a `kstr` at the same units and keep its length.
use Prim.Native.Nat.{Ordering}
use headquarter.Base.{ℕ, List, Bool, true, false, ltb, if◌then◌else◌, Outcome, ok, aborted, ◌>>=◌}
use headquarter.Client.Network.Buffer.{read_bytes, write_at}
use headquarter.Client.Kstr.{
  Kstr, kstr_init, kstr_read, kstr_write, kstr_read_ascii, kstr_write_ascii, kstr_compare,
}

-- `buffer` is what `kstr_hdr_buf` points at.
pub record KstrHdr : Type 0 where
  pub length' : ℕ
  pub capacity : ℕ
  pub buffer : List ℕ

abbrev pub kstr_get_from_kstr_hdr : KstrHdr → Kstr
kstr_get_from_kstr_hdr hdr = kstr_init hdr.buffer hdr.length' hdr.capacity

-- `at_header` says that the buffer is the one behind the header.
unfoldable pub kstr_hdr_init : Bool → List ℕ → ℕ → Outcome KstrHdr
kstr_hdr_init at_header buffer capacity =
    if at_header then ok (record { length' = 0; capacity = capacity; buffer = buffer }) else aborted

unfoldable pub kstr_hdr_copy_from_kstr : KstrHdr → Kstr → Outcome (Bool × KstrHdr)
kstr_hdr_copy_from_kstr dest src =
    let copied = (do
      units ← read_bytes src.buffer src.length'
      buffer ← write_at dest.buffer 0 units
      ok (true, record dest { length' = src.length'; buffer = buffer })) in
    if ltb dest.capacity src.length' then ok (false, dest) else copied

unfoldable pub kstr_hdr_copy : KstrHdr → KstrHdr → Outcome (Bool × KstrHdr)
unfolding kstr_hdr_copy_from_kstr
kstr_hdr_copy dest src = kstr_hdr_copy_from_kstr dest (kstr_get_from_kstr_hdr src)

-- The header after a function that ended with `temp`: the length is kept when it failed.
unfoldable pub keep_length : KstrHdr → Bool → Kstr → KstrHdr
keep_length hdr done temp = record hdr {
  length' = if done then temp.length' else hdr.length';
  buffer = temp.buffer;
}

unfoldable pub kstr_hdr_read : KstrHdr → List ℕ → ℕ → Outcome (Bool × KstrHdr)
unfolding keep_length
kstr_hdr_read hdr src size = do
  (done, temp) ← kstr_read (kstr_get_from_kstr_hdr hdr) src size
  ok (done, keep_length hdr done temp)

unfoldable pub kstr_hdr_write : KstrHdr → List ℕ → ℕ → Outcome (Bool × List ℕ)
kstr_hdr_write hdr buffer size = kstr_write (kstr_get_from_kstr_hdr hdr) buffer size

unfoldable pub kstr_hdr_read_ascii : KstrHdr → List ℕ → ℕ → Outcome (Bool × KstrHdr)
unfolding keep_length
kstr_hdr_read_ascii hdr src size = do
  (done, temp) ← kstr_read_ascii (kstr_get_from_kstr_hdr hdr) src size
  ok (done, keep_length hdr done temp)

unfoldable pub kstr_hdr_write_ascii : KstrHdr → List ℕ → ℕ → Outcome (Bool × List ℕ)
kstr_hdr_write_ascii hdr buffer size = kstr_write_ascii (kstr_get_from_kstr_hdr hdr) buffer size

unfoldable pub kstr_hdr_compare_kstr : KstrHdr → Kstr → Outcome Ordering
kstr_hdr_compare_kstr s1 s2 = kstr_compare (kstr_get_from_kstr_hdr s1) s2
