-- ===== src/Upspin/File/Bounds.antt =====
-- Writes of upspin/file.go whose end does not fit an int64.
use blue.Prelude.{
  ℕ, ◌+◌, ◌-◌, ◌^◌, ◌<◌, ◌≤◌, ◌≡◌, refl, pos, negsuc, ltb_ℤ, add64, wrap64, ◌+ℤ◌, true, false,
  length, arith,
}
use blue.Upspin.File.{Bytes, File, done, crash, max_int, grow, extend, overwrite, patch, write_at}

wrapped :
    (a b : ℕ)
    → a < 2 ^ 63
    → b < 2 ^ 63
    → 2 ^ 63 ≤ a + b
    → add64 (pos a) (pos b) ≡ negsuc (2 ^ 64 - 1 - (a + b))
unfolding add64 wrap64 ◌+ℤ◌
wrapped a b ha hb h = ground arith

grow-negsuc : (k : ℕ) (bytes spare : Bytes) → grow (negsuc k) (bytes, spare) ≡ done (bytes, spare)
unfolding grow
grow-negsuc k bytes spare = ground arith

extend-negsuc :
    (k : ℕ) (bytes spare : Bytes) → extend (negsuc k) (bytes, spare) ≡ done (bytes, spare)
unfolding extend
extend-negsuc k bytes spare = ground arith

overwrite_beyond :
    (b : Bytes) (off : ℕ) (bytes spare : Bytes)
    → length bytes < off
    → overwrite b (pos off) (bytes, spare) ≡ crash
unfolding overwrite
overwrite_beyond b off bytes spare h = ground arith

patch-negsuc :
    (b : Bytes) (off k : ℕ) (bytes spare : Bytes)
    → length bytes < off
    → patch b (pos off) (negsuc k) (bytes, spare) ≡ crash
unfolding patch
patch-negsuc b off k bytes spare h =
    rw
      (grow-negsuc k bytes spare, extend-negsuc k bytes spare, overwrite_beyond b off bytes spare h)
      refl

not_negative : (n : ℕ) → ltb_ℤ (pos n) (pos 0) ≡ false
not_negative n = ground arith

not_beyond : (k : ℕ) → ltb_ℤ max_int (negsuc k) ≡ false
not_beyond k = ground arith

-- A write beyond the end of an open and writable file, whose own end is beyond the largest int64,
-- panics: the end has wrapped around to a negative number, which the check of its size lets pass.
pub write_at_crashes :
    (f : File) (b : Bytes) (off : ℕ)
    → f.closed ≡ false
    → f.writable ≡ true
    → off < 2 ^ 63
    → length b < 2 ^ 63
    → 2 ^ 63 ≤ off + length b
    → length f.data_bytes < off
    → (write_at f b (pos off)).0 ≡ crash
unfolding write_at
write_at_crashes f b off opened writable in_range fits over beyond =
    rw
      (
        opened,
        writable,
        wrapped off (length b) in_range fits over,
        not_negative off,
        not_beyond (2 ^ 64 - 1 - (off + length b)),
        patch-negsuc b off (2 ^ 64 - 1 - (off + length b)) f.data_bytes f.spare beyond,
      )
      refl
