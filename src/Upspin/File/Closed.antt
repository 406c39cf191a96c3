-- ===== src/Upspin/File/Closed.antt =====
-- A closed file of upspin/file.go.
use blue.Prelude.{arith, ◌≡◌, refl, ℤ, true}
use blue.Upspin.File.{
  Bytes, File, fail, is_closed, Stored, stored, put_failed, put, write_at, write, seek, sync,
  truncate, close,
}

-- What every operation that checks for it answers on a closed file: an error, and the same file.
pub record Refuses (f : File) : Type 0 where
  pub writes_at : (b : Bytes) (off : ℤ) → write_at f b off ≡ (fail is_closed, f)
  pub writes : (b : Bytes) → write f b ≡ (fail is_closed, f)
  pub seeks : (offset whence : ℤ) → seek f offset whence ≡ (fail is_closed, f)
  pub syncs : (answer : Stored) → sync answer f ≡ (fail is_closed, f)
  pub truncates : (size : ℤ) → truncate f size ≡ (fail is_closed, f)
  pub closes : (answer : Stored) → close answer f ≡ (fail is_closed, f)

refuses : (f : File) → f.closed ≡ true → Refuses f
unfolding write_at write seek sync truncate close
refuses f h = record {
  writes_at = λ b off. rw h refl;
  writes = λ b. rw h refl;
  seeks = λ offset whence. rw h refl;
  syncs = λ answer. rw h refl;
  truncates = λ size. rw h refl;
  closes = λ answer. rw h refl;
}

close-closed : (answer : Stored) (f : File) → (close answer f).1.closed ≡ true
unfolding close put
close-closed (stored sequence) f = ground arith
close-closed (put_failed e) f = ground arith

-- After Close, whether or not the client stored the file, and whatever was closed before, every write,
-- seek, sync, truncation and further Close is refused and changes nothing.
pub close-Refuses : (answer : Stored) (f : File) → Refuses (close answer f).1
close-Refuses answer f = refuses (close answer f).1 (close-closed answer f)
