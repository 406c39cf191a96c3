-- ===== src/Upspin/Examples.antt =====
-- Runs of upspin/file.go on small files, and its theorems at such files.
use blue.Prelude.{
  ◌^◌, ◌-◌, ◌≡◌, refl, pos, text, true, false, [], arith, add64, wrap64, ◌+ℤ◌, ◌*ℤ◌, quo,
}
use blue.Upspin.File.{
  Bytes, File, done, crash, fetched, open_file, new_file, read_at, write_at, truncate, grow, extend,
  overwrite, patch, read, write, synced, init_read, reader_read, zeros,
}
use blue.Upspin.File.Contents.{write_at-eq, read_at-write_at, write_at-truncate}
use blue.Upspin.File.Bounds.{write_at_crashes}

abbrev hello : File
hello =
    new_file (text "f")
      (record { create = false; exclusive = false; read_write = true; write_only = false })
      (text "hello") []

open-hello :
    open_file
      (fetched (text "hello") [])
      (text "f")
      (record { create = false; exclusive = false; read_write = true; write_only = false })
    ≡ done hello
unfolding open_file
open-hello = refl

append-hello : (write hello (text "!")).0 ≡ done 1
unfolding write write_at patch grow extend overwrite add64 wrap64 ◌+ℤ◌ ◌*ℤ◌ quo zeros
append-hello = refl

read-append : (read (write hello (text "!")).1 9).0 ≡ done (text "hello!")
unfolding read synced init_read reader_read write write_at patch grow extend overwrite add64 wrap64
    ◌+ℤ◌ ◌*ℤ◌ quo zeros
read-append = refl

write_at-eq_example :
    (rest : Bytes) × (write_at hello (text "J") (pos 0)
      ≡ (done 1, record hello { dirty = true; data_bytes = text "Jello"; spare = rest }))
write_at-eq_example = write_at-eq hello (text "J") 0 refl refl (omega arith) (omega arith)

read_at-write_at_example :
    (read_at (write_at hello (text "p me") (pos 3)).1 4 (pos 3)).0 ≡ done (text "p me", false)
read_at-write_at_example =
    read_at-write_at hello (text "p me") 3 refl refl refl (omega arith) (omega arith) (omega arith)

write_at-truncate_example :
    (write_at (truncate hello (pos 1)).1 [] (pos 5)).1.data_bytes ≡ text "hello"
write_at-truncate_example = write_at-truncate hello 1 refl refl (omega arith) (omega arith)

write_at_crashes_example : (write_at hello (text "x") (pos (2 ^ 63 - 1))).0 ≡ crash
write_at_crashes_example =
    write_at_crashes hello (text "x") (2 ^ 63 - 1) refl refl (omega arith) (omega arith)
      (omega arith) (omega arith)
