-- ===== src/Upspin/File.antt =====
-- upspin/file.go: a file held in memory over a client. The client is not part of the repository: what
-- its calls answer is an argument of the operations that call it. A slice is the bytes up to its
-- length and the spare bytes of its array up to its capacity.
pub mod Contents
pub mod Closed
pub mod Bounds
use blue.Prelude.{
  ℕ, zero, suc, ◌+◌, ◌-◌, ◌^◌, ℤ, pos, negsuc, pos_part, ◌*ℤ◌, quo, add64, wrap64, ltb_ℤ, eqb_ℤ,
  Text, Bool, true, false, not, ◌&&◌, ◌||◌, ltb, leb, ◌==◌, List, [], ◌∷◌, ◌++◌, length, take, drop,
  if◌then◌else◌,
}

abbrev pub Bytes : Type 0
Bytes = List ℕ

-- The errors of the package, named for their messages, and those of the client and of bytes.Reader.
pub data FileError : Type 0 where
  already_exists is_closed not_open_for_write negative_offset file_too_long bad_offset bad_whence :
      FileError
  not_exist : FileError
  client_error : Text → FileError
  end_of_file negative_position : FileError

-- What a method returns: its results, an error, or a panic.
pub data Reply {ℓ} (A : Type ℓ) : Type ℓ where
  done : A → Reply A
  fail : FileError → Reply A
  crash : Reply A

-- bytes.Reader: the bytes it was made of, and its position.
pub record Reader : Type 0 where
  pub bytes : Bytes
  pub position : ℤ

-- File; `spare` is the part of the array of f.data beyond its length.
pub record File : Type 0 where
  pub name : Text
  pub writable : Bool
  pub create : Bool
  pub dirty : Bool
  pub closed : Bool
  pub read_offset : ℤ
  pub write_offset : ℤ
  pub reader : Reader
  pub data_bytes : Bytes
  pub spare : Bytes
  pub last_put_seq : ℤ

abbrev pub max_int : ℤ
max_int = pos (2 ^ 63 - 1)

-- The bits of the flag that Open looks at.
pub record Flags : Type 0 where
  pub create : Bool
  pub exclusive : Bool
  pub read_write : Bool
  pub write_only : Bool

-- The answers of client.Get and client.Put; Get answers no bytes with an error.
pub data Fetched : Type 0 where
  fetched : Bytes → Bytes → Fetched
  missing : Fetched
  fetch_failed : Text → Fetched

pub data Stored : Type 0 where
  stored : ℤ → Stored
  put_failed : Text → Stored

abbrev pub empty_reader : Reader
empty_reader = record { bytes = []; position = pos 0 }

abbrev pub new_file : Text → Flags → Bytes → Bytes → File
new_file name flags bytes spare = record {
  name = name;
  writable = flags.read_write || flags.write_only;
  create = flags.create;
  dirty = true;
  closed = false;
  read_offset = pos 0;
  write_offset = pos (length bytes);
  reader = empty_reader;
  data_bytes = bytes;
  spare = spare;
  last_put_seq = pos 0;
}

-- Open
unfoldable pub open_file : Fetched → Text → Flags → Reply File
open_file (fetched bytes spare) name flags =
    if flags.create && flags.exclusive
    then fail already_exists
    else done (new_file name flags bytes spare)
open_file missing name flags =
    if flags.create then done (new_file name flags [] []) else fail not_exist
open_file (fetch_failed e) name flags = fail (client_error e)

-- bytes.Reader.Seek, with the whence of io.
unfoldable pub reader_seek : Reader → ℤ → ℤ → Reply ℤ
reader_seek r offset whence =
    let from =
      if eqb_ℤ whence (pos 0)
      then offset
      else if eqb_ℤ whence (pos 1)
      then add64 r.position offset
      else add64 (pos (length r.bytes)) offset in
    if ltb_ℤ from (pos 0) then fail negative_position else done from

-- bytes.Reader.Read and ReadAt into a buffer of n bytes: the bytes read, and whether ReadAt fell short.
unfoldable pub reader_read : Reader → ℕ → Reply Bytes
reader_read r n =
    if ltb_ℤ r.position (pos (length r.bytes))
    then done (take n (drop (pos_part r.position) r.bytes))
    else fail end_of_file

unfoldable pub reader_read_at : Reader → ℕ → ℤ → Reply (Bytes × Bool)
reader_read_at r n off =
    if ltb_ℤ off (pos 0)
    then fail negative_offset
    else if ltb_ℤ off (pos (length r.bytes))
    then (let found = take n (drop (pos_part off) r.bytes) in done (found, ltb (length found) n))
    else fail end_of_file

-- File.initRead: a new reader at the read offset. The error, where the offset is negative.
unfoldable pub init_read : File → Reply (Unit {0}) × File
init_read f =
    let fresh = record f {
      dirty = false;
      reader = record { bytes = f.data_bytes; position = pos 0 };
    } in
    if ltb_ℤ f.read_offset (pos 0) then (fail negative_position, fresh) else (
      done tt,
      record fresh {
        reader = record { bytes = f.data_bytes; position = f.read_offset };
        read_offset = f.read_offset;
      },
    )

-- `if f.dirty { err = f.initRead() … }`
unfoldable pub synced : File → Reply (Unit {0}) × File
synced f = if f.dirty then init_read f else (done tt, f)

-- The file after its reader has answered a Read.
abbrev advance : Reply Bytes → File → Reply Bytes × File
advance (done bytes) g = (
  done bytes,
  record g {
    reader = record {
      bytes = g.reader.bytes;
      position = add64 g.reader.position (pos (length bytes));
    };
    read_offset = add64 g.read_offset (pos (length bytes));
  },
)
advance r g = (r, g)

abbrev read_synced : Reply (Unit {0}) × File → ℕ → Reply Bytes × File
read_synced (done x, g) n = advance (reader_read g.reader n) g
read_synced (fail e, g) n = (fail e, g)
read_synced (crash, g) n = (crash, g)

-- File.Read into a buffer of n bytes.
unfoldable pub read : File → ℕ → Reply Bytes × File
read f n = read_synced (synced f) n

abbrev read_at_synced : Reply (Unit {0}) × File → ℕ → ℤ → Reply (Bytes × Bool) × File
read_at_synced (done x, g) n off = (reader_read_at g.reader n off, g)
read_at_synced (fail e, g) n off = (fail e, g)
read_at_synced (crash, g) n off = (crash, g)

-- File.ReadAt into a buffer of n bytes: the bytes, and whether the file ended before the buffer.
unfoldable pub read_at : File → ℕ → ℤ → Reply (Bytes × Bool) × File
read_at f n off = read_at_synced (synced f) n off

abbrev moved : Reply ℤ → File → Reply ℤ × File
moved (done ret) g = (
  done ret,
  record g {
    reader = record { bytes = g.reader.bytes; position = ret };
    write_offset = ret;
    read_offset = ret;
  },
)
moved r g = (r, g)

abbrev seek_synced : Reply (Unit {0}) × File → ℤ → ℤ → Reply ℤ × File
seek_synced (done x, g) offset whence =
    if ltb_ℤ (add64 g.write_offset offset) (pos 0)
      || ltb_ℤ (add64 g.read_offset offset) (pos 0)
      || ltb_ℤ max_int offset
      || (not g.writable && ltb_ℤ (pos (length g.data_bytes)) offset)
    then (fail bad_offset, g)
    else if eqb_ℤ whence (pos 0) || eqb_ℤ whence (pos 1) || eqb_ℤ whence (pos 2)
    then moved (reader_seek g.reader offset whence) g
    else (fail bad_whence, g)
seek_synced (fail e, g) offset whence = (fail e, g)
seek_synced (crash, g) offset whence = (crash, g)

-- File.Seek
unfoldable pub seek : File → ℤ → ℤ → Reply ℤ × File
seek f offset whence =
    if f.closed then (fail is_closed, f) else seek_synced (synced f) offset whence

unfoldable pub zeros : ℕ → Bytes
zeros zero = []
zeros (suc n) = 0 ∷ zeros n

-- Bytes of a slice and the spare ones of its array; none after a panic.
abbrev pub Slice : Type 0
Slice = Bytes × Bytes

-- The growth of f.data where `end` is beyond its capacity: make panics on a capacity that wrapped
-- around to less than the length.
unfoldable pub grow : ℤ → Slice → Reply Slice
grow end (bytes, spare) =
    let wide = quo (wrap64 (end *ℤ pos 3)) (pos 2) in
    let capacity = if ltb_ℤ max_int wide then max_int else wide in
    if ltb_ℤ (pos (length bytes + length spare)) end
    then (if ltb_ℤ capacity (pos (length bytes))
        then crash
        else done (bytes, zeros (pos_part capacity - length bytes)))
    else done (bytes, spare)

-- f.data = f.data[:end], where `end` is beyond the length: it panics beyond the capacity.
unfoldable pub extend : ℤ → Slice → Reply Slice
extend end (bytes, spare) =
    if ltb_ℤ (pos (length bytes)) end
    then (if ltb_ℤ (pos (length bytes + length spare)) end
        then crash
        else done (
          bytes ++ take (pos_part end - length bytes) spare,
          drop (pos_part end - length bytes) spare,
        ))
    else done (bytes, spare)

-- copy(f.data[off:], b), which panics where off is beyond the length.
unfoldable pub overwrite : Bytes → ℤ → Slice → Reply Slice
overwrite b off (bytes, spare) =
    if ltb_ℤ (pos (length bytes)) off
    then crash
    else (let at = pos_part off in
        let copied = take (length bytes - at) b in
        done (take at bytes ++ copied ++ drop (at + length copied) bytes, spare))

infixl 5 ◌>>=◌
abbrev pub ◌>>=◌ {ℓ κ} : {A : Type ℓ} {B : Type κ} → Reply A → (A → Reply B) → Reply B
done a >>= f = f a
fail e >>= f = fail e
crash >>= f = crash

-- The changes of writeAt to f.data.
unfoldable pub patch : Bytes → ℤ → ℤ → Slice → Reply Slice
patch b off end slice = do
  grown ← grow end slice
  extended ← extend end grown
  overwrite b off extended

abbrev patched : Reply Slice → ℕ → File → Reply ℕ × File
patched (done (bytes, spare)) n f =
    (done n, record f { dirty = true; data_bytes = bytes; spare = spare })
patched (fail e) n f = (fail e, f)
patched crash n f = (crash, f)

-- File.writeAt and File.WriteAt
unfoldable pub write_at : File → Bytes → ℤ → Reply ℕ × File
write_at f b off =
    let end = add64 off (pos (length b)) in
    if f.closed
    then (fail is_closed, f)
    else if not f.writable
    then (fail not_open_for_write, f)
    else if ltb_ℤ off (pos 0)
    then (fail negative_offset, f)
    else if ltb_ℤ max_int end
    then (fail file_too_long, f)
    else patched (patch b off end (f.data_bytes, f.spare)) (length b) f

abbrev written : Reply ℕ × File → Reply ℕ × File
written (done n, g) = (done n, record g { write_offset = add64 g.write_offset (pos n) })
written (r, g) = (r, g)

-- File.Write
unfoldable pub write : File → Bytes → Reply ℕ × File
write f b = written (write_at f b f.write_offset)

-- File.put
unfoldable pub put : Stored → File → Reply (Unit {0}) × File
put (stored sequence) f = (done tt, record f { last_put_seq = sequence })
put (put_failed e) f = (fail (client_error e), f)

abbrev sequence_of : Reply (Unit {0}) × File → Reply ℤ × File
sequence_of (done x, g) = (done g.last_put_seq, g)
sequence_of (fail e, g) = (fail e, g)
sequence_of (crash, g) = (crash, g)

-- File.sync, with the answer of client.Put to f.data.
unfoldable pub sync : Stored → File → Reply ℤ × File
sync answer f =
    if f.closed
    then (fail is_closed, f)
    else if f.writable || (length f.data_bytes == 0 && f.create)
    then sequence_of (put answer f)
    else (fail not_open_for_write, f)

abbrev pub min_ℤ : ℤ → ℤ → ℤ
min_ℤ a b = if ltb_ℤ a b then a else b

-- File.Truncate; a negative size is a slice out of range. The offsets of a file are less than 2^53,
-- where a float64 is exact.
unfoldable pub truncate : File → ℤ → Reply (Unit {0}) × File
truncate f size =
    if f.closed
    then (fail is_closed, f)
    else if not f.writable
    then (fail not_open_for_write, f)
    else if not (ltb_ℤ size (pos (length f.data_bytes)))
    then (done tt, f)
    else if ltb_ℤ size (pos 0)
    then (crash, f)
    else (
      done tt,
      record f {
        dirty = true;
        data_bytes = take (pos_part size) f.data_bytes;
        spare = drop (pos_part size) f.data_bytes ++ f.spare;
        write_offset = min_ℤ size f.write_offset;
        read_offset = min_ℤ size f.read_offset;
      },
    )

abbrev emptied : Reply (Unit {0}) × File → Reply (Unit {0}) × File
emptied (r, g) = (r, record g { data_bytes = []; spare = [] })

-- File.Close, with the answer of client.Put to f.data.
unfoldable pub close : Stored → File → Reply (Unit {0}) × File
close answer f =
    if f.closed
    then (fail is_closed, f)
    else (let shut = record f { closed = true } in
        if f.writable then emptied (put answer shut) else (done tt, shut))
