-- ===== src/Upspin/File/Contents.antt =====
-- What the writes of upspin/file.go leave in a file.
use blue.Prelude.{
  ℕ, zero, suc, ◌+◌, ◌-◌, ◌*◌, ◌/◌, ◌^◌, ◌<◌, ◌≤◌, ◌≡◌, refl, sym, ap, ◌∙◌, ℤ, pos, quo, ◌*ℤ◌,
  wrap64, wrap64-pos, *ℤ-pos, ltb_ℤ, add64-pos, true, false, List, [], ◌∷◌, ◌++◌, length,
  length-append, take, drop, arith, Bool-cases, inl, inr, ltb,
}
use blue.Upspin.File.{
  Bytes, File, max_int, Reply, done, zeros, grow, extend, overwrite, patch, write_at, read_at,
  truncate, synced, init_read, reader_read_at,
}
use mathlib.Core.List.{append_assoc, append-nil}

-- Parts of lists.
module _ {ℓ} {A : Type ℓ} where
  take-all : (n : ℕ) (xs : List A) → length xs ≤ n → take n xs ≡ xs
  take-all zero [] h = refl
  take-all zero (x ∷ xs) h = absurd (omega arith)
  take-all (suc n) [] h = refl
  take-all (suc n) (x ∷ xs) h = ap (◌∷◌ x) (take-all n xs (omega arith))

  drop-all : (n : ℕ) (xs : List A) → length xs ≤ n → drop n xs ≡ []
  drop-all zero [] h = refl
  drop-all zero (x ∷ xs) h = absurd (omega arith)
  drop-all (suc n) [] h = refl
  drop-all (suc n) (x ∷ xs) h = drop-all n xs (omega arith)

  take-append : (n : ℕ) (xs ys : List A) → n ≤ length xs → take n (xs ++ ys) ≡ take n xs
  take-append zero xs ys h = refl
  take-append (suc n) [] ys h = absurd (omega arith)
  take-append (suc n) (x ∷ xs) ys h = ap (◌∷◌ x) (take-append n xs ys (omega arith))

  drop-append : (n : ℕ) (xs ys : List A) → length ys ≡ n - length xs → drop n (xs ++ ys) ≡ drop n xs
  drop-append n [] ys h = drop-all n ys (omega arith) ∙ sym (drop-all n [] (omega arith))
  drop-append zero (x ∷ xs) [] h = append-nil (x ∷ xs)
  drop-append zero (x ∷ xs) (y ∷ ys) h = absurd (omega arith)
  drop-append (suc n) (x ∷ xs) ys h = drop-append n xs ys (omega arith)

  length-take : (n : ℕ) (xs : List A) → n ≤ length xs → length (take n xs) ≡ n
  length-take zero xs h = refl
  length-take (suc n) [] h = absurd (omega arith)
  length-take (suc n) (x ∷ xs) h = ap suc (length-take n xs (omega arith))

  drop-prefix : (n : ℕ) (xs ys : List A) → length xs ≡ n → drop n (xs ++ ys) ≡ ys
  drop-prefix zero [] ys h = refl
  drop-prefix zero (x ∷ xs) ys h = absurd (omega arith)
  drop-prefix (suc n) [] ys h = absurd (omega arith)
  drop-prefix (suc n) (x ∷ xs) ys h = drop-prefix n xs ys (omega arith)

  take-drop : (n : ℕ) (xs : List A) → take n xs ++ drop n xs ≡ xs
  take-drop zero xs = refl
  take-drop (suc n) [] = refl
  take-drop (suc n) (x ∷ xs) = ap (◌∷◌ x) (take-drop n xs)

length-zeros : (n : ℕ) → length (zeros n) ≡ n
unfolding zeros
length-zeros zero = refl
length-zeros (suc n) = ap suc (length-zeros n)

wide_pos : (end : ℕ) → end < 2 ^ 61 → quo (wrap64 (pos end *ℤ pos 3)) (pos 2) ≡ pos (end * 3 / 2)
unfolding quo
wide_pos end h = rw (*ℤ-pos end 3, wrap64-pos (end * 3) (omega arith)) refl

grows :
    (end : ℕ) (bytes spare : Bytes)
    → end < 2 ^ 61
    → length bytes ≤ end
    → ltb (length bytes + length spare) end ≡ true
    → grow (pos end) (bytes, spare) ≡ done (bytes, zeros (end * 3 / 2 - length bytes))
unfolding grow
grows end bytes spare h le e = rw (wide_pos end h) (ground arith)

-- There is room after grow.
grow-fits :
    (end : ℕ) (bytes spare : Bytes)
    → end < 2 ^ 61
    → (room : Bytes) × (grow (pos end) (bytes, spare) ≡ done (bytes, room))
      × (end ≤ length bytes + length room)
unfolding grow
grow-fits end bytes spare h = elim (Bool-cases (ltb (length bytes + length spare) end)) [
  | inl e ↦ (
    zeros (end * 3 / 2 - length bytes),
    grows end bytes spare h (ground arith) e,
    omega (arith, length-zeros (end * 3 / 2 - length bytes)),
  )
  | inr e ↦ (spare, ground arith, ground arith)
]

extend-fits :
    (end : ℕ) (bytes spare : Bytes)
    → end ≤ length bytes + length spare
    → (tail rest : Bytes) × (extend (pos end) (bytes, spare) ≡ done (bytes ++ tail, rest))
      × (length tail ≡ end - length bytes)
unfolding extend
extend-fits end bytes spare h = elim (Bool-cases (ltb (length bytes) end)) [
  | inl e ↦ (
    take (end - length bytes) spare,
    drop (end - length bytes) spare,
    ground arith,
    length-take (end - length bytes) spare (ground arith),
  )
  | inr e ↦ ([], spare, ground (arith, append-nil bytes), ground arith)
]

overwrite-fits :
    (b : Bytes) (off : ℕ) (bytes spare : Bytes)
    → off + length b ≤ length bytes
    → overwrite b (pos off) (bytes, spare)
      ≡ done (take off bytes ++ b ++ drop (off + length b) bytes, spare)
unfolding overwrite
overwrite-fits b off bytes spare h =
    rw (take-all (length bytes - off) b (omega arith)) (ground arith)

-- The changes of a write inside the length, at its length or beyond it.
pub patch-fits :
    (b : Bytes) (off : ℕ) (bytes spare : Bytes)
    → off ≤ length bytes
    → off + length b < 2 ^ 61
    → (rest : Bytes) × (patch b (pos off) (pos (off + length b)) (bytes, spare)
        ≡ done (take off bytes ++ b ++ drop (off + length b) bytes, rest))
unfolding patch
patch-fits b off bytes spare inside fits =
    let (room, grown, enough) = grow-fits (off + length b) bytes spare fits in
    let (tail, rest, extended, long) = extend-fits (off + length b) bytes room enough in
    (
      rest,
      rw
          (
            grown,
            extended,
            overwrite-fits b off (bytes ++ tail) rest (omega (arith, length-append bytes tail)),
            take-append off bytes tail inside,
            drop-append (off + length b) bytes tail long,
          )
          refl,
    )

not_negative : (n : ℕ) → ltb_ℤ (pos n) (pos 0) ≡ false
not_negative n = ground arith

not_too_long : (n : ℕ) → n < 2 ^ 61 → ltb_ℤ max_int (pos n) ≡ false
not_too_long n h = ground arith

write_at-patched :
    (f : File) (b : Bytes) (off : ℕ) (bytes rest : Bytes)
    → f.closed ≡ false
    → f.writable ≡ true
    → off + length b < 2 ^ 61
    → patch b (pos off) (pos (off + length b)) (f.data_bytes, f.spare) ≡ done (bytes, rest)
    → write_at f b (pos off)
      ≡ (done (length b), record f { dirty = true; data_bytes = bytes; spare = rest })
unfolding write_at
write_at-patched f b off bytes rest opened writable fits e =
    rw
      (
        opened,
        writable,
        add64-pos off (length b) (omega arith),
        not_negative off,
        not_too_long (off + length b) fits,
        e,
      )
      refl

-- A write at or before the end of an open and writable file, within 2^61 bytes, returns the number of
-- its bytes and puts them in their place: what stands before and after them is kept.
pub write_at-eq :
    (f : File) (b : Bytes) (off : ℕ)
    → f.closed ≡ false
    → f.writable ≡ true
    → off ≤ length f.data_bytes
    → off + length b < 2 ^ 61
    → (rest : Bytes) × (write_at f b (pos off) ≡ (
      done (length b),
      record f {
        dirty = true;
        data_bytes = take off f.data_bytes ++ b ++ drop (off + length b) f.data_bytes;
        spare = rest;
      },
    ))
write_at-eq f b off opened writable inside fits =
    let (rest, e) = patch-fits b off f.data_bytes f.spare inside fits in
    (rest, write_at-patched f b off _ rest opened writable fits e)

below : (a b : ℕ) → a < b → ltb_ℤ (pos a) (pos b) ≡ true
below a b h = ground arith

not_below : (a : ℕ) → ltb a a ≡ false
not_below a = ground arith

part-found :
    (r : ℤ) (off : ℕ) (xs b ys : Bytes)
    → length xs ≡ off
    → 0 < length b
    → reader_read_at (record { bytes = xs ++ b ++ ys; position = r }) (length b) (pos off)
      ≡ done (b, false)
unfolding reader_read_at
part-found r off xs b ys long some =
    rw
      (
        append_assoc xs b ys,
        not_negative off,
        below off (length (xs ++ (b ++ ys)))
            (omega (arith, length-append xs (b ++ ys), length-append b ys)),
        drop-prefix off xs (b ++ ys) long,
        take-append (length b) b ys (omega arith),
        take-all (length b) b (omega arith),
        not_below (length b),
      )
      refl

-- What is written, one byte or more, at or before the end of an open and writable file, within 2^61
-- bytes, is what ReadAt then finds there, without the end of the file, where the read offset is not
-- negative.
pub read_at-write_at :
    (f : File) (b : Bytes) (off : ℕ)
    → f.closed ≡ false
    → f.writable ≡ true
    → ltb_ℤ f.read_offset (pos 0) ≡ false
    → off ≤ length f.data_bytes
    → off + length b < 2 ^ 61
    → 0 < length b
    → (read_at (write_at f b (pos off)).1 (length b) (pos off)).0 ≡ done (b, false)
unfolding read_at synced init_read
read_at-write_at f b off opened writable nonneg inside fits some =
    let (rest, e) = write_at-eq f b off opened writable inside fits in
    rw (e, nonneg)
      (part-found f.read_offset off (take off f.data_bytes) b (drop (off + length b) f.data_bytes)
        (length-take off f.data_bytes inside) some)

grow-keeps :
    (end : ℕ) (bytes spare : Bytes)
    → end ≤ length bytes + length spare
    → grow (pos end) (bytes, spare) ≡ done (bytes, spare)
unfolding grow
grow-keeps end bytes spare h = ground arith

extend-grows :
    (end : ℕ) (bytes spare : Bytes)
    → length bytes < end
    → end ≤ length bytes + length spare
    → extend (pos end) (bytes, spare)
      ≡ done (bytes ++ take (end - length bytes) spare, drop (end - length bytes) spare)
unfolding extend
extend-grows end bytes spare h le = ground arith

patch-restores :
    (bytes spare : Bytes) (k : ℕ)
    → k < length bytes
    → (rest : Bytes) × (patch []
          (pos (length bytes))
          (pos (length bytes + 0))
          (take k bytes, drop k bytes ++ spare)
        ≡ done (bytes, rest))
unfolding patch
patch-restores bytes spare k cut =
    let n : ℕ = length bytes + 0 in
    let cut_off : ℕ = n - length (take k bytes) in
    let short = length-take k bytes (omega arith) in
    let parts = ap length (take-drop k bytes) in
    let sum = length-append (take k bytes) (drop k bytes) in
    let room = length-append (drop k bytes) spare in
    let back : take cut_off (drop k bytes ++ spare) ≡ drop k bytes =
      take-append cut_off (drop k bytes) spare (omega (arith, short, parts, sum))
      ∙ take-all cut_off (drop k bytes) (omega (arith, short, parts, sum)) in
    (
      drop cut_off (drop k bytes ++ spare),
      rw
          (
            grow-keeps n (take k bytes) (drop k bytes ++ spare)
                (omega (arith, short, parts, sum, room)),
            extend-grows n (take k bytes) (drop k bytes ++ spare) (omega (arith, short))
                (omega (arith, short, parts, sum, room)),
            back,
            take-drop k bytes,
            overwrite-fits [] (length bytes) bytes (drop cut_off (drop k bytes ++ spare))
                (omega arith),
            take-all (length bytes) bytes (omega arith),
            drop-all (length bytes + 0) bytes (omega arith),
            append-nil bytes,
            append-nil bytes,
          )
          refl,
    )

-- An empty write at the old end of an open and writable file of less than 2^61 bytes undoes a
-- truncation to fewer bytes: the bytes that were cut off come back.
pub write_at-truncate :
    (f : File) (k : ℕ)
    → f.closed ≡ false
    → f.writable ≡ true
    → k < length f.data_bytes
    → length f.data_bytes < 2 ^ 61
    → (write_at (truncate f (pos k)).1 [] (pos (length f.data_bytes))).1.data_bytes ≡ f.data_bytes
unfolding truncate
write_at-truncate f k opened writable cut fits =
    let (rest, e) = patch-restores f.data_bytes f.spare k cut in
    rw (opened, writable, below k (length f.data_bytes) cut, not_negative k)
      (ap (λ (p : Reply ℕ × File). p.1.data_bytes)
        (write_at-patched _ [] (length f.data_bytes) f.data_bytes rest refl refl (omega arith) e))
