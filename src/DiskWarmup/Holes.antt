-- ===== src/DiskWarmup/Holes.antt =====
-- A chunk is read back, and what is before a first chunk that is not at the start is read as zeros.
use Prim.Native.String.{String}
use Prim.Native.Nat.{min}
use gostream.Prelude.{
  ℕ, zero, suc, ◌+◌, ◌-◌, ◌≤◌, ◌<◌, true, false, ◌≡◌, refl, ap, ◌∙◌, List, [], ◌∷◌, ◌++◌, length,
  take, drop, replicate, length-append, length-take, length-replicate, arith, none,
}
use gostream.Torrstor.Piece.Bytes.{drop-append}
use gostream.DiskWarmup.Disk.{file_path, file_of, write_bytes}
use gostream.DiskWarmup.{DiskWarmupCache, WarmupConfig, Io}
use gostream.DiskWarmup.HeadFile.{check_complete, process_write, read_at}
use gostream.DiskWarmup.Sound.{IsSound}
use gostream.DiskWarmup.Stored.{bytes_of, bytes_of-none}
use gostream.DiskWarmup.Written.{process_write-Holds, read_at-Holds}

unfoldable pub zeros : ℕ → List ℕ
zeros n = replicate n 0

length-zeros : (n : ℕ) → length (zeros n) ≡ n
unfolding zeros
length-zeros n = length-replicate {A = ℕ} n 0

-- The part of a list that lies in the first of two.
take-append_left : (n : ℕ) (xs ys : List ℕ) → n ≤ length xs → take n (xs ++ ys) ≡ take n xs
take-append_left zero xs ys h = refl
take-append_left (suc n) [] ys h = absurd (omega arith)
take-append_left (suc n) (x ∷ xs) ys h = ap (λ zs. x ∷ zs) (take-append_left n xs ys (omega arith))

-- What is written is found where it was written.
write_bytes_found :
    (old : List ℕ) (off : ℕ) (part : List ℕ) (n : ℕ)
    → 0 < length part
    → n ≤ length part
    → take n (drop off (write_bytes old off part)) ≡ take n part
unfolding write_bytes zeros
write_bytes_found old off [] n h k = absurd (omega arith)
write_bytes_found old off (x ∷ xs) n h k =
    let padded = old ++ zeros (off - length old) in
    let before : length (take off padded) ≡ off = omega (
      arith,
      length-take off padded,
      length-append old (zeros (off - length old)),
      length-zeros (off - length old),
    ) in
    ap (take n) (drop-append (take off padded) _ off before)
    ∙ take-append_left n (x ∷ xs) (drop (off + length (x ∷ xs)) old) k

take-zeros : (n m : ℕ) → n ≤ m → take n (zeros m) ≡ zeros n
unfolding zeros
take-zeros zero m h = refl
take-zeros (suc n) zero h = absurd (omega arith)
take-zeros (suc n) (suc m) h = ap (λ zs. 0 ∷ zs) (take-zeros n m (omega arith))

-- A file that starts with a chunk at an offset has zeros before it.
pub write_bytes-zeros :
    (off : ℕ) (part : List ℕ) (n : ℕ)
    → 0 < length part
    → n ≤ off
    → take n (write_bytes [] off part) ≡ zeros n
unfolding write_bytes zeros
write_bytes-zeros off [] n h k = absurd (omega arith)
write_bytes-zeros off (x ∷ xs) n h k =
    let all : take off (zeros (off - 0)) ≡ zeros off =
      ap (λ m. take off (zeros m)) (omega arith) ∙ take-zeros off off (omega arith) in
    rw all (take-append_left n (zeros off) _ (omega (arith, length-zeros off)) ∙ take-zeros n off k)

module _ (c : WarmupConfig) (io : Io) (now later : ℕ) (d : DiskWarmupCache) (hash : String) (id : ℕ)
    (part : List ℕ) (off n : ℕ) where
  -- A chunk that lies in the head and is not empty is read back within ten seconds, as far as it is asked
  -- for, if the head was not full, the tables were right, and the disk had room for it.
  pub read_at-process_write :
      0 < length part
      → n ≤ length part
      → off + length part ≤ c.warmup_file_size
      → (check_complete c now d (file_path hash id)).0 ≡ false
      → IsSound d
      → io.can_create ≡ true
      → length part ≤ io.room
      → later - now < 10_000_000_000
      → (read_at c later (process_write c io now d hash id part off) hash id n off).0 ≡ take n part
  read_at-process_write some_bytes asked fits not_full sound creates room soon =
      let e = process_write c io now d hash id part off in
      let old = bytes_of d (file_path hash id) in
      let h = process_write-Holds c io now d hash id part off fits not_full sound creates room in
      let all : min n (off + length part - off) ≡ n = omega arith in
      read_at-Holds c later e hash id (write_bytes old off part) (off + length part) now n off h
        soon (omega arith) (omega arith)
      ∙ ap (λ m. take m (drop off (write_bytes old off part))) all
      ∙ write_bytes_found old off part n some_bytes asked

  -- The first chunk of a file that lies in the head, is not empty and is not at the start of the
  -- file, as when the one before it was dropped, makes a file that has zeros before it: a read from
  -- the start gives these, and not nothing. The head was not full, the tables were right, the disk
  -- had room, and the read comes within ten seconds.
  pub read_at-first_dropped :
      0 < length part
      → n ≤ off
      → off + length part ≤ c.warmup_file_size
      → file_of d.files (file_path hash id) ≡ none
      → (check_complete c now d (file_path hash id)).0 ≡ false
      → IsSound d
      → io.can_create ≡ true
      → length part ≤ io.room
      → later - now < 10_000_000_000
      → (read_at c later (process_write c io now d hash id part off) hash id n 0).0 ≡ replicate n 0
  unfolding zeros
  read_at-first_dropped some_bytes before fits missing not_full sound creates room soon =
      let e = process_write c io now d hash id part off in
      let h = process_write-Holds c io now d hash id part off fits not_full sound creates room in
      let fresh = bytes_of-none d (file_path hash id) missing in
      let all : min n (off + length part - 0) ≡ n = omega arith in
      read_at-Holds c later e hash id _ (off + length part) now n 0 h soon (omega arith)
        (omega arith)
      ∙ ap (λ m. take m (write_bytes (bytes_of d (file_path hash id)) off part)) all
      ∙ ap (λ old. take n (write_bytes old off part)) fresh
      ∙ write_bytes-zeros off part n some_bytes before
