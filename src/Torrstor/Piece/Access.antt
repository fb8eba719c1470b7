-- ===== src/Torrstor/Piece/Access.antt =====
-- What reads return, and what a piece keeps under every history of calls.
use gostream.Prelude.{
  ℕ, ◌+◌, ◌≤◌, ◌<◌, ◌≡◌, refl, ap, ◌==◌, ltb, leb, if◌then◌else◌, false, Bool-cases, List, [], ◌∷◌,
  length, take, drop, length-replicate, get_elem?, Option, none, some, Option-cases, ◌⊎◌, inl, inr,
  arith, ◌∙◌, subst, Bool,
}
use gostream.Torrstor.Piece.{
  Piece, Call, writes, reads, releases, completes, new_piece, copied, copy_into, acquire, write_at,
  read_buffer, read_at, release, mark_complete, step, run, after_write, is_none,
}
use gostream.Torrstor.Piece.Bytes.{length-copy_into, read-copy_into, copy_into_outside}

abbrev Fits : ℕ → Option (List ℕ) → ℕ → Type 0
Fits piece_length none size = size ≡ 0
Fits piece_length (some buf) size = (length buf ≡ piece_length) × (size ≤ piece_length)

-- A piece without a buffer has size 0. With one, the buffer has the length of a piece, and the
-- recorded size is at most that.
pub record IsSound (piece_length : ℕ) (p : Piece) : Type 0 where
  pub fits : Fits piece_length p.buffer p.size

pub length-acquire :
    (piece_length : ℕ) (pooled own : Option (List ℕ)) (size : ℕ)
    → Fits piece_length own size
    → (length (acquire own piece_length pooled) ≡ piece_length) × (size ≤ piece_length)
unfolding acquire
length-acquire piece_length pooled (some buf) size h = h
length-acquire piece_length none none size h = (length-replicate piece_length 0, omega arith)
length-acquire piece_length (some old) none size h =
    (ground (arith, length-replicate piece_length (ℕ.zero)), omega arith)

read_buffer_keeps :
    (p : Piece) (buf : List ℕ) (len off now : ℕ)
    → ((read_buffer p buf len off now).0.buffer ≡ p.buffer)
      × ((read_buffer p buf len off now).0.size ≡ p.size)
unfolding read_buffer
read_buffer_keeps p buf len off now = (ground arith, ground arith)

read_at_keeps :
    (p : Piece) (len off now : ℕ)
    → ((read_at p len off now).0.buffer ≡ p.buffer) × ((read_at p len off now).0.size ≡ p.size)
unfolding read_at
read_at_keeps p len off now = elim (Option-cases p.buffer) [
  | inl e ↦ rw (e, read_at) (e, refl)
  | inr (buf, e) ↦ elim (Bool-cases (leb (length buf) off)) [
    | inl t ↦ (ground arith, ground arith)
    | inr t ↦
        let keeps = read_buffer_keeps p buf len off now in
        (ground (arith, keeps.0), ground (arith, keeps.1))
  ]
]

write_at-IsSound :
    (piece_length : ℕ) (pooled : Option (List ℕ)) (p : Piece) (b : List ℕ) (off now : ℕ)
    → IsSound piece_length p
    → IsSound piece_length (after_write p (write_at piece_length pooled p b off now))
unfolding write_at
write_at-IsSound piece_length pooled p b off now v =
    let buf = acquire p.buffer piece_length pooled in
    let (right_length, small) = length-acquire piece_length pooled p.buffer p.size v.fits in
    elim (Bool-cases (ltb (length buf) off)) [
      | inl t ↦ rw t v
      | inr t ↦ rw t (record {
        fits = (length-copy_into buf off b (ground arith) ∙ right_length, ground arith);
      })
    ]

step-IsSound :
    (piece_length : ℕ) (p : Piece) (c : Call)
    → IsSound piece_length p
    → IsSound piece_length (step piece_length p c)
unfolding step release mark_complete
step-IsSound piece_length p (writes pooled b off now) v =
    write_at-IsSound piece_length pooled p b off now v
step-IsSound piece_length p (reads len off now) v =
    let (same_buffer, same_size) = read_at_keeps p len off now in
    record { fits = rw (same_buffer, same_size) v.fits }
step-IsSound piece_length p releases v = record { fits = refl }
step-IsSound piece_length p completes v = record { fits = v.fits }

run-IsSound :
    (piece_length : ℕ) (p : Piece) (cs : List Call)
    → IsSound piece_length p
    → IsSound piece_length (run piece_length p cs)
unfolding run
run-IsSound piece_length p [] v = v
run-IsSound piece_length p (c ∷ cs) v =
    run-IsSound piece_length (step piece_length p c) cs (step-IsSound piece_length p c v)

-- Whatever is written to a new piece, read from it and released, and whatever the pool hands out: a
-- piece without a buffer has size 0, and with one its buffer has the length of a piece and its size
-- is at most that.
pub run-new-IsSound :
    (piece_length id : ℕ) (cs : List Call)
    → IsSound piece_length (run piece_length (new_piece id) cs)
unfolding new_piece
run-new-IsSound piece_length id cs = run-IsSound piece_length _ cs (record { fits = refl })

read_written :
    (p : Piece) (buf b : List ℕ) (off now : ℕ)
    → 0 < length b
    → off + length b ≤ length buf
    → take (length b) (drop off buf) ≡ b
    → ((read_buffer p buf (length b) off now).1 ≡ some b)
      × ((read_buffer p buf (length b) off now).0.complete ≡ p.complete)
unfolding read_buffer
read_written p buf b off now some_bytes inside same =
    let size : ltb (length buf) (length b + off) ≡ false = ground arith in
    let room : ltb (length buf) (off + length b) ≡ false = ground arith in
    let filled : (length b == 0) ≡ false = ground arith in
    rw size (rw (room, same, filled) (refl, refl))

-- A read at the place of a write returns what was written, if that is not empty and lies within the
-- piece. The write copies all of it, and neither call touches the mark of completion.
pub read_at-write_at :
    (piece_length : ℕ) (pooled : Option (List ℕ)) (p : Piece) (b : List ℕ) (off now later : ℕ)
    → IsSound piece_length p
    → 0 < length b
    → off + length b ≤ piece_length
    → (q : Piece) × (write_at piece_length pooled p b off now
        ≡ some (q, length b, is_none p.buffer))
      × ((read_at q (length b) off later).1 ≡ some b)
      × ((read_at q (length b) off later).0.complete ≡ p.complete)
unfolding write_at read_at
read_at-write_at piece_length pooled p b off now later v some_bytes inside =
    let buf = acquire p.buffer piece_length pooled in
    let (right_length, small) = length-acquire piece_length pooled p.buffer p.size v.fits in
    let starts : ltb (length buf) off ≡ false = ground arith in
    let all : copied buf off b ≡ length b = ground arith in
    let q : Piece = record p {
      buffer = some (copy_into buf off b);
      size =
          if ltb piece_length (p.size + copied buf off b)
          then piece_length
          else p.size + copied buf off b;
      accessed = now;
    } in
    let new_length = length-copy_into buf off b (omega (arith, right_length)) in
    let begins : leb (length (copy_into buf off b)) off ≡ false = ground (arith, new_length) in
    let (bytes, complete) =
      read_written q (copy_into buf off b) b off later some_bytes
        (omega (arith, new_length, right_length))
        (read-copy_into buf off b (omega (arith, right_length))) in
    (
      q,
      rw starts (ap (λ n. some (q, n, is_none p.buffer)) all),
      rw begins bytes,
      rw begins complete,
    )

-- A write leaves every other byte of a buffer that is there as it was.
write_at_outside :
    (piece_length : ℕ) (pooled : Option (List ℕ)) (p : Piece) (buf b : List ℕ) (off now i : ℕ)
    → IsSound piece_length p
    → p.buffer ≡ some buf
    → off + length b ≤ piece_length
    → (i < off) ⊎ (off + length b ≤ i)
    → (q : Piece) (buf' : List ℕ) (n : ℕ) (triggered : Bool)
    → write_at piece_length pooled p b off now ≡ some (q, n, triggered)
    → q.buffer ≡ some buf'
    → get_elem? buf' i ≡ get_elem? buf i
unfolding write_at acquire
write_at_outside piece_length pooled p buf b off now i v own inside outside q buf' n triggered w e =
    let right_length : length buf ≡ piece_length =
      (subst (λ (o : Option (List ℕ)). Fits piece_length o p.size) own v.fits).0 in
    let starts : ltb (length buf) off ≡ false = ground arith in
    let kept = copy_into_outside buf off b i (omega (arith, right_length)) outside in
    ground (arith, kept)

-- A piece that was released answers every read with the end of the file, and stays incomplete, so that
-- it is fetched again.
read_at-release :
    (p : Piece) (len off now : ℕ)
    → ((read_at (release p).0 len off now).1 ≡ none)
      × ((read_at (release p).0 len off now).0.complete ≡ false)
unfolding read_at release
read_at-release p len off now = (refl, refl)
