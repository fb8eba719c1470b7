-- ===== src/Torrstor/Piece.antt =====
-- internal/gostorm/torr/storage/torrstor/mempiece.go and piece.go: one piece and its buffer.
--
-- A `MemPiece` belongs to one `Piece`, so the two are one record. What `memBufferPool.Get` returns is
-- an argument, since a pool may drop or hand out any buffer that was put into it; `Release` returns
-- the buffer that it puts there. A result also says whether the cleanup was triggered. Offsets are
-- never negative.
pub mod Bytes
pub mod Access
mod Tests
use gostream.Prelude.{
  ℕ, ◌+◌, ◌-◌, ◌==◌, ltb, leb, if◌then◌else◌, Bool, true, false, ◌||◌, List, [], ◌∷◌, ◌++◌, length,
  take, drop, replicate, Option, none, some,
}

pub record Piece : Type 0 where
  pub id : ℕ
  pub size : ℕ
  pub complete : Bool
  pub accessed : ℕ
  pub buffer : Option (List ℕ)

unfoldable pub new_piece : ℕ → Piece
new_piece id = record { id = id; size = 0; complete = false; accessed = 0; buffer = none }

-- `copy(buf[off:], b)`: how many bytes it copies, and the buffer after it.
abbrev pub copied : List ℕ → ℕ → List ℕ → ℕ
copied buf off b = if ltb (length b) (length buf - off) then length b else length buf - off

unfoldable pub copy_into : List ℕ → ℕ → List ℕ → List ℕ
copy_into buf off b = let n = copied buf off b in take off buf ++ (take n b ++ drop (off + n) buf)

-- The buffer that a write uses: the piece's own, or the pool's if it has the right length, or a new one.
unfoldable pub acquire : Option (List ℕ) → ℕ → Option (List ℕ) → List ℕ
acquire (some buf) piece_length pooled = buf
acquire none piece_length none = replicate piece_length 0
acquire none piece_length (some old) =
    if length old == piece_length then old else replicate piece_length 0

abbrev pub is_none : Option (List ℕ) → Bool
is_none none = true
is_none (some buf) = false

-- `none` is the panic of a slice that starts behind the buffer's end.
unfoldable pub write_at : ℕ → Option (List ℕ) → Piece → List ℕ → ℕ → ℕ → Option (Piece × ℕ × Bool)
unfolding acquire copy_into
write_at piece_length pooled p b off now =
    let buf = acquire p.buffer piece_length pooled in
    let n = copied buf off b in
    if ltb (length buf) off
    then none
    else some (
      record p {
        buffer = some (copy_into buf off b);
        size = if ltb piece_length (p.size + n) then piece_length else p.size + n;
        accessed = now;
      },
      n,
      is_none p.buffer,
    )

-- `none` for the bytes is `io.EOF`.
unfoldable pub read_buffer : Piece → List ℕ → ℕ → ℕ → ℕ → Piece × Option (List ℕ) × Bool
read_buffer p buf len off now =
    let size = if ltb (length buf) (len + off) then length buf - off else len in
    let bytes = take size (drop off buf) in
    let triggered = leb p.size (len + off) in
    if ltb (length buf) (off + size)
    then (record p { complete = false }, none, false)
    else if length bytes == 0
    then (record p { complete = false; accessed = now }, none, triggered)
    else (record p { accessed = now }, some bytes, triggered)

unfoldable pub read_at : Piece → ℕ → ℕ → ℕ → Piece × Option (List ℕ) × Bool
unfolding read_buffer
read_at p len off now = elim p.buffer [
  | none ↦ (record p { complete = false }, none, false)
  | some buf ↦
      if leb (length buf) off
      then (record p { complete = false }, none, false)
      else read_buffer p buf len off now
]

-- The piece, and the buffer that goes back to the pool.
unfoldable pub release : Piece → Piece × Option (List ℕ)
release p = (record p { buffer = none; size = 0; complete = false }, p.buffer)

unfoldable pub mark_complete : Piece → Piece
mark_complete p = record p { complete = true }

-- The calls on one piece.
pub data Call : Type 0 where
  writes : Option (List ℕ) → List ℕ → ℕ → ℕ → Call
  reads : ℕ → ℕ → ℕ → Call
  releases : Call
  completes : Call

abbrev pub after_write : Piece → Option (Piece × ℕ × Bool) → Piece
after_write p none = p
after_write p (some (q, n, triggered)) = q

unfoldable pub step : ℕ → Piece → Call → Piece
unfolding write_at read_at release mark_complete
step piece_length p (writes pooled b off now) =
    after_write p (write_at piece_length pooled p b off now)
step piece_length p (reads len off now) = (read_at p len off now).0
step piece_length p releases = (release p).0
step piece_length p completes = mark_complete p

unfoldable pub run : ℕ → Piece → List Call → Piece
unfolding step
run piece_length p [] = p
run piece_length p (c ∷ cs) = run piece_length (step piece_length p c) cs
