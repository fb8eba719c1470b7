-- ===== src/Torrstor/Piece/Tests.antt =====
-- Runs of one piece.
use gostream.Prelude.{ℕ, ◌≡◌, refl, true, List, [], ◌∷◌, none, some, arith}
use gostream.Torrstor.Piece.{
  Piece, Call, writes, reads, completes, is_none, new_piece, write_at, read_at, run,
}
use gostream.Torrstor.Piece.Access.{IsSound, run-new-IsSound, read_at-write_at}

abbrev history : List Call
history = writes none (7 ∷ 8 ∷ []) 1 5 ∷ completes ∷ reads 2 1 6 ∷ []

abbrev stored : Piece
stored = run 4 (new_piece 3) history

stored_lem :
    stored
    ≡ record { id = 3; size = 2; complete = true; accessed = 6; buffer = some (0 ∷ 7 ∷ 8 ∷ 0 ∷ []) }
unfolding run new_piece
stored_lem = refl

-- A buffer from the pool keeps the bytes of the piece that it served before.
stale_bytes :
    (run 4 (new_piece 3) (writes (some (1 ∷ 1 ∷ 1 ∷ 1 ∷ [])) (7 ∷ []) 0 5 ∷ [])).buffer
    ≡ some (7 ∷ 1 ∷ 1 ∷ 1 ∷ [])
unfolding run new_piece
stale_bytes = refl

-- Writing the same bytes again counts them again.
counted_twice :
    (run 4 (new_piece 3) (writes none (7 ∷ 8 ∷ []) 1 5 ∷ writes none (7 ∷ 8 ∷ []) 1 6 ∷ [])).size
    ≡ 4
unfolding run new_piece
counted_twice = refl

run-new-IsSound_example : IsSound 4 (run 4 (new_piece 3) history)
run-new-IsSound_example = run-new-IsSound 4 3 history

read_at-write_at_example :
    (q : Piece) × (write_at 4 none stored (9 ∷ 9 ∷ []) 2 7 ≡ some (q, 2, is_none stored.buffer))
    × ((read_at q 2 2 8).1 ≡ some (9 ∷ 9 ∷ []))
    × ((read_at q 2 2 8).0.complete ≡ stored.complete)
read_at-write_at_example =
    read_at-write_at 4 none stored (9 ∷ 9 ∷ []) 2 7 8 run-new-IsSound_example (omega arith)
      (omega arith)

abbrev before : List ℕ
before = 0 ∷ 7 ∷ 8 ∷ 0 ∷ []

abbrev after : List ℕ
after = 0 ∷ 7 ∷ 9 ∷ 9 ∷ []

abbrev rewritten : Piece
rewritten = record { id = 3; size = 4; complete = true; accessed = 7; buffer = some after }
