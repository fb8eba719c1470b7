-- ===== src/Torrstor/Priority/Limits.antt =====
-- How much a reader asks for, and what is withdrawn.
use gostream.Prelude.{
  ℕ, zero, suc, ◌+◌, ◌-◌, ◌≤◌, ◌<◌, ◌≡◌, refl, ◌∙◌, ◌==◌, ltb, if◌then◌else◌, true, false,
  Bool-cases, ◌||◌, not, List, [], ◌∷◌, length, length-append, Option, none, some, inl, inr, arith,
}
use gostream.Ranges.{Range, in_ranges}
use gostream.Torrstor.Piece.{Piece}
use gostream.Torrstor.Priority.{
  PiecePriority, now, Requests, local, record_local, choose, request, is_complete, load_loop,
  clear_local,
}

local-record_local :
    (id j : ℕ) (p : PiecePriority) (m : List (ℕ × PiecePriority))
    → local j (record_local id p m) ≡ (if id == j then some p else local j m)
unfolding local record_local
local-record_local id j p [] = refl
local-record_local id j p ((i, q) ∷ m) = ground (arith, local-record_local id j p m)

length-request :
    (q : Requests) (i : ℕ) (o : Option PiecePriority)
    → length (request q i o).sent ≤ length q.sent + 1
length-request q i none = omega arith
length-request q i (some p) = omega (arith, length-append q.sent ((i, some p) ∷ []))

local-request :
    (q : Requests) (i j : ℕ) (o : Option PiecePriority)
    → j < i
    → local j (request q i o).local_priority ≡ local j q.local_priority
local-request q i j none h = refl
local-request q i j (some p) h =
    let apart : (i == j) ≡ false = ground arith in
    local-record_local i j p q.local_priority ∙ rw apart

module _ (pieces : List Piece) (reader_pos rah_pos window count : ℕ) where
  load_loop-length :
      (n i limit : ℕ) (q : Requests)
      → length (load_loop pieces reader_pos rah_pos window count n i limit q).sent
        ≤ length q.sent + (count - limit)
  unfolding load_loop
  load_loop-length zero i limit q = omega arith
  load_loop-length (suc n) i limit q = elim (Bool-cases (ltb limit count)) [
    | inl t ↦ elim (Bool-cases (is_complete pieces i)) [
      | inl u ↦ rw (t, u) (load_loop-length n (i + 1) limit q)
      | inr u ↦
          let o = choose reader_pos rah_pos window i (local i q.local_priority) in
          rw (t, u)
            (ground
              (arith, load_loop-length n (i + 1) (limit + 1) (request q i o), length-request q i o))
    ]
    | inr t ↦ rw t (omega arith)
  ]

  load_loop-local :
      (n i limit : ℕ) (q : Requests) (j : ℕ)
      → j < i
      → local j (load_loop pieces reader_pos rah_pos window count n i limit q).local_priority
        ≡ local j q.local_priority
  unfolding load_loop
  load_loop-local zero i limit q j h = refl
  load_loop-local (suc n) i limit q j h = elim (Bool-cases (ltb limit count)) [
    | inl t ↦ elim (Bool-cases (is_complete pieces i)) [
      | inl u ↦ rw (t, u) (load_loop-local n (i + 1) limit q j (omega arith))
      | inr u ↦
          let o = choose reader_pos rah_pos window i (local i q.local_priority) in
          rw (t, u)
            (load_loop-local n (i + 1) (limit + 1) (request q i o) j (omega arith)
              ∙ local-request q i j o h)
    ]
    | inr t ↦ rw t
  ]

  -- A reader asks for at most `count` pieces. If there is a round at all and the piece under the reader
  -- is missing, that piece is asked for with the highest priority, and stays so recorded.
  load_loop-bounded :
      (n : ℕ) (q : Requests)
      → 0 < count
      → is_complete pieces reader_pos ≡ false
      → (length (load_loop pieces reader_pos rah_pos window count (suc n) reader_pos 0 q).sent
          ≤ length q.sent + count)
        × (local reader_pos
              (load_loop pieces reader_pos rah_pos window count
                (suc n)
                reader_pos
                0
                q).local_priority
            ≡ some now)
  load_loop-bounded n q positive missing =
      (omega (arith, load_loop-length (suc n) reader_pos 0 q), first)
    where
      here :
          choose reader_pos rah_pos window reader_pos (local reader_pos q.local_priority) ≡ some now
      here = unfold choose in ground arith

      written :
          (o : Option PiecePriority)
          → o ≡ some now
          → local reader_pos (request q reader_pos o).local_priority ≡ some now
      written none e = cc
      written (some p) e =
          local-record_local reader_pos reader_pos p q.local_priority ∙ ground arith

      first :
          local reader_pos
            (load_loop pieces reader_pos rah_pos window count (suc n) reader_pos 0 q).local_priority
          ≡ some now
      first =
          let t : ltb 0 count ≡ true = ground arith in
          let o = choose reader_pos rah_pos window reader_pos (local reader_pos q.local_priority) in
          unfold load_loop in
          rw (t, missing)
            (load_loop-local n (reader_pos + 1) (0 + 1) (request q reader_pos o) reader_pos
                (omega arith)
              ∙ written o here)

-- A requested piece stays requested exactly if the ranges in use hold it; with no range, none does.
local-clear_local :
    (ranges : List Range) (m : List (ℕ × PiecePriority)) (q : Requests) (id : ℕ)
    → q.local_priority ≡ []
    → local id (clear_local ranges m q).local_priority
      ≡ (if length ranges == 0 || not (in_ranges ranges id) then none else local id m)
unfolding clear_local local
local-clear_local ranges [] q id e = ground arith
local-clear_local ranges ((i, p) ∷ m) q id e = ground (arith, local-clear_local ranges m q id e)
