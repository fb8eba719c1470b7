-- ===== src/Torrstor/Priority.antt =====
-- internal/gostorm/torr/storage/torrstor/cache.go: which pieces are asked for, and how urgently.
--
-- `PiecePriorityNone` is `none`. `sent` is the record of the calls to the torrent library's
-- `SetPriority` and `SetPiecePriorities`, which is all that the code does with it.
pub mod Limits
use gostream.Prelude.{
  ℕ, zero, suc, ◌+◌, ◌-◌, ◌/◌, ◌==◌, ltb, leb, if◌then◌else◌, Bool, true, false, ◌&&◌, ◌||◌, not,
  List, [], ◌∷◌, ◌++◌, length, get_elem?, Option, none, some,
}
use gostream.Ranges.{Range, in_ranges}
use gostream.Torrstor.Piece.{Piece}

pub data PiecePriority : Type 0 where
  normal high readahead next now : PiecePriority

pub record Requests : Type 0 where
  pub local_priority : List (ℕ × PiecePriority)
  pub sent : List (ℕ × Option PiecePriority)

unfoldable pub local : ℕ → List (ℕ × PiecePriority) → Option PiecePriority
local id [] = none
local id ((i, p) ∷ m) = if i == id then some p else local id m

unfoldable pub record_local :
    ℕ → PiecePriority → List (ℕ × PiecePriority) → List (ℕ × PiecePriority)
record_local id p [] = (id, p) ∷ []
record_local id p ((i, q) ∷ m) = if i == id then (id, p) ∷ m else (i, q) ∷ record_local id p m

abbrev is_high : Option PiecePriority → Bool
is_high (some high) = true
is_high p = false

abbrev is_normal : Option PiecePriority → Bool
is_normal (some normal) = true
is_normal p = false

-- The chain of tests in the loop. `current` is what was asked for before.
unfoldable pub choose : ℕ → ℕ → ℕ → ℕ → Option PiecePriority → Option PiecePriority
choose reader_pos rah_pos window i current =
    if i == reader_pos
    then some now
    else if i == reader_pos + 1
    then some next
    else if ltb reader_pos i && leb i rah_pos
    then some readahead
    else if ltb rah_pos i && leb i (rah_pos + window)
    then (if is_high current then none else some high)
    else if ltb (rah_pos + window) i
    then (if is_normal current then none else some normal)
    else none

abbrev request : Requests → ℕ → Option PiecePriority → Requests
request q i none = q
request q i (some p) = record {
  local_priority = record_local i p q.local_priority;
  sent = q.sent ++ ((i, some p) ∷ []);
}

abbrev pub is_complete : List Piece → ℕ → Bool
is_complete pieces i = elim (get_elem? pieces i) [ none ↦ true | some p ↦ p.complete ]

module _ (pieces : List Piece) (reader_pos rah_pos window count : ℕ) where
  -- `limit` counts the incomplete pieces so far. The first argument is the rounds that are left.
  unfoldable pub load_loop : ℕ → ℕ → ℕ → Requests → Requests
  unfolding choose record_local local
  load_loop zero i limit q = q
  load_loop (suc n) i limit q =
      let skipped = load_loop n (i + 1) limit q in
      let asked =
        load_loop n (i + 1) (limit + 1)
          (request q i (choose reader_pos rah_pos window i (local i q.local_priority))) in
      if ltb limit count then (if is_complete pieces i then skipped else asked) else q

-- `clearPriority` on the ranges that are still in use.
unfoldable pub clear_local : List Range → List (ℕ × PiecePriority) → Requests → Requests
clear_local ranges [] q = q
clear_local ranges ((id, p) ∷ m) q =
    let rest = clear_local ranges m q in
    if length ranges == 0 || not (in_ranges ranges id)
    then record rest { sent = (id, none) ∷ rest.sent }
    else record rest { local_priority = (id, p) ∷ rest.local_priority }
