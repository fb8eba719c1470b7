-- ===== src/Torrstor/Readers/Closed.antt =====
-- What still happens on a closed cache.
use gostream.Prelude.{
  ℕ, ◌+◌, ◌≡◌, refl, sym, ◌∙◌, ap, true, Bool-cases, inl, inr, none, some, if_of_false, not, ◌||◌,
  if_of_true, subst, List, [], ◌∷◌, map, arith,
}
use gostream.Torrstor.Piece.{Piece}
use gostream.Torrstor.Reader.{seek, read}
use gostream.Torrstor.Priority.{Requests}
use gostream.Torrstor.Cache.{Settings, Cache, new_reader, clear_priority}
use gostream.Torrstor.Clean.{get_rem_pieces, clean_pieces}
use gostream.Torrstor.Readers.{
  set_aggressive, set_readahead, adjust_ra, close, close_reader, Call, opens, closes_reader, seeks,
  reads, use_at, use_reader_at, sets_aggressive, adjusts, cleans, collects, clears, closes,
  after_close, step, run,
}

-- Closed, with nothing left, no priority sent but those of before, and so many readers of the torrent.
abbrev pub IsInert : Requests → ℕ → Cache → Type 0
IsInert q n c =
    (c.is_closed ≡ true)
    × (c.readers ≡ [])
    × (c.pieces ≡ [])
    × (c.requests ≡ q)
    × (c.torrent_readers ≡ n)

-- How many readers are opened.
abbrev pub opened : List Call → ℕ
opened [] = 0
opened (opens file ∷ xs) = 1 + opened xs
opened (x ∷ xs) = opened xs

module _ (st : Settings) (q : Requests) where
  same : (n : ℕ) (c : Cache) → IsInert q n c → IsInert q (n + 0) c
  same n c h = (h.0, h.1, h.2, h.3, omega (arith, h.4))

  Step-IsInert :
      (c : Cache) (x : Call) (n : ℕ) → IsInert q n c → IsInert q (n + opened (x ∷ [])) (step st c x)
  unfolding step new_reader close_reader use_reader_at use_at set_aggressive adjust_ra clean_pieces
      get_rem_pieces clear_priority close
  Step-IsInert c (opens file) n h =
      subst (IsInert q (n + 1)) (sym (if_of_true _ _ h.0)) (h.0, h.1, h.2, h.3, ap (λ k. k + 1) h.4)
  Step-IsInert c (closes_reader i) n h =
      same n (step st c (closes_reader i)) (subst (IsInert q n) (sym (if_of_true _ _ h.0)) h)
  Step-IsInert c (seeks i m unix) n h =
      same n (step st c (seeks i m unix))
        ((h.0, ap (λ rs. (use_at i (seek m unix) rs c.active_readers).0) h.1, h.2, h.3, h.4))
  Step-IsInert c (reads i has_info m unix) n h =
      same n (step st c (reads i has_info m unix)) (
        (
          h.0,
          ap (λ rs. (use_at i (read has_info m unix) rs c.active_readers).0) h.1,
          h.2,
          h.3,
          h.4,
        ))
  Step-IsInert c (sets_aggressive enabled limit) n h =
      same n (step st c (sets_aggressive enabled limit)) (h)
  Step-IsInert c (adjusts cache_size size) n h =
      same n (step st c (adjusts cache_size size))
        ((h.0, ap (map (set_readahead size)) h.1, h.2, h.3, h.4))
  Step-IsInert c (cleans now unix) n h = same n (step st c (cleans now unix)) (
      let t : c.is_remove || c.is_closed ≡ true = ground (arith, h.0) in
      subst (IsInert q n) (sym (if_of_true _ _ t)) h)
  Step-IsInert c (collects unix) n h =
      same n (step st c (collects unix))
        (subst (λ (d : Cache × List Piece). IsInert q n d.0) (sym (if_of_true _ _ h.0)) h)
  Step-IsInert c (clears unix) n h = same n (step st c (clears unix)) (
      let t : not c.has_torrent || c.is_closed ≡ true = ground (arith, h.0) in
      subst (IsInert q n) (sym (if_of_true _ _ t)) h)
  Step-IsInert c closes n h =
      same n (step st c closes)
        (subst (λ o. IsInert q n (after_close c o)) (sym (if_of_true _ _ h.0)) h)

  opened-cons : (x : Call) (xs : List Call) → opened (x ∷ xs) ≡ opened (x ∷ []) + opened xs
  opened-cons (opens file) xs = omega arith
  opened-cons (closes_reader i) xs = omega arith
  opened-cons (seeks i n unix) xs = omega arith
  opened-cons (reads i has_info n unix) xs = omega arith
  opened-cons (sets_aggressive enabled limit) xs = omega arith
  opened-cons (adjusts cache_size size) xs = omega arith
  opened-cons (cleans now unix) xs = omega arith
  opened-cons (collects unix) xs = omega arith
  opened-cons (clears unix) xs = omega arith
  opened-cons closes xs = omega arith

  run-IsInert :
      (c : Cache) (xs : List Call) (n : ℕ) → IsInert q n c → IsInert q (n + opened xs) (run st c xs)
  unfolding run
  run-IsInert c [] n h = same n c h
  run-IsInert c (x ∷ xs) n h =
      subst (λ k. IsInert q k (run st (step st c x) xs)) (omega (arith, opened-cons x xs))
        (run-IsInert (step st c x) xs (n + opened (x ∷ [])) (Step-IsInert c x n h))

close-IsInert : (c d : Cache) → close c ≡ some d → IsInert c.requests c.torrent_readers d
unfolding close
close-IsInert c d e = elim (Bool-cases c.is_closed) [
  | inl t ↦ absurd (nothing d (sym (if_of_true _ _ t) ∙ e))
  | inr t ↦
      subst (IsInert c.requests c.torrent_readers) (same _ d (sym (if_of_false _ _ t) ∙ e))
        (refl, refl, refl, refl, refl)
]
  where
    nothing : (d : Cache) → none ≡ some d → ⊥
    nothing d h = cc

    same : (a d : Cache) → some a ≡ some d → a ≡ d
    same a d h = cc

-- Whatever is called on a cache after it was closed, late cleanups and new readers included, each call
-- as one step: it stays closed, without a reader and without a piece, and sends no further priority to
-- the torrent. But each new reader opens another reader of the torrent, as before.
pub run-close :
    (st : Settings) (c d : Cache) (xs : List Call)
    → close c ≡ some d
    → IsInert c.requests (c.torrent_readers + opened xs) (run st d xs)
run-close st c d xs e = run-IsInert st c.requests d xs c.torrent_readers (close-IsInert c d e)
