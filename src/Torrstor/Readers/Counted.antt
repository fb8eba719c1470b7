-- ===== src/Torrstor/Readers/Counted.antt =====
-- The counter of readers in use.
use gostream.Prelude.{
  ℕ, zero, suc, ◌+◌, ◌-◌, ◌*◌, ◌≡◌, refl, sym, ap, ◌∙◌, Bool, true, false, if◌then◌else◌,
  Bool-cases, if_of_true, if_of_false, subst, not, ◌||◌, ◌&&◌, ◌/◌, ltb, leb, inl, inr, List, [],
  ◌∷◌, map, length, arith,
}
use gostream.Ranges.{Range, merge_range}
use gostream.Torrstor.Protect.{piece_in_range}
use gostream.Torrstor.Piece.{Piece}
use gostream.Torrstor.Reader.{Reader, reader_on, reader_off, check_reader, seek, read}
use gostream.Torrstor.Cache.{
  Settings, Cache, new_reader, clear_priority, check_readers, set_load_priority, refresh_priorities,
}
use gostream.Torrstor.Clean.{
  second, get_rem_pieces, clean_pieces, clean_throttled, evict, evict_from, remove_pieces,
  remove_piece,
}
use gostream.Torrstor.Readers.{
  set_aggressive, set_readahead, adjust_ra, close, close_at, close_reader, Call, opens,
  closes_reader, seeks, reads, use_at, use_reader_at, sets_aggressive, adjusts, cleans, collects,
  clears, closes, after_close, step, run,
}

abbrev pub in_use : List Reader → ℕ
in_use [] = 0
in_use (r ∷ rs) = (if r.is_use then 1 else 0) + in_use rs

check_reader-count :
    (now count rest : ℕ) (r : Reader) (active : ℕ)
    → active ≡ (if r.is_use then 1 else 0) + rest
    → (check_reader now count r active).1
      ≡ (if (check_reader now count r active).0.is_use then 1 else 0) + rest
unfolding check_reader reader_on reader_off
check_reader-count now count rest r active h = ground arith

module _ (st : Settings) where
  -- `seen` is what the readers before these contribute.
  check_readers-count :
      (c : Cache) (unix count seen : ℕ) (rs : List Reader) (active : ℕ)
      → active ≡ in_use rs + seen
      → (check_readers st c unix count rs active).1
        ≡ in_use (check_readers st c unix count rs active).0 + seen
  unfolding check_readers
  check_readers-count c unix count seen [] active h = h
  check_readers-count c unix count seen (r ∷ rs) active h =
      let (r', active') = check_reader unix count r active in
      let one = check_reader-count unix count (in_use rs + seen) r active (omega (arith, h)) in
      omega (
        arith,
        check_readers-count c unix count ((if r'.is_use then 1 else 0) + seen) rs active'
            (omega (arith, one)),
      )

  -- While the cache is open, the counter is the number of readers in use.
  abbrev IsCounted : Cache → Type 0
  IsCounted c = c.is_closed ≡ false → c.active_readers ≡ in_use c.readers

  -- A change that leaves the readers alone.
  abbrev Alike : Cache → Cache → Type 0
  Alike c d =
      (d.is_closed ≡ c.is_closed) × (d.active_readers ≡ c.active_readers) × (d.readers ≡ c.readers)

  Alike-IsCounted : (c d : Cache) → Alike c d → IsCounted c → IsCounted d
  Alike-IsCounted c d (a, b, e) h k = b ∙ (h (sym a ∙ k) ∙ ap in_use (sym e))

  Alike-trans : (c d e : Cache) → Alike c d → Alike d e → Alike c e
  Alike-trans c d e (x, y, z) (x', y', z') = (x' ∙ x, y' ∙ y, z' ∙ z)

  set_load_priority-Alike :
      (c : Cache) (ranges : List Range) → Alike c (set_load_priority st c ranges)
  unfolding set_load_priority
  set_load_priority-Alike c ranges = elim (Bool-cases c.has_torrent) [
    | inl t ↦ subst (Alike c) (sym (if_of_true _ _ t)) (refl, refl, refl)
    | inr t ↦ subst (Alike c) (sym (if_of_false _ _ t)) (refl, refl, refl)
  ]

  refresh_priorities-Alike : (c : Cache) → Alike c (refresh_priorities st c)
  unfolding refresh_priorities
  refresh_priorities-Alike c = elim (Bool-cases (c.is_closed || not c.has_torrent)) [
    | inl t ↦ subst (Alike c) (sym (if_of_true _ _ t)) (refl, refl, refl)
    | inr t ↦ subst (Alike c) (sym (if_of_false _ _ t)) (set_load_priority-Alike c _)
  ]

  remove_piece-Alike : (c : Cache) (p : Piece) → Alike c (remove_piece c p)
  unfolding remove_piece
  remove_piece-Alike c p = elim (Bool-cases c.is_closed) [
    | inl t ↦ subst (Alike c) (sym (if_of_true _ _ t)) (refl, refl, refl)
    | inr t ↦ subst (Alike c) (sym (if_of_false _ _ t)) (refl, refl, refl)
  ]

  remove_pieces-Alike : (ps : List Piece) (rems : ℕ) (c : Cache) → Alike c (remove_pieces ps rems c)
  unfolding remove_pieces
  remove_pieces-Alike [] rems c = (refl, refl, refl)
  remove_pieces-Alike (p ∷ ps) rems c = elim (Bool-cases (leb (rems - 1) 0)) [
    | inl t ↦ subst (Alike c) (sym (if_of_true _ _ t)) (remove_piece-Alike c p)
    | inr t ↦ subst (Alike c) (sym (if_of_false _ _ t)) (
        Alike-trans c (remove_piece c p) (remove_pieces ps (rems - 1) (remove_piece c p))
          (remove_piece-Alike c p) (remove_pieces-Alike ps (rems - 1) (remove_piece c p)))
  ]

  evict_from-Alike : (c : Cache) (ps : List Piece) → Alike c (evict_from c ps)
  unfolding evict_from
  evict_from-Alike c ps = elim (Bool-cases (ltb c.capacity c.filled)) [
    | inl t ↦ subst (Alike c) (sym (if_of_true _ _ t)) (remove_pieces-Alike ps _ c)
    | inr t ↦ subst (Alike c) (sym (if_of_false _ _ t)) (refl, refl, refl)
  ]

  checked-count :
      (c : Cache) (unix : ℕ)
      → c.active_readers ≡ in_use c.readers
      → (check_readers st c unix (length c.readers) c.readers c.active_readers).1
        ≡ in_use (check_readers st c unix (length c.readers) c.readers c.active_readers).0
  checked-count c unix h = omega (
    arith,
    check_readers-count c unix (length c.readers) 0 c.readers c.active_readers (omega (arith, h)),
  )

  clear_priority-IsCounted :
      (c : Cache) (unix : ℕ) → IsCounted c → IsCounted (clear_priority st c unix)
  unfolding clear_priority
  clear_priority-IsCounted c unix h = elim (Bool-cases (not c.has_torrent || c.is_closed)) [
    | inl t ↦ subst IsCounted (sym (if_of_true _ _ t)) h
    | inr t ↦ subst IsCounted (sym (if_of_false _ _ t)) (λ k. checked-count c unix (h k))
  ]

  get_rem_pieces-IsCounted :
      (c : Cache) (unix : ℕ) → IsCounted c → IsCounted (get_rem_pieces st c unix).0
  unfolding get_rem_pieces
  get_rem_pieces-IsCounted c unix h = elim (Bool-cases c.is_closed) [
    | inl t ↦ subst (λ (d : Cache × List Piece). IsCounted d.0) (sym (if_of_true _ _ t)) h
    | inr t ↦
        subst (λ (d : Cache × List Piece). IsCounted d.0) (sym (if_of_false _ _ t))
          (Alike-IsCounted (clear_priority st c1 unix)
            (set_load_priority st (clear_priority st c1 unix) ranges)
            (set_load_priority-Alike (clear_priority st c1 unix) ranges)
            (clear_priority-IsCounted c1 unix (λ k. checked-count c unix (h k))))
  ]
    where
      checked : List Reader × ℕ × List Range
      checked = check_readers st c unix (length c.readers) c.readers c.active_readers

      ranges : List Range
      ranges = merge_range checked.2

      c1 : Cache
      c1 = record c {
        readers = checked.0;
        active_readers = checked.1;
        in_range_bits = piece_in_range c.piece_length c.piece_count ranges;
      }

  evict-IsCounted : (c : Cache) (unix : ℕ) → IsCounted c → IsCounted (evict st c unix)
  unfolding evict
  evict-IsCounted c unix h =
      let (d, ps) = get_rem_pieces st c unix in
      Alike-IsCounted d (evict_from d ps) (evict_from-Alike d ps)
        (get_rem_pieces-IsCounted c unix h)

  clean_pieces-IsCounted :
      (c : Cache) (now unix : ℕ) → IsCounted c → IsCounted (clean_pieces st c now unix)
  unfolding clean_pieces clean_throttled
  clean_pieces-IsCounted c now unix h = elim (Bool-cases (c.is_remove || c.is_closed)) [
    | inl t ↦ subst IsCounted (sym (if_of_true _ _ t)) h
    | inr t ↦ subst IsCounted (sym (if_of_false _ _ t)) (throttled (refresh_priorities st c) fresh)
  ]
    where
      fresh : IsCounted (refresh_priorities st c)
      fresh = Alike-IsCounted c (refresh_priorities st c) (refresh_priorities-Alike c) h

      throttled : (d : Cache) → IsCounted d → IsCounted (clean_throttled st d now unix)
      throttled d k =
          elim (Bool-cases
            (ltb (now - d.last_clean) second && ltb d.filled (d.capacity * 9 / 10))) [
              | inl t ↦ subst IsCounted (sym (if_of_true _ _ t)) k
              | inr t ↦
                  subst IsCounted (sym (if_of_false _ _ t))
                    (evict-IsCounted (record d { is_remove = true; last_clean = now }) unix k)
            ]

  close_at-count :
      (i : ℕ) (rs : List Reader) (active seen : ℕ)
      → active ≡ in_use rs + seen
      → (close_at i rs active).1 ≡ in_use (close_at i rs active).0 + seen
  unfolding close_at reader_off
  close_at-count i [] active seen h = h
  close_at-count zero (r ∷ rs) active seen h = ground arith
  close_at-count (suc i) (r ∷ rs) active seen h =
      omega
        (arith, close_at-count i rs active ((if r.is_use then 1 else 0) + seen) (omega (arith, h)))

  -- A call on a reader that counts itself.
  abbrev CountsIn : (Reader → ℕ → Reader × ℕ) → Type 0
  CountsIn f =
      (r : Reader) (active rest : ℕ)
      → active ≡ (if r.is_use then 1 else 0) + rest
      → (f r active).1 ≡ (if (f r active).0.is_use then 1 else 0) + rest

  seek-CountsIn : (n unix : ℕ) → CountsIn (seek n unix)
  unfolding seek reader_on
  seek-CountsIn n unix r active rest h = ground arith

  read-CountsIn : (has_info : Bool) (n unix : ℕ) → CountsIn (read has_info n unix)
  unfolding read reader_on
  read-CountsIn has_info n unix r active rest h = ground arith

  use_at-count :
      (f : Reader → ℕ → Reader × ℕ)
      → CountsIn f
      → (i : ℕ) (rs : List Reader) (active seen : ℕ) → active ≡ in_use rs + seen
      → (use_at i f rs active).1 ≡ in_use (use_at i f rs active).0 + seen
  unfolding use_at
  use_at-count f k i [] active seen h = h
  use_at-count f k zero (r ∷ rs) active seen h =
      omega (arith, k r active (in_use rs + seen) (omega (arith, h)))
  use_at-count f k (suc i) (r ∷ rs) active seen h =
      omega (
        arith,
        use_at-count f k i rs active ((if r.is_use then 1 else 0) + seen) (omega (arith, h)),
      )

  use_reader_at-IsCounted :
      (c : Cache) (i : ℕ) (f : Reader → ℕ → Reader × ℕ)
      → CountsIn f
      → IsCounted c
      → IsCounted (use_reader_at c i f)
  unfolding use_reader_at
  use_reader_at-IsCounted c i f k h =
      λ o. omega (arith, use_at-count f k i c.readers c.active_readers 0 (omega (arith, h o)))

  map-in_use : (size : ℕ) (rs : List Reader) → in_use (map (set_readahead size) rs) ≡ in_use rs
  map-in_use size [] = refl
  map-in_use size (r ∷ rs) = omega (arith, map-in_use size rs)

  Step-IsCounted : (c : Cache) (x : Call) → IsCounted c → IsCounted (step st c x)
  unfolding step new_reader close_reader set_aggressive adjust_ra close
  Step-IsCounted c (opens file) h = elim (Bool-cases c.is_closed) [
    | inl t ↦ subst IsCounted (sym (if_of_true _ _ t)) (λ k. ground arith)
    | inr t ↦ subst IsCounted (sym (if_of_false _ _ t)) (λ k. omega (arith, h k))
  ]
  Step-IsCounted c (closes_reader i) h = elim (Bool-cases c.is_closed) [
    | inl t ↦ subst IsCounted (sym (if_of_true _ _ t)) h
    | inr t ↦
        subst IsCounted (sym (if_of_false _ _ t))
          (λ k. omega (arith, close_at-count i c.readers c.active_readers 0 (omega (arith, h k))))
  ]
  Step-IsCounted c (seeks i n unix) h =
      use_reader_at-IsCounted c i (seek n unix) (seek-CountsIn n unix) h
  Step-IsCounted c (reads i has_info n unix) h =
      use_reader_at-IsCounted c i (read has_info n unix) (read-CountsIn has_info n unix) h
  Step-IsCounted c (sets_aggressive enabled limit) h = h
  Step-IsCounted c (adjusts cache_size size) h = λ k. h k ∙ sym (map-in_use size c.readers)
  Step-IsCounted c (cleans now unix) h = clean_pieces-IsCounted c now unix h
  Step-IsCounted c (collects unix) h = get_rem_pieces-IsCounted c unix h
  Step-IsCounted c (clears unix) h = clear_priority-IsCounted c unix h
  Step-IsCounted c closes h = elim (Bool-cases c.is_closed) [
    | inl t ↦ subst (λ o. IsCounted (after_close c o)) (sym (if_of_true _ _ t)) h
    | inr t ↦ subst (λ o. IsCounted (after_close c o)) (sym (if_of_false _ _ t)) (λ k. ground arith)
  ]

  run-IsCounted : (c : Cache) (xs : List Call) → IsCounted c → IsCounted (run st c xs)
  unfolding run
  run-IsCounted c [] h = h
  run-IsCounted c (x ∷ xs) h = run-IsCounted (step st c x) xs (Step-IsCounted c x h)

  -- Whatever readers are opened and closed, seek and read, become idle and wake up again, and whatever
  -- is cleaned up meanwhile, each call as one step: if the cache is still open, the number of readers in use that
  -- it counts, by which its capacity is shared out, is the number of its readers in use, if it was at
  -- the start.
  pub run-active_readers :
      (c : Cache) (xs : List Call)
      → c.active_readers ≡ in_use c.readers
      → (run st c xs).is_closed ≡ false
      → (run st c xs).active_readers ≡ in_use (run st c xs).readers
  run-active_readers c xs h k = run-IsCounted c xs (λ e. h) k
