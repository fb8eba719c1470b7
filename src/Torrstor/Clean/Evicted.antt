-- ===== src/Torrstor/Clean/Evicted.antt =====
-- What a cleanup may do to the pieces.
use gostream.Prelude.{
  ℕ, ◌-◌, ◌*◌, ◌/◌, ◌==◌, ◌≡◌, refl, sym, ap, subst, ◌∙◌, ltb, leb, Bool, true, false, Bool-cases,
  ◌&&◌, ◌||◌, not, List, [], ◌∷◌, All, ◌⊎◌, inl, inr, arith, if_of_true, if_of_false,
}
use gostream.Torrstor.Piece.{Piece, release}
use gostream.Torrstor.Cache.{Cache, Settings, refresh_priorities, set_load_priority, used_ranges}
use gostream.Ranges.{Range, merge_range}
use gostream.Torrstor.Clean.{
  second, release_id, remove_piece, remove_pieces, evict_from, evict, clean_throttled, clean_pieces,
}
use gostream.Torrstor.Clean.Candidates.{
  IsFree, chosen, get_rem_pieces-chosen, chosen-IsFree, chosen_keeps,
}

-- Piece by piece: unchanged, or released where `P` allows it.
abbrev pub Released : (ℕ → Type 0) → List Piece → List Piece → Type 0
Released P [] [] = Unit
Released P [] (q ∷ qs) = ⊥
Released P (p ∷ ps) [] = ⊥
Released P (p ∷ ps) (q ∷ qs) = ((q ≡ p) ⊎ ((q ≡ (release p).0) × P p.id)) × Released P ps qs

Released-refl : (P : ℕ → Type 0) (ps : List Piece) → Released P ps ps
Released-refl P [] = tt
Released-refl P (p ∷ ps) = (inl refl, Released-refl P ps)

Released-step :
    (P : ℕ → Type 0) (p q r : Piece)
    → (q ≡ p) ⊎ ((q ≡ (release p).0) × P p.id)
    → (r ≡ q) ⊎ ((r ≡ (release q).0) × P q.id)
    → (r ≡ p) ⊎ ((r ≡ (release p).0) × P p.id)
unfolding release
Released-step P p q r (inl e) (inl f) = inl (f ∙ e)
Released-step P p q r (inl e) (inr (f, h)) =
    inr (f ∙ ap (λ x. (release x).0) e, subst (λ (x : Piece). P x.id) e h)
Released-step P p q r (inr (e, h)) (inl f) = inr (f ∙ e, h)
Released-step P p q r (inr (e, h)) (inr (f, h')) = inr (f ∙ ap (λ x. (release x).0) e, h)

Released-trans :
    (P : ℕ → Type 0) (ps qs rs : List Piece)
    → Released P ps qs
    → Released P qs rs
    → Released P ps rs
Released-trans P [] [] rs a b = b
Released-trans P [] (q ∷ qs) rs a b = absurd a
Released-trans P (p ∷ ps) [] rs a b = absurd a
Released-trans P (p ∷ ps) (q ∷ qs) [] a b = absurd b
Released-trans P (p ∷ ps) (q ∷ qs) (r ∷ rs) a b =
    (Released-step P p q r a.0 b.0, Released-trans P ps qs rs a.1 b.1)

release_id-Released :
    (P : ℕ → Type 0) (id : ℕ) (ps : List Piece) → P id → Released P ps (release_id id ps)
unfolding release_id
release_id-Released P id [] h = tt
release_id-Released P id (p ∷ ps) h = elim (Bool-cases (p.id == id)) [
  | inl t ↦
      let same : p.id ≡ id = ground arith in
      rw t (inr (refl, subst P (sym same) h), Released-refl P ps)
  | inr t ↦ rw t (inl refl, release_id-Released P id ps h)
]

remove_piece-Released :
    (P : ℕ → Type 0) (c : Cache) (p : Piece)
    → P p.id
    → Released P c.pieces (remove_piece c p).pieces
unfolding remove_piece
remove_piece-Released P c p h = elim (Bool-cases c.is_closed) [
  | inl t ↦
      subst (λ (d : Cache). Released P c.pieces d.pieces) (sym (if_of_true _ _ t))
        (Released-refl P c.pieces)
  | inr t ↦
      subst (λ (d : Cache). Released P c.pieces d.pieces) (sym (if_of_false _ _ t))
        (release_id-Released P p.id c.pieces h)
]

remove_pieces-Released :
    (P : ℕ → Type 0) (rem : List Piece) (n : ℕ) (c : Cache)
    → All (λ (p : Piece). P p.id) rem
    → Released P c.pieces (remove_pieces rem n c).pieces
unfolding remove_pieces
remove_pieces-Released P [] n c h = Released-refl P c.pieces
remove_pieces-Released P (p ∷ ps) n c h =
    let first = remove_piece-Released P c p h.0 in
    let rest = remove_pieces-Released P ps (n - 1) (remove_piece c p) h.1 in
    elim (Bool-cases (leb (n - 1) 0)) [
      | inl t ↦ rw t first
      | inr t ↦ rw t (Released-trans P c.pieces _ _ first rest)
    ]

evict_from-Released :
    (P : ℕ → Type 0) (rem : List Piece) (c : Cache)
    → All (λ (p : Piece). P p.id) rem
    → Released P c.pieces (evict_from c rem).pieces
unfolding evict_from
evict_from-Released P rem c h = elim (Bool-cases (ltb c.capacity c.filled)) [
  | inl t ↦ rw t (remove_pieces-Released P rem _ c h)
  | inr t ↦ rw t (Released-refl P c.pieces)
]

evict-Released :
    (st : Settings) (c : Cache) (unix : ℕ)
    → c.is_closed ≡ false
    → Released (IsFree st c unix) c.pieces (evict st c unix).pieces
unfolding evict
evict-Released st c unix opened =
    let e = get_rem_pieces-chosen st c unix opened in
    let r =
      evict_from-Released (IsFree st c unix) (chosen st c unix).1 (chosen st c unix).0
        (chosen-IsFree st c unix) in
    subst (λ r. Released (IsFree st c unix) c.pieces (evict_from r.0 r.1).pieces) (sym e)
      (subst
        (λ ps.
          Released (IsFree st c unix) ps
            (evict_from (chosen st c unix).0 (chosen st c unix).1).pieces)
        (chosen_keeps st c unix).0 r)

-- A refresh of the priorities changes the requests only.
refresh_priorities_lem :
    (st : Settings) (c : Cache)
    → refresh_priorities st c ≡ record c { requests = (refresh_priorities st c).requests }
unfolding refresh_priorities
refresh_priorities_lem st c = elim (Bool-cases (c.is_closed || not c.has_torrent)) [
  | inl t ↦ rw t
  | inr t ↦ rw t (loaded (merge_range (used_ranges st c c.readers)))
]
  where
    loaded :
        (ranges : List Range)
        → set_load_priority st c ranges
          ≡ record c { requests = (set_load_priority st c ranges).requests }
    loaded ranges = unfold set_load_priority in ground arith

clean_throttled-Released :
    (st : Settings) (c : Cache) (now unix : ℕ)
    → c.is_closed ≡ false
    → Released (IsFree st c unix) c.pieces (clean_throttled st c now unix).pieces
unfolding clean_throttled
clean_throttled-Released st c now unix opened =
    elim (Bool-cases (ltb (now - c.last_clean) second && ltb c.filled (c.capacity * 9 / 10))) [
      | inl t ↦
          subst (λ (d : Cache). Released (IsFree st c unix) c.pieces d.pieces)
            (sym (if_of_true _ _ t)) (Released-refl _ c.pieces)
      | inr t ↦
          subst (λ (d : Cache). Released (IsFree st c unix) c.pieces d.pieces)
            (sym (if_of_false _ _ t))
            (evict-Released st (record c { is_remove = true; last_clean = now }) unix opened)
    ]

or_false : (a b : Bool) → (a || b) ≡ false → b ≡ false
or_false a b h = ground arith

-- A cleanup releases only pieces that lie neither in a file that a reader's merged range names nor in
-- the kept head or tail of one. Every other piece is exactly as it was, data included.
pub clean_pieces-Released :
    (st : Settings) (c : Cache) (now unix : ℕ)
    → Released (IsFree st c unix) c.pieces (clean_pieces st c now unix).pieces
unfolding clean_pieces
clean_pieces-Released st c now unix = elim (Bool-cases (c.is_remove || c.is_closed)) [
  | inl t ↦
      subst (λ (d : Cache). Released (IsFree st c unix) c.pieces d.pieces) (sym (if_of_true _ _ t))
        (Released-refl _ c.pieces)
  | inr t ↦
      subst (λ (d : Cache). Released (IsFree st c unix) c.pieces d.pieces) (sym (if_of_false _ _ t))
        (subst
          (λ (d : Cache).
            Released (IsFree st c unix) c.pieces (clean_throttled st d now unix).pieces)
          (sym (refresh_priorities_lem st c))
          (clean_throttled-Released st (record c { requests = (refresh_priorities st c).requests })
            now unix (or_false c.is_remove c.is_closed t)))
]
