-- ===== src/ReadAhead/Limits.antt =====
-- main.go: the budget after `ReadAheadCache.Put`.

use gostream.Prelude.{
  ◌⊎◌, ℕ, suc, ◌*◌, ltb, ◌≤◌, ◌≡◌, subst, sym, if_holds, if_of_true, if_of_false, Bool-cases, true,
  false, ◌&&◌, List, [], ◌∷◌, length, arith, inl, inr,
}
use gostream.ReadAhead.{Config, ChunkKey, RaBuffer, Shard, find_buffer}
use gostream.ReadAhead.Store.{
  Held, budget, drop_first, overwrite, evict_loop, compact, put_shard, add, stored_keys, is_stored,
}

-- The eviction ends within the limit, or with at most one chunk left in the order.
evict_loop_lem :
    (limit : ℕ) (h : Held) (ks : List ChunkKey)
    → (ltb limit (evict_loop limit h ks).used ≡ false)
      ⊎ (length (evict_loop limit h ks).shard.order ≤ 1)
unfolding evict_loop
evict_loop_lem limit h [] = inr (omega arith)
evict_loop_lem limit h (v ∷ []) = inr (omega arith)
evict_loop_lem limit h (v ∷ w ∷ rest) =
    let rec = evict_loop_lem limit (drop_first h v (find_buffer v h.shard.buffers)) (w ∷ rest) in
    elim (Bool-cases (ltb limit h.used)) [
      | inl t ↦
          subst (λ (x : Held). (ltb limit x.used ≡ false) ⊎ (length x.shard.order ≤ 1))
            (sym (if_of_true _ _ t)) rec
      | inr t ↦
          subst (λ (x : Held). (ltb limit x.used ≡ false) ⊎ (length x.shard.order ≤ 1))
            (sym (if_of_false _ _ t)) (inl t)
    ]

length-stored_keys :
    (bs : List (ChunkKey × RaBuffer)) (ks : List ChunkKey) → length (stored_keys bs ks) ≤ length ks
unfolding stored_keys
length-stored_keys bs [] = omega arith
length-stored_keys bs (k ∷ ks) =
    let rest = length-stored_keys bs ks in
    if_holds (λ xs. length xs ≤ suc (length ks)) (is_stored (find_buffer k bs))
      (k ∷ stored_keys bs ks) (stored_keys bs ks) (omega (arith, rest)) (omega (arith, rest))

compact-order : (s : Shard) → length (compact s).order ≤ length s.order
unfolding compact
compact-order s =
    if_holds (λ (x : Shard). length x.order ≤ length s.order)
      (ltb 100 (length s.order) && ltb (length s.buffers * 2) (length s.order))
      (record s { order = stored_keys s.buffers s.order }) s (length-stored_keys s.buffers s.order)
      (omega arith)

-- After a put, the bytes that are counted are within the budget, or at most one chunk is left in the
-- order of the shard and the put starts a global eviction.
pub put_shard-within_budget :
    (cfg : Config) (h : Held) (k : ChunkKey) (b : RaBuffer)
    → ((put_shard cfg h k b).0.used ≤ budget cfg)
      ⊎ ((length (put_shard cfg h k b).0.shard.order ≤ 1) × ((put_shard cfg h k b).1 ≡ true))
unfolding put_shard
put_shard-within_budget cfg h k b = elim (Bool-cases (ltb (budget cfg) evicted.used)) [
  | inr t ↦ inl (within t)
  | inl t ↦ elim (evict_loop_lem (budget cfg) added added.shard.order) [
    | inl f ↦ absurd (clash t f)
    | inr l ↦ inr (omega (arith, l, compact-order evicted.shard), rw t (ground (arith, l)))
  ]
]
  where
    added : Held
    added = add (overwrite h k (find_buffer k h.shard.buffers)) k b

    evicted : Held
    evicted = evict_loop (budget cfg) added added.shard.order

    clash : ltb (budget cfg) evicted.used ≡ true → ltb (budget cfg) evicted.used ≡ false → ⊥
    clash t f = cc

    within : ltb (budget cfg) evicted.used ≡ false → evicted.used ≤ budget cfg
    within t = ground (arith, t)
