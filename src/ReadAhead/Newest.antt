-- ===== src/ReadAhead/Newest.antt =====
-- The order of a shard under `ReadAheadCache.Put`, and the chunk that it adds.

use gostream.Prelude.{
  ℕ, ◌*◌, ltb, ◌≡◌, refl, ap, ◌∙◌, if_holds, if_of_true, true, false, ◌&&◌, List, [], ◌∷◌, ◌++◌,
  Option, none, some, length,
}
use gostream.ReadAhead.{Config, ChunkKey, RaBuffer, Shard, key_eq, find_buffer}
use gostream.ReadAhead.Store.{
  Held, budget, remove_key, drop_first, overwrite, evict_loop, compact, put_shard, add, stored_keys,
  is_stored,
}
use gostream.ReadAhead.Order.{
  key_eq_refl, key_eq_sym, Without, Differ, Stored, IsOrderedShard, find_buffer-remove_buffer,
  Stored-drop_first, Stored-remove_buffer, remove_key-Without, Differ-remove_key, Stored-remove_key,
  Without-Stored,
}

pub find_buffer-drop_first :
    (h : Held) (k v : ChunkKey) (o : Option RaBuffer)
    → key_eq v k ≡ false
    → find_buffer k (drop_first h v o).shard.buffers ≡ find_buffer k h.shard.buffers
unfolding drop_first
find_buffer-drop_first h k v none n = refl
find_buffer-drop_first h k v (some b) n =
    find_buffer-remove_buffer k v h.shard.buffers (key_eq_sym v k n)

evict_loop-IsOrdered :
    (limit : ℕ) (h : Held) (ks : List ChunkKey)
    → Differ ks
    → Stored h.shard.buffers ks
    → IsOrderedShard (evict_loop limit h ks).shard
unfolding evict_loop
evict_loop-IsOrdered limit h [] d s = (d, s)
evict_loop-IsOrdered limit h (v ∷ []) d s = (d, s)
evict_loop-IsOrdered limit h (v ∷ w ∷ rest) d s =
    let found = find_buffer v h.shard.buffers in
    if_holds (λ (x : Held). IsOrderedShard x.shard) (ltb limit h.used)
      (evict_loop limit (drop_first h v found) (w ∷ rest))
      (record h { shard = record h.shard { order = v ∷ w ∷ rest } })
      (evict_loop-IsOrdered limit (drop_first h v found) (w ∷ rest) d.1
        (Stored-drop_first h v found (w ∷ rest) d.0 s.1))
      (d, s)

-- The last key of the order keeps its chunk.
pub evict_loop-keeps :
    (limit : ℕ) (h : Held) (k : ChunkKey) (ks : List ChunkKey)
    → Without k ks
    → find_buffer k (evict_loop limit h (ks ++ k ∷ [])).shard.buffers
      ≡ find_buffer k h.shard.buffers
unfolding evict_loop
evict_loop-keeps limit h k [] n = refl
evict_loop-keeps limit h k (v ∷ []) n =
    if_holds (λ (x : Held). find_buffer k x.shard.buffers ≡ find_buffer k h.shard.buffers)
      (ltb limit h.used)
      (evict_loop limit (drop_first h v (find_buffer v h.shard.buffers)) (k ∷ []))
      (record h { shard = record h.shard { order = v ∷ k ∷ [] } })
      (find_buffer-drop_first h k v (find_buffer v h.shard.buffers) n.0) refl
evict_loop-keeps limit h k (v ∷ w ∷ rest) n =
    let found = find_buffer v h.shard.buffers in
    if_holds (λ (x : Held). find_buffer k x.shard.buffers ≡ find_buffer k h.shard.buffers)
      (ltb limit h.used) (evict_loop limit (drop_first h v found) (w ∷ (rest ++ k ∷ [])))
      (record h { shard = record h.shard { order = v ∷ w ∷ (rest ++ k ∷ []) } })
      (evict_loop-keeps limit (drop_first h v found) k (w ∷ rest) n.1
        ∙ find_buffer-drop_first h k v found n.0)
      refl

-- What `Put` starts from: the key, and no other, is out of the order.
Cleared : ChunkKey → Shard → Type 0
Cleared k s = IsOrderedShard s × Without k s.order

overwrite-Cleared :
    (h : Held) (k : ChunkKey) (o : Option RaBuffer)
    → find_buffer k h.shard.buffers ≡ o
    → IsOrderedShard h.shard
    → Cleared k (overwrite h k o).shard
unfolding overwrite Cleared
overwrite-Cleared h k none e i = (i, Without-Stored k h.shard.buffers h.shard.order e i.1)
overwrite-Cleared h k (some b) e i =
    let gone = remove_key-Without k h.shard.order i.0 in
    (
      (
        Differ-remove_key k h.shard.order i.0,
        Stored-remove_buffer k h.shard.buffers (remove_key k h.shard.order) gone
            (Stored-remove_key k h.shard.buffers h.shard.order i.1),
      ),
      gone,
    )

Without-append :
    (j k : ChunkKey) (ks : List ChunkKey)
    → Without j ks
    → key_eq k j ≡ false
    → Without j (ks ++ k ∷ [])
Without-append j k [] n e = (e, tt)
Without-append j k (i ∷ ks) n e = (n.0, Without-append j k ks n.1 e)

Differ-append :
    (k : ChunkKey) (ks : List ChunkKey) → Differ ks → Without k ks → Differ (ks ++ k ∷ [])
Differ-append k [] d n = (tt, tt)
Differ-append k (i ∷ ks) d n =
    (Without-append i k ks d.0 (key_eq_sym i k n.0), Differ-append k ks d.1 n.1)

Stored-append :
    (k : ChunkKey) (b : RaBuffer) (bs : List (ChunkKey × RaBuffer)) (ks : List ChunkKey)
    → Stored bs ks
    → Stored ((k, b) ∷ bs) (ks ++ k ∷ [])
unfolding find_buffer
Stored-append k b bs [] s = (ap is_stored (if_of_true _ _ (key_eq_refl k)), tt)
Stored-append k b bs (i ∷ ks) s = (
  if_holds (λ (o : Option RaBuffer). is_stored o ≡ true) (key_eq k i) (some b) (find_buffer i bs)
      refl s.0,
  Stored-append k b bs ks s.1,
)

Without-stored_keys :
    (j : ChunkKey) (bs : List (ChunkKey × RaBuffer)) (ks : List ChunkKey)
    → Without j ks
    → Without j (stored_keys bs ks)
unfolding stored_keys
Without-stored_keys j bs [] n = tt
Without-stored_keys j bs (k ∷ ks) n =
    let rest = Without-stored_keys j bs ks n.1 in
    if_holds (Without j) (is_stored (find_buffer k bs)) (k ∷ stored_keys bs ks) (stored_keys bs ks)
      (n.0, rest) rest

stored_keys-IsOrdered :
    (bs : List (ChunkKey × RaBuffer)) (ks : List ChunkKey)
    → Differ ks × Stored bs ks
    → Differ (stored_keys bs ks) × Stored bs (stored_keys bs ks)
unfolding stored_keys
stored_keys-IsOrdered bs [] h = h
stored_keys-IsOrdered bs (k ∷ ks) (d, s) =
    let rest = stored_keys-IsOrdered bs ks (d.1, s.1) in
    if_holds (λ xs. Differ xs × Stored bs xs) (is_stored (find_buffer k bs)) (k ∷ stored_keys bs ks)
      (stored_keys bs ks) ((Without-stored_keys k bs ks d.0, rest.0), (s.0, rest.1)) rest

compact-IsOrdered : (s : Shard) → IsOrderedShard s → IsOrderedShard (compact s)
unfolding compact
compact-IsOrdered s i =
    if_holds IsOrderedShard
      (ltb 100 (length s.order) && ltb (length s.buffers * 2) (length s.order))
      (record s { order = stored_keys s.buffers s.order }) s
      (stored_keys-IsOrdered s.buffers s.order i) i

-- `Put` keeps the order, and the chunk that it adds is there afterwards, whatever it evicts.
pub put_shard_lem :
    (cfg : Config) (h : Held) (k : ChunkKey) (b : RaBuffer)
    → IsOrderedShard h.shard
    → IsOrderedShard (put_shard cfg h k b).0.shard
      × (find_buffer k (put_shard cfg h k b).0.shard.buffers ≡ some b)
unfolding put_shard compact Cleared find_buffer
put_shard_lem cfg h k b i = (
  compact-IsOrdered evicted.shard (
      evict_loop-IsOrdered (budget cfg) added added.shard.order
        (Differ-append k cleared.shard.order c.0.0 c.1)
        (Stored-append k b cleared.shard.buffers cleared.shard.order c.0.1)),
  if_holds (λ (s : Shard). find_buffer k s.buffers ≡ some b)
      (ltb 100 (length evicted.shard.order)
        && ltb (length evicted.shard.buffers * 2) (length evicted.shard.order))
      (record evicted.shard { order = stored_keys evicted.shard.buffers evicted.shard.order })
      evicted.shard there there,
)
  where
    cleared : Held
    cleared = overwrite h k (find_buffer k h.shard.buffers)

    c : Cleared k cleared.shard
    c = overwrite-Cleared h k (find_buffer k h.shard.buffers) refl i

    added : Held
    added = add cleared k b

    evicted : Held
    evicted = evict_loop (budget cfg) added added.shard.order

    there : find_buffer k evicted.shard.buffers ≡ some b
    there =
        evict_loop-keeps (budget cfg) added k cleared.shard.order c.1
        ∙ if_of_true _ _ (key_eq_refl k)
