-- ===== src/ReadAhead/Ordered.antt =====
-- The order of a shard under the evictions and the reads.
use Prim.Native.String.{String}
use gostream.Prelude.{
  ℕ, ◌-◌, ◌==◌, ◌≡◌, refl, ap, subst, sym, ◌∙◌, if_holds, Bool-cases, false, ◌&&◌, List, [], ◌∷◌,
  length, inl, inr,
}
use gostream.ReadAhead.{
  Config, ChunkKey, RaBuffer, Found, nothing, short, one, two, key_eq, is_of, touch, touch_found,
  find_buffer, ra_chunk_key,
}
use gostream.ReadAhead.Store.{Held, drop_first, is_stored}
use gostream.ReadAhead.Order.{
  key_eq_same, Without, Differ, Stored, IsOrderedShard, Stored-drop_first,
}
use gostream.ReadAhead.Evict.{
  kept_buffers, kept_order, freed, evict_path_shard, evict_stale, evict_shard, keeps,
}
use gostream.ReadAhead.Newest.{find_buffer-drop_first}

-- The chunks of other paths stay.
find_buffer-kept_buffers :
    (p : String) (k : ChunkKey) (bs : List (ChunkKey × RaBuffer))
    → is_of p k ≡ false
    → find_buffer k (kept_buffers p bs) ≡ find_buffer k bs
unfolding find_buffer kept_buffers
find_buffer-kept_buffers p k [] n = refl
find_buffer-kept_buffers p k ((i, b) ∷ bs) n = elim (Bool-cases (key_eq i k)) [
  | inl t ↦
      let no : is_of p i ≡ false = subst (λ x. is_of p x ≡ false) (sym (key_eq_same i k t)) n in
      rw (no, t) refl
  | inr t ↦
      let ih = find_buffer-kept_buffers p k bs n in
      if_holds (λ xs. find_buffer k xs ≡ find_buffer k ((i, b) ∷ bs)) (is_of p i)
        (kept_buffers p bs) ((i, b) ∷ kept_buffers p bs) (rw t ih) (rw t ih)
]

Without-kept_order :
    (j : ChunkKey) (p : String) (bs : List (ChunkKey × RaBuffer)) (ks : List ChunkKey)
    → Without j ks
    → Without j (kept_order p bs ks)
unfolding kept_order
Without-kept_order j p bs [] n = tt
Without-kept_order j p bs (k ∷ ks) n =
    let rest = Without-kept_order j p bs ks n.1 in
    if_holds (Without j) (is_of p k && is_stored (find_buffer k bs)) (kept_order p bs ks)
      (k ∷ kept_order p bs ks) rest (n.0, rest)

kept_order-IsOrdered :
    (p : String) (bs : List (ChunkKey × RaBuffer)) (ks : List ChunkKey)
    → Differ ks
    → Stored bs ks
    → Differ (kept_order p bs ks) × Stored (kept_buffers p bs) (kept_order p bs ks)
unfolding kept_order
kept_order-IsOrdered p bs [] d s = (tt, tt)
kept_order-IsOrdered p bs (k ∷ ks) d s =
    let rest = kept_order-IsOrdered p bs ks d.1 s.1 in
    elim (Bool-cases (is_of p k)) [
      | inl t ↦ rw (t, s.0) rest
      | inr t ↦ rw t (
        (Without-kept_order k p bs ks d.0, rest.0),
        (ap is_stored (find_buffer-kept_buffers p k bs t) ∙ s.0, rest.1),
      )
    ]

pub evict_path_shard-IsOrdered :
    (p : String) (h : Held) → IsOrderedShard h.shard → IsOrderedShard (evict_path_shard p h).shard
unfolding evict_path_shard
evict_path_shard-IsOrdered p h i =
    if_holds (λ (x : Held). IsOrderedShard x.shard)
      (length (kept_buffers p h.shard.buffers) == length h.shard.buffers)
      (record h { used = h.used - freed p h.shard.buffers })
      (record {
        shard = record {
          buffers = kept_buffers p h.shard.buffers;
          order = kept_order p h.shard.buffers h.shard.order;
          total = h.shard.total - freed p h.shard.buffers;
        };
        used = h.used - freed p h.shard.buffers;
      })
      i (kept_order-IsOrdered p h.shard.buffers h.shard.order i.0 i.1)

-- A global eviction drops only what stands in the order.
evict_stale-keeps :
    (active : String) (session now : ℕ) (h : Held) (k : ChunkKey) (ks : List ChunkKey)
    → Without k ks
    → find_buffer k (evict_stale active session now h ks).0.shard.buffers
      ≡ find_buffer k h.shard.buffers
unfolding evict_stale
evict_stale-keeps active session now h k [] n = refl
evict_stale-keeps active session now h k (v ∷ ks) n =
    let found = find_buffer v h.shard.buffers in
    let stay = evict_stale active session now h ks in
    if_holds
      (λ (x : Held × List ChunkKey).
        find_buffer k x.0.shard.buffers ≡ find_buffer k h.shard.buffers)
      (keeps active session now v found) (stay.0, v ∷ stay.1)
      (evict_stale active session now (drop_first h v found) ks)
      (evict_stale-keeps active session now h k ks n.1)
      (evict_stale-keeps active session now (drop_first h v found) k ks n.1
        ∙ find_buffer-drop_first h k v found n.0)

Without-evict_stale :
    (j : ChunkKey) (active : String) (session now : ℕ) (h : Held) (ks : List ChunkKey)
    → Without j ks
    → Without j (evict_stale active session now h ks).1
unfolding evict_stale
Without-evict_stale j active session now h [] n = tt
Without-evict_stale j active session now h (k ∷ ks) n =
    let found = find_buffer k h.shard.buffers in
    let stay = evict_stale active session now h ks in
    if_holds (λ (x : Held × List ChunkKey). Without j x.1) (keeps active session now k found)
      (stay.0, k ∷ stay.1) (evict_stale active session now (drop_first h k found) ks)
      (n.0, Without-evict_stale j active session now h ks n.1)
      (Without-evict_stale j active session now (drop_first h k found) ks n.1)

evict_stale-IsOrdered :
    (active : String) (session now : ℕ) (h : Held) (ks : List ChunkKey)
    → Differ ks
    → Stored h.shard.buffers ks
    → Differ (evict_stale active session now h ks).1
      × Stored
          (evict_stale active session now h ks).0.shard.buffers
          (evict_stale active session now h ks).1
unfolding evict_stale
evict_stale-IsOrdered active session now h [] d s = (tt, tt)
evict_stale-IsOrdered active session now h (k ∷ ks) d s =
    let found = find_buffer k h.shard.buffers in
    let stay = evict_stale active session now h ks in
    let rest = evict_stale-IsOrdered active session now h ks d.1 s.1 in
    if_holds (λ (x : Held × List ChunkKey). Differ x.1 × Stored x.0.shard.buffers x.1)
      (keeps active session now k found) (stay.0, k ∷ stay.1)
      (evict_stale active session now (drop_first h k found) ks)
      (
        (Without-evict_stale k active session now h ks d.0, rest.0),
        (ap is_stored (evict_stale-keeps active session now h k ks d.0) ∙ s.0, rest.1),
      )
      (evict_stale-IsOrdered active session now (drop_first h k found) ks d.1
        (Stored-drop_first h k found ks d.0 s.1))

pub evict_shard-IsOrdered :
    (active : String) (session now : ℕ) (h : Held)
    → IsOrderedShard h.shard
    → IsOrderedShard (evict_shard active session now h).shard
unfolding evict_shard
evict_shard-IsOrdered active session now h i =
    evict_stale-IsOrdered active session now h h.shard.order i.0 i.1

is_stored-touch :
    (j k : ChunkKey) (now : ℕ) (bs : List (ChunkKey × RaBuffer))
    → is_stored (find_buffer j (touch k now bs)) ≡ is_stored (find_buffer j bs)
unfolding find_buffer touch
is_stored-touch j k now [] = refl
is_stored-touch j k now ((i, b) ∷ bs) =
    let ih = is_stored-touch j k now bs in
    if_holds (λ xs. is_stored (find_buffer j xs) ≡ is_stored (find_buffer j ((i, b) ∷ bs)))
      (key_eq i k) ((i, record b { last_access = now }) ∷ bs) ((i, b) ∷ touch k now bs)
      (elim (Bool-cases (key_eq i j)) [ inl t ↦ rw t refl | inr t ↦ rw t refl ])
      (elim (Bool-cases (key_eq i j)) [ inl t ↦ rw t refl | inr t ↦ rw t ih ])

Stored-touch :
    (k : ChunkKey) (now : ℕ) (bs : List (ChunkKey × RaBuffer)) (ks : List ChunkKey)
    → Stored bs ks
    → Stored (touch k now bs) ks
Stored-touch k now bs [] s = tt
Stored-touch k now bs (j ∷ ks) s = (is_stored-touch j k now bs ∙ s.0, Stored-touch k now bs ks s.1)

pub Stored-touch_found :
    (cfg : Config) (p : String) (off end now : ℕ) (f : Found) (bs : List (ChunkKey × RaBuffer))
    (ks : List ChunkKey)
    → Stored bs ks
    → Stored (touch_found cfg p off end now f bs) ks
unfolding touch_found
Stored-touch_found cfg p off end now nothing bs ks s = s
Stored-touch_found cfg p off end now short bs ks s =
    Stored-touch (ra_chunk_key cfg p off) now bs ks s
Stored-touch_found cfg p off end now (one b) bs ks s =
    Stored-touch (ra_chunk_key cfg p off) now bs ks s
Stored-touch_found cfg p off end now (two b c) bs ks s =
    Stored-touch (ra_chunk_key cfg p end) now (touch (ra_chunk_key cfg p off) now bs) ks
      (Stored-touch (ra_chunk_key cfg p off) now bs ks s)
