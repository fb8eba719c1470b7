-- ===== src/ReadAhead/Accounts.antt =====
-- The counters of the bytes that are held.
use Prim.Native.String.{String}
use gostream.Prelude.{
  ℕ, suc, ◌+◌, ◌==◌, ltb, ◌≤◌, ◌≡◌, refl, ap, subst, sym, ◌∙◌, if_holds, if_of_true, if_of_false,
  Bool-cases, List, [], ◌∷◌, Option, none, some, length, arith, inl, inr,
}
use gostream.ReadAhead.{
  Config, ChunkKey, RaBuffer, Shard, Found, nothing, short, one, two, key_eq, is_of, touch,
  touch_found, find_buffer, ra_chunk_key,
}
use gostream.ReadAhead.Store.{
  Held, budget, size_of, remove_buffer, drop_buffer, drop_first, overwrite, evict_loop, compact,
  put_shard, add,
}
use gostream.ReadAhead.Evict.{
  kept_buffers, freed, evict_path_shard, evict_stale, evict_shard, keeps,
}

-- The bytes of the chunks, and those of all shards.
unfoldable pub bytes_in : List (ChunkKey × RaBuffer) → ℕ
bytes_in [] = 0
bytes_in ((k, b) ∷ bs) = size_of b + bytes_in bs

unfoldable pub totals : List Shard → ℕ
totals [] = 0
totals (s ∷ ss) = s.total + totals ss

bytes_in-remove_buffer :
    (k : ChunkKey) (bs : List (ChunkKey × RaBuffer)) (b : RaBuffer)
    → find_buffer k bs ≡ some b
    → size_of b + bytes_in (remove_buffer k bs) ≡ bytes_in bs
unfolding bytes_in remove_buffer find_buffer
bytes_in-remove_buffer k [] b e = absurd cc
bytes_in-remove_buffer k ((j, c) ∷ bs) b e = elim (Bool-cases (key_eq j k)) [
  | inl t ↦
      let same : size_of c ≡ size_of b = ap size_of (some_inj (sym (if_of_true _ _ t) ∙ e)) in
      rw t (ap (λ n. n + bytes_in bs) (sym same))
  | inr t ↦ rw t (omega (arith, bytes_in-remove_buffer k bs b (sym (if_of_false _ _ t) ∙ e)))
]
  where
    some_inj : {x y : RaBuffer} → some x ≡ some y → x ≡ y
    some_inj e = cc

bytes_in-touch :
    (k : ChunkKey) (now : ℕ) (bs : List (ChunkKey × RaBuffer))
    → bytes_in (touch k now bs) ≡ bytes_in bs
unfolding bytes_in touch
bytes_in-touch k now [] = refl
bytes_in-touch k now ((j, b) ∷ bs) =
    if_holds (λ xs. bytes_in xs ≡ size_of b + bytes_in bs) (key_eq j k) _ _ refl
      (ap (λ n. size_of b + n) (bytes_in-touch k now bs))

pub bytes_in-touch_found :
    (cfg : Config) (p : String) (off end now : ℕ) (f : Found) (bs : List (ChunkKey × RaBuffer))
    → bytes_in (touch_found cfg p off end now f bs) ≡ bytes_in bs
unfolding touch_found
bytes_in-touch_found cfg p off end now nothing bs = refl
bytes_in-touch_found cfg p off end now short bs = bytes_in-touch (ra_chunk_key cfg p off) now bs
bytes_in-touch_found cfg p off end now (one b) bs = bytes_in-touch (ra_chunk_key cfg p off) now bs
bytes_in-touch_found cfg p off end now (two b c) bs =
    bytes_in-touch (ra_chunk_key cfg p end) now (touch (ra_chunk_key cfg p off) now bs)
    ∙ bytes_in-touch (ra_chunk_key cfg p off) now bs

freed-kept_buffers :
    (p : String) (bs : List (ChunkKey × RaBuffer))
    → freed p bs + bytes_in (kept_buffers p bs) ≡ bytes_in bs
unfolding freed bytes_in kept_buffers
freed-kept_buffers p [] = refl
freed-kept_buffers p ((k, b) ∷ bs) = elim (Bool-cases (is_of p k)) [
  | inl t ↦ rw t (omega (arith, freed-kept_buffers p bs))
  | inr t ↦ rw t (omega (arith, freed-kept_buffers p bs))
]

length-kept_buffers :
    (p : String) (bs : List (ChunkKey × RaBuffer)) → length (kept_buffers p bs) ≤ length bs
unfolding kept_buffers
length-kept_buffers p [] = omega arith
length-kept_buffers p ((k, b) ∷ bs) =
    let ih = length-kept_buffers p bs in
    if_holds (λ xs. length xs ≤ suc (length bs)) (is_of p k) (kept_buffers p bs)
      ((k, b) ∷ kept_buffers p bs) (omega (arith, ih)) (omega (arith, ih))

freed_none :
    (p : String) (bs : List (ChunkKey × RaBuffer))
    → length (kept_buffers p bs) ≡ length bs
    → freed p bs ≡ 0
unfolding freed kept_buffers
freed_none p [] e = refl
freed_none p ((k, b) ∷ bs) e = elim (Bool-cases (is_of p k)) [
  | inl t ↦ absurd (omega (arith, length-kept_buffers p bs, ap length (sym (if_of_true _ _ t)) ∙ e))
  | inr t ↦
      let rest = freed_none p bs (omega (arith, ap length (sym (if_of_false _ _ t)) ∙ e)) in
      rw t (omega (arith, rest))
]

-- A shard counts its bytes, and they are a part of all those that are counted.
abbrev pub IsCounted : Held → Type 0
IsCounted h = (h.shard.total ≡ bytes_in h.shard.buffers) × (h.shard.total ≤ h.used)

-- An operation keeps the count, and changes the common counter by as much as the shard's.
abbrev pub Counts : Held → Held → Type 0
Counts h g = IsCounted g × (g.used + h.shard.total ≡ h.used + g.shard.total)

Counts-trans : (h g k : Held) → Counts h g → Counts g k → Counts h k
Counts-trans h g k a b = (b.0, omega (arith, a.1, b.1))

drop_buffer-Counts :
    (h : Held) (k : ChunkKey) (b : RaBuffer)
    → find_buffer k h.shard.buffers ≡ some b
    → IsCounted h
    → Counts h (drop_buffer h k b)
drop_buffer-Counts h k b e c =
    let r = bytes_in-remove_buffer k h.shard.buffers b e in
    ((omega (arith, c, r), omega (arith, c, r)), omega (arith, c, r))

drop_first-Counts :
    (h : Held) (k : ChunkKey) (o : Option RaBuffer)
    → find_buffer k h.shard.buffers ≡ o
    → IsCounted h
    → Counts h (drop_first h k o)
unfolding drop_first
drop_first-Counts h k none e c = (c, refl)
drop_first-Counts h k (some b) e c = drop_buffer-Counts h k b e c

overwrite-Counts :
    (h : Held) (k : ChunkKey) (o : Option RaBuffer)
    → find_buffer k h.shard.buffers ≡ o
    → IsCounted h
    → Counts h (overwrite h k o)
unfolding overwrite
overwrite-Counts h k none e c = (c, refl)
overwrite-Counts h k (some b) e c = drop_buffer-Counts h k b e c

evict_loop-Counts :
    (limit : ℕ) (h : Held) (ks : List ChunkKey) → IsCounted h → Counts h (evict_loop limit h ks)
unfolding evict_loop
evict_loop-Counts limit h [] c = (c, refl)
evict_loop-Counts limit h (v ∷ []) c = (c, refl)
evict_loop-Counts limit h (v ∷ w ∷ rest) c =
    let found = find_buffer v h.shard.buffers in
    let first = drop_first-Counts h v found refl c in
    if_holds (Counts h) (ltb limit h.used) _
      (record h { shard = record h.shard { order = v ∷ w ∷ rest } })
      (Counts-trans h (drop_first h v found) (evict_loop limit (drop_first h v found) (w ∷ rest))
        first (evict_loop-Counts limit (drop_first h v found) (w ∷ rest) first.0))
      (c, refl)

pub put_shard-Counts :
    (cfg : Config) (h : Held) (k : ChunkKey) (b : RaBuffer)
    → IsCounted h
    → Counts h (put_shard cfg h k b).0
unfolding put_shard compact bytes_in
put_shard-Counts cfg h k b c =
    let first = overwrite-Counts h k (find_buffer k h.shard.buffers) refl c in
    let next : Counts cleared added =
      ((omega (arith, first), omega (arith, first)), omega (arith, first)) in
    let last = evict_loop-Counts (budget cfg) added added.shard.order next.0 in
    if_holds (λ (s : Shard). Counts h (record evicted { shard = s })) _
      (record evicted.shard { order = _ }) evicted.shard
      (Counts-trans h added evicted (Counts-trans h cleared added first next) last)
      (Counts-trans h added evicted (Counts-trans h cleared added first next) last)
  where
    cleared : Held
    cleared = overwrite h k (find_buffer k h.shard.buffers)

    added : Held
    added = add cleared k b

    evicted : Held
    evicted = evict_loop (budget cfg) added added.shard.order

pub evict_path_shard-Counts :
    (p : String) (h : Held) → IsCounted h → Counts h (evict_path_shard p h)
unfolding evict_path_shard
evict_path_shard-Counts p h c =
    let all = freed-kept_buffers p h.shard.buffers in
    elim (Bool-cases (length (kept_buffers p h.shard.buffers) == length h.shard.buffers)) [
      | inl t ↦
          let no = freed_none p h.shard.buffers (ground (arith, t)) in
          subst (Counts h) (sym (if_of_true _ _ t))
            ((c.0, omega (arith, c, no)), omega (arith, c, no))
      | inr t ↦
          subst (Counts h) (sym (if_of_false _ _ t))
            ((omega (arith, c, all), omega (arith, c, all)), omega (arith, c, all))
    ]

evict_stale-Counts :
    (active : String) (session now : ℕ) (h : Held) (ks : List ChunkKey)
    → IsCounted h
    → Counts h (evict_stale active session now h ks).0
unfolding evict_stale
evict_stale-Counts active session now h [] c = (c, refl)
evict_stale-Counts active session now h (k ∷ ks) c =
    let found = find_buffer k h.shard.buffers in
    let first = drop_first-Counts h k found refl c in
    let stay = evict_stale active session now h ks in
    if_holds (λ (x : Held × List ChunkKey). Counts h x.0) (keeps active session now k found)
      (stay.0, k ∷ stay.1) (evict_stale active session now (drop_first h k found) ks)
      (evict_stale-Counts active session now h ks c)
      (Counts-trans h (drop_first h k found)
        (evict_stale active session now (drop_first h k found) ks).0 first
        (evict_stale-Counts active session now (drop_first h k found) ks first.0))

pub evict_shard-Counts :
    (active : String) (session now : ℕ) (h : Held)
    → IsCounted h
    → Counts h (evict_shard active session now h)
unfolding evict_shard
evict_shard-Counts active session now h c = evict_stale-Counts active session now h h.shard.order c
