-- ===== src/ReadAhead/Cache.antt =====
-- main.go: the calls on the whole ReadAheadCache.
--
-- `hash` is xxHash, and `busy` says which shards `TryLock` fails on. A global eviction, which `Put` and
-- `SwitchContext` start in a goroutine, is a call of its own: their results say whether they start one.
-- One that begins while another runs returns at once, and is left out.
use Prim.Native.String.{String}
use text.Mathlib.Text.{◌==◌ as str_eq}
use gostream.Prelude.{
  ℕ, ◌+◌, ◌-◌, ◌*◌, ltb, length, ◌%◌, if◌then◌else◌, Bool, true, false, ◌&&◌, List, [], ◌∷◌, Option,
  none, some, get_elem?, set, replicate,
}
use gostream.ReadAhead.{
  Config, ChunkKey, RaBuffer, Shard, Answer, panics, ra_chunk_key, get, copy_to,
}
use gostream.ReadAhead.Store.{Held, put_shard}
use gostream.ReadAhead.Evict.{second, evict_path_shard, evict_shard}

pub record ReadAheadCache : Type 0 where
  pub shards : List Shard
  pub used : ℕ
  pub active_path : String
  pub current_session_id : ℕ

unfoldable pub new_read_ahead_cache : ReadAheadCache
new_read_ahead_cache = record {
  shards = replicate 32 (record { buffers = []; order = []; total = 0 });
  used = 0;
  active_path = "";
  current_session_id = 0;
}

-- One operation on all shards, one after the other.
unfoldable pub on_all : (Held → Held) → List Shard → ℕ → List Shard × ℕ
on_all f [] used = ([], used)
on_all f (s ∷ ss) used =
    let h = f (record { shard = s; used = used }) in
    let (ss', used') = on_all f ss h.used in (h.shard ∷ ss', used')

-- The same on those that are not busy.
unfoldable pub on_free : (Held → Held) → List Shard → List Bool → ℕ → List Shard × ℕ
on_free f [] busy used = ([], used)
on_free f (s ∷ ss) [] used =
    let h = f (record { shard = s; used = used }) in
    let (ss', used') = on_free f ss [] h.used in (h.shard ∷ ss', used')
on_free f (s ∷ ss) (b ∷ busy) used =
    let h =
      if b then record { shard = s; used = used } else f (record { shard = s; used = used }) in
    let (ss', used') = on_free f ss busy h.used in (h.shard ∷ ss', used')

abbrev pub all_busy : List Shard → List Bool → Bool
all_busy [] busy = true
all_busy (s ∷ ss) [] = false
all_busy (s ∷ ss) (b ∷ busy) = b && all_busy ss busy

abbrev pub on_first : (Held → Held) → List Shard → ℕ → List Shard × ℕ
on_first f [] used = ([], used)
on_first f (s ∷ ss) used = let h = f (record { shard = s; used = used }) in (h.shard ∷ ss, h.used)

abbrev pub with_all : ReadAheadCache → List Shard × ℕ → ReadAheadCache
with_all c (ss, used) = record c { shards = ss; used = used }

unfoldable pub evict_path : ReadAheadCache → String → ReadAheadCache
unfolding on_all evict_path_shard
evict_path c p = with_all c (on_all (evict_path_shard p) c.shards c.used)

unfoldable pub trigger_global_eviction :
    ReadAheadCache → String → ℕ → ℕ → List Bool → ReadAheadCache
unfolding on_free evict_shard
trigger_global_eviction c active session now busy = with_all c (
    if all_busy c.shards busy
    then on_first (evict_shard active session now) c.shards c.used
    else on_free (evict_shard active session now) c.shards busy c.used)

-- The cache, and whether a global eviction starts.
unfoldable pub switch_context : ReadAheadCache → String → ReadAheadCache × Bool
switch_context c p =
    if str_eq p c.active_path
    then (c, false)
    else (record c { active_path = p; current_session_id = c.current_session_id + 1 }, true)

-- `Stats`: the bytes of the chunks that were read in the last two minutes, and the number of chunks.
unfoldable pub active_bytes : ℕ → List (ChunkKey × RaBuffer) → ℕ
active_bytes now [] = 0
active_bytes now ((k, b) ∷ bs) =
    (if ltb (now - b.last_access) (120 * second) then length b.bytes else 0) + active_bytes now bs

unfoldable pub stats_shards : ℕ → List Shard → ℕ × ℕ
unfolding active_bytes
stats_shards now [] = (0, 0)
stats_shards now (s ∷ ss) =
    let (active, entries) = stats_shards now ss in
    (active_bytes now s.buffers + active, length s.buffers + entries)

abbrev pub read_ahead_stats : ReadAheadCache → ℕ → ℕ × (ℕ × ℕ)
read_ahead_stats c now = (c.used, stats_shards now c.shards)

pub data Call : Type 0 where
  gets : String → ℕ → ℕ → ℕ → Call
  copies : String → ℕ → ℕ → List ℕ → ℕ → Call
  puts : String → ℕ → ℕ → List ℕ → ℕ → Bool → Call
  switches : String → Call
  evicts_path : String → Call
  evicts : String → ℕ → ℕ → List Bool → Call

module _ (cfg : Config) (hash : String → ℕ) where
  abbrev pub shard_of : String → ℕ
  shard_of p = hash p % 32

  abbrev pub session_of : ReadAheadCache → String → ℕ
  session_of c p = if str_eq p c.active_path then c.current_session_id else 0

  -- `responsive` is the answer of `IsResponsive`. An index of a shard is never out of range.
  unfoldable pub put : ReadAheadCache → String → ℕ → ℕ → List ℕ → ℕ → Bool → ReadAheadCache × Bool
  unfolding put_shard
  put c p start end bytes now responsive = elim (get_elem? c.shards (shard_of p)) [
    | none ↦ (c, false)
    | some s ↦
        let (h, starts) =
          put_shard cfg (record { shard = s; used = c.used }) (ra_chunk_key cfg p start)
            (record {
              start = start;
              end = end;
              bytes = bytes;
              last_access = now;
              session_id = session_of c p;
              responsive_only = responsive;
            }) in
        (record c { shards = set c.shards (shard_of p) h.shard; used = h.used }, starts)
  ]

  unfoldable pub get_cached : ReadAheadCache → String → ℕ → ℕ → ℕ → ReadAheadCache × Answer
  unfolding get
  get_cached c p off end now = elim (get_elem? c.shards (shard_of p)) [
    | none ↦ (c, panics)
    | some s ↦
        let (s', a) = get cfg s p off end now in
        (record c { shards = set c.shards (shard_of p) s' }, a)
  ]

  unfoldable pub copy_cached :
      ReadAheadCache → String → ℕ → ℕ → List ℕ → ℕ → ReadAheadCache × Option (List ℕ × ℕ)
  unfolding copy_to
  copy_cached c p off end dest now = elim (get_elem? c.shards (shard_of p)) [
    | none ↦ (c, none)
    | some s ↦
        let (s', copied) = copy_to cfg s p off end dest now in
        (record c { shards = set c.shards (shard_of p) s' }, copied)
  ]

  unfoldable pub step : ReadAheadCache → Call → ReadAheadCache
  unfolding put get_cached copy_cached switch_context evict_path trigger_global_eviction
  step c (gets p off end now) = (get_cached c p off end now).0
  step c (copies p off end dest now) = (copy_cached c p off end dest now).0
  step c (puts p start end bytes now responsive) = (put c p start end bytes now responsive).0
  step c (switches p) = (switch_context c p).0
  step c (evicts_path p) = evict_path c p
  step c (evicts active session now busy) = trigger_global_eviction c active session now busy

  unfoldable pub run : ReadAheadCache → List Call → ReadAheadCache
  unfolding step
  run c [] = c
  run c (x ∷ xs) = run (step c x) xs
