-- ===== src/ReadAhead/Shards.antt =====
-- Operations on one shard, done on all, and what the calls of a cache keep of every shard.
use Prim.Native.String.{String}
use gostream.Prelude.{
  ℕ, ap, suc, ◌≡◌, refl, ap, ◌∙◌, if◌then◌else◌, if_holds, Option-cases, Bool, List, [], ◌∷◌, some,
  All, length, inl, inr, get_elem?, set, length-set, All-set, All-get_elem?, All-replicate,
}
use gostream.ReadAhead.{Config, Shard, Found, locate, touch_found, get, copy_to}
use gostream.ReadAhead.Cache.{
  on_all, on_free, on_first, session_of, ReadAheadCache, new_read_ahead_cache, put, get_cached,
  copy_cached, evict_path, trigger_global_eviction, switch_context, Call, gets, copies, puts,
  switches, evicts_path, evicts, step, run, shard_of, with_all, all_busy,
}
use gostream.ReadAhead.Evict.{evict_path_shard, evict_shard}
use gostream.ReadAhead.{ra_chunk_key}
use gostream.ReadAhead.Store.{Held, put_shard}

-- What an operation keeps of one shard, it keeps of all.
module _ (Q : Shard → Type 0) where
  on_all-All :
      (f : Held → Held) (ss : List Shard) (used : ℕ)
      → ((h : Held) → Q h.shard → Q (f h).shard)
      → All Q ss
      → All Q (on_all f ss used).0
  unfolding on_all
  on_all-All f [] used m a = tt
  on_all-All f (s ∷ ss) used m a =
      let h : Held = record { shard = s; used = used } in
      (m h a.0, on_all-All f ss (f h).used m a.1)

  on_free-All :
      (f : Held → Held) (ss : List Shard) (busy : List Bool) (used : ℕ)
      → ((h : Held) → Q h.shard → Q (f h).shard)
      → All Q ss
      → All Q (on_free f ss busy used).0
  unfolding on_free
  on_free-All f [] busy used m a = tt
  on_free-All f (s ∷ ss) [] used m a =
      let h : Held = record { shard = s; used = used } in
      (m h a.0, on_free-All f ss [] (f h).used m a.1)
  on_free-All f (s ∷ ss) (b ∷ busy) used m a =
      let h : Held = record { shard = s; used = used } in
      (
        if_holds (λ (x : Held). Q x.shard) b h (f h) a.0 (m h a.0),
        on_free-All f ss busy (if b then h else f h).used m a.1,
      )

  on_first-All :
      (f : Held → Held) (ss : List Shard) (used : ℕ)
      → ((h : Held) → Q h.shard → Q (f h).shard)
      → All Q ss
      → All Q (on_first f ss used).0
  on_first-All f [] used m a = tt
  on_first-All f (s ∷ ss) used m a = (m (record { shard = s; used = used }) a.0, a.1)

length-on_all :
    (f : Held → Held) (ss : List Shard) (used : ℕ) → length (on_all f ss used).0 ≡ length ss
unfolding on_all
length-on_all f [] used = refl
length-on_all f (s ∷ ss) used =
    ap suc (length-on_all f ss (f (record { shard = s; used = used })).used)

length-on_free :
    (f : Held → Held) (ss : List Shard) (busy : List Bool) (used : ℕ)
    → length (on_free f ss busy used).0 ≡ length ss
unfolding on_free
length-on_free f [] busy used = refl
length-on_free f (s ∷ ss) [] used =
    ap suc (length-on_free f ss [] (f (record { shard = s; used = used })).used)
length-on_free f (s ∷ ss) (b ∷ busy) used = ap suc (length-on_free f ss busy _)

length-on_first :
    (f : Held → Held) (ss : List Shard) (used : ℕ) → length (on_first f ss used).0 ≡ length ss
length-on_first f [] used = refl
length-on_first f (s ∷ ss) used = refl

-- A property that the parts of the calls keep of a shard: `Ok` is what the calls satisfy.
pub record IsKept (cfg : Config) (Q : Shard → Type 0) (Ok : Call → Type 0) : Type 0 where
  pub empty : Q (record { buffers = []; order = []; total = 0 })
  pub touched :
      (p : String) (off end now : ℕ) (f : Found) (s : Shard)
      → Q s
      → Q (record s { buffers = touch_found cfg p off end now f s.buffers })
  pub added :
      (p : String) (start end : ℕ) (bytes : List ℕ) (now : ℕ) (responsive : Bool) (h : Held)
      (session : ℕ)
      → Ok (puts p start end bytes now responsive)
      → Q h.shard
      → Q
          (put_shard cfg h (ra_chunk_key cfg p start) (record {
            start = start;
            end = end;
            bytes = bytes;
            last_access = now;
            session_id = session;
            responsive_only = responsive;
          })).0.shard
  pub path : (p : String) (h : Held) → Q h.shard → Q (evict_path_shard p h).shard
  pub stale :
      (active : String) (session now : ℕ) (h : Held)
      → Q h.shard
      → Q (evict_shard active session now h).shard

module _ {cfg : Config} {Q : Shard → Type 0} {Ok : Call → Type 0} (kept : IsKept cfg Q Ok)
    (hash : String → ℕ) where
  -- The shards are 32, and each has the property.
  abbrev pub Shares : ReadAheadCache → Type 0
  Shares c = (length c.shards ≡ 32) × All Q c.shards

  pub shard_at :
      (c : ReadAheadCache) (i : ℕ) (s : Shard) → Shares c → get_elem? c.shards i ≡ some s → Q s
  shard_at c i s h e = All-get_elem? Q c.shards i s h.1 e

  set_shard :
      (c : ReadAheadCache) (i : ℕ) (s : Shard) (used : ℕ)
      → Shares c
      → Q s
      → Shares (record c { shards = set c.shards i s; used = used })
  set_shard c i s used h a = (length-set c.shards i s ∙ h.0, All-set Q c.shards i s h.1 a)

  pub step-Shares : (c : ReadAheadCache) (x : Call) → Ok x → Shares c → Shares (step cfg hash c x)
  unfolding step get_cached copy_cached put get copy_to switch_context evict_path
      trigger_global_eviction
  step-Shares c (gets p off end now) h i =
      elim (Option-cases (get_elem? c.shards (shard_of cfg hash p))) [
        | inl e ↦ rw (e, step) i
        | inr (s, e) ↦
            rw (e, step)
              (set_shard c (shard_of cfg hash p) _ c.used i (
                kept.touched p off end now (locate cfg s.buffers p off end) s (shard_at c _ s i e)))
      ]
  step-Shares c (copies p off end dest now) h i =
      elim (Option-cases (get_elem? c.shards (shard_of cfg hash p))) [
        | inl e ↦ rw (e, step) i
        | inr (s, e) ↦
            rw (e, step)
              (set_shard c (shard_of cfg hash p) _ c.used i (
                kept.touched p off end now (locate cfg s.buffers p off end) s (shard_at c _ s i e)))
      ]
  step-Shares c (puts p start end bytes now responsive) h i =
      elim (Option-cases (get_elem? c.shards (shard_of cfg hash p))) [
        | inl e ↦ rw (e, step) i
        | inr (s, e) ↦
            rw (e, step)
              (set_shard c (shard_of cfg hash p) _ c.used i (
                kept.added p start end bytes now responsive (record { shard = s; used = c.used })
                  (session_of cfg hash c p) h (shard_at c _ s i e)))
      ]
  step-Shares c (switches p) h i = if_holds (λ (x : ReadAheadCache × Bool). Shares x.0) _ _ _ i i
  step-Shares c (evicts_path p) h i = (
    length-on_all (evict_path_shard p) c.shards c.used ∙ i.0,
    on_all-All Q (evict_path_shard p) c.shards c.used (kept.path p) i.1,
  )
  step-Shares c (evicts active session now busy) h i =
      let f = evict_shard active session now in
      let m = kept.stale active session now in
      if_holds (λ (x : List Shard × ℕ). Shares (with_all c x)) (all_busy c.shards busy) _ _
        (length-on_first f c.shards c.used ∙ i.0, on_first-All Q f c.shards c.used m i.1)
        (length-on_free f c.shards busy c.used ∙ i.0, on_free-All Q f c.shards busy c.used m i.1)

  run_from :
      (c : ReadAheadCache) (xs : List Call) → All Ok xs → Shares c → Shares (run cfg hash c xs)
  unfolding run
  run_from c [] h i = i
  run_from c (x ∷ xs) h i = run_from (step cfg hash c x) xs h.1 (step-Shares c x h.0 i)

  pub run-Shares : (xs : List Call) → All Ok xs → Shares (run cfg hash new_read_ahead_cache xs)
  unfolding new_read_ahead_cache
  run-Shares xs h = run_from new_read_ahead_cache xs h (refl, All-replicate Q 32 _ kept.empty)
