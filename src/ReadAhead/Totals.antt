-- ===== src/ReadAhead/Totals.antt =====
-- The counter that all shards share, under the calls of a cache.
use Prim.Native.String.{String}
use gostream.Prelude.{
  ℕ, zero, suc, ◌+◌, ◌≤◌, ◌≡◌, refl, ap, sym, ◌∙◌, if◌then◌else◌, if_holds, Option-cases, Bool,
  List, [], ◌∷◌, some, All, get_elem?, All-set, All-get_elem?, All-replicate, set, arith, inl, inr,
}
use gostream.ReadAhead.{
  Config, RaBuffer, Shard, Found, touch_found, ra_chunk_key, locate, get, copy_to,
}
use gostream.ReadAhead.Store.{Held, put_shard}
use gostream.ReadAhead.Evict.{evict_path_shard, evict_shard}
use gostream.ReadAhead.Cache.{ReadAheadCache, on_all, on_free, on_first, all_busy}
use gostream.ReadAhead.Cache.{
  new_read_ahead_cache, put, get_cached, copy_cached, evict_path, trigger_global_eviction,
  switch_context, Call, gets, copies, puts, switches, evicts_path, evicts, step, run, shard_of,
  session_of, with_all,
}
use gostream.ReadAhead.Accounts.{
  bytes_in, totals, IsCounted, Counts, bytes_in-touch_found, put_shard-Counts,
  evict_path_shard-Counts, evict_shard-Counts,
}

abbrev pub IsCountedShard : Shard → Type 0
IsCountedShard s = s.total ≡ bytes_in s.buffers

-- Every shard counts its bytes, and the shared counter is their sum.
abbrev pub IsAccounted : ReadAheadCache → Type 0
IsAccounted c = All IsCountedShard c.shards × (c.used ≡ totals c.shards)

totals-set :
    (ss : List Shard) (i : ℕ) (s s' : Shard)
    → get_elem? ss i ≡ some s
    → (totals (set ss i s') + s.total ≡ totals ss + s'.total) × (s.total ≤ totals ss)
unfolding totals
totals-set [] i s s' e = absurd cc
totals-set (t ∷ ss) zero s s' e =
    let same : t.total ≡ s.total = ap (λ (x : Shard). x.total) (some_inj e) in
    (omega (arith, same), omega (arith, same))
  where
    some_inj : {x y : Shard} → some x ≡ some y → x ≡ y
    some_inj e = cc
totals-set (t ∷ ss) (suc i) s s' e =
    let ih = totals-set ss i s s' e in (omega (arith, ih), omega (arith, ih))

-- What a pass over the shards makes of the counts.
abbrev pub Passes : List Shard → ℕ → List Shard × ℕ → Type 0
Passes ss used r =
    All IsCountedShard r.0 × (r.1 + totals ss ≡ used + totals r.0) × (totals r.0 ≤ r.1)

pass :
    (f : Held → Held) (s : Shard) (ss : List Shard) (used : ℕ) (h : Held) (r : List Shard × ℕ)
    → totals (s ∷ ss) ≤ used
    → Counts (record { shard = s; used = used }) h
    → (totals ss ≤ h.used → Passes ss h.used r)
    → Passes (s ∷ ss) used (h.shard ∷ r.0, r.1)
unfolding totals
pass f s ss used h r l c g =
    let p = g (omega (arith, c, l)) in
    ((c.0.0, p.0), omega (arith, c, l, p), omega (arith, c, l, p))

on_all-Passes :
    (f : Held → Held) (ss : List Shard) (used : ℕ)
    → ((h : Held) → IsCounted h → Counts h (f h))
    → All IsCountedShard ss
    → totals ss ≤ used
    → Passes ss used (on_all f ss used)
unfolding on_all totals
on_all-Passes f [] used m a l = (tt, refl, l)
on_all-Passes f (s ∷ ss) used m a l =
    let h : Held = record { shard = s; used = used } in
    pass f s ss used (f h) (on_all f ss (f h).used) l (m h (a.0, omega (arith, l)))
      (on_all-Passes f ss (f h).used m a.1)

on_free-Passes :
    (f : Held → Held) (ss : List Shard) (busy : List Bool) (used : ℕ)
    → ((h : Held) → IsCounted h → Counts h (f h))
    → All IsCountedShard ss
    → totals ss ≤ used
    → Passes ss used (on_free f ss busy used)
unfolding on_free totals
on_free-Passes f [] busy used m a l = (tt, refl, l)
on_free-Passes f (s ∷ ss) [] used m a l =
    let h : Held = record { shard = s; used = used } in
    pass f s ss used (f h) (on_free f ss [] (f h).used) l (m h (a.0, omega (arith, l)))
      (on_free-Passes f ss [] (f h).used m a.1)
on_free-Passes f (s ∷ ss) (b ∷ busy) used m a l =
    let h : Held = record { shard = s; used = used } in
    let c : IsCounted h = (a.0, omega (arith, l)) in
    let g : Held = if b then h else f h in
    pass f s ss used g (on_free f ss busy g.used) l
      (if_holds (Counts h) b h (f h) (c, refl) (m h c)) (on_free-Passes f ss busy g.used m a.1)

on_first-Passes :
    (f : Held → Held) (ss : List Shard) (used : ℕ)
    → ((h : Held) → IsCounted h → Counts h (f h))
    → All IsCountedShard ss
    → totals ss ≤ used
    → Passes ss used (on_first f ss used)
unfolding totals
on_first-Passes f [] used m a l = (tt, refl, l)
on_first-Passes f (s ∷ ss) used m a l =
    let h : Held = record { shard = s; used = used } in
    pass f s ss used (f h) (ss, (f h).used) l (m h (a.0, omega (arith, l))) (λ k. (a.1, refl, k))

passed :
    (c : ReadAheadCache) (r : List Shard × ℕ)
    → IsAccounted c
    → Passes c.shards c.used r
    → IsAccounted (with_all c r)
passed c r i p = (p.0, omega (arith, i.1, p.1))

set_shard :
    (c : ReadAheadCache) (i : ℕ) (s s' : Shard) (used : ℕ)
    → IsAccounted c
    → get_elem? c.shards i ≡ some s
    → IsCountedShard s'
    → used + s.total ≡ c.used + s'.total
    → IsAccounted (record c { shards = set c.shards i s'; used = used })
set_shard c i s s' used a e n u = (
  All-set IsCountedShard c.shards i s' a.0 n,
  omega (arith, a.1, totals-set c.shards i s s' e, u),
)

touched :
    (cfg : Config) (c : ReadAheadCache) (p : String) (off end now i : ℕ) (f : Found) (s : Shard)
    → IsAccounted c
    → get_elem? c.shards i ≡ some s
    → IsAccounted (record c {
      shards = set c.shards i (record s { buffers = touch_found cfg p off end now f s.buffers });
    })
touched cfg c p off end now i f s a e =
    set_shard c i s _ c.used a e
      (All-get_elem? IsCountedShard c.shards i s a.0 e
        ∙ sym (bytes_in-touch_found cfg p off end now f s.buffers))
      refl

module _ (cfg : Config) (hash : String → ℕ) where
  step-IsAccounted :
      (c : ReadAheadCache) (x : Call) → IsAccounted c → IsAccounted (step cfg hash c x)
  unfolding step get_cached copy_cached put get copy_to switch_context evict_path
      trigger_global_eviction
  step-IsAccounted c (gets p off end now) i =
      elim (Option-cases (get_elem? c.shards (shard_of cfg hash p))) [
        | inl e ↦ rw (e, step) i
        | inr (s, e) ↦
            rw (e, step)
              (touched cfg c p off end now (shard_of cfg hash p) (locate cfg s.buffers p off end) s
                i e)
      ]
  step-IsAccounted c (copies p off end dest now) i =
      elim (Option-cases (get_elem? c.shards (shard_of cfg hash p))) [
        | inl e ↦ rw (e, step) i
        | inr (s, e) ↦
            rw (e, step)
              (touched cfg c p off end now (shard_of cfg hash p) (locate cfg s.buffers p off end) s
                i e)
      ]
  step-IsAccounted c (puts p start end bytes now responsive) i =
      elim (Option-cases (get_elem? c.shards (shard_of cfg hash p))) [
        | inl e ↦ rw (e, step) i
        | inr (s, e) ↦
            let h : Held = record { shard = s; used = c.used } in
            let counted : IsCounted h = (
              All-get_elem? IsCountedShard c.shards (shard_of cfg hash p) s i.0 e,
              omega (arith, i.1, totals-set c.shards (shard_of cfg hash p) s s e),
            ) in
            let b : RaBuffer = record {
              start = start;
              end = end;
              bytes = bytes;
              last_access = now;
              session_id = session_of cfg hash c p;
              responsive_only = responsive;
            } in
            let n = put_shard-Counts cfg h (ra_chunk_key cfg p start) b counted in
            rw (e, step)
              (set_shard c (shard_of cfg hash p) s
                (put_shard cfg h (ra_chunk_key cfg p start) b).0.shard
                (put_shard cfg h (ra_chunk_key cfg p start) b).0.used i e n.0.0 n.1)
      ]
  step-IsAccounted c (switches p) i =
      if_holds (λ (x : ReadAheadCache × Bool). IsAccounted x.0) _ _ _ i i
  step-IsAccounted c (evicts_path p) i = passed c _ i (
      on_all-Passes (evict_path_shard p) c.shards c.used (evict_path_shard-Counts p) i.0
        (omega (arith, i.1)))
  step-IsAccounted c (evicts active session now busy) i =
      let f = evict_shard active session now in
      let m = evict_shard-Counts active session now in
      if_holds (λ (x : List Shard × ℕ). IsAccounted (with_all c x)) (all_busy c.shards busy)
        (on_first f c.shards c.used) (on_free f c.shards busy c.used)
        (passed c _ i (on_first-Passes f c.shards c.used m i.0 (omega (arith, i.1))))
        (passed c _ i (on_free-Passes f c.shards busy c.used m i.0 (omega (arith, i.1))))

  run_from : (xs : List Call) (c : ReadAheadCache) → IsAccounted c → IsAccounted (run cfg hash c xs)
  unfolding run
  run_from [] c i = i
  run_from (x ∷ xs) c i = run_from xs (step cfg hash c x) (step-IsAccounted c x i)

  -- After any sequence of calls from the new cache on, each shard's `total` is the sum of the lengths of
  -- its chunks, and the counter `used` that the shards share is the sum of their totals: no put,
  -- overwrite, eviction or removal of a path loses or adds a byte.
  pub run-IsAccounted : (xs : List Call) → IsAccounted (run cfg hash new_read_ahead_cache xs)
  unfolding new_read_ahead_cache bytes_in totals
  run-IsAccounted xs =
      run_from xs new_read_ahead_cache (
        All-replicate IsCountedShard 32 (record { buffers = []; order = []; total = 0 }) refl,
        refl,
      )
