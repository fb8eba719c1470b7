-- ===== src/ScanDetector/Gate.antt =====
-- scandetector.go: PreBufferGate, which holds a read back until enough is cached.
--
-- A round of the waiting loop sees the clock and the shard of the path. `none` is a loop that has not
-- ended within the rounds that are given.
use Prim.Native.String.{String}
use text.Mathlib.Text.{◌==◌ as str_eq}
use gostream.Prelude.{
  ℕ, ◌+◌, ◌==◌, ◌<◌, ◌≤◌, ◌≡◌, refl, ltb, leb, if◌then◌else◌, if_holds, if_of_true, if_of_false,
  Bool-cases, Bool, true, false, ◌&&◌, ◌||◌, List, [], ◌∷◌, Option, none, some, inl, inr, arith,
  ◌∙◌,
}
use gostream.ReadAhead.{Config, Shard, exists, max_cached_offset}

pub record PreBufferGate : Type 0 where
  pub has_cache : Bool
  pub min_bytes : ℕ
  pub read_counts : String → ℕ

abbrev pub record_gate_read : PreBufferGate → String → ℕ → PreBufferGate
record_gate_read pg path length = record pg {
  read_counts = λ p. if str_eq p path then pg.read_counts path + length else pg.read_counts p;
}

unfoldable pub wait_loop : Config → PreBufferGate → String → ℕ → ℕ → List (ℕ × Shard) → Option Bool
unfolding exists max_cached_offset
wait_loop cfg pg path offset deadline [] = none
wait_loop cfg pg path offset deadline ((now, s) ∷ rounds) =
    let later = wait_loop cfg pg path offset deadline rounds in
    if ltb now deadline
    then (if exists cfg s path offset || leb pg.min_bytes (max_cached_offset s path)
        then some true
        else later)
    else some false

-- `s` is the shard at the first look, and `now` the clock then.
unfoldable pub wait_until_ready :
    Config → PreBufferGate → String → ℕ → ℕ → Shard → ℕ → List (ℕ × Shard) → Option Bool
unfolding wait_loop
wait_until_ready cfg pg path offset timeout s now rounds =
    if pg.read_counts path == 0
    then some true
    else if pg.has_cache
    then (if ltb 0 (max_cached_offset s path) && ltb (max_cached_offset s path) pg.min_bytes
        then some true
        else wait_loop cfg pg path offset (now + timeout) rounds)
    else some true

or_right : (a b : Bool) → b ≡ true → (a || b) ≡ true
or_right true b e = refl
or_right false b e = e

-- The gate holds back no read of a file of which anything behind its first byte is cached: if the
-- first round comes in time and finds as much of the file as the look before it, all is said to be
-- ready, whatever offset is read and however little is cached there.
pub wait_until_ready-cached :
    (cfg : Config) (pg : PreBufferGate) (path : String) (offset timeout : ℕ) (s s' : Shard)
    (now first : ℕ) (rounds : List (ℕ × Shard))
    → 0 < max_cached_offset s path
    → max_cached_offset s path ≤ max_cached_offset s' path
    → first < now + timeout
    → wait_until_ready cfg pg path offset timeout s now ((first, s') ∷ rounds) ≡ some true
unfolding wait_until_ready wait_loop
wait_until_ready-cached cfg pg path offset timeout s s' now first rounds c m h =
    if_holds IsReady (pg.read_counts path == 0) (some true)
      (if pg.has_cache then (if small then some true else loop) else some true) refl
      (if_holds IsReady pg.has_cache (if small then some true else loop) (some true) gated refl)
  where
    IsReady : Option Bool → Type 0
    IsReady o = o ≡ some true

    small : Bool
    small = ltb 0 (max_cached_offset s path) && ltb (max_cached_offset s path) pg.min_bytes

    enough : small ≡ false → leb pg.min_bytes (max_cached_offset s' path) ≡ true
    enough t = ground (arith, t)

    loop : Option Bool
    loop = wait_loop cfg pg path offset (now + timeout) ((first, s') ∷ rounds)

    gated : (if small then some true else loop) ≡ some true
    gated = elim (Bool-cases small) [
      | inl t ↦ if_of_true {b = small} _ _ t
      | inr t ↦
          if_of_false {b = small} _ _ t
          ∙ if_of_true {b = ltb first (now + timeout)} _ _ (ground arith)
          ∙ if_of_true
              {b = exists cfg s' path offset || leb pg.min_bytes (max_cached_offset s' path)} _ _
              (or_right (exists cfg s' path offset) _ (enough t))
    ]
