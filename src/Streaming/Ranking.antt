-- ===== src/Streaming/Ranking.antt =====
-- What a ranking admits, and in which order.

use text.Mathlib.Text.{◌==◌ as str_eq}
use text.Mathlib.TextEquality.{eq_iff}
use mathlib.Core.Option.{some-injective}
use gostream.Prelude.{
  subst, ◌≡◌, ◌≢◌, ◌≤◌, refl, if◌then◌else◌, Bool, true, false, ◌&&◌, ◌||◌, not, Option-cases, inl,
  inr, List, [], ◌∷◌, Option, none, some, All, Perm, IsOrdered, IsKeyOrder, sort_slice-perm,
  sort_slice-IsOrdered, All-sort_slice, arith, less_int, pos, ◌⊎◌, Bool-cases, if_of_true,
  if_of_false, sym, ◌∙◌,
}
use gostream.Streaming.{
  Sizes, Texts, StreamingCandidate, StreamingPolicy, StreamingRank, at_most, normalised, rank_of,
  effective_size, resolution_4k, resolution_unknown, rank_streaming_candidate,
  rank_exact_streaming_file, rank_all, rank_streaming_candidates, better_than,
}
use gostream.Streaming.Order.{better_than-IsWeakOrder}

behind_one {ℓ} :
    {A : Type ℓ} (b : Bool) (o : Option A) (r : A)
    → (if b then none else o) ≡ some r
    → (b ≡ false) × (o ≡ some r)
behind_one true o r e = absurd cc
behind_one false o r e = (refl, e)

-- Eight guards in a row refuse when one of them does.
guards {ℓ} :
    {A : Type ℓ} (b1 b2 b3 b4 b5 b6 b7 b8 : Bool) (o : Option A)
    → (if b1
        then none
        else if b2
        then none
        else if b3
        then none
        else if b4
        then none
        else if b5
        then none
        else if b6
        then none
        else if b7
        then none
        else if b8
        then none
        else o)
      ≡ (if b1 || (b2 || (b3 || (b4 || (b5 || (b6 || (b7 || b8)))))) then none else o)
guards true b2 b3 b4 b5 b6 b7 b8 o = refl
guards false true b3 b4 b5 b6 b7 b8 o = refl
guards false false true b4 b5 b6 b7 b8 o = refl
guards false false false true b5 b6 b7 b8 o = refl
guards false false false false true b6 b7 b8 o = refl
guards false false false false false true b7 b8 o = refl
guards false false false false false false true b8 o = refl
guards false false false false false false false b8 o = refl

module _ {F : Type 0} (sz : Sizes F) (tx : Texts) (policy : StreamingPolicy F) where
  -- What a candidate must be, once its hash and its resolution are normalised, to be streamed.
  pub record IsStreamable (c : StreamingCandidate F) : Type 0 where
    pub named : c.hash ≢ ""
    pub wanted :
        (policy.media_type ≡ "") ⊎ ((c.media_type ≡ "") ⊎ (c.media_type ≡ policy.media_type))
    pub untagged : tx.bad_streaming_tags c.title ≡ false
    pub spoken : (tx.bad_language_tags c.title ≡ false) × (tx.bad_dub_tags c.title ≡ false)
    pub known : c.resolution ≢ resolution_unknown
    pub sized : at_most sz (effective_size sz c) (sz.tenths 0) ≡ false
    pub peers :
        (less_int (pos 0) c.seeders ≡ false) ⊎ (less_int c.seeders policy.min_seeders ≡ false)
    pub fits : sz.less policy.fallback_gb (effective_size sz c) ≡ false
    pub large_4k :
        c.resolution ≡ resolution_4k
        → sz.less policy.compact_gb (effective_size sz c) ≡ true
        → less_int c.seeders policy.strong_seeders ≡ false

  -- What the rank of an admitted candidate promises: a hash, a known resolution, a positive size of at
  -- most the fallback size, seeders that are not positive or at least the least number, and for 4K above
  -- the compact size at least the highest number.
  pub record IsAdmitted (r : StreamingRank F) : Type 0 where
    pub named : r.candidate.hash ≢ ""
    pub known : r.candidate.resolution ≢ resolution_unknown
    pub sized : at_most sz r.effective_size_gb (sz.tenths 0) ≡ false
    pub fits : sz.less policy.fallback_gb r.effective_size_gb ≡ false
    pub peers :
        (less_int (pos 0) r.candidate.seeders ≡ false)
        ⊎ (less_int r.candidate.seeders policy.min_seeders ≡ false)
    pub lowest_tier : r.peer_tier ≡ 0 → less_int (pos 0) r.candidate.seeders ≡ false
    pub strong_4k :
        r.candidate.resolution ≡ resolution_4k
        → sz.less policy.compact_gb r.effective_size_gb ≡ true
        → less_int r.candidate.seeders policy.strong_seeders ≡ false
    pub large_4k : r.candidate.resolution ≡ resolution_4k → r.size_tier ≡ 2 → r.peer_tier ≡ 3

  abbrev other_medium : StreamingCandidate F → Bool
  other_medium c =
      not (str_eq policy.media_type "")
      && (not (str_eq c.media_type "") && not (str_eq c.media_type policy.media_type))

  abbrev bad_tags : StreamingCandidate F → Bool
  bad_tags c =
      tx.bad_streaming_tags c.title || (tx.bad_language_tags c.title || tx.bad_dub_tags c.title)

  abbrev few_seeders : StreamingCandidate F → Bool
  few_seeders c = less_int (pos 0) c.seeders && less_int c.seeders policy.min_seeders

  abbrev weak_4k : StreamingCandidate F → Bool
  weak_4k c =
      str_eq c.resolution resolution_4k
      && (sz.less policy.compact_gb (effective_size sz c)
          && less_int c.seeders policy.strong_seeders)

  abbrev refuses : StreamingCandidate F → Bool
  refuses c =
      str_eq c.hash ""
      || (other_medium c
          || (bad_tags c
              || (str_eq c.resolution resolution_unknown
                  || (at_most sz (effective_size sz c) (sz.tenths 0)
                      || (few_seeders c
                          || (sz.less policy.fallback_gb (effective_size sz c) || weak_4k c))))))

  rank_streaming_candidate-guards :
      (c : StreamingCandidate F)
      → rank_streaming_candidate sz tx c policy ≡ (
          if refuses (normalised sz tx c)
          then none
          else some (rank_of sz tx (normalised sz tx c) policy))
  unfolding rank_streaming_candidate
  rank_streaming_candidate-guards c =
      let n = normalised sz tx c in
      guards (str_eq n.hash "") (other_medium n) (bad_tags n)
        (str_eq n.resolution resolution_unknown) (at_most sz (effective_size sz n) (sz.tenths 0))
        (few_seeders n) (sz.less policy.fallback_gb (effective_size sz n)) (weak_4k n)
        (some (rank_of sz tx n policy))

  refuses-IsStreamable : (c : StreamingCandidate F) → refuses c ≡ false → IsStreamable c
  refuses-IsStreamable c h = record {
    named = λ e. ground (arith, eq_iff c.hash "");
    wanted = ground (
      arith,
      eq_iff policy.media_type "",
      eq_iff c.media_type "",
      eq_iff c.media_type policy.media_type,
    );
    untagged = ground arith;
    spoken = (ground arith, ground arith);
    known = λ e. ground (arith, eq_iff c.resolution resolution_unknown);
    sized = ground arith;
    peers = ground arith;
    fits = ground arith;
    large_4k = λ e t. ground (arith, eq_iff c.resolution resolution_4k);
  }

  IsStreamable-refuses : (c : StreamingCandidate F) → IsStreamable c → refuses c ≡ true → ⊥
  IsStreamable-refuses c v h = ground (
    arith,
    v.named,
    v.wanted,
    v.untagged,
    v.spoken,
    v.known,
    v.sized,
    v.peers,
    v.fits,
    v.large_4k,
    eq_iff c.hash "",
    eq_iff policy.media_type "",
    eq_iff c.media_type "",
    eq_iff c.media_type policy.media_type,
    eq_iff c.resolution resolution_unknown,
    eq_iff c.resolution resolution_4k,
  )

  -- Every candidate is judged by what it is once its hash and its resolution are normalised: if it is
  -- streamable, it gets the rank of the normalised candidate, and if not, it gets none. Streamable means
  -- that it has a hash, a wanted medium, no bad tag, a known resolution, a positive size of at most the
  -- fallback size, seeders that are not positive or at least the least number, and at 4K above the
  -- compact size at least the highest.
  pub rank_streaming_candidate-IsStreamable :
      (c : StreamingCandidate F)
      → let n = normalised sz tx c in
        (IsStreamable n × (rank_streaming_candidate sz tx c policy ≡ some (rank_of sz tx n policy)))
        ⊎ ((¬ IsStreamable n) × (rank_streaming_candidate sz tx c policy ≡ none))
  rank_streaming_candidate-IsStreamable c =
      let n = normalised sz tx c in
      elim (Bool-cases (refuses n)) [
        | inl t ↦
            inr (
              λ v. IsStreamable-refuses n v t,
              rank_streaming_candidate-guards c ∙ if_of_true _ _ t,
            )
        | inr t ↦
            inl (refuses-IsStreamable n t, rank_streaming_candidate-guards c ∙ if_of_false _ _ t)
      ]

  module _ (floats : IsKeyOrder sz.equal sz.less) where
    rank_of-IsAdmitted :
        (c : StreamingCandidate F) → IsStreamable c → IsAdmitted (rank_of sz tx c policy)
    rank_of-IsAdmitted c v = record {
      named = v.named;
      known = v.known;
      sized = v.sized;
      fits = v.fits;
      peers = v.peers;
      lowest_tier = λ e. ground (arith, v.peers);
      strong_4k = v.large_4k;
      large_4k =
          λ e t. ground (arith, v.large_4k e, floats.ties (effective_size sz c) policy.compact_gb);
    }

    -- A candidate that gets a rank is admitted, and the rank is that of the normalised candidate.
    accepted :
        (c : StreamingCandidate F) (r : StreamingRank F)
        → rank_streaming_candidate sz tx c policy ≡ some r
        → IsAdmitted r × (rank_of sz tx (normalised sz tx c) policy ≡ r)
    accepted c r e =
        let n = normalised sz tx c in
        elim (rank_streaming_candidate-IsStreamable c) [
          | inl (v, s) ↦
              let same : rank_of sz tx n policy ≡ r = some-injective _ r (sym s ∙ e) in
              (subst IsAdmitted same (rank_of-IsAdmitted n v), same)
          | inr (v, s) ↦ absurd (nothing r (sym s ∙ e))
        ]
      where
        nothing : (r : StreamingRank F) → none ≡ some r → ⊥
        nothing r h = cc

    rank_all-IsAdmitted :
        (cs : List (StreamingCandidate F)) → All IsAdmitted (rank_all sz tx policy cs)
    unfolding rank_all
    rank_all-IsAdmitted [] = tt
    rank_all-IsAdmitted (c ∷ cs) = elim (Option-cases (rank_streaming_candidate sz tx c policy)) [
      | inl e ↦ rw (e, rank_all) (rank_all-IsAdmitted cs)
      | inr (r, e) ↦ rw (e, rank_all) ((accepted c r e).0, rank_all-IsAdmitted cs)
    ]

    -- The ranking holds the ranks of the candidates that get one, each as often as they do, and all of
    -- them admitted. No rank is better than one that stands before it.
    pub rank_streaming_candidates-ranked :
        (cs : List (StreamingCandidate F))
        → let ranking = rank_streaming_candidates sz tx cs policy in
          Perm ranking (rank_all sz tx policy cs)
          × IsOrdered (better_than sz) ranking
          × All IsAdmitted ranking
    unfolding rank_streaming_candidates
    rank_streaming_candidates-ranked cs = (
      sort_slice-perm (better_than sz) (rank_all sz tx policy cs),
      sort_slice-IsOrdered (better_than sz) (better_than-IsWeakOrder sz floats)
          (rank_all sz tx policy cs),
      All-sort_slice (better_than sz) IsAdmitted (rank_all sz tx policy cs)
          (rank_all-IsAdmitted cs),
    )

    single_file :
        (c : StreamingCandidate F)
        → c.is_pack ≡ false
        → sz.less policy.compact_gb c.size_gb ≡ false
        → ((rank_of sz tx c policy).size_tier ≤ 1)
          × (sz.less policy.compact_gb (rank_of sz tx c policy).effective_size_gb ≡ false)
    single_file c n l =
        (ground (arith, floats.ties (effective_size sz c) policy.compact_gb), ground arith)

    -- Where the limit of a single file is the compact size, as in both policies, a file that is no pack is only
    -- accepted in one of the two upper tiers of size, with at most the compact size, and admitted.
    rank_exact_streaming_file-compact :
        (c : StreamingCandidate F) (r : StreamingRank F)
        → policy.strict_file_max_gb ≡ policy.compact_gb
        → c.is_pack ≡ false
        → rank_exact_streaming_file sz tx c policy ≡ some r
        → (r.size_tier ≤ 1) × (sz.less policy.compact_gb r.effective_size_gb ≡ false) × IsAdmitted r
    unfolding rank_exact_streaming_file
    rank_exact_streaming_file-compact c r q n e =
        let (l, e') = behind_one (sz.less policy.strict_file_max_gb c.size_gb) _ r e in
        let (h, v) = accepted c r e' in
        let (tier, fit) =
          subst (λ d. (d.size_tier ≤ 1) × (sz.less policy.compact_gb d.effective_size_gb ≡ false)) v
            (single_file (normalised sz tx c) n (subst (λ g. sz.less g c.size_gb ≡ false) q l)) in
        (tier, fit, h)
