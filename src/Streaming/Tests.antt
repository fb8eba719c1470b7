-- ===== src/Streaming/Tests.antt =====
-- The ranking at three offers, with sizes in tenths of a GB.
use Prim.Native.String.{String}
use text.Mathlib.Text.{◌==◌ as str_eq}
use gostream.Prelude.{
  ℕ, ◌*◌, ◌/◌, ◌==◌, ltb, ◌≡◌, refl, false, List, [], ◌∷◌, Perm, IsOrdered, All, ltb-IsKeyOrder,
  map, ℤ, pos, negsuc, ◌⊎◌, some, none,
}
use gostream.Streaming.{
  Sizes, Texts, StreamingCandidate, StreamingPolicy, rank_of, normalised, rank_all,
  rank_streaming_candidate, better_than, movie_streaming_policy, rank_exact_streaming_file,
  rank_streaming_candidates,
}
use gostream.Streaming.Ranking.{
  IsAdmitted, IsStreamable, rank_streaming_candidate-IsStreamable, rank_streaming_candidates-ranked,
}

program : Unit {0}
unfolding rank_streaming_candidates rank_exact_streaming_file
program = tt

abbrev in_tenths : Sizes ℕ
in_tenths = record {
  tenths = λ n. n;
  less = ltb;
  equal = ◌==◌;
  divide = λ n k. n / k;
  thousandths = λ n. n * 100;
}

abbrev titles : Texts
titles = record {
  streaming_4k = λ t. str_eq t "Film 2160p";
  streaming_1080p = λ t. str_eq t "Film 1080p";
  streaming_720p = λ t. false;
  streaming_480p = λ t. false;
  bad_streaming_tags = λ t. str_eq t "Film 1080p CAM";
  bad_language_tags = λ t. false;
  bad_dub_tags = λ t. false;
  compact_source = λ t. false;
  compact_codec = λ t. false;
  compact_group = λ t. false;
  to_lower = λ t. t;
  trim_space = λ t. t;
  contains = λ t u. str_eq t u;
}

abbrev policy : StreamingPolicy ℕ
policy = movie_streaming_policy in_tenths

abbrev offer : String → String → ℕ → ℤ → StreamingCandidate ℕ
offer hash title size seeders = record {
  hash = hash;
  title = title;
  media_type = "movie";
  resolution = "";
  size_gb = size;
  seeders = seeders;
  is_pack = false;
  estimated_episode_count = 0;
}

abbrev offers : List (StreamingCandidate ℕ)
offers =
    offer "a" "Film 1080p" 30 (pos 100)
    ∷ offer "b" "Film 1080p CAM" 10 (pos 100)
    ∷ offer "c" "Film 2160p" 15 (pos 60)
    ∷ offer "d" "Film 1080p" 15 (pos 8)
    ∷ offer "e" "Film 2160p" 40 (pos 20)
    ∷ []

ranks_offers :
    map (λ r. r.candidate.hash) (rank_streaming_candidates in_tenths titles offers policy)
    ≡ "c" ∷ "d" ∷ "a" ∷ []
unfolding program
ranks_offers = refl

rank_streaming_candidate-IsStreamable_example :
    let n = normalised in_tenths titles (offer "c" "Film 2160p" 15 (pos 60)) in
    (IsStreamable in_tenths titles policy n
      × (rank_streaming_candidate in_tenths titles (offer "c" "Film 2160p" 15 (pos 60)) policy
          ≡ some (rank_of in_tenths titles n policy)))
    ⊎ ((¬ IsStreamable in_tenths titles policy n)
        × (rank_streaming_candidate in_tenths titles (offer "c" "Film 2160p" 15 (pos 60)) policy
            ≡ none))
rank_streaming_candidate-IsStreamable_example =
    rank_streaming_candidate-IsStreamable in_tenths titles policy
      (offer "c" "Film 2160p" 15 (pos 60))

-- A negative number of seeders passes the guard that looks for too few.
ranks_negative :
    map
      (λ r. r.candidate.seeders)
      (rank_streaming_candidates in_tenths titles
        (offer "f" "Film 1080p" 15 (negsuc 0) ∷ [])
        policy)
    ≡ negsuc 0 ∷ []
unfolding program
ranks_negative = refl

rank_streaming_candidates-ranked_example :
    let ranking = rank_streaming_candidates in_tenths titles offers policy in
    Perm ranking (rank_all in_tenths titles policy offers)
    × IsOrdered (better_than in_tenths) ranking
    × All (IsAdmitted in_tenths titles policy) ranking
rank_streaming_candidates-ranked_example =
    rank_streaming_candidates-ranked in_tenths titles policy ltb-IsKeyOrder offers
