-- ===== src/Streaming.antt =====
-- internal/syncer/quality/streaming_policy.go: which torrents may be streamed, and which is best.
--
-- A size in GB is a float64: its type and operations are parameters, and so are the matches of the
-- regular expressions and of the helpers of the package strings. `Seeders` and its limits are of the
-- type int, negative numbers included. An `EstimatedEpisodeCount` below 1 is not read, so it is 0 here.
pub mod Order
pub mod Ranking
mod Tests
use Prim.Native.String.{String}
use text.Mathlib.Text.{◌==◌ as str_eq}
use gostream.Prelude.{
  ℕ, ◌+◌, ◌-◌, ◌*◌, ◌==◌, ltb, leb, if◌then◌else◌, Bool, true, false, not, ◌&&◌, ◌||◌, List, [],
  ◌∷◌, Option, none, some, sort_slice, text_less, ℤ, pos, add_sub_int, less_int, equal_int,
}

abbrev pub resolution_4k : String
resolution_4k = "4k"

abbrev pub resolution_unknown : String
resolution_unknown = "unknown"

-- What the code does with float64 values.
pub record Sizes (F : Type 0) : Type 0 where
  -- the float64 that a number of tenths is read as
  pub tenths : ℕ → F
  pub less : F → F → Bool
  pub equal : F → F → Bool
  -- the division by a positive count
  pub divide : F → ℕ → F
  -- the integer part of the product with 1000
  pub thousandths : F → ℕ

-- The regular expressions by their names in the source, and what is used of the package strings.
pub record Texts : Type 0 where
  pub streaming_4k : String → Bool
  pub streaming_1080p : String → Bool
  pub streaming_720p : String → Bool
  pub streaming_480p : String → Bool
  pub bad_streaming_tags : String → Bool
  pub bad_language_tags : String → Bool
  pub bad_dub_tags : String → Bool
  pub compact_source : String → Bool
  pub compact_codec : String → Bool
  pub compact_group : String → Bool
  pub to_lower : String → String
  pub trim_space : String → String
  pub contains : String → String → Bool

pub record StreamingCandidate (F : Type 0) : Type 0 where
  pub hash : String
  pub title : String
  pub media_type : String
  pub resolution : String
  pub size_gb : F
  pub seeders : ℤ
  pub is_pack : Bool
  pub estimated_episode_count : ℕ

pub record StreamingPolicy (F : Type 0) : Type 0 where
  pub media_type : String
  pub ideal_gb : F
  pub compact_gb : F
  pub fallback_gb : F
  pub strict_file_max_gb : F
  pub min_seeders : ℤ
  pub good_seeders : ℤ
  pub strong_seeders : ℤ

pub record StreamingRank (F : Type 0) : Type 0 where
  pub candidate : StreamingCandidate F
  pub effective_size_gb : F
  pub size_tier : ℕ
  pub peer_tier : ℕ
  pub compact_tag_score : ℕ
  pub resolution_tier : ℕ
  pub score : ℤ

abbrev pub streaming_resolution_tier : String → ℕ
streaming_resolution_tier r =
    if str_eq r "480p" || str_eq r "sd"
    then 0
    else if str_eq r "720p"
    then 1
    else if str_eq r "1080p"
    then 2
    else if str_eq r resolution_4k
    then 3
    else 4

unfoldable pub detect_resolution : Texts → String → String
detect_resolution tx title =
    if tx.streaming_4k title
    then resolution_4k
    else if tx.streaming_1080p title
    then "1080p"
    else if tx.streaming_720p title
    then "720p"
    else if tx.streaming_480p title
    then (if tx.contains (tx.to_lower title) "480p" then "480p" else "sd")
    else resolution_unknown

abbrev pub streaming_compact_tag_score : Texts → String → ℕ
streaming_compact_tag_score tx title =
    (if tx.compact_source title then 30 else 0)
    + (if tx.compact_codec title then 20 else 0)
    + (if tx.compact_group title then 10 else 0)

module _ {F : Type 0} (sz : Sizes F) where
  abbrev pub movie_streaming_policy : StreamingPolicy F
  movie_streaming_policy = record {
    media_type = "movie";
    ideal_gb = sz.tenths 10;
    compact_gb = sz.tenths 20;
    fallback_gb = sz.tenths 80;
    strict_file_max_gb = sz.tenths 20;
    min_seeders = pos 5;
    good_seeders = pos 15;
    strong_seeders = pos 50;
  }

  abbrev pub tv_streaming_policy : StreamingPolicy F
  tv_streaming_policy = record {
    media_type = "tv";
    ideal_gb = sz.tenths 5;
    compact_gb = sz.tenths 10;
    fallback_gb = sz.tenths 15;
    strict_file_max_gb = sz.tenths 10;
    min_seeders = pos 5;
    good_seeders = pos 15;
    strong_seeders = pos 40;
  }

  abbrev pub at_most : F → F → Bool
  at_most a b = sz.less a b || sz.equal a b

  abbrev pub streaming_size_tier : F → StreamingPolicy F → ℕ
  streaming_size_tier size policy =
      if at_most size policy.ideal_gb then 0 else if at_most size policy.compact_gb then 1 else 2

  abbrev pub streaming_peer_tier : ℤ → StreamingPolicy F → ℕ
  streaming_peer_tier seeders policy =
      if not (less_int seeders policy.strong_seeders)
      then 3
      else if not (less_int seeders policy.good_seeders)
      then 2
      else if not (less_int seeders policy.min_seeders)
      then 1
      else 0

  abbrev pub streaming_score : StreamingCandidate F → F → ℕ → ℕ → ℕ → ℕ → ℤ
  streaming_score c effective size_tier peer_tier tags resolution_tier =
      add_sub_int ((3 - size_tier) * 100000 + peer_tier * 10000 + tags * 100) c.seeders
        (resolution_tier * 100 + sz.thousandths effective)

  abbrev pub effective_size : StreamingCandidate F → F
  effective_size c =
      if c.is_pack && ltb 0 c.estimated_episode_count
      then sz.divide c.size_gb c.estimated_episode_count
      else c.size_gb

  abbrev pub rank_of : Texts → StreamingCandidate F → StreamingPolicy F → StreamingRank F
  rank_of tx c policy =
      let size = effective_size c in
      let size_tier = streaming_size_tier size policy in
      let peer_tier = streaming_peer_tier c.seeders policy in
      let tags = streaming_compact_tag_score tx c.title in
      let tier = streaming_resolution_tier c.resolution in
      record {
        candidate = c;
        effective_size_gb = size;
        size_tier = size_tier;
        peer_tier = peer_tier;
        compact_tag_score = tags;
        resolution_tier = tier;
        score = streaming_score c size size_tier peer_tier tags tier;
      }

  -- The candidate as the guards after the two normalisations see it.
  abbrev pub normalised : Texts → StreamingCandidate F → StreamingCandidate F
  normalised tx c = record c {
    hash = tx.to_lower (tx.trim_space c.hash);
    resolution =
        if str_eq c.resolution resolution_unknown || str_eq c.resolution ""
        then detect_resolution tx c.title
        else c.resolution;
  }

  unfoldable pub rank_streaming_candidate :
      Texts → StreamingCandidate F → StreamingPolicy F → Option (StreamingRank F)
  unfolding detect_resolution
  rank_streaming_candidate tx candidate policy =
      let c = normalised tx candidate in
      let size = effective_size c in
      if str_eq c.hash ""
      then none
      else if not (str_eq policy.media_type "")
          && (not (str_eq c.media_type "") && not (str_eq c.media_type policy.media_type))
      then none
      else if tx.bad_streaming_tags c.title
          || (tx.bad_language_tags c.title || tx.bad_dub_tags c.title)
      then none
      else if str_eq c.resolution resolution_unknown
      then none
      else if at_most size (sz.tenths 0)
      then none
      else if less_int (pos 0) c.seeders && less_int c.seeders policy.min_seeders
      then none
      else if sz.less policy.fallback_gb size
      then none
      else if str_eq c.resolution resolution_4k
          && (sz.less policy.compact_gb size && less_int c.seeders policy.strong_seeders)
      then none
      else some (rank_of tx c policy)

  unfoldable pub rank_exact_streaming_file :
      Texts → StreamingCandidate F → StreamingPolicy F → Option (StreamingRank F)
  unfolding rank_streaming_candidate
  rank_exact_streaming_file tx candidate policy =
      if sz.less policy.strict_file_max_gb candidate.size_gb
      then none
      else rank_streaming_candidate tx candidate policy

  unfoldable pub better_than : StreamingRank F → StreamingRank F → Bool
  unfolding text_less
  better_than r other =
      if not (r.size_tier == other.size_tier)
      then ltb r.size_tier other.size_tier
      else if not (r.peer_tier == other.peer_tier)
      then ltb other.peer_tier r.peer_tier
      else if not (sz.equal r.effective_size_gb other.effective_size_gb)
      then sz.less r.effective_size_gb other.effective_size_gb
      else if not (r.compact_tag_score == other.compact_tag_score)
      then ltb other.compact_tag_score r.compact_tag_score
      else if not (r.resolution_tier == other.resolution_tier)
      then ltb r.resolution_tier other.resolution_tier
      else if not (equal_int r.candidate.seeders other.candidate.seeders)
      then less_int other.candidate.seeders r.candidate.seeders
      else text_less r.candidate.hash other.candidate.hash

  -- The loop over the candidates.
  unfoldable pub rank_all :
      Texts → StreamingPolicy F → List (StreamingCandidate F) → List (StreamingRank F)
  unfolding rank_streaming_candidate
  rank_all tx policy [] = []
  rank_all tx policy (c ∷ cs) =
      let rest = rank_all tx policy cs in
      elim (rank_streaming_candidate tx c policy) [ some r ↦ r ∷ rest | none ↦ rest ]

  unfoldable pub rank_streaming_candidates :
      Texts → List (StreamingCandidate F) → StreamingPolicy F → List (StreamingRank F)
  unfolding rank_all better_than sort_slice
  rank_streaming_candidates tx candidates policy =
      sort_slice better_than (rank_all tx policy candidates)
