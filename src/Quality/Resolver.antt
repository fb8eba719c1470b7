-- ===== src/Quality/Resolver.antt =====
-- internal/syncer/quality/resolver.go: the profile that a configuration names, with its overrides.
use Prim.Native.String.{String}
use text.Mathlib.Text.{◌==◌ as str_eq}
use gostream.Prelude.{ℕ, if◌then◌else◌, List, [], ◌∷◌, Option, none, some}
use gostream.Quality.{
  MovieScoreWeights, TvScoreWeights, MovieProfile, TvProfile, default_quality_first_movies,
  default_size_first_movies, default_quality_first_tv, default_size_first_tv,
}

-- `setIfNotNil`: the override, or what was there.
abbrev pub set_if_not_nil {ℓ} : {A : Type ℓ} → Option A → Option A → Option A
set_if_not_nil dst none = dst
set_if_not_nil dst (some x) = some x

abbrev pub set_if_not_empty {ℓ} : {A : Type ℓ} → List A → List A → List A
set_if_not_empty dst [] = dst
set_if_not_empty dst (x ∷ xs) = x ∷ xs

abbrev pub merge_movie_weights : MovieScoreWeights → MovieScoreWeights → MovieScoreWeights
merge_movie_weights result custom = record result {
  resolution_4k = set_if_not_nil result.resolution_4k custom.resolution_4k;
  resolution_1080p = set_if_not_nil result.resolution_1080p custom.resolution_1080p;
  resolution_720p = set_if_not_nil result.resolution_720p custom.resolution_720p;
  dolby_vision = set_if_not_nil result.dolby_vision custom.dolby_vision;
  hdr = set_if_not_nil result.hdr custom.hdr;
  hdr10_plus = set_if_not_nil result.hdr10_plus custom.hdr10_plus;
  atmos = set_if_not_nil result.atmos custom.atmos;
  audio_5_1 = set_if_not_nil result.audio_5_1 custom.audio_5_1;
  audio_stereo = set_if_not_nil result.audio_stereo custom.audio_stereo;
  bluray = set_if_not_nil result.bluray custom.bluray;
  remux = set_if_not_nil result.remux custom.remux;
  ita = set_if_not_nil result.ita custom.ita;
  seeder_bonus = set_if_not_nil result.seeder_bonus custom.seeder_bonus;
  seeder_threshold = set_if_not_nil result.seeder_threshold custom.seeder_threshold;
  unknown_size_penalty = set_if_not_nil result.unknown_size_penalty custom.unknown_size_penalty;
}

unfoldable pub merge_movie_profile : {F : Type 0} → MovieProfile F → MovieProfile F → MovieProfile F
merge_movie_profile custom def = record def {
  include_4k = set_if_not_nil def.include_4k custom.include_4k;
  include_1080p = set_if_not_nil def.include_1080p custom.include_1080p;
  include_720p = set_if_not_nil def.include_720p custom.include_720p;
  min_seeders = set_if_not_nil def.min_seeders custom.min_seeders;
  fallback_4k_min_seeders =
      set_if_not_nil def.fallback_4k_min_seeders custom.fallback_4k_min_seeders;
  size_floor_gb = set_if_not_empty def.size_floor_gb custom.size_floor_gb;
  size_ceiling_gb = set_if_not_empty def.size_ceiling_gb custom.size_ceiling_gb;
  priority_order = set_if_not_empty def.priority_order custom.priority_order;
  score_weights = merge_movie_weights def.score_weights custom.score_weights;
}

abbrev pub merge_tv_weights : TvScoreWeights → TvScoreWeights → TvScoreWeights
merge_tv_weights result custom = record result {
  resolution_4k = set_if_not_nil result.resolution_4k custom.resolution_4k;
  resolution_1080p = set_if_not_nil result.resolution_1080p custom.resolution_1080p;
  resolution_720p = set_if_not_nil result.resolution_720p custom.resolution_720p;
  hdr = set_if_not_nil result.hdr custom.hdr;
  atmos = set_if_not_nil result.atmos custom.atmos;
  audio_5_1 = set_if_not_nil result.audio_5_1 custom.audio_5_1;
  ita = set_if_not_nil result.ita custom.ita;
  seeder_100_bonus = set_if_not_nil result.seeder_100_bonus custom.seeder_100_bonus;
  seeder_50_bonus = set_if_not_nil result.seeder_50_bonus custom.seeder_50_bonus;
  seeder_20_bonus = set_if_not_nil result.seeder_20_bonus custom.seeder_20_bonus;
}

unfoldable pub merge_tv_profile : {F : Type 0} → TvProfile F → TvProfile F → TvProfile F
merge_tv_profile custom def = record def {
  include_4k = set_if_not_nil def.include_4k custom.include_4k;
  include_1080p = set_if_not_nil def.include_1080p custom.include_1080p;
  include_720p = set_if_not_nil def.include_720p custom.include_720p;
  min_seeders_4k = set_if_not_nil def.min_seeders_4k custom.min_seeders_4k;
  min_seeders = set_if_not_nil def.min_seeders custom.min_seeders;
  fullpack_bonus = set_if_not_nil def.fullpack_bonus custom.fullpack_bonus;
  size_floor_gb = set_if_not_empty def.size_floor_gb custom.size_floor_gb;
  size_ceiling_gb = set_if_not_empty def.size_ceiling_gb custom.size_ceiling_gb;
  priority_order = set_if_not_empty def.priority_order custom.priority_order;
  score_weights = merge_tv_weights def.score_weights custom.score_weights;
}

pub record ProfileSet (F : Type 0) : Type 0 where
  pub movies : Option (MovieProfile F)
  pub tv : Option (TvProfile F)

-- `profiles` is none for a map that is nil.
pub record QualityConfig (F : Type 0) : Type 0 where
  pub profile : String
  pub profiles : Option (String → Option (ProfileSet F))

module _ {F : Type 0} (tenths : ℕ → F) where
  abbrev pub default_profile_by_name : String → MovieProfile F
  default_profile_by_name name =
      if str_eq name "size-first"
      then default_size_first_movies tenths
      else default_quality_first_movies tenths

  abbrev pub default_profile_by_name_tv : String → TvProfile F
  default_profile_by_name_tv name =
      if str_eq name "size-first"
      then default_size_first_tv tenths
      else default_quality_first_tv tenths

  abbrev merge_movies : MovieProfile F → Option (ProfileSet F) → MovieProfile F
  merge_movies def none = def
  merge_movies def (some ps) = elim ps.movies [
    | some custom ↦ merge_movie_profile custom def
    | none ↦ def
  ]

  -- A configuration that is nil is none.
  unfoldable pub resolve_movies : Option (QualityConfig F) → MovieProfile F
  unfolding merge_movie_profile
  resolve_movies none = default_quality_first_movies tenths
  resolve_movies (some qc) = elim qc.profiles [
    | none ↦ default_profile_by_name qc.profile
    | some profiles ↦ merge_movies (default_profile_by_name qc.profile) (profiles qc.profile)
  ]

  abbrev merge_tv : TvProfile F → Option (ProfileSet F) → TvProfile F
  merge_tv def none = def
  merge_tv def (some ps) = elim ps.tv [ some custom ↦ merge_tv_profile custom def | none ↦ def ]

  unfoldable pub resolve_tv : Option (QualityConfig F) → TvProfile F
  unfolding merge_tv_profile
  resolve_tv none = default_quality_first_tv tenths
  resolve_tv (some qc) = elim qc.profiles [
    | none ↦ default_profile_by_name_tv qc.profile
    | some profiles ↦ merge_tv (default_profile_by_name_tv qc.profile) (profiles qc.profile)
  ]
