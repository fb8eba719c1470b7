-- ===== src/Quality.antt =====
-- internal/syncer/quality/types.go: what a quality profile holds, and the built-in ones.
--
-- A pointer that may be nil is an option, and a map by the name of a resolution a list. The sizes are
-- float64: `tenths` is the value that a literal with one decimal is read as.
pub mod Resolver
pub mod Resolved
mod Tests
use Prim.Native.String.{String}
use gostream.Prelude.{ℕ, Bool, true, false, List, [], ◌∷◌, Option, none, some, ℤ, pos, negsuc}

pub record MovieScoreWeights : Type 0 where
  pub resolution_4k : Option ℤ
  pub resolution_1080p : Option ℤ
  pub resolution_720p : Option ℤ
  pub dolby_vision : Option ℤ
  pub hdr : Option ℤ
  pub hdr10_plus : Option ℤ
  pub atmos : Option ℤ
  pub audio_5_1 : Option ℤ
  pub audio_stereo : Option ℤ
  pub bluray : Option ℤ
  pub remux : Option ℤ
  pub ita : Option ℤ
  pub seeder_bonus : Option ℤ
  pub seeder_threshold : Option ℤ
  pub unknown_size_penalty : Option ℤ
  pub size_bonus_per_gb_under : Option ℤ

pub record TvScoreWeights : Type 0 where
  pub resolution_4k : Option ℤ
  pub resolution_1080p : Option ℤ
  pub resolution_720p : Option ℤ
  pub resolution_480p : Option ℤ
  pub hdr : Option ℤ
  pub atmos : Option ℤ
  pub audio_5_1 : Option ℤ
  pub ita : Option ℤ
  pub seeder_100_bonus : Option ℤ
  pub seeder_50_bonus : Option ℤ
  pub seeder_20_bonus : Option ℤ
  pub size_bonus_per_gb_under : Option ℤ

pub record MovieProfile (F : Type 0) : Type 0 where
  pub include_4k : Option Bool
  pub include_1080p : Option Bool
  pub include_720p : Option Bool
  pub size_floor_gb : List (String × F)
  pub size_ceiling_gb : List (String × F)
  pub min_seeders : Option ℤ
  pub fallback_4k_min_seeders : Option ℤ
  pub priority_order : List String
  pub score_weights : MovieScoreWeights

pub record TvProfile (F : Type 0) : Type 0 where
  pub include_4k : Option Bool
  pub include_1080p : Option Bool
  pub include_720p : Option Bool
  pub include_480p : Option Bool
  pub size_floor_gb : List (String × F)
  pub size_ceiling_gb : List (String × F)
  pub min_seeders_4k : Option ℤ
  pub min_seeders : Option ℤ
  pub fullpack_bonus : Option ℤ
  pub priority_order : List String
  pub score_weights : TvScoreWeights

module _ {F : Type 0} (tenths : ℕ → F) where
  abbrev pub default_quality_first_movies : MovieProfile F
  default_quality_first_movies = record {
    include_4k = some true;
    include_1080p = some true;
    include_720p = some false;
    size_floor_gb = ("4k", tenths 100) ∷ ("1080p", tenths 40) ∷ [];
    size_ceiling_gb = ("4k", tenths 600) ∷ ("1080p", tenths 200) ∷ [];
    min_seeders = some (pos 15);
    fallback_4k_min_seeders = none;
    priority_order = "4k" ∷ "1080p" ∷ "720p" ∷ [];
    score_weights = record {
      resolution_4k = some (pos 200);
      resolution_1080p = some (pos 50);
      resolution_720p = none;
      dolby_vision = some (pos 150);
      hdr = some (pos 100);
      hdr10_plus = some (pos 100);
      atmos = some (pos 50);
      audio_5_1 = some (pos 25);
      audio_stereo = some (negsuc 49);
      bluray = some (pos 10);
      remux = some (negsuc 499);
      ita = some (pos 60);
      seeder_bonus = some (pos 5);
      seeder_threshold = some (pos 50);
      unknown_size_penalty = some (negsuc 4);
      size_bonus_per_gb_under = none;
    };
  }

  abbrev pub default_size_first_movies : MovieProfile F
  default_size_first_movies = record {
    include_4k = some true;
    include_1080p = some true;
    include_720p = some true;
    size_floor_gb = ("720p", tenths 5) ∷ ("1080p", tenths 5) ∷ ("4k", tenths 10) ∷ [];
    size_ceiling_gb = ("720p", tenths 30) ∷ ("1080p", tenths 100) ∷ ("4k", tenths 150) ∷ [];
    min_seeders = some (pos 10);
    fallback_4k_min_seeders = some (pos 50);
    priority_order = "720p" ∷ "1080p" ∷ "4k" ∷ [];
    score_weights = record {
      resolution_4k = some (pos 100);
      resolution_1080p = some (pos 300);
      resolution_720p = some (pos 500);
      dolby_vision = some (pos 50);
      hdr = some (pos 40);
      hdr10_plus = some (pos 40);
      atmos = some (pos 25);
      audio_5_1 = some (pos 15);
      audio_stereo = some (pos 10);
      bluray = some (pos 5);
      remux = some (negsuc 499);
      ita = some (pos 60);
      seeder_bonus = some (pos 5);
      seeder_threshold = some (pos 30);
      unknown_size_penalty = some (negsuc 4);
      size_bonus_per_gb_under = some (pos 100);
    };
  }

  abbrev pub default_quality_first_tv : TvProfile F
  default_quality_first_tv = record {
    include_4k = some true;
    include_1080p = some true;
    include_720p = some false;
    include_480p = some false;
    size_floor_gb = ("4k", tenths 100) ∷ ("1080p", tenths 10) ∷ [];
    size_ceiling_gb = ("4k", tenths 300) ∷ ("1080p", tenths 300) ∷ [];
    min_seeders_4k = some (pos 10);
    min_seeders = some (pos 5);
    fullpack_bonus = some (pos 500);
    priority_order = "4k" ∷ "1080p" ∷ "720p" ∷ "480p" ∷ [];
    score_weights = record {
      resolution_4k = some (pos 200);
      resolution_1080p = some (pos 50);
      resolution_720p = none;
      resolution_480p = some (pos 100);
      hdr = some (pos 100);
      atmos = some (pos 50);
      audio_5_1 = some (pos 25);
      ita = some (pos 40);
      seeder_100_bonus = some (pos 100);
      seeder_50_bonus = some (pos 50);
      seeder_20_bonus = some (pos 10);
      size_bonus_per_gb_under = none;
    };
  }

  abbrev pub default_size_first_tv : TvProfile F
  default_size_first_tv = record {
    include_4k = some true;
    include_1080p = some true;
    include_720p = some true;
    include_480p = some true;
    size_floor_gb =
        ("720p", tenths 2) ∷ ("1080p", tenths 2) ∷ ("4k", tenths 5) ∷ ("480p", tenths 1) ∷ [];
    size_ceiling_gb =
        ("720p", tenths 10) ∷ ("1080p", tenths 20) ∷ ("4k", tenths 30) ∷ ("480p", tenths 5) ∷ [];
    min_seeders_4k = some (pos 50);
    min_seeders = some (pos 10);
    fullpack_bonus = some (pos 300);
    priority_order = "480p" ∷ "720p" ∷ "1080p" ∷ "4k" ∷ [];
    score_weights = record {
      resolution_4k = some (pos 100);
      resolution_1080p = some (pos 300);
      resolution_720p = some (pos 600);
      resolution_480p = some (pos 800);
      hdr = some (pos 40);
      atmos = some (pos 25);
      audio_5_1 = some (pos 15);
      ita = some (pos 40);
      seeder_100_bonus = some (pos 100);
      seeder_50_bonus = some (pos 50);
      seeder_20_bonus = some (pos 10);
      size_bonus_per_gb_under = some (pos 100);
    };
  }
