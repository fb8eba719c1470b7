-- ===== src/Quality/Tests.antt =====
-- The resolved profiles at a configuration with overrides, with sizes in tenths of a GB.

use text.Mathlib.Text.{◌==◌ as str_eq}
use gostream.Prelude.{ℕ, ◌≡◌, refl, true, false, if◌then◌else◌, [], none, some, pos}
use gostream.Quality.{MovieProfile, TvProfile, default_size_first_movies, default_size_first_tv}
use gostream.Quality.Resolver.{QualityConfig, resolve_tv, default_profile_by_name_tv}
use gostream.Quality.Resolved.{Keeps, resolve_tv-lost}

abbrev tenth : ℕ → ℕ
tenth n = n

abbrev custom_movies : MovieProfile ℕ
custom_movies = record (default_size_first_movies tenth) {
  include_4k = some false;
  min_seeders = some (pos 3);
  size_floor_gb = [];
}

abbrev custom_tv : TvProfile ℕ
custom_tv = record (default_size_first_tv tenth) {
  include_480p = some false;
  include_720p = some false;
}

abbrev config : QualityConfig ℕ
config = record {
  profile = "size-first";
  profiles = some (λ name.
      if str_eq name "size-first"
      then some (record { movies = some custom_movies; tv = some custom_tv })
      else none);
}

override_of_480p :
    ((resolve_tv tenth (some config)).include_480p ≡ some true)
    × ((resolve_tv tenth (some config)).include_720p ≡ some false)
unfolding resolve_tv
override_of_480p = (refl, refl)

resolve_tv-lost_example :
    Keeps tenth (resolve_tv tenth (some config)) (default_profile_by_name_tv tenth "size-first")
resolve_tv-lost_example = resolve_tv-lost tenth config
