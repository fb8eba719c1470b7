-- ===== src/Quality/Resolved.antt =====
-- What a resolved profile holds, whatever the configuration.
use Prim.Native.String.{String}
use text.Mathlib.Text.{◌==◌ as str_eq}
use gostream.Prelude.{
  ℕ, ◌≡◌, refl, sym, subst, if_of_true, if_of_false, Bool, true, false, Bool-cases, Option-cases,
  inl, inr, ◌⊎◌, List, [], ◌∷◌, Option, none, some,
}
use gostream.Quality.{
  MovieProfile, TvProfile, default_quality_first_movies, default_size_first_movies,
}
use gostream.Quality.Resolver.{
  set_if_not_nil, set_if_not_empty, merge_movie_profile, merge_tv_profile, QualityConfig,
  default_profile_by_name, default_profile_by_name_tv, resolve_movies, resolve_tv,
}

abbrev pub is_set {ℓ} : {A : Type ℓ} → Option A → Bool
is_set none = false
is_set (some x) = true

abbrev pub is_filled {ℓ} : {A : Type ℓ} → List A → Bool
is_filled [] = false
is_filled (x ∷ xs) = true

-- Every field that both built-in profiles set.
pub record IsFullMovie {F : Type 0} (p : MovieProfile F) : Type 0 where
  pub include :
      (is_set p.include_4k ≡ true)
      × (is_set p.include_1080p ≡ true)
      × (is_set p.include_720p ≡ true)
  pub sizes : (is_filled p.size_floor_gb ≡ true) × (is_filled p.size_ceiling_gb ≡ true)
  pub seeders : is_set p.min_seeders ≡ true
  pub priorities : is_filled p.priority_order ≡ true
  pub video :
      (is_set p.score_weights.resolution_4k ≡ true)
      × (is_set p.score_weights.resolution_1080p ≡ true)
      × (is_set p.score_weights.dolby_vision ≡ true)
      × (is_set p.score_weights.hdr ≡ true)
      × (is_set p.score_weights.hdr10_plus ≡ true)
      × (is_set p.score_weights.bluray ≡ true)
      × (is_set p.score_weights.remux ≡ true)
  pub audio :
      (is_set p.score_weights.atmos ≡ true)
      × (is_set p.score_weights.audio_5_1 ≡ true)
      × (is_set p.score_weights.audio_stereo ≡ true)
      × (is_set p.score_weights.ita ≡ true)
  pub bonuses :
      (is_set p.score_weights.seeder_bonus ≡ true)
      × (is_set p.score_weights.seeder_threshold ≡ true)
      × (is_set p.score_weights.unknown_size_penalty ≡ true)

set-is_set {ℓ} :
    {A : Type ℓ} (d c : Option A) → is_set d ≡ true → is_set (set_if_not_nil d c) ≡ true
set-is_set d none h = h
set-is_set d (some x) h = refl

set-twice {ℓ} :
    {A : Type ℓ} (d c : Option A) → set_if_not_nil (set_if_not_nil d c) c ≡ set_if_not_nil d c
set-twice d none = refl
set-twice d (some x) = refl

set_filled-twice {ℓ} :
    {A : Type ℓ} (d c : List A) → set_if_not_empty (set_if_not_empty d c) c ≡ set_if_not_empty d c
set_filled-twice d [] = refl
set_filled-twice d (x ∷ xs) = refl

set-is_filled {ℓ} :
    {A : Type ℓ} (d c : List A) → is_filled d ≡ true → is_filled (set_if_not_empty d c) ≡ true
set-is_filled d [] h = h
set-is_filled d (x ∷ xs) h = refl

merge-IsFullMovie :
    {F : Type 0} (c d : MovieProfile F) → IsFullMovie d → IsFullMovie (merge_movie_profile c d)
unfolding merge_movie_profile
merge-IsFullMovie c d h = record {
  include = (set-is_set _ _ h.include.0, set-is_set _ _ h.include.1, set-is_set _ _ h.include.2);
  sizes = (set-is_filled _ _ h.sizes.0, set-is_filled _ _ h.sizes.1);
  seeders = set-is_set _ _ h.seeders;
  priorities = set-is_filled _ _ h.priorities;
  video = (
    set-is_set _ _ h.video.0,
    set-is_set _ _ h.video.1,
    set-is_set _ _ h.video.2,
    set-is_set _ _ h.video.3,
    set-is_set _ _ h.video.4,
    set-is_set _ _ h.video.5,
    set-is_set _ _ h.video.6,
  );
  audio = (
    set-is_set _ _ h.audio.0,
    set-is_set _ _ h.audio.1,
    set-is_set _ _ h.audio.2,
    set-is_set _ _ h.audio.3,
  );
  bonuses = (set-is_set _ _ h.bonuses.0, set-is_set _ _ h.bonuses.1, set-is_set _ _ h.bonuses.2);
}

module _ {F : Type 0} (tenths : ℕ → F) where
  default-IsFullMovie : (name : String) → IsFullMovie (default_profile_by_name tenths name)
  default-IsFullMovie name = elim (Bool-cases (str_eq name "size-first")) [
    | inl t ↦ subst IsFullMovie (sym (if_of_true _ _ t)) size_first
    | inr t ↦ subst IsFullMovie (sym (if_of_false _ _ t)) quality_first
  ]
    where
      size_first : IsFullMovie (default_size_first_movies tenths)
      size_first = record {
        include = (refl, refl, refl);
        sizes = (refl, refl);
        seeders = refl;
        priorities = refl;
        video = (refl, refl, refl, refl, refl, refl, refl);
        audio = (refl, refl, refl, refl);
        bonuses = (refl, refl, refl);
      }

      quality_first : IsFullMovie (default_quality_first_movies tenths)
      quality_first = record {
        include = (refl, refl, refl);
        sizes = (refl, refl);
        seeders = refl;
        priorities = refl;
        video = (refl, refl, refl, refl, refl, refl, refl);
        audio = (refl, refl, refl, refl);
        bonuses = (refl, refl, refl);
      }

  movies-cases :
      (qc : QualityConfig F)
      → (resolve_movies tenths (some qc) ≡ default_profile_by_name tenths qc.profile)
        ⊎ ((c : MovieProfile F) × (resolve_movies tenths (some qc)
              ≡ merge_movie_profile c (default_profile_by_name tenths qc.profile)))
  unfolding resolve_movies
  movies-cases qc = elim (Option-cases qc.profiles) [
    | inl e ↦ inl (rw e refl)
    | inr (ps, e) ↦ elim (Option-cases (ps qc.profile)) [
      | inl k ↦ inl (rw e (rw k refl))
      | inr (s, k) ↦ elim (Option-cases s.movies) [
        | inl j ↦ inl (rw e (rw k (rw j refl)))
        | inr (c, j) ↦ inr (c, rw e (rw k (rw j refl)))
      ]
    ]
  ]

  -- Whatever is configured, or not: the resolved movie profile has every field that both built-in
  -- profiles set, so none of these pointers is nil and neither sizes nor priorities are missing.
  resolve_movies-IsFullMovie :
      (qc : Option (QualityConfig F)) → IsFullMovie (resolve_movies tenths qc)
  unfolding resolve_movies
  resolve_movies-IsFullMovie none = default-IsFullMovie ""
  resolve_movies-IsFullMovie (some qc) = elim (movies-cases qc) [
    | inl e ↦ subst IsFullMovie (sym e) (default-IsFullMovie qc.profile)
    | inr (c, e) ↦ subst IsFullMovie (sym e) (
        merge-IsFullMovie c (default_profile_by_name tenths qc.profile)
          (default-IsFullMovie qc.profile))
  ]

  abbrev pub Keeps : TvProfile F → TvProfile F → Type 0
  Keeps p def =
      (p.include_480p ≡ def.include_480p)
      × (p.score_weights.resolution_480p ≡ def.score_weights.resolution_480p)
      × (p.score_weights.size_bonus_per_gb_under ≡ def.score_weights.size_bonus_per_gb_under)

  tv-cases :
      (qc : QualityConfig F)
      → (resolve_tv tenths (some qc) ≡ default_profile_by_name_tv tenths qc.profile)
        ⊎ ((c : TvProfile F) × (resolve_tv tenths (some qc)
              ≡ merge_tv_profile c (default_profile_by_name_tv tenths qc.profile)))
  unfolding resolve_tv
  tv-cases qc = elim (Option-cases qc.profiles) [
    | inl e ↦ inl (rw e refl)
    | inr (ps, e) ↦ elim (Option-cases (ps qc.profile)) [
      | inl k ↦ inl (rw e (rw k refl))
      | inr (s, k) ↦ elim (Option-cases s.tv) [
        | inl j ↦ inl (rw e (rw k (rw j refl)))
        | inr (c, j) ↦ inr (c, rw e (rw k (rw j refl)))
      ]
    ]
  ]

  -- The fields of a TV profile that no override reaches keep the values of the built-in profile with the
  -- configured name: whether 480p is included, the weight of 480p, and the bonus for small sizes.
  pub resolve_tv-lost :
      (qc : QualityConfig F)
      → Keeps (resolve_tv tenths (some qc)) (default_profile_by_name_tv tenths qc.profile)
  unfolding merge_tv_profile
  resolve_tv-lost qc = elim (tv-cases qc) [
    | inl e ↦
        subst (λ p. Keeps p (default_profile_by_name_tv tenths qc.profile)) (sym e)
          (refl, refl, refl)
    | inr (c, e) ↦
        subst (λ p. Keeps p (default_profile_by_name_tv tenths qc.profile)) (sym e)
          (refl, refl, refl)
  ]

-- Overrides that are applied twice give what they give once.
merge_movie_profile-twice :
    {F : Type 0} (custom def : MovieProfile F)
    → merge_movie_profile custom (merge_movie_profile custom def) ≡ merge_movie_profile custom def
unfolding merge_movie_profile
merge_movie_profile-twice custom def = λ i. record def {
  include_4k = set-twice def.include_4k custom.include_4k i;
  include_1080p = set-twice def.include_1080p custom.include_1080p i;
  include_720p = set-twice def.include_720p custom.include_720p i;
  min_seeders = set-twice def.min_seeders custom.min_seeders i;
  fallback_4k_min_seeders = set-twice def.fallback_4k_min_seeders custom.fallback_4k_min_seeders i;
  size_floor_gb = set_filled-twice def.size_floor_gb custom.size_floor_gb i;
  size_ceiling_gb = set_filled-twice def.size_ceiling_gb custom.size_ceiling_gb i;
  priority_order = set_filled-twice def.priority_order custom.priority_order i;
  score_weights = record def.score_weights {
    resolution_4k = set-twice def.score_weights.resolution_4k custom.score_weights.resolution_4k i;
    resolution_1080p =
        set-twice def.score_weights.resolution_1080p custom.score_weights.resolution_1080p i;
    resolution_720p =
        set-twice def.score_weights.resolution_720p custom.score_weights.resolution_720p i;
    dolby_vision = set-twice def.score_weights.dolby_vision custom.score_weights.dolby_vision i;
    hdr = set-twice def.score_weights.hdr custom.score_weights.hdr i;
    hdr10_plus = set-twice def.score_weights.hdr10_plus custom.score_weights.hdr10_plus i;
    atmos = set-twice def.score_weights.atmos custom.score_weights.atmos i;
    audio_5_1 = set-twice def.score_weights.audio_5_1 custom.score_weights.audio_5_1 i;
    audio_stereo = set-twice def.score_weights.audio_stereo custom.score_weights.audio_stereo i;
    bluray = set-twice def.score_weights.bluray custom.score_weights.bluray i;
    remux = set-twice def.score_weights.remux custom.score_weights.remux i;
    ita = set-twice def.score_weights.ita custom.score_weights.ita i;
    seeder_bonus = set-twice def.score_weights.seeder_bonus custom.score_weights.seeder_bonus i;
    seeder_threshold =
        set-twice def.score_weights.seeder_threshold custom.score_weights.seeder_threshold i;
    unknown_size_penalty =
        set-twice def.score_weights.unknown_size_penalty custom.score_weights.unknown_size_penalty
          i;
  };
}
