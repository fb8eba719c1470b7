-- ===== src/DiskWarmup/Written.antt =====
-- A chunk that is written is found again.
use Prim.Native.String.{String}
use Prim.Native.Nat.{min}
use gostream.Prelude.{
  ℕ, ◌+◌, ◌-◌, ◌≤◌, ◌<◌, ltb, leb, if_holds, Bool-cases, Option-cases, true, false, ◌≡◌, refl, sym,
  ap, ◌∙◌, List, length, take, drop, some, inl, inr, arith,
}
use gostream.Torrstor.Piece.Bytes.{take_all}
use gostream.DiskWarmup.Disk.{
  WarmupPath, file_path, file_of, write_file, write_bytes, set_at, is_set,
}
use gostream.DiskWarmup.{DiskWarmupCache, WarmupConfig, Io, get_handle}
use gostream.DiskWarmup.HeadFile.{
  check_complete, start_head, write_head, trim_head, process_write, get_available_range, read_at,
}
use gostream.DiskWarmup.Paths.{path_eq_refl, written, file_of-write_self}
use gostream.DiskWarmup.Moves.{has_file, is_open}
use gostream.DiskWarmup.Stored.{bytes_of, bytes_of-none, bytes_of-some}
use gostream.DiskWarmup.Sound.{IsSound}

-- A file with these bytes, which the tables know of.
pub record Holds (d : DiskWarmupCache) (p : WarmupPath) (bytes : List ℕ) (size now : ℕ)
    : Type 0 where
  pub file : file_of d.files p ≡ some bytes
  pub sized : d.size_cache p ≡ some (record { size = size; updated_at = now })
  pub found : is_set (d.missing p) ≡ false
  pub opened : is_set (d.handles p) ≡ true

pub get_handle_opens :
    (now : ℕ) (d : DiskWarmupCache) (p : WarmupPath)
    → is_open d p ≡ true
    → get_handle now d p ≡ some (record d { handles = set_at d.handles p (some now) })
unfolding get_handle
get_handle_opens now d p h = elim (Option-cases (d.handles p)) [
  | inr (used, e) ↦ rw (e, get_handle) refl
  | inl e ↦ elim (Option-cases (file_of d.files p)) [
    | inl g ↦ absurd (ground (arith, h, e, g))
    | inr (bytes, g) ↦ rw (e, get_handle, g) refl
  ]
]

pub write_head-Holds :
    (io : Io) (now : ℕ) (d : DiskWarmupCache) (p : WarmupPath) (part : List ℕ) (off : ℕ)
    (old : List ℕ)
    → is_open d p ≡ true
    → file_of d.files p ≡ some old
    → is_set (d.missing p) ≡ false
    → length part ≤ io.room
    → Holds (write_head io now d p part off) p (write_bytes old off part) (off + length part) now
unfolding write_head
write_head-Holds io now d p part off old o f m r =
    let handle = get_handle_opens now d p o in
    let all : min io.room (length part) ≡ length part = omega arith in
    let enough : ltb (length part) (length part) ≡ false = ground arith in
    let self = path_eq_refl p in
    let bytes : file_of (write_file d.files p off part now) p ≡ some (write_bytes old off part) =
      file_of-write_self d.files p off part now ∙ ap (λ x. written x off part) f in
    rw (handle, write_head, all, enough, take_all part)
      (record { file = bytes; sized = rw self refl; found = m; opened = rw self refl })

check_complete_goes_on :
    (c : WarmupConfig) (now : ℕ) (d : DiskWarmupCache) (p : WarmupPath)
    → (check_complete c now d p).0 ≡ false
    → (check_complete c now d p).1 ≡ d
unfolding check_complete
check_complete_goes_on c now d p = elim (Option-cases (d.size_cache p)) [
  | inr (x, e) ↦ rw (e, check_complete) (λ h. refl)
  | inl e ↦ elim (Option-cases (file_of d.files p)) [
    | inl g ↦ rw (e, check_complete, g) (λ h. refl)
    | inr (bytes, g) ↦ elim (Bool-cases (ltb c.warmup_file_size (length bytes))) [
      | inl t ↦ rw (e, check_complete, g, t) (λ h. absurd cc)
      | inr t ↦ rw (e, check_complete, g, t) (λ h. refl)
    ]
  ]
]

trim_head_fits :
    (c : WarmupConfig) (part : List ℕ) (off : ℕ)
    → off + length part ≤ c.warmup_file_size
    → trim_head c part off ≡ part
trim_head_fits c part off h =
    let inside : ltb c.warmup_file_size (off + length part) ≡ false = ground arith in
    rw inside (if_holds (λ xs. xs ≡ part) (ltb off c.warmup_file_size) part part refl refl)

start_head_goes_on :
    (c : WarmupConfig) (io : Io) (now : ℕ) (d : DiskWarmupCache) (p : WarmupPath)
    → IsSound d
    → io.can_create ≡ true
    → ((start_head c io now d p).0 ≡ true)
      × (file_of (start_head c io now d p).1.files p ≡ some (bytes_of d p))
      × (is_set ((start_head c io now d p).1.missing p) ≡ false)
      × (is_open (start_head c io now d p).1 p ≡ true)
unfolding start_head file_of
start_head_goes_on c io now d p sound creates = elim (Option-cases (file_of d.files p)) [
  | inr (bytes, e) ↦
      let told = sound p in
      let there : has_file d p ≡ true = rw e refl in
      let found : is_set (d.missing p) ≡ false = ground (arith, told, there) in
      rw (e, start_head)
        (refl, e ∙ ap some (sym (bytes_of-some d p bytes e)), found, ground (arith, there))
  | inl e ↦
      let self = path_eq_refl p in
      rw (e, start_head, creates, bytes_of-none d p e)
        (refl, rw (file_of, self) refl, rw self refl, rw (self, file_of) refl)
]

-- What a write of a chunk that lies in the head leaves, if the head is not full and the disk has room.
pub process_write-Holds :
    (c : WarmupConfig) (io : Io) (now : ℕ) (d : DiskWarmupCache) (hash : String) (id : ℕ)
    (part : List ℕ) (off : ℕ)
    → off + length part ≤ c.warmup_file_size
    → (check_complete c now d (file_path hash id)).0 ≡ false
    → IsSound d
    → io.can_create ≡ true
    → length part ≤ io.room
    → Holds
        (process_write c io now d hash id part off)
        (file_path hash id)
        (write_bytes (bytes_of d (file_path hash id)) off part)
        (off + length part)
        now
unfolding process_write
process_write-Holds c io now d hash id part off fits open_head sound creates room =
    let p = file_path hash id in
    let near : ltb c.warmup_file_size off ≡ false = ground (arith, fits) in
    let (goes, file, found, opened) = start_head_goes_on c io now d p sound creates in
    rw
      (
        near,
        process_write,
        open_head,
        check_complete_goes_on c now d p open_head,
        goes,
        trim_head_fits c part off fits,
      )
      (write_head-Holds io now (start_head c io now d p).1 p part off (bytes_of d p) opened file
        found room)

-- What a read gives of it.
pub read_at-Holds :
    (c : WarmupConfig) (later : ℕ) (d : DiskWarmupCache) (hash : String) (id : ℕ) (bytes : List ℕ)
    (size t n off : ℕ)
    → Holds d (file_path hash id) bytes size t
    → later - t < 10_000_000_000
    → off ≤ c.warmup_file_size
    → off < size
    → (read_at c later d hash id n off).0 ≡ take (min n (size - off)) (drop off bytes)
unfolding read_at get_available_range
read_at-Holds c later d hash id bytes size t n off h soon near less =
    let p = file_path hash id in
    let handle = get_handle_opens later d p (ground (arith, h.opened)) in
    let inside : ltb c.warmup_file_size off ≡ false = ground arith in
    let fresh : ltb (later - t) 10_000_000_000 ≡ true = ground arith in
    let there : leb size off ≡ false = ground arith in
    rw (inside, read_at, handle, get_available_range, h.found, h.sized, fresh, there, h.file) refl
