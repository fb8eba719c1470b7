-- ===== src/DiskWarmup/Disk.antt =====
-- disk_warmup.go: the files of the cache's directory, and the tables that have a path as their key.
--
-- A path is made of the hash, the number of the file and the suffix, and `Itoa` writes no dash, so
-- that it is the three of them. A file is its bytes and the time of its last write, in seconds.
use Prim.Native.String.{String}
use text.Mathlib.Text.{◌==◌ as str_eq}
use gostream.Prelude.{
  ℕ, ◌+◌, ◌-◌, ◌/◌, ◌==◌, leb, if◌then◌else◌, Bool, true, false, not, ◌&&◌, List, [], ◌∷◌, ◌++◌,
  length, take, drop, replicate, Option, none, some, ℤ, pos, negsuc, sub_int,
}

pub record WarmupPath : Type 0 where
  pub hash : String
  pub file_id : ℕ
  pub is_tail : Bool

unfoldable pub path_eq : WarmupPath → WarmupPath → Bool
path_eq p q =
    str_eq p.hash q.hash
    && (p.file_id == q.file_id && (if p.is_tail then q.is_tail else not q.is_tail))

abbrev pub file_path : String → ℕ → WarmupPath
file_path hash file_id = record { hash = hash; file_id = file_id; is_tail = false }

abbrev pub tail_path : String → ℕ → WarmupPath
tail_path hash file_id = record { hash = hash; file_id = file_id; is_tail = true }

pub record WarmupFile : Type 0 where
  pub path : WarmupPath
  pub bytes : List ℕ
  pub mod_time : ℕ

unfoldable pub file_of : List WarmupFile → WarmupPath → Option (List ℕ)
file_of [] p = none
file_of (f ∷ fs) p = if path_eq f.path p then some f.bytes else file_of fs p

unfoldable pub remove_file : List WarmupFile → WarmupPath → List WarmupFile
remove_file [] p = []
remove_file (f ∷ fs) p = let rest = remove_file fs p in if path_eq f.path p then rest else f ∷ rest

-- A file that is written behind its end is filled up with zeros. Writing nothing changes nothing.
unfoldable pub write_bytes : List ℕ → ℕ → List ℕ → List ℕ
write_bytes old off [] = old
write_bytes old off (x ∷ xs) =
    take off (old ++ replicate (off - length old) 0)
    ++ ((x ∷ xs) ++ drop (off + length (x ∷ xs)) old)

unfoldable pub write_file : List WarmupFile → WarmupPath → ℕ → List ℕ → ℕ → List WarmupFile
unfolding write_bytes
write_file [] p off part now = []
write_file (f ∷ fs) p off part now =
    let rest = write_file fs p off part now in
    if path_eq f.path p
    then record f {
      bytes = write_bytes f.bytes off part;
      mod_time = if length part == 0 then f.mod_time else now / 1_000_000_000;
    }
      ∷ fs
    else f ∷ rest

-- What `ReadAt` gives for a buffer of `size` bytes.
abbrev pub read_bytes : Option (List ℕ) → ℕ → ℕ → List ℕ
read_bytes none off size = []
read_bytes (some bytes) off size = take size (drop off bytes)

abbrev pub total_bytes : List WarmupFile → ℕ
total_bytes [] = 0
total_bytes (f ∷ fs) = length f.bytes + total_bytes fs

-- The tables.
abbrev pub set_at {ℓ} :
    {A : Type ℓ} → (WarmupPath → Option A) → WarmupPath → Option A → WarmupPath → Option A
set_at m p v q = if path_eq q p then v else m q

abbrev pub is_set {ℓ} : {A : Type ℓ} → Option A → Bool
is_set none = false
is_set (some a) = true

-- An `int64` that counts up and down.
abbrev pub add_int : ℤ → ℕ → ℤ
add_int (pos a) n = pos (a + n)
add_int (negsuc a) n = sub_int n (a + 1)

abbrev pub less_by : ℤ → ℕ → ℤ
less_by (pos a) n = sub_int a n
less_by (negsuc a) n = negsuc (a + n)

abbrev pub is_within : ℤ → ℕ → Bool
is_within (pos a) n = leb a n
is_within (negsuc a) n = true
