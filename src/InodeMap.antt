-- ===== src/InodeMap.antt =====
-- inodemap.go: the inodes of the library's files and directories, by what they stand for.
--
-- A key of a map decides its shard, so the maps of the 32 shards are one. The key "infohash:index" is the two
-- of them. xxHash, `strings.ToLower` and `filepath.Base` are parameters.
pub mod Entries
pub mod Exact
pub mod Lost
mod Tests
use Prim.Native.String.{String}
use text.Mathlib.Text.{◌==◌ as str_eq}
use gostream.Prelude.{
  ℕ, suc, ◌+◌, ◌%◌, ◌^◌, ◌==◌, if◌then◌else◌, Bool, true, false, not, ◌&&◌, ◌||◌, List, [], ◌∷◌,
  length, Option, none, some,
}

pub record Library : Type 0 where
  pub lower : String → String
  pub base : String → String
  -- the hash of "infohash:index", and of another text
  pub sum_key : String → ℕ → ℕ
  pub sum_text : String → ℕ

pub record FileKey : Type 0 where
  pub infohash : String
  pub index : ℕ

abbrev pub same_key : FileKey → FileKey → Bool
same_key k j = str_eq k.infohash j.infohash && k.index == j.index

pub record InodeMap : Type 0 where
  pub file_map : FileKey → Option ℕ
  pub dir_map : String → Option ℕ
  pub name_map : List (String × FileKey)
  pub fast_file_map : String → Option ℕ
  pub dirty : Bool
  pub hits : ℕ
  pub misses : ℕ

abbrev pub inode_root : ℕ
inode_root = 1

abbrev pub set_text {ℓ} : {A : Type ℓ} → (String → Option A) → String → Option A → String → Option A
set_text m k v j = if str_eq j k then v else m j

abbrev pub set_key : (FileKey → Option ℕ) → FileKey → Option ℕ → FileKey → Option ℕ
set_key m k v j = if same_key j k then v else m j

abbrev pub name_of : List (String × FileKey) → String → Option FileKey
name_of [] path = none
name_of ((p, k) ∷ names) path = if str_eq p path then some k else name_of names path

unfoldable pub delete_name : List (String × FileKey) → String → List (String × FileKey)
delete_name [] path = []
delete_name ((p, k) ∷ names) path =
    let rest = delete_name names path in if str_eq p path then rest else (p, k) ∷ rest

unfoldable pub new_inode_map : InodeMap
new_inode_map = record {
  file_map = λ k. none;
  dir_map = λ p. if str_eq p "/" then some inode_root else none;
  name_map = [];
  fast_file_map = λ p. none;
  dirty = false;
  hits = 0;
  misses = 0;
}

abbrev pub found : InodeMap → Option ℕ → ℕ × InodeMap
found m none = (0, record m { misses = suc m.misses })
found m (some inode) = (inode, record m { hits = suc m.hits })

abbrev pub file_of_name : InodeMap → Option FileKey → Option ℕ
file_of_name m none = none
file_of_name m (some key) = m.file_map key

unfoldable pub get_file_inode : InodeMap → String → ℕ × InodeMap
get_file_inode m path = found m (file_of_name m (name_of m.name_map path))

unfoldable pub get_file_inode_by_name : InodeMap → String → ℕ × InodeMap
get_file_inode_by_name m filename = found m (m.fast_file_map filename)

abbrev pub or_zero : Option ℕ → ℕ
or_zero none = 0
or_zero (some n) = n

-- The name goes if it stands for the inode that is removed.
abbrev pub drop_fast : (String → Option ℕ) → String → ℕ → String → Option ℕ
drop_fast fast name target = elim (fast name) [
  | none ↦ fast
  | some inode ↦ if inode == target then set_text fast name none else fast
]

abbrev pub missing_names : (String → Bool) → List (String × FileKey) → List String
missing_names is_found [] = []
missing_names is_found ((p, k) ∷ names) =
    let rest = missing_names is_found names in if is_found p then rest else p ∷ rest

pub data InodeCall : Type 0 where
  adds_file : String → String → ℕ → InodeCall
  asks_dir : String → InodeCall
  asks_file : String → InodeCall
  removes_file : String → InodeCall
  prunes : (String → Bool) → InodeCall

module _ (l : Library) where
  abbrev pub key_of : String → ℕ → FileKey
  key_of infohash index = record { infohash = l.lower infohash; index = index }

  -- The upper bit is that of directories.
  abbrev pub inode_of : FileKey → ℕ
  inode_of k = l.sum_key k.infohash k.index % 2 ^ 63

  abbrev pub generate_file_inode : String → ℕ → ℕ
  generate_file_inode infohash index = inode_of (key_of infohash index)

  unfoldable pub generate_dir_inode : String → ℕ
  generate_dir_inode path =
      if str_eq path "/" || str_eq path "" then inode_root else 2 ^ 63 + l.sum_text path % 2 ^ 63

  unfoldable pub add_file : InodeMap → String → String → ℕ → ℕ × InodeMap
  unfolding delete_name
  add_file m path infohash index =
      let key = key_of infohash index in
      let added = record m {
        name_map = (path, key) ∷ delete_name m.name_map path;
        file_map = set_key m.file_map key (some (inode_of key));
        fast_file_map = set_text m.fast_file_map (l.base path) (some (inode_of key));
        dirty = true;
      } in
      if str_eq infohash "" then (0, m) else elim (name_of m.name_map path) [
        | none ↦ (inode_of key, added)
        | some existing ↦ if same_key existing key then (inode_of key, m) else (inode_of key, added)
      ]

  unfoldable pub add_dir : InodeMap → String → ℕ × InodeMap
  unfolding generate_dir_inode
  add_dir m path = elim (m.dir_map path) [
    | some inode ↦ (generate_dir_inode path, m)
    | none ↦ (
      generate_dir_inode path,
      record m { dir_map = set_text m.dir_map path (some (generate_dir_inode path)); dirty = true },
    )
  ]

  unfoldable pub get_dir_inode : InodeMap → String → ℕ × InodeMap
  unfolding add_dir
  get_dir_inode m path =
      if str_eq path "/" || str_eq path ""
      then (inode_root, m)
      else elim (m.dir_map path) [ some inode ↦ (inode, m) | none ↦ add_dir m path ]

  -- The inode that a file is shown with. That of a name alone is the last resort.
  unfoldable pub get_file_inode_from_map : InodeMap → String → ℕ × InodeMap
  unfolding get_file_inode get_file_inode_by_name
  get_file_inode_from_map m path =
      let (inode, m1) = get_file_inode m path in
      let (named, m2) = get_file_inode_by_name m1 (l.base path) in
      if not (inode == 0)
      then (inode, m1)
      else if not (named == 0)
      then (named, m2)
      else (l.sum_text (l.base path) % 2 ^ 63, m2)

  unfoldable pub remove_file : InodeMap → String → InodeMap
  unfolding delete_name
  remove_file m path = elim (name_of m.name_map path) [
    | none ↦ m
    | some key ↦ record m {
      name_map = delete_name m.name_map path;
      file_map = set_key m.file_map key none;
      fast_file_map = drop_fast m.fast_file_map (l.base path) (or_zero (m.file_map key));
      dirty = true;
    }
  ]

  unfoldable pub remove_files : InodeMap → List String → InodeMap
  unfolding remove_file
  remove_files m [] = m
  remove_files m (p ∷ ps) = remove_files (remove_file m p) ps

  -- How many names went, and the map.
  unfoldable pub prune_missing : InodeMap → (String → Bool) → ℕ × InodeMap
  unfolding remove_files
  prune_missing m is_found =
      let gone = missing_names is_found m.name_map in (length gone, remove_files m gone)

  unfoldable pub call_inode : InodeMap → InodeCall → InodeMap
  unfolding add_file get_dir_inode get_file_inode_from_map remove_file prune_missing
  call_inode m (adds_file path infohash index) = (add_file m path infohash index).1
  call_inode m (asks_dir path) = (get_dir_inode m path).1
  call_inode m (asks_file path) = (get_file_inode_from_map m path).1
  call_inode m (removes_file path) = remove_file m path
  call_inode m (prunes is_found) = (prune_missing m is_found).1

  unfoldable pub run_inodes : InodeMap → List InodeCall → InodeMap
  unfolding call_inode
  run_inodes m [] = m
  run_inodes m (x ∷ xs) = run_inodes (call_inode m x) xs
