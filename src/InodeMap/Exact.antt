-- ===== src/InodeMap/Exact.antt =====
-- What the maps hold follows from the keys and the paths alone.
use Prim.Native.String.{String}
use text.Mathlib.Text.{◌==◌ as str_eq}
use mathlib.Core.Option.{some-injective}
use gostream.Prelude.{
  false, ◌+◌, ℕ, ◌%◌, ◌^◌, ◌<◌, ◌==◌, ◌≡◌, refl, sym, ap, ◌∙◌, if_holds, Bool-cases, Option-cases,
  true, not, ◌||◌, List, [], ◌∷◌, Option, none, some, inl, inr, arith,
}
use gostream.InodeMap.{
  Library, FileKey, same_key, InodeMap, set_text, set_key, name_of, delete_name, new_inode_map,
  inode_of, inode_root, key_of, generate_dir_inode, add_file, add_dir, get_dir_inode, found,
  file_of_name, get_file_inode, get_file_inode_by_name, get_file_inode_from_map, or_zero,
  remove_file, remove_files, missing_names, prune_missing, InodeCall, adds_file, asks_dir,
  asks_file, removes_file, prunes, call_inode, run_inodes,
}
use gostream.InodeMap.Entries.{same_key_sound, set_text-All, drop_fast-All}

module _ (l : Library) where
  pub record IsExact (m : InodeMap) : Type 0 where
    pub files : (k : FileKey) (n : ℕ) → m.file_map k ≡ some n → n ≡ inode_of l k
    pub dirs : (p : String) (n : ℕ) → m.dir_map p ≡ some n → n ≡ generate_dir_inode l p
    pub fast : (p : String) (n : ℕ) → m.fast_file_map p ≡ some n → n < 2 ^ 63

  set_key-all :
      (m : FileKey → Option ℕ) (k : FileKey)
      → ((j : FileKey) (n : ℕ) → m j ≡ some n → n ≡ inode_of l j)
      → (j : FileKey) (n : ℕ) → set_key m k (some (inode_of l k)) j ≡ some n
      → n ≡ inode_of l j
  set_key-all m k h j n = elim (Bool-cases (same_key j k)) [
    | inl t ↦ rw t (λ e.
        sym (some-injective (inode_of l k) n e) ∙ ap (inode_of l) (sym (same_key_sound j k t)))
    | inr t ↦ rw t (h j n)
  ]

  set_key-gone :
      (m : FileKey → Option ℕ) (k j : FileKey) (n : ℕ) → set_key m k none j ≡ some n → m j ≡ some n
  set_key-gone m k j n = elim (Bool-cases (same_key j k)) [
    | inl t ↦ rw t (λ e. absurd cc)
    | inr t ↦ rw t (λ e. e)
  ]

  add_file-IsExact :
      (m : InodeMap) (path infohash : String) (index : ℕ)
      → IsExact m
      → IsExact (add_file l m path infohash index).1
  unfolding add_file
  add_file-IsExact m path infohash index h =
      let key = key_of l infohash index in
      let added : InodeMap = record m {
        name_map = (path, key) ∷ delete_name m.name_map path;
        file_map = set_key m.file_map key (some (inode_of l key));
        fast_file_map = set_text m.fast_file_map (l.base path) (some (inode_of l key));
        dirty = true;
      } in
      let good : IsExact added = record {
        files = set_key-all m.file_map key h.files;
        dirs = h.dirs;
        fast =
            set_text-All (λ p n. n < 2 ^ 63) m.fast_file_map h.fast (l.base path) (inode_of l key)
              (omega arith);
      } in
      if_holds (λ (r : ℕ × InodeMap). IsExact r.1) (str_eq infohash "") (0, m) _ h
        (elim (Option-cases (name_of m.name_map path)) [
          | inl e ↦ rw e good
          | inr (existing, e) ↦ rw e (
              if_holds (λ (r : ℕ × InodeMap). IsExact r.1) (same_key existing key)
                (inode_of l key, m) (inode_of l key, added) h good)
        ])

  add_dir-IsExact :
      (m : InodeMap) (path : String)
      → IsExact m
      → IsExact (add_dir l m path).1 × ((add_dir l m path).0 ≡ generate_dir_inode l path)
  unfolding add_dir
  add_dir-IsExact m path h = elim (Option-cases (m.dir_map path)) [
    | inr (inode, e) ↦ rw (e, add_dir) (h, refl)
    | inl e ↦
        rw (e, add_dir)
          (
            record {
              files = h.files;
              dirs =
                  set_text-All (λ p n. n ≡ generate_dir_inode l p) m.dir_map h.dirs path
                    (generate_dir_inode l path) refl;
              fast = h.fast;
            },
            refl,
          )
  ]

  plain_inode :
      (path : String)
      → (str_eq path "/" || str_eq path "") ≡ false
      → generate_dir_inode l path ≡ 2 ^ 63 + l.sum_text path % 2 ^ 63
  unfolding generate_dir_inode
  plain_inode path t = rw (t, generate_dir_inode) refl

  root_inode :
      (path : String)
      → (str_eq path "/" || str_eq path "") ≡ true
      → inode_root ≡ generate_dir_inode l path
  unfolding generate_dir_inode
  root_inode path t = rw (t, generate_dir_inode) refl

  get_dir_inode-IsExact :
      (m : InodeMap) (path : String)
      → IsExact m
      → IsExact (get_dir_inode l m path).1
        × ((get_dir_inode l m path).0 ≡ generate_dir_inode l path)
  unfolding get_dir_inode
  get_dir_inode-IsExact m path h = elim (Bool-cases (str_eq path "/" || str_eq path "")) [
    | inl t ↦ rw (t, get_dir_inode) (h, refl)
    | inr t ↦
        let value : generate_dir_inode l path ≡ 2 ^ 63 + l.sum_text path % 2 ^ 63 =
          plain_inode path t in
        elim (Option-cases (m.dir_map path)) [
          | inl e ↦
              let (kept, made) = add_dir-IsExact m path h in
              rw (t, get_dir_inode, e) (kept, made ∙ value)
          | inr (inode, e) ↦ rw (t, get_dir_inode, e) (h, h.dirs path inode e ∙ value)
        ]
  ]

  found-IsExact :
      (m : InodeMap) (o : Option ℕ)
      → IsExact m
      → ((n : ℕ) → o ≡ some n → n < 2 ^ 63)
      → IsExact (found m o).1 × ((found m o).0 < 2 ^ 63)
  found-IsExact m none h k = (record { files = h.files; dirs = h.dirs; fast = h.fast }, omega arith)
  found-IsExact m (some inode) h k =
      (record { files = h.files; dirs = h.dirs; fast = h.fast }, k inode refl)

  file_of_name-below :
      (m : InodeMap) (o : Option FileKey) (n : ℕ)
      → IsExact m
      → file_of_name m o ≡ some n
      → n < 2 ^ 63
  file_of_name-below m none n h e = absurd cc
  file_of_name-below m (some key) n h e = let right = h.files key n e in omega (arith, right)

  get_file_inode_from_map-IsExact :
      (m : InodeMap) (path : String)
      → IsExact m
      → IsExact (get_file_inode_from_map l m path).1
        × ((get_file_inode_from_map l m path).0 < 2 ^ 63)
  unfolding get_file_inode_from_map get_file_inode get_file_inode_by_name
  get_file_inode_from_map-IsExact m path h =
      let o = file_of_name m (name_of m.name_map path) in
      let first =
        found-IsExact m o h (λ n e. file_of_name-below m (name_of m.name_map path) n h e) in
      let m1 = (found m o).1 in
      let second =
        found-IsExact m1 (m1.fast_file_map (l.base path)) first.0 (first.0.fast (l.base path)) in
      let m2 = (found m1 (m1.fast_file_map (l.base path))).1 in
      let Good = λ (r : ℕ × InodeMap). IsExact r.1 × (r.0 < 2 ^ 63) in
      if_holds Good (not ((found m o).0 == 0)) ((found m o).0, m1) _ first
        (if_holds Good (not ((found m1 (m1.fast_file_map (l.base path))).0 == 0)) (_, m2)
          (l.sum_text (l.base path) % 2 ^ 63, m2) second (second.0, omega arith))

  remove_file-IsExact : (m : InodeMap) (path : String) → IsExact m → IsExact (remove_file l m path)
  unfolding remove_file
  remove_file-IsExact m path h = elim (Option-cases (name_of m.name_map path)) [
    | inl e ↦ rw (e, remove_file) h
    | inr (key, e) ↦
        rw (e, remove_file)
          (record {
            files = λ k n t. h.files k n (set_key-gone m.file_map key k n t);
            dirs = h.dirs;
            fast =
                drop_fast-All (λ p n. n < 2 ^ 63) m.fast_file_map h.fast (l.base path)
                  (or_zero (m.file_map key));
          })
  ]

  remove_files-IsExact :
      (m : InodeMap) (ps : List String) → IsExact m → IsExact (remove_files l m ps)
  unfolding remove_files
  remove_files-IsExact m [] h = h
  remove_files-IsExact m (p ∷ ps) h =
      remove_files-IsExact (remove_file l m p) ps (remove_file-IsExact m p h)

  call_inode-IsExact : (m : InodeMap) (x : InodeCall) → IsExact m → IsExact (call_inode l m x)
  unfolding call_inode prune_missing
  call_inode-IsExact m (adds_file path infohash index) h = add_file-IsExact m path infohash index h
  call_inode-IsExact m (asks_dir path) h = (get_dir_inode-IsExact m path h).0
  call_inode-IsExact m (asks_file path) h = (get_file_inode_from_map-IsExact m path h).0
  call_inode-IsExact m (removes_file path) h = remove_file-IsExact m path h
  call_inode-IsExact m (prunes is_found) h =
      remove_files-IsExact m (missing_names is_found m.name_map) h

  run_inodes-IsExact :
      (m : InodeMap) (xs : List InodeCall) → IsExact m → IsExact (run_inodes l m xs)
  unfolding run_inodes
  run_inodes-IsExact m [] h = h
  run_inodes-IsExact m (x ∷ xs) h =
      run_inodes-IsExact (call_inode l m x) xs (call_inode-IsExact m x h)

  new-IsExact : IsExact new_inode_map
  unfolding new_inode_map
  new-IsExact = record {
    files = λ k n e. absurd cc;
    dirs = λ p n. elim (Bool-cases (str_eq p "/")) [
      | inl t ↦
          let root : (str_eq p "/" || str_eq p "") ≡ true = rw t refl in
          rw t (λ e. sym (some-injective inode_root n e) ∙ root_inode p root)
      | inr t ↦ rw t (λ e. absurd cc)
    ];
    fast = λ p n e. absurd cc;
  }

-- After any calls from the new map on, the inode of a directory is the one that its path alone gives, and that
-- with which a file is shown is below 2 ^ 63.
pub inodes-run_inodes :
    (l : Library) (xs : List InodeCall) (dir file : String)
    → ((get_dir_inode l (run_inodes l new_inode_map xs) dir).0 ≡ generate_dir_inode l dir)
      × ((get_file_inode_from_map l (run_inodes l new_inode_map xs) file).0 < 2 ^ 63)
inodes-run_inodes l xs dir file =
    let h = run_inodes-IsExact l new_inode_map xs (new-IsExact l) in
    (
      (get_dir_inode-IsExact l (run_inodes l new_inode_map xs) dir h).1,
      (get_file_inode_from_map-IsExact l (run_inodes l new_inode_map xs) file h).1,
    )
