-- ===== src/InodeMap/Lost.antt =====
-- Two paths of one file of a torrent: when one of them goes, the inode of the other is lost.
use Prim.Native.String.{String}
use text.Mathlib.Text.{◌==◌ as str_eq}
use text.Mathlib.TextEquality.{eq_iff}
use gostream.Prelude.{
  ℕ, ◌%◌, ◌^◌, ◌==◌, ◌≡◌, refl, sym, ap, subst, ◌∙◌, Bool-cases, true, false, List, [], ◌∷◌, Option,
  none, some, inl, inr, arith,
}
use gostream.InodeMap.{
  Library, FileKey, same_key, InodeMap, set_key, name_of, delete_name, inode_of, key_of, add_file,
  get_file_inode, get_file_inode_by_name, get_file_inode_from_map, or_zero, drop_fast, remove_file,
}

delete_other :
    (names : List (String × FileKey)) (a b : String)
    → str_eq b a ≡ false
    → name_of (delete_name names a) b ≡ name_of names b
unfolding delete_name
delete_other [] a b h = refl
delete_other ((p, k) ∷ names) a b h = elim (Bool-cases (str_eq p a)) [
  | inl e ↦
      let other : str_eq p b ≡ false = ground (arith, h, e, eq_iff p a, eq_iff p b, eq_iff b a) in
      rw (e, other) (delete_other names a b h)
  | inr e ↦ elim (Bool-cases (str_eq p b)) [
    | inl q ↦ rw (e, q) refl
    | inr q ↦ rw (e, q) (delete_other names a b h)
  ]
]

same_key_refl : (k : FileKey) → same_key k k ≡ true
same_key_refl k = ground (arith, eq_iff k.infohash k.infohash)

drop_fast_self :
    (fast : String → Option ℕ) (name : String) (n : ℕ)
    → fast name ≡ some n
    → drop_fast fast name n name ≡ none
drop_fast_self fast name n h =
    let same : (n == n) ≡ true = ground arith in
    let self : str_eq name name ≡ true = ground (arith, eq_iff name name) in
    rw (h, drop_fast, same, self) refl

-- A path that is known by its key is not added again.
known_again :
    (l : Library) (m : InodeMap) (b infohash : String) (index : ℕ)
    → str_eq infohash "" ≡ false
    → name_of m.name_map b ≡ some (key_of l infohash index)
    → (add_file l m b infohash index).1 ≡ m
unfolding add_file
known_again l m b infohash index named name =
    let self = same_key_refl (key_of l infohash index) in rw (named, add_file, name, self) refl

last_resort :
    (l : Library) (m : InodeMap) (b : String) (key : FileKey)
    → name_of m.name_map b ≡ some key
    → m.file_map key ≡ none
    → m.fast_file_map (l.base b) ≡ none
    → (get_file_inode_from_map l m b).0 ≡ l.sum_text (l.base b) % 2 ^ 63
unfolding get_file_inode_from_map get_file_inode get_file_inode_by_name
last_resort l m b key name no_inode no_name = rw (name, no_inode, no_name) refl

module _ (l : Library) (m : InodeMap) (a b infohash : String) (index : ℕ) where
  -- Of two paths with one name in two directories, for one file of one torrent, that are known with
  -- the inode of the file, the first is removed. The second is then shown with an inode that its
  -- name alone gives, and adding it again changes nothing.
  pub remove_file-shared :
      str_eq b a ≡ false
      → l.base a ≡ l.base b
      → str_eq infohash "" ≡ false
      → name_of m.name_map a ≡ some (key_of l infohash index)
      → name_of m.name_map b ≡ some (key_of l infohash index)
      → m.file_map (key_of l infohash index) ≡ some (inode_of l (key_of l infohash index))
      → m.fast_file_map (l.base a) ≡ some (inode_of l (key_of l infohash index))
      → ((add_file l (remove_file l m a) b infohash index).1 ≡ remove_file l m a)
        × ((get_file_inode_from_map l (remove_file l m a) b).0 ≡ l.sum_text (l.base b) % 2 ^ 63)
  unfolding remove_file
  remove_file-shared apart same_base named at_a at_b stored fast =
      let key = key_of l infohash index in
      let inode = inode_of l key in
      let removed : InodeMap = record m {
        name_map = delete_name m.name_map a;
        file_map = set_key m.file_map key none;
        fast_file_map = drop_fast m.fast_file_map (l.base a) (or_zero (m.file_map key));
        dirty = true;
      } in
      let gone : remove_file l m a ≡ removed = rw (at_a, remove_file) refl in
      let name : name_of removed.name_map b ≡ some key = delete_other m.name_map a b apart ∙ at_b in
      let no_inode : removed.file_map key ≡ none = rw (same_key_refl key) refl in
      let no_name : removed.fast_file_map (l.base b) ≡ none =
        subst (λ n. removed.fast_file_map n ≡ none) same_base
          (subst (λ n. drop_fast m.fast_file_map (l.base a) n (l.base a) ≡ none)
            (sym (ap or_zero stored)) (drop_fast_self m.fast_file_map (l.base a) inode fast)) in
      subst
        (λ r.
          ((add_file l r b infohash index).1 ≡ r)
          × ((get_file_inode_from_map l r b).0 ≡ l.sum_text (l.base b) % 2 ^ 63))
        (sym gone)
        (
          known_again l removed b infohash index named name,
          last_resort l removed b key name no_inode no_name,
        )
