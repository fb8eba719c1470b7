-- ===== src/InodeMap/Tests.antt =====
-- One film in two directories.

use text.Mathlib.Text.{◌==◌ as str_eq}
use gostream.Prelude.{◌+◌, ◌^◌, ◌<◌, ◌≡◌, refl, if◌then◌else◌, List, [], ◌∷◌, some}
use gostream.InodeMap.{
  Library, InodeMap, new_inode_map, name_of, inode_of, key_of, add_file, get_dir_inode,
  generate_dir_inode, get_file_inode_from_map, remove_file, InodeCall, adds_file, asks_dir,
  run_inodes,
}
use gostream.InodeMap.Exact.{inodes-run_inodes}
use gostream.InodeMap.Lost.{remove_file-shared}

-- The hashes are told by the index, and by whether the text is that of a directory.
abbrev lib : Library
lib = record {
  lower = λ t. t;
  base = λ t. "film.mkv";
  sum_key = λ t index. 100 + index;
  sum_text = λ t. if str_eq t "/films" then 7 else 9;
}

abbrev calls : List InodeCall
calls = adds_file "/a/film.mkv" "ab" 1 ∷ adds_file "/b/film.mkv" "ab" 1 ∷ asks_dir "/films" ∷ []

abbrev both : InodeMap
both = run_inodes lib new_inode_map calls

inodes-run_inodes_example :
    ((get_dir_inode lib both "/films").0 ≡ generate_dir_inode lib "/films")
    × ((get_file_inode_from_map lib both "/b/film.mkv").0 < 2 ^ 63)
inodes-run_inodes_example = inodes-run_inodes lib calls "/films" "/b/film.mkv"

before : (get_file_inode_from_map lib both "/b/film.mkv").0 ≡ 101
unfolding get_file_inode_from_map run_inodes new_inode_map
before = refl

known_a : name_of both.name_map "/a/film.mkv" ≡ some (key_of lib "ab" 1)
unfolding run_inodes new_inode_map
known_a = refl

known_b : name_of both.name_map "/b/film.mkv" ≡ some (key_of lib "ab" 1)
unfolding run_inodes new_inode_map
known_b = refl

has_inode : both.file_map (key_of lib "ab" 1) ≡ some (inode_of lib (key_of lib "ab" 1))
unfolding run_inodes new_inode_map
has_inode = refl

has_name : both.fast_file_map "film.mkv" ≡ some (inode_of lib (key_of lib "ab" 1))
unfolding run_inodes new_inode_map
has_name = refl

remove_file-shared_example :
    ((add_file lib (remove_file lib both "/a/film.mkv") "/b/film.mkv" "ab" 1).1
      ≡ remove_file lib both "/a/film.mkv")
    × ((get_file_inode_from_map lib (remove_file lib both "/a/film.mkv") "/b/film.mkv").0 ≡ 9)
remove_file-shared_example =
    remove_file-shared lib both "/a/film.mkv" "/b/film.mkv" "ab" 1 refl refl refl known_a known_b
      has_inode has_name
