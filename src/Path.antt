-- ===== src/Path.antt =====
-- xv6-public/fs.c: path names. A path is the list of the characters before its terminating zero
-- byte, and `name` an array of DIRSIZ bytes.
pub mod Elements
mod Tests
use assignments.Base.{
  ℕ, zero, suc, ◌+◌, List, [], ◌∷◌, ◌++◌, Bool, ◌==◌, leb, if◌then◌else◌, Option, none, some,
  length, take, drop,
}

abbrev pub dir_size : ℕ
dir_size = 14

-- `while(*path == '/') path++;`
pub skip_slashes : List ℕ → List ℕ
skip_slashes [] = []
skip_slashes (c ∷ path) = let rest = skip_slashes path in if c == b'/' then rest else c ∷ path

-- `while(*path != '/' && *path != 0) path++;`: the characters passed, and the path from there.
pub split_element : List ℕ → List ℕ × List ℕ
split_element [] = ([], [])
split_element (c ∷ path) =
    let rest = split_element path in if c == b'/' then ([], c ∷ path) else (c ∷ rest.0, rest.1)

-- What the two `memmove`s leave in `name`.
pub store_name : List ℕ → List ℕ → List ℕ
store_name element name =
    if leb dir_size (length element)
    then take dir_size element ++ drop dir_size name
    else element ++ 0 ∷ drop (length element + 1) name

-- `skipelem`: the rest of the path and the new `name`.
pub skipelem : List ℕ → List ℕ → Option (List ℕ × List ℕ)
unfolding skip_slashes split_element store_name
skipelem path name = elim (skip_slashes path) [
  | [] ↦ none
  | c ∷ s ↦
      let (element, after) = split_element (c ∷ s) in
      some (skip_slashes after, store_name element name)
]
