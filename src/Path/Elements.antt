-- ===== src/Path/Elements.antt =====
-- `skipelem` of fs.c: how it divides a path.
use assignments.Base.{
  ℕ, ◌<◌, List, [], ◌∷◌, ◌++◌, ◌≡◌, refl, sym, ◌∙◌, ap, ◌≢◌, ◌⊎◌, inl, inr, none, some, length, All,
  take, drop, length-append, length-take, length-drop, dec_lt, le→leb, lt→leb_false, ◌+◌, ◌≤◌,
  arith, ℕ_discrete, ==_ne, append-nil, subst,
}
use assignments.Path.{skip_slashes, split_element, store_name, skipelem}

-- A path without leading slashes.
abbrev pub Stripped : List ℕ → Type 0
Stripped [] = Unit {0}
Stripped (c ∷ path) = c ≢ b'/'

-- A list of slashes precedes what is left.
pub skip_slashes-Stripped :
    (path : List ℕ)
    → (slashes : List ℕ) × (path ≡ slashes ++ skip_slashes path)
      × All (λ c. c ≡ b'/') slashes
      × Stripped (skip_slashes path)
unfolding skip_slashes
skip_slashes-Stripped [] = ([], refl, tt, tt)
skip_slashes-Stripped (c ∷ path) = elim (ℕ_discrete c b'/') [
  | yes e ↦
      let (slashes, split, all, done) = skip_slashes-Stripped path in
      rw e (b'/' ∷ slashes, ap (λ p. b'/' ∷ p) split, (refl, all), done)
  | no ne ↦ rw (==_ne c b'/' ne) ([], refl, tt, ne)
]

-- The end of a path, or a slash.
abbrev pub AtSlash : List ℕ → Type 0
AtSlash [] = Unit {0}
AtSlash (c ∷ path) = c ≡ b'/'

pub split_element-append :
    (path : List ℕ)
    → (path ≡ (split_element path).0 ++ (split_element path).1)
      × All (λ c. c ≢ b'/') (split_element path).0
      × AtSlash (split_element path).1
unfolding split_element
split_element-append [] = (refl, tt, tt)
split_element-append (c ∷ path) = elim (ℕ_discrete c b'/') [
  | yes e ↦ rw e (refl, tt, refl)
  | no ne ↦
      let (split, all, stop) = split_element-append path in
      rw (==_ne c b'/' ne) (ap (λ p. c ∷ p) split, (ne, all), stop)
]

nonempty : (c : ℕ) (s : List ℕ) → c ≢ b'/' → 0 < length (split_element (c ∷ s)).0
unfolding split_element
nonempty c s h = rw (==_ne c b'/' h) (omega arith)

-- What `skipelem` does to a path: slashes, the characters up to the next slash, more slashes, the
-- rest.
pub record Skips (path name : List ℕ) : Type 0 where
  pub before : List ℕ
  pub element : List ℕ
  pub between : List ℕ
  pub rest : List ℕ
  pub whole : path ≡ before ++ (element ++ (between ++ rest))
  pub slashes : All (λ c. c ≡ b'/') before × All (λ c. c ≡ b'/') between
  pub plain : All (λ c. c ≢ b'/') element
  pub some_element : 0 < length element
  pub all_of_it : AtSlash (between ++ rest)
  pub stripped : Stripped rest
  pub stored : List ℕ
  pub short : length element < 14 → stored ≡ element ++ 0 ∷ drop (length element + 1) name
  pub long : 14 ≤ length element → stored ≡ take 14 element ++ drop 14 name
  pub in_place : length name ≡ 14 → length stored ≡ 14
  pub result : skipelem path name ≡ some (rest, stored)

-- What is stored in place of the name.
store_name-short :
    (element name : List ℕ)
    → length element < 14
    → store_name element name ≡ element ++ 0 ∷ drop (length element + 1) name
unfolding store_name
store_name-short element name h = rw (lt→leb_false 14 (length element) h) refl

store_name-long :
    (element name : List ℕ)
    → 14 ≤ length element
    → store_name element name ≡ take 14 element ++ drop 14 name
unfolding store_name
store_name-long element name h = rw (le→leb 14 (length element) h) refl

store_name-length :
    (element name : List ℕ) → length name ≡ 14 → length (store_name element name) ≡ 14
store_name-length element name h = elim (dec_lt (length element) 14) [
  | yes short ↦ rw (store_name-short element name short) (
      omega (
        arith,
        short,
        h,
        length-append element (0 ∷ drop (length element + 1) name),
        length-drop (length element + 1) name,
      ))
  | no long ↦ rw (store_name-long element name (omega (arith, long))) (
      omega (
        arith,
        long,
        h,
        length-append (take 14 element) (drop 14 name),
        length-take 14 element,
        length-drop 14 name,
      ))
]

-- `skipelem` takes off the first element of a path, up to the next slash or the end, with the slashes
-- around it; it stores the element and a zero byte in place of the name, or the first 14 characters
-- of a longer one, and leaves the other bytes of the name; if the path has nothing but slashes, it returns 0.
pub skipelem_lem :
    (path name : List ℕ)
    → ((skipelem path name ≡ none) × All (λ c. c ≡ b'/') path) ⊎ Skips path name
unfolding skipelem
skipelem_lem path name =
    let (before, split, slashes, done) = skip_slashes-Stripped path in
    result before (skip_slashes path) refl split slashes done
  where
    result :
        (before p : List ℕ)
        → skip_slashes path ≡ p
        → path ≡ before ++ skip_slashes path
        → All (λ c. c ≡ b'/') before
        → Stripped (skip_slashes path)
        → ((skipelem path name ≡ none) × All (λ c. c ≡ b'/') path) ⊎ Skips path name
    result before [] e split slashes done = inl (
      rw (skipelem, e) refl,
      subst (All (λ c. c ≡ b'/')) (sym (split ∙ ap (λ p. before ++ p) e ∙ append-nil before))
          slashes,
    )
    result before (c ∷ s) e split slashes done =
        let (between, after, more, clean) = skip_slashes-Stripped (split_element (c ∷ s)).1 in
        let (parts, plain, stop) = split_element-append (c ∷ s) in
        inr (record {
          before = before;
          element = (split_element (c ∷ s)).0;
          between = between;
          rest = skip_slashes (split_element (c ∷ s)).1;
          whole =
              split
              ∙ ap (λ p. before ++ p) (e ∙ parts ∙ ap (λ p. (split_element (c ∷ s)).0 ++ p) after);
          slashes = (slashes, more);
          plain = plain;
          some_element = nonempty c s (rw e at done);
          all_of_it = subst AtSlash after stop;
          stripped = clean;
          stored = store_name (split_element (c ∷ s)).0 name;
          short = store_name-short (split_element (c ∷ s)).0 name;
          long = store_name-long (split_element (c ∷ s)).0 name;
          in_place = store_name-length (split_element (c ∷ s)).0 name;
          result = rw (skipelem, e) refl;
        })
