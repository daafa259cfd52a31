-- ===== src/CString.antt =====
-- xv6-public/string.c and ulib.c on strings. A `char *` is the list of the bytes from there to the
-- end of its array; a read past that end is as of a zero byte, and a write past it is dropped.
pub mod Compare
pub mod Copy
mod Tests
use assignments.Base.{
  ℕ, zero, suc, ◌+◌, ◌-◌, ◌*◌, List, [], ◌∷◌, ◌++◌, Bool, true, false, ◌==◌, leb, ◌||◌, ◌&&◌, not,
  if◌then◌else◌, add32, sub32, Option, none, some,
}

-- The characters before the first zero byte.
abbrev pub text : List ℕ → List ℕ
text [] = []
text (c ∷ s) = if c == 0 then [] else c ∷ text s

pub strlen : List ℕ → ℕ
strlen [] = 0
strlen (c ∷ s) = let more = suc (strlen s) in if c == 0 then 0 else more

-- `n` counts down; both arguments are at least `n` bytes long.
pub memcmp : List ℕ → List ℕ → ℕ → ℕ
memcmp s1 s2 zero = 0
memcmp [] s2 (suc n) = 0
memcmp (a ∷ s1) [] (suc n) = 0
memcmp (a ∷ s1) (b ∷ s2) (suc n) =
    let rest = memcmp s1 s2 n in if not (a == b) then sub32 a b else rest

abbrev pub first : List ℕ → ℕ
first [] = 0
first (c ∷ s) = c

unfoldable pub strncmp : List ℕ → List ℕ → ℕ → ℕ
strncmp p q zero = 0
strncmp [] q (suc n) = sub32 0 (first q)
strncmp (a ∷ p) q (suc n) =
    let rest = strncmp p (next q) n in
    if not (a == 0) && a == first q then rest else sub32 a (first q)
  where
    next : List ℕ → List ℕ
    next [] = []
    next (c ∷ s) = s

pub strcmp : List ℕ → List ℕ → ℕ
strcmp [] q = sub32 0 (first q)
strcmp (a ∷ p) [] = a
strcmp (a ∷ p) (b ∷ q) = let rest = strcmp p q in if not (a == 0) && a == b then rest else sub32 a b

-- `while(n-- > 0) *s++ = 0;`
abbrev pub zero_fill : List ℕ → ℕ → List ℕ
zero_fill s zero = s
zero_fill [] (suc n) = []
zero_fill (d ∷ s) (suc n) = 0 ∷ zero_fill s n

unfoldable pub strncpy : List ℕ → List ℕ → ℕ → List ℕ
strncpy s t zero = s
strncpy [] t (suc n) = []
strncpy (d ∷ s) [] (suc n) = 0 ∷ zero_fill s n
strncpy (d ∷ s) (c ∷ t) (suc n) =
    let rest = strncpy s t n in c ∷ (if c == 0 then zero_fill s n else rest)

-- After a zero byte is copied, `*s = 0` writes one more.
unfoldable pub safestrcpy : List ℕ → List ℕ → ℕ → List ℕ
safestrcpy s t zero = s
safestrcpy [] t (suc n) = []
safestrcpy (d ∷ s) t (suc zero) = 0 ∷ s
safestrcpy (d ∷ s) [] (suc (suc n)) = 0 ∷ zero_fill s 1
safestrcpy (d ∷ s) (c ∷ t) (suc (suc n)) =
    let rest = safestrcpy s t (suc n) in c ∷ (if c == 0 then zero_fill s 1 else rest)

pub strcpy : List ℕ → List ℕ → List ℕ
strcpy [] t = []
strcpy (d ∷ s) [] = 0 ∷ s
strcpy (d ∷ s) (c ∷ t) = let rest = strcpy s t in c ∷ (if c == 0 then s else rest)

-- The suffix that starts at the first `c`.
pub strchr : List ℕ → ℕ → Option (List ℕ)
strchr [] c = none
strchr (a ∷ s) c =
    let rest = strchr s c in if a == 0 then none else if a == c then some (a ∷ s) else rest

-- The accumulator wraps as an `int` does.
pub atoi_from : ℕ → List ℕ → ℕ
atoi_from n [] = n
atoi_from n (c ∷ s) =
    let rest = atoi_from (sub32 (add32 (n * 10) c) b'0') s in
    if leb b'0' c && leb c b'9' then rest else n

pub atoi : List ℕ → ℕ
unfolding atoi_from
atoi s = atoi_from 0 s
