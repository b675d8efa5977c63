-- ===== src/FilePath.antt =====
-- `path/filepath` on Unix: `Clean` and `Join`, by the segments between slashes.
pub mod Inside
use mathlib.Core.List.{foldl, reverse}
use oblak.Prelude.{◌==◌, if◌then◌else◌, ℕ, ◌≡◌, refl, Bool, true, false, ◌||◌, List, [], ◌∷◌, ◌++◌}
use oblak.Text.{Bytes, codes, bytes_eq, split, join}

abbrev pub slash : ℕ
slash = b'/'

abbrev pub dot : Bytes
dot = b'.' ∷ []

abbrev pub dotdot : Bytes
dotdot = b'.' ∷ b'.' ∷ []

-- filepath.IsAbs
unfoldable pub is_abs : Bytes → Bool
is_abs [] = false
is_abs (c ∷ s) = c == slash

-- `..` takes the last kept segment away; at the root it does nothing, and in a relative path with
-- nothing to take away it is kept. The kept segments are in reverse order.
unfoldable pub pop : Bool → List Bytes → List Bytes
pop true [] = []
pop false [] = dotdot ∷ []
pop rooted (p ∷ kept) = if bytes_eq p dotdot then dotdot ∷ p ∷ kept else kept

unfoldable pub push : Bool → List Bytes → Bytes → List Bytes
unfolding pop
push rooted kept p =
    if bytes_eq p [] || bytes_eq p dot
    then kept
    else if bytes_eq p dotdot
    then pop rooted kept
    else p ∷ kept

abbrev pub normalise : Bool → List Bytes → List Bytes
normalise rooted segments = foldl (push rooted) [] segments

unfoldable pub render : Bool → List Bytes → Bytes
render true segments = slash ∷ join slash segments
render false [] = dot
render false (p ∷ ps) = join slash (p ∷ ps)

-- filepath.Clean
unfoldable pub clean : Bytes → Bytes
unfolding render
clean path = render (is_abs path) (reverse (normalise (is_abs path) (split slash path)))

-- filepath.Join(a, b)
unfoldable pub join_path : Bytes → Bytes → Bytes
join_path [] [] = []
join_path [] b = clean b
join_path a [] = clean a
join_path a b = clean (a ++ (slash ∷ b))

-- The path up to its last slash, that slash included.
up_to_slash : Bytes → Bytes
up_to_slash [] = []
up_to_slash (c ∷ s) = keep_head c (up_to_slash s)
  where
    keep_head : ℕ → Bytes → Bytes
    keep_head c [] = if c == slash then c ∷ [] else []
    keep_head c (d ∷ s) = c ∷ d ∷ s

-- filepath.Dir
unfoldable pub dir : Bytes → Bytes
unfolding up_to_slash
dir path = clean (up_to_slash path)

clean_tests :
    (clean (codes "/a/./b//../c") ≡ codes "/a/c")
    × (clean (codes "../x/..") ≡ codes "..")
    × (clean (codes "/../..") ≡ codes "/")
    × (clean [] ≡ codes ".")
    × (dir (codes "/a/b/c") ≡ codes "/a/b")
    × (join_path (codes "/tmp/x") (codes "../../etc") ≡ codes "/etc")
unfolding clean dir join_path push bytes_eq split join is_abs
clean_tests = (refl, refl, refl, refl, refl, refl)
