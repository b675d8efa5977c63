-- ===== src/Text.antt =====
-- Go strings as byte lists, and the functions of the standard library's `strings` and `bytes`
-- packages that the program calls.
use Prim.Native.Char.{code}
use mathlib.Core.Option
use oblak.Prelude.{
  ◌==◌, if◌then◌else◌, All, ℕ, String, ◌≡◌, refl, ap, ◌≢◌, ◌↔◌, Bool, true, false, ◌&&◌, ◌||◌, List,
  [], ◌∷◌, ◌++◌, arith, leb, Option, none, some,
}

abbrev pub Bytes : Type 0
Bytes = List ℕ

-- The bytes of an ASCII literal.
abbrev pub codes : String → Bytes
codes String.[] = []
codes (String.◌∷◌ c s) = code c ∷ codes s

-- s == t
unfoldable pub bytes_eq : Bytes → Bytes → Bool
bytes_eq [] [] = true
bytes_eq (a ∷ s) (b ∷ t) = a == b && bytes_eq s t
bytes_eq _ _ = false

pub bytes_eq_iff : (s t : Bytes) → (bytes_eq s t ≡ true) ↔ (s ≡ t)
unfolding bytes_eq
bytes_eq_iff [] [] = (λ _. refl, λ _. refl)
bytes_eq_iff [] (b ∷ t) = (λ h. cc, λ h. cc)
bytes_eq_iff (a ∷ s) [] = (λ h. cc, λ h. cc)
bytes_eq_iff (a ∷ s) (b ∷ t) = ground (arith, bytes_eq_iff s t)

-- strings.HasPrefix
unfoldable pub has_prefix : Bytes → Bytes → Bool
has_prefix s [] = true
has_prefix [] (b ∷ t) = false
has_prefix (a ∷ s) (b ∷ t) = a == b && has_prefix s t

-- strings.TrimPrefix, and the slice after a known prefix.
unfoldable pub strip_prefix : Bytes → Bytes → Bytes
strip_prefix s [] = s
strip_prefix [] (b ∷ t) = []
strip_prefix (a ∷ s) (b ∷ t) = strip_prefix s t

pub has_prefix_sound : (s t : Bytes) → has_prefix s t ≡ true → s ≡ t ++ strip_prefix s t
unfolding has_prefix strip_prefix
has_prefix_sound s [] h = refl
has_prefix_sound [] (b ∷ t) h = cc
has_prefix_sound (a ∷ s) (b ∷ t) h = ground (arith, has_prefix_sound s t)

pub has_prefix-append : (s t : Bytes) → has_prefix (s ++ t) s ≡ true
unfolding has_prefix
has_prefix-append [] t = refl
has_prefix-append (a ∷ s) t = ground (arith, has_prefix-append s t)

pub strip_prefix-append : (s t : Bytes) → strip_prefix (s ++ t) s ≡ t
unfolding strip_prefix
strip_prefix-append [] t = refl
strip_prefix-append (a ∷ s) t = strip_prefix-append s t

-- strings.ContainsRune for an ASCII rune.
unfoldable pub contains_byte : ℕ → Bytes → Bool
contains_byte b [] = false
contains_byte b (c ∷ s) = c == b || contains_byte b s

-- strings.Contains
unfoldable pub contains : Bytes → Bytes → Bool
unfolding has_prefix
contains [] t = has_prefix [] t
contains (c ∷ s) t = has_prefix (c ∷ s) t || contains s t

-- strings.HasSuffix
unfoldable pub has_suffix : Bytes → Bytes → Bool
unfolding bytes_eq
has_suffix [] t = bytes_eq [] t
has_suffix (c ∷ s) t = bytes_eq (c ∷ s) t || has_suffix s t

-- strings.TrimSpace on ASCII text.
abbrev pub is_space : ℕ → Bool
is_space c = c == b' ' || (leb 9 c && leb c 13)

trim_left : Bytes → Bytes
trim_left [] = []
trim_left (c ∷ s) = let rest = trim_left s in if is_space c then rest else c ∷ s

abbrev drop_blank : ℕ → Bytes → Bytes
drop_blank c [] = if is_space c then [] else c ∷ []
drop_blank c (d ∷ s) = c ∷ d ∷ s

-- A byte that is blank is dropped where nothing is left behind it.
trim_right : Bytes → Bytes
trim_right [] = []
trim_right (c ∷ s) = drop_blank c (trim_right s)

-- strings.TrimSpace on a text of ASCII bytes: it would also take Unicode blanks from the ends of a text.
unfoldable pub trim_space : Bytes → Bytes
unfolding trim_left trim_right
trim_space s = trim_right (trim_left s)

-- strings.Cut at a separator of one byte: the text before it and the text behind it.
unfoldable pub cut : ℕ → Bytes → Option (Bytes × Bytes)
cut sep [] = none
cut sep (c ∷ s) =
    let rest = cut sep s in if c == sep then some ([], s) else Option.map (λ p. (c ∷ p.0, p.1)) rest

-- strings.Split with a separator of one byte.
abbrev cons_head : ℕ → List Bytes → List Bytes
cons_head c [] = (c ∷ []) ∷ []
cons_head c (p ∷ ps) = (c ∷ p) ∷ ps

unfoldable pub split : ℕ → Bytes → List Bytes
split sep [] = [] ∷ []
split sep (c ∷ s) = let rest = split sep s in if c == sep then [] ∷ rest else cons_head c rest

-- strings.Join
unfoldable pub join : ℕ → List Bytes → Bytes
join sep [] = []
join sep (p ∷ []) = p
join sep (p ∷ q ∷ ps) = p ++ (sep ∷ join sep (q ∷ ps))

split-ne-nil : (sep : ℕ) (s : Bytes) → split sep s ≢ []
unfolding split
split-ne-nil sep [] = λ h. cc
split-ne-nil sep (c ∷ s) = λ h. ground arith

-- The text splits at a separator wherever it stands.
pub split-append : (sep : ℕ) (s t : Bytes) → split sep (s ++ (sep ∷ t)) ≡ split sep s ++ split sep t
unfolding split
split-append sep [] t = ground arith
split-append sep (c ∷ s) t = ground (arith, split-append sep s t, split-ne-nil sep s)

abbrev pub Lacks : ℕ → Bytes → Type 0
Lacks b s = All (λ c. c ≢ b) s

pub split-Lacks : (sep : ℕ) (s : Bytes) → Lacks sep s → split sep s ≡ s ∷ []
unfolding split
split-Lacks sep [] h = refl
split-Lacks sep (c ∷ s) h = ground (arith, split-Lacks sep s h.1)

-- Splitting a join gives the parts back, if there is a part and none holds the separator.
pub split-join :
    (sep : ℕ) (p : Bytes) (ps : List Bytes)
    → All (Lacks sep) (p ∷ ps)
    → split sep (join sep (p ∷ ps)) ≡ p ∷ ps
unfolding join
split-join sep p [] h = split-Lacks sep p h.0
split-join sep p (q ∷ ps) h =
    rw (split-append sep p _, split-Lacks sep p h.0) (ap (◌∷◌ p) (split-join sep q ps h.1))

-- The parts of a split hold no separator.
pub split-All-Lacks : (sep : ℕ) (s : Bytes) → All (Lacks sep) (split sep s)
unfolding split
split-All-Lacks sep [] = (tt, tt)
split-All-Lacks sep (c ∷ s) = ground (arith, split-All-Lacks sep s, split-ne-nil sep s)

-- Text with no blank byte is its own trimmed form.
abbrev pub IsSolid : Bytes → Type 0
IsSolid s = All (λ c. is_space c ≡ false) s

trim_left-IsSolid : (s : Bytes) → IsSolid s → trim_left s ≡ s
unfolding trim_left
trim_left-IsSolid [] h = refl
trim_left-IsSolid (c ∷ s) h = ground arith

trim_right-IsSolid : (s : Bytes) → IsSolid s → trim_right s ≡ s
unfolding trim_right
trim_right-IsSolid [] h = refl
trim_right-IsSolid (c ∷ []) h = ground arith
trim_right-IsSolid (c ∷ d ∷ s) h = rw (trim_right-IsSolid (d ∷ s) h.1)

pub trim_space-IsSolid : (s : Bytes) → IsSolid s → trim_space s ≡ s
unfolding trim_space
trim_space-IsSolid s h = rw (trim_left-IsSolid s h) (trim_right-IsSolid s h)

-- Text with no separator in front of one is cut there.
pub cut-append : (sep : ℕ) (s t : Bytes) → Lacks sep s → cut sep (s ++ (sep ∷ t)) ≡ some (s, t)
unfolding cut
cut-append sep [] t h = ground arith
cut-append sep (c ∷ s) t h = ground (arith, cut-append sep s t h.1)

trim_right-keep : (s : Bytes) (b : ℕ) → is_space b ≡ false → trim_right (s ++ b ∷ []) ≡ s ++ b ∷ []
unfolding trim_right
trim_right-keep [] b h = ground arith
trim_right-keep (c ∷ []) b h = ground arith
trim_right-keep (c ∷ d ∷ s) b h = rw (trim_right-keep (d ∷ s) b h)

-- Text that starts and ends with a byte that is not blank is its own trimmed form.
pub trim_space-keep :
    (c : ℕ) (s : Bytes) (b : ℕ)
    → is_space c ≡ false
    → is_space b ≡ false
    → trim_space (c ∷ (s ++ b ∷ [])) ≡ c ∷ (s ++ b ∷ [])
unfolding trim_space
trim_space-keep c s b h k =
    let same : trim_left (c ∷ (s ++ b ∷ [])) ≡ c ∷ (s ++ b ∷ []) = unfold trim_left in rw h in
    rw same (trim_right-keep (c ∷ s) b k)
