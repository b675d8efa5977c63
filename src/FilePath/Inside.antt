-- ===== src/FilePath/Inside.antt =====
-- What `Clean` makes of a rooted path: no segment of the result is `..`.
use mathlib.Core.List.{reverse-append, reverse, foldl}
use oblak.Prelude.{
  All, ◌≢◌, true, List, [], ◌∷◌, arith, All-append, All-append_right, ◌≡◌, refl, ap, ◌∙◌, ◌++◌,
  append_assoc,
}
use oblak.Text.{
  Bytes, bytes_eq_iff, Lacks, split, join, has_prefix, strip_prefix, has_prefix_sound, split-append,
  split-join, split-All-Lacks,
}
use oblak.FilePath.{slash, dot, dotdot, push, is_abs, normalise, clean, join_path}

-- A segment that is neither `..` nor holds a slash.
abbrev pub IsStep : Bytes → Type 0
IsStep p = (p ≢ dotdot) × Lacks slash p

abbrev pub IsKept : Bytes → Type 0
IsKept p = IsStep p × (p ≢ []) × (p ≢ dot)

push-IsKept :
    (kept : List Bytes) (p : Bytes)
    → All IsKept kept
    → Lacks slash p
    → All IsKept (push true kept p)
unfolding push
push-IsKept [] p h l = ground (arith, bytes_eq_iff p [], bytes_eq_iff p dot, bytes_eq_iff p dotdot)
push-IsKept (q ∷ kept) p h l =
    ground
      (arith, bytes_eq_iff p [], bytes_eq_iff p dot, bytes_eq_iff p dotdot, bytes_eq_iff q dotdot)

fold-IsKept :
    (segments kept : List Bytes)
    → All IsKept kept
    → All (Lacks slash) segments
    → All IsKept (foldl (push true) kept segments)
fold-IsKept [] kept h l = h
fold-IsKept (p ∷ segments) kept h l =
    fold-IsKept segments (push true kept p) (push-IsKept kept p h l.0) l.1

All-reverse {ℓ κ} : {A : Type ℓ} (P : A → Type κ) (xs : List A) → All P xs → All P (reverse xs)
All-reverse P [] h = tt
All-reverse P (x ∷ xs) h =
    rw (reverse-append (x ∷ []) xs)
      (All-append P (reverse xs) (x ∷ []) (All-reverse P xs h.1) (h.0, tt))

-- A text behind a slash splits into the empty text and its own parts.
split-slash : (s : Bytes) → split slash (slash ∷ s) ≡ [] ∷ split slash s
unfolding split
split-slash s = refl

IsKept-IsStep : (ps : List Bytes) → All IsKept ps → All IsStep ps
IsKept-IsStep [] h = tt
IsKept-IsStep (p ∷ ps) h = (h.0.0, IsKept-IsStep ps h.1)

IsKept-Lacks : (ps : List Bytes) → All IsKept ps → All (Lacks slash) ps
IsKept-Lacks [] h = tt
IsKept-Lacks (p ∷ ps) h = (h.0.0.1, IsKept-Lacks ps h.1)

nil-IsStep : IsStep []
nil-IsStep = (λ h. cc, tt)

join-IsStep : (ps : List Bytes) → All IsKept ps → All IsStep (split slash (join slash ps))
join-IsStep [] h = unfold split join in (nil-IsStep, tt)
join-IsStep (p ∷ ps) h =
    rw (split-join slash p ps (IsKept-Lacks (p ∷ ps) h)) (IsKept-IsStep (p ∷ ps) h)

-- The segments between the slashes of a rooted path that `clean` returns: none is `..`.
pub clean-IsStep : (path : Bytes) → is_abs path ≡ true → All IsStep (split slash (clean path))
unfolding clean
clean-IsStep path h =
    let segments = normalise true (split slash path) in
    let kept : All IsKept segments =
      fold-IsKept (split slash path) [] tt (split-All-Lacks slash path) in
    rw h (
      rw split-slash
        (nil-IsStep, join-IsStep (reverse segments) (All-reverse IsKept segments kept)))

pub clean-is_abs : (path : Bytes) → is_abs path ≡ true → is_abs (clean path) ≡ true
unfolding clean is_abs
clean-is_abs path h = rw h

-- A path joined to a rooted one is cleaned as a whole.
join_path-clean :
    (base name : Bytes)
    → is_abs base ≡ true
    → (whole : Bytes) × (is_abs whole ≡ true) × (join_path base name ≡ clean whole)
unfolding join_path is_abs
join_path-clean [] name h = cc
join_path-clean (c ∷ base) [] h = (c ∷ base, h, refl)
join_path-clean (c ∷ base) (d ∷ name) h = (c ∷ base ++ (slash ∷ d ∷ name), h, refl)

-- `path` lies below `base`: it is `base` and further segments, none of which is `..`.
pub record IsBelow (base path : Bytes) : Type 0 where
  pub rest : List Bytes
  pub extends : split slash path ≡ split slash base ++ rest
  pub stays : All IsStep rest

-- A joined path that has the rooted base and a slash for its prefix lies below that base.
pub join_path-IsBelow :
    (base name : Bytes)
    → is_abs base ≡ true
    → has_prefix (join_path base name) (base ++ (slash ∷ [])) ≡ true
    → IsBelow base (join_path base name)
join_path-IsBelow base name h p =
    let path = join_path base name in
    let (whole, rooted, e) = join_path-clean base name h in
    let tail = strip_prefix path (base ++ (slash ∷ [])) in
    let shape : path ≡ base ++ (slash ∷ tail) =
      has_prefix_sound path (base ++ (slash ∷ [])) p ∙ append_assoc base (slash ∷ []) tail in
    let parts : split slash path ≡ split slash base ++ split slash tail =
      ap (split slash) shape ∙ split-append slash base tail in
    let steps : All IsStep (split slash path) = rw e (clean-IsStep whole rooted) in
    record {
      rest = split slash tail;
      extends = parts;
      stays = All-append_right IsStep (split slash base) (split slash tail) (rw parts at steps);
    }
