-- ===== src/Cli/Upload/Accepted.antt =====
-- cmd/cli/upload.go and internal/server/extractor: which folders the server accepts.
use mathlib.Core.Path.{subst}
use oblak.Prelude.{
  if◌then◌else◌, if_false, if_true, Bool-cases, length, All, ok, ◌>>=◌, >>=-ok, ok_injective, ℕ,
  ◌+◌, ◌≤◌, ◌≡◌, refl, sym, ap, ◌∙◌, ◌↔◌, inl, inr, Bool, true, false, none, some, List, [], ◌∷◌,
  arith,
}
use oblak.Text.{Bytes, bytes_eq}
use oblak.FilePath.{dot, clean}
use oblak.Server.Extractor.{
  max_total_size, max_files, Header, is_plain, unzip, IsSafeName, IsSafeHeader, sum_sizes,
  unzip_iff,
}
use oblak.Cli.Upload.{
  Kind, directory, regular, special, Visit, walk_error, walked, entry, zip_folder,
}

-- The bytes of an entry, and whether it is an entry of the archive, as a number.
abbrev kind_size : Kind → ℕ
kind_size (regular (some content)) = length content
kind_size _ = 0

abbrev pub size_of : Visit → ℕ
size_of walk_error = 0
size_of (walked name kind) = if bytes_eq name dot then 0 else kind_size kind

abbrev pub count_of : Visit → ℕ
count_of walk_error = 0
count_of (walked name kind) = if bytes_eq name dot then 0 else 1

abbrev pub total : (Visit → ℕ) → List Visit → ℕ
total f [] = 0
total f (v ∷ visits) = f v + total f visits

-- The folder itself, or a directory or a plain file with a safe name.
abbrev is_plain_kind : Kind → Bool
is_plain_kind (special o) = false
is_plain_kind _ = true

abbrev pub IsSafeEntry : Visit → Type 0
IsSafeEntry walk_error = Unit
IsSafeEntry (walked name kind) =
    bytes_eq name dot ≡ false → (is_plain_kind kind ≡ true) × IsSafeName (clean name)

-- What a packed folder and its archive have in common.
pub record Agree (visits : List Visit) (hs : List Header) : Type 0 where
  pub sizes : sum_sizes hs ≡ total size_of visits
  pub counts : length hs ≡ total count_of visits
  pub safe : All IsSafeHeader hs → All IsSafeEntry visits
  pub safe_back : All IsSafeEntry visits → All IsSafeHeader hs

entry_lem :
    (name : Bytes) (kind : Kind) {h : Header}
    → entry name kind ≡ ok h
    → (h.size ≡ kind_size kind) × (h.name ≡ name) × (is_plain h.typeflag ≡ is_plain_kind kind)
unfolding entry
entry_lem name directory e =
    let same = sym (ok_injective e) in
    (ap (λ x. x.size) same, ap (λ x. x.name) same, ap (λ x. is_plain x.typeflag) same)
entry_lem name (regular none) e = cc
entry_lem name (regular (some content)) e =
    let same = sym (ok_injective e) in
    (ap (λ x. x.size) same, ap (λ x. x.name) same, ap (λ x. is_plain x.typeflag) same)
entry_lem name (special none) e = cc
entry_lem name (special (some [])) e =
    let same = sym (ok_injective e) in
    (ap (λ x. x.size) same, ap (λ x. x.name) same, ap (λ x. is_plain x.typeflag) same)
entry_lem name (special (some (c ∷ s))) e = cc

Agree-skip :
    (name : Bytes) (kind : Kind) (visits : List Visit) (hs : List Header)
    → bytes_eq name dot ≡ true
    → Agree visits hs
    → Agree (walked name kind ∷ visits) hs
Agree-skip name kind visits hs d a = record {
  sizes = ground (arith, a.sizes, d);
  counts = ground (arith, a.counts, d);
  safe = λ s. (λ n. absurd (ground (arith, n, d)), a.safe s);
  safe_back = λ s. a.safe_back s.1;
}

Agree-entry :
    (name : Bytes) (kind : Kind) (h : Header) (visits : List Visit) (hs : List Header)
    → bytes_eq name dot ≡ false
    → entry name kind ≡ ok h
    → Agree visits hs
    → Agree (walked name kind ∷ visits) (h ∷ hs)
Agree-entry name kind h visits hs d e a =
    let (size, named, plain) = entry_lem name kind e in
    record {
      sizes = ground (arith, a.sizes, d, size);
      counts = ground (arith, a.counts, d);
      safe = λ s.
          (λ n. (sym plain ∙ s.0.0, subst (λ x. IsSafeName (clean x)) named s.0.1), a.safe s.1);
      safe_back = λ s.
          let (p, q) = s.0 d in
          ((plain ∙ p, subst (λ x. IsSafeName (clean x)) (sym named) q), a.safe_back s.1);
    }

zip_folder-Agree :
    (visits : List Visit) {hs : List Header} → zip_folder visits ≡ ok hs → Agree visits hs
unfolding zip_folder
zip_folder-Agree [] e =
    subst (λ hs. Agree [] hs) (ok_injective e)
      (record { sizes = refl; counts = refl; safe = λ s. s; safe_back = λ s. s })
zip_folder-Agree (walk_error ∷ visits) e = cc
zip_folder-Agree (walked name kind ∷ visits) {hs} e = elim (Bool-cases (bytes_eq name dot)) [
  | inl d ↦
      Agree-skip name kind visits hs d
        (zip_folder-Agree visits (sym (if_true (zip_folder visits) _ d) ∙ e))
  | inr n ↦
      let packed = sym (if_false (zip_folder visits) _ n) ∙ e in
      let (h, made, e') =
        >>=-ok (entry name kind) (λ h. zip_folder visits >>= λ hs. ok (h ∷ hs)) packed in
      let (rest, zipped, same) = >>=-ok (zip_folder visits) (λ hs. ok (h ∷ hs)) e' in
      subst (λ hs. Agree (walked name kind ∷ visits) hs) (ok_injective same)
        (Agree-entry name kind h visits rest n made (zip_folder-Agree visits zipped))
]

-- The archive of a folder that the client packs is accepted by the server exactly when each entry
-- but the folder itself is a directory or a plain file whose cleaned name is safe, with at most
-- 1 MiB and at most ten entries together.
pub unzip-zip_folder_iff :
    (visits : List Visit) {hs : List Header}
    → zip_folder visits ≡ ok hs
    → (unzip true true hs ≡ none) ↔ (
        All IsSafeEntry visits
        × (total size_of visits ≤ max_total_size)
        × (total count_of visits ≤ max_files))
unzip-zip_folder_iff visits {hs} e =
    let a = zip_folder-Agree visits e in
    let accepted = unzip_iff true true hs in
    (
      λ u.
          let (g, t, s, sum, count) = accepted.0 u in
          (a.safe s, omega (arith, a.sizes, sum), omega (arith, a.counts, count)),
      λ r.
          accepted.1 (
            refl,
            refl,
            a.safe_back r.0,
            omega (arith, a.sizes, r.1),
            omega (arith, a.counts, r.2),
          ),
    )
