-- ===== src/Server/Extractor.antt =====
-- internal/server/extractor/extractor.go: the check of an uploaded archive, entry by entry.
use oblak.Prelude.{
  ltb, if◌then◌else◌, length, All, Result, err, ok, Result-cases, ℕ, ◌+◌, ◌*◌, ◌≤◌, ◌≡◌, refl, sym,
  ap, ◌∙◌, ◌≢◌, ◌↔◌, inl, inr, Bool, true, false, not, ◌||◌, Option, none, some, List, [], ◌∷◌,
  arith,
}
use oblak.Text.{Bytes, bytes_eq, bytes_eq_iff, contains_byte, contains}
use oblak.FilePath.{slash, dot, dotdot, is_abs, clean}

abbrev pub max_total_size : ℕ
max_total_size = 1024 * 1024

abbrev pub max_files : ℕ
max_files = 10

pub data Typeflag : Type 0 where
  type_reg type_dir type_other : Typeflag

pub record Header : Type 0 where
  pub name : Bytes
  pub typeflag : Typeflag
  pub size : ℕ

pub data HeaderError : Type 0 where
  non_regular empty_name traversal null_byte too_large too_much too_many : HeaderError

pub data UnzipError : Type 0 where
  bad_gzip bad_entry : UnzipError
  invalid : HeaderError → UnzipError

abbrev pub is_plain : Typeflag → Bool
is_plain type_reg = true
is_plain type_dir = true
is_plain type_other = false

-- The tests of the cleaned name, in their order.
unfoldable pub check_name : Bytes → Option HeaderError
check_name name =
    if bytes_eq name dot || bytes_eq name (slash ∷ []) || bytes_eq name []
    then some empty_name
    else if contains name dotdot || is_abs name
    then some traversal
    else if contains_byte 0 name
    then some null_byte
    else none

-- The tests of the size and of the count, in their order.
unfoldable pub check_size : ℕ → ℕ → ℕ → Option HeaderError
check_size size total files =
    if ltb max_total_size size
    then some too_large
    else if ltb max_total_size (total + size)
    then some too_much
    else if ltb max_files (files + 1)
    then some too_many
    else none

-- validateTarHeader
unfoldable pub validate_tar_header : Header → ℕ → ℕ → Result HeaderError Bytes
validate_tar_header h total files =
    let clean_name = clean h.name in
    if not (is_plain h.typeflag) then err non_regular else elim (check_name clean_name) [
      | some e ↦ err e
      | none ↦ elim (check_size h.size total files) [ some e ↦ err e | none ↦ ok clean_name ]
    ]

-- The loop over the entries; `at_end` says whether they end with io.EOF or with an error of the reader.
unfoldable pub unzip_loop : Bool → List Header → ℕ → ℕ → Option UnzipError
unzip_loop at_end [] total files = if at_end then none else some bad_entry
unzip_loop at_end (h ∷ hs) total files =
    let rest = unzip_loop at_end hs (total + h.size) (files + 1) in
    elim (validate_tar_header h total files) [ err e ↦ some (invalid e) | ok _ ↦ rest ]

-- Unzip
unfoldable pub unzip : Bool → Bool → List Header → Option UnzipError
unzip gzip_ok at_end hs = if not gzip_ok then some bad_gzip else unzip_loop at_end hs 0 0

-- A name that stays where it is put: not empty, relative, without `..` and without a null byte.
pub record IsSafeName (name : Bytes) : Type 0 where
  pub not_dot : name ≢ dot
  pub not_root : name ≢ slash ∷ []
  pub nonempty : name ≢ []
  pub no_parent : contains name dotdot ≡ false
  pub relative : is_abs name ≡ false
  pub no_null : contains_byte 0 name ≡ false

abbrev pub IsSafeHeader : Header → Type 0
IsSafeHeader h = (is_plain h.typeflag ≡ true) × IsSafeName (clean h.name)

abbrev pub sum_sizes : List Header → ℕ
sum_sizes [] = 0
sum_sizes (h ∷ hs) = h.size + sum_sizes hs

check_name_iff : (name : Bytes) → (check_name name ≡ none) ↔ IsSafeName name
unfolding check_name
check_name_iff name =
    let d = bytes_eq_iff name dot in
    let r = bytes_eq_iff name (slash ∷ []) in
    let e = bytes_eq_iff name [] in
    (
      λ h. record {
        not_dot = ground arith;
        not_root = ground arith;
        nonempty = ground arith;
        no_parent = ground arith;
        relative = ground arith;
        no_null = ground arith;
      },
      λ s. ground (arith, s.not_dot, s.not_root, s.nonempty, s.no_parent, s.relative, s.no_null),
    )

check_size_iff :
    (size total files : ℕ)
    → (check_size size total files ≡ none)
      ↔ ((total + size ≤ max_total_size) × (files + 1 ≤ max_files))
unfolding check_size
check_size_iff size total files = ground arith

validate_tar_header_iff :
    (h : Header) (total files : ℕ)
    → ((n : Bytes) × (validate_tar_header h total files ≡ ok n))
      ↔ (IsSafeHeader h × (total + h.size ≤ max_total_size) × (files + 1 ≤ max_files))
unfolding validate_tar_header
validate_tar_header_iff h total files =
    let name = check_name_iff (clean h.name) in
    let size = check_size_iff h.size total files in
    (
      λ p. ground (arith, p.1, name, size),
      λ q. (clean h.name, ground (arith, name.1 q.0.1, size.1 (q.1, q.2))),
    )

unzip_loop_iff :
    (at_end : Bool) (hs : List Header) (total files : ℕ)
    → files ≤ max_files
    → total ≤ max_total_size
    → (unzip_loop at_end hs total files ≡ none) ↔ (
        (at_end ≡ true)
        × All IsSafeHeader hs
        × (total + sum_sizes hs ≤ max_total_size)
        × (files + length hs ≤ max_files))
unfolding unzip_loop
unzip_loop_iff at_end [] total files lf lt =
    (λ h. (ground arith, tt, omega arith, omega arith), λ q. ground (arith, q.0))
unzip_loop_iff at_end (h ∷ hs) total files lf lt =
    let v = validate_tar_header_iff h total files in
    let step : Result HeaderError Bytes → Option UnzipError = λ r. elim r [
      | err e ↦ some (invalid e)
      | ok _ ↦ unzip_loop at_end hs (total + h.size) (files + 1)
    ] in
    elim (Result-cases (validate_tar_header h total files)) [
      | inl (e, x) ↦ (
        λ p. absurd (cc (sym (ap step x) ∙ p)),
        λ q. let (n, y) = v.1 (q.1.0, omega (arith, q.2), omega (arith, q.3)) in absurd (cc (x, y)),
      )
      | inr (n, x) ↦
          let (safe, fits, few) = v.0 (n, x) in
          let rest = unzip_loop_iff at_end hs (total + h.size) (files + 1) few fits in
          (
            λ p.
                let (at, all, sum, count) = rest.0 (sym (ap step x) ∙ p) in
                (at, (safe, all), omega (arith, sum), omega (arith, count)),
            λ q. ap step x ∙ rest.1 (q.0, q.1.1, omega (arith, q.2), omega (arith, q.3)),
          )
    ]

-- An archive is accepted exactly when it is a gzip stream whose entries end without an error, each of
-- them a file or a directory whose cleaned name is not empty, relative and without `..` or a null byte,
-- with sizes of at most 1 MiB together and at most ten entries.
pub unzip_iff :
    (gzip_ok at_end : Bool) (hs : List Header)
    → (unzip gzip_ok at_end hs ≡ none) ↔ (
        (gzip_ok ≡ true)
        × (at_end ≡ true)
        × All IsSafeHeader hs
        × (sum_sizes hs ≤ max_total_size)
        × (length hs ≤ max_files))
unfolding unzip
unzip_iff false at_end hs = (λ h. cc, λ q. cc (q.0))
unzip_iff true at_end hs =
    let rest = unzip_loop_iff at_end hs 0 0 (omega arith) (omega arith) in
    (
      λ h.
          let (at, all, sum, count) = rest.0 h in
          (refl, at, all, omega (arith, sum), omega (arith, count)),
      λ q. rest.1 (q.1, q.2, omega (arith, q.3), omega (arith, q.4)),
    )
