-- ===== src/Analyzer/Unzipper/Bounds.antt =====
-- Where an extraction writes, and how much.
use Prim.Native.Nat.{max}
use oblak.Prelude.{
  Bool-cases, All, ℕ, ◌+◌, ◌≤◌, ◌≡◌, ◌⊎◌, inl, inr, true, List, [], ◌∷◌, ◌++◌, ◌-◌, arith, leb,
  if_both, Option-cases, ◌<◌, refl, not, Option, none,
}
use oblak.Text.{Bytes, bytes_eq_iff, has_prefix}
use oblak.FilePath.{slash, is_abs, join_path, dir, clean}
use oblak.FilePath.Inside.{IsBelow, join_path-IsBelow, clean-is_abs}
use oblak.Analyzer.Unzipper.{
  Typeflag, Entry, Disk, is_inside, type_reg, type_dir, type_other, add_dir, written, put_file,
  write_file, place, UnzipError, Stream, eof, broken, next, Archive, extract_entry, extract_loop,
  empty_disk, extract,
}

-- The bytes that the files of a disk hold.
abbrev pub sum_sizes : List (Bytes × ℕ) → ℕ
sum_sizes [] = 0
sum_sizes (f ∷ fs) = f.1 + sum_sizes fs

-- A path that names the base itself or something below it.
abbrev pub IsWithin : Bytes → Bytes → Type 0
IsWithin base path = IsBelow base path ⊎ (path ≡ base)

pub record IsConfined (base : Bytes) (max : ℕ) (d : Disk) : Type 0 where
  pub within : All (λ f. IsWithin base f.0) d.files
  pub counted : sum_sizes d.files ≡ d.total
  pub bounded : d.total ≤ max

is_inside-IsWithin :
    (base name : Bytes)
    → is_abs base ≡ true
    → is_inside base (join_path base name) ≡ true
    → IsWithin base (join_path base name)
unfolding is_inside
is_inside-IsWithin base name h p =
    elim (Bool-cases (has_prefix (join_path base name) (base ++ slash ∷ []))) [
      | inl e ↦ inl (join_path-IsBelow base name h e)
      | inr e ↦ inr ((bytes_eq_iff _ _).0 (rw e at p))
    ]

module _ (max : ℕ) (base : Bytes) where
  put_file-IsConfined :
      (path : Bytes) (n : ℕ) (d : Disk)
      → IsWithin base path
      → d.total + n ≤ max
      → IsConfined base max d
      → IsConfined base max (put_file path n d)
  put_file-IsConfined path n d w fits c = record {
    within = (w, c.within);
    counted = omega (arith, c.counted);
    bounded = fits;
  }

  add_dir-IsConfined :
      (path : Bytes) (d : Disk) → IsConfined base max d → IsConfined base max (add_dir path d)
  add_dir-IsConfined path d c = record {
    within = c.within;
    counted = c.counted;
    bounded = c.bounded;
  }

  written-le : (cap size : ℕ) → written cap size ≤ cap
  written-le cap size = ground arith

  write_file-IsConfined :
      (e : Entry) (path : Bytes) (d : Disk)
      → IsWithin base path
      → IsConfined base max d
      → IsConfined base max (write_file max e path d).0
  unfolding write_file
  write_file-IsConfined e path d w c =
      let c1 = add_dir-IsConfined (dir path) d c in
      let n = written (max - d.total) e.size in
      let fits : d.total + n ≤ max = omega (arith, written-le (max - d.total) e.size, c.bounded) in
      let c2 = put_file-IsConfined path n (add_dir (dir path) d) w fits c1 in
      let P = λ (r : Disk × Option UnzipError). IsConfined base max r.0 in
      if_both P (not e.mkdir_ok) c (
        if_both P (not e.create_ok) c1
          (if_both P (not e.copy_ok) c2 (if_both P (leb max (d.total + n)) c2 c2)))

  place-IsConfined :
      (e : Entry) (k : Typeflag) (path : Bytes) (d : Disk)
      → IsWithin base path
      → IsConfined base max d
      → IsConfined base max (place max e k path d).0
  place-IsConfined e type_reg path d w c = write_file-IsConfined e path d w c
  place-IsConfined e type_dir path d w c = elim (Bool-cases e.mkdir_ok) [
    | inl y ↦ rw y (add_dir-IsConfined path d c)
    | inr y ↦ rw y c
  ]
  place-IsConfined e type_other path d w c = c

  module _ (rooted : is_abs base ≡ true) where
    extract_entry-IsConfined :
        (e : Entry) (d : Disk)
        → IsConfined base max d
        → IsConfined base max (extract_entry max base e d).0
    unfolding extract_entry
    extract_entry-IsConfined e d c =
        let path = join_path base (clean e.name) in
        elim (Bool-cases (is_inside base path)) [
          | inl y ↦ rw y (
              place-IsConfined e e.typeflag path d (is_inside-IsWithin base (clean e.name) rooted y)
                c)
          | inr y ↦ rw y c
        ]

    extract_loop-IsConfined :
        (s : Stream) (d : Disk)
        → IsConfined base max d
        → IsConfined base max (extract_loop max base s d).0
    unfolding extract_loop
    extract_loop-IsConfined eof d c = c
    extract_loop-IsConfined broken d c = c
    extract_loop-IsConfined (next e s) d c =
        let c' = extract_entry-IsConfined e d c in
        elim (Option-cases (extract_entry max base e d).1) [
          | inl y ↦
              rw (y, extract_loop) (extract_loop-IsConfined s (extract_entry max base e d).0 c')
          | inr (x, y) ↦ rw (y, extract_loop) c'
        ]

start-IsConfined : (base : Bytes) (max : ℕ) → IsConfined base max empty_disk
start-IsConfined base max = record { within = tt; counted = refl; bounded = omega arith }

-- Whatever the archive holds and wherever the extraction stops, each file that it has written is
-- at the cleaned target directory or below it, with no `..` on the way, and the files together
-- hold at most the allowed number of bytes. The target is an absolute path.
pub extract-IsConfined :
    (max : ℕ) (a : Archive) (target : Bytes)
    → is_abs target ≡ true
    → IsConfined (clean target) max (extract max a target).0
unfolding extract
extract-IsConfined max a target rooted =
    let base = clean target in
    let c = start-IsConfined base max in
    let P = λ (r : Disk × Option UnzipError). IsConfined base max r.0 in
    if_both P (not a.open_ok) c (
      if_both P (not a.gzip_ok) c (
        if_both P (not a.mkdir_ok) c (
          extract_loop-IsConfined max base (clean-is_abs target rooted) a.stream
            (add_dir base empty_disk) (add_dir-IsConfined max base base empty_disk c))))

-- The sizes of the regular files of a stream.
abbrev pub regular_bytes : Stream → ℕ
regular_bytes eof = 0
regular_bytes broken = 0
regular_bytes (next e s) = (elim e.typeflag [ type_reg ↦ e.size | _ ↦ 0 ]) + regular_bytes s

extract_entry-total :
    (max : ℕ) (base : Bytes) (e : Entry) (d : Disk)
    → (extract_entry max base e d).1 ≡ none
    → d.total < max
    → ((extract_entry max base e d).0.total
        ≡ d.total + (elim e.typeflag [ type_reg ↦ e.size | _ ↦ 0 ]))
      × ((extract_entry max base e d).0.total < max)
unfolding extract_entry
extract_entry-total max base e d h lt = ground arith

extract_loop-total :
    (max : ℕ) (base : Bytes) (s : Stream) (d : Disk)
    → (extract_loop max base s d).1 ≡ none
    → d.total < max
    → ((extract_loop max base s d).0.total ≡ d.total + regular_bytes s)
      × ((extract_loop max base s d).0.total < max)
unfolding extract_loop
extract_loop-total max base eof d h lt = (omega arith, lt)
extract_loop-total max base broken d h lt = cc
extract_loop-total max base (next e s) d h lt = elim (Option-cases (extract_entry max base e d).1) [
  | inl y ↦
      let step = extract_entry-total max base e d y lt in
      let d' = (extract_entry max base e d).0 in
      let rest = extract_loop-total max base s d' (rw (y, extract_loop) at h) step.1 in
      rw (y, extract_loop) (omega (arith, step.0, rest.0), rest.1)
  | inr (x, y) ↦ cc (rw (y, extract_loop) at h)
]

-- An extraction that reports no error has written every regular file of the archive in full, and
-- their bytes together stay below the allowed number.
pub extract_complete :
    (max : ℕ) (a : Archive) (target : Bytes)
    → 0 < max
    → (extract max a target).1 ≡ none
    → ((extract max a target).0.total ≡ regular_bytes a.stream) × (regular_bytes a.stream < max)
unfolding extract
extract_complete max a target pos h =
    ground
      (arith, extract_loop-total max (clean target) a.stream (add_dir (clean target) empty_disk))
