-- ===== src/Analyzer/Unzipper.antt =====
-- internal/analyzer/orchestrator/unzipper.go: unpacking the uploaded archive for the analysis.
pub mod Bounds
use Prim.Native.Nat.{max}
use oblak.Prelude.{
  leb, if◌then◌else◌, ℕ, zero, suc, ◌+◌, ◌-◌, ◌*◌, Bool, not, ◌||◌, Option, none, some, List, [],
  ◌∷◌, ◌++◌,
}
use oblak.Text.{Bytes, bytes_eq, has_prefix}
use oblak.FilePath.{slash, clean, join_path, dir}

pub data UnzipError : Type 0 where
  open_failed bad_gzip mkdir_failed malformed traversal create_failed copy_failed exhausted :
      UnzipError

pub data Typeflag : Type 0 where
  type_reg type_dir type_other : Typeflag

-- One entry as tar.Reader gives it, with whether the operating system does what is asked of it for
-- this entry. `size` counts the bytes that the reader yields.
pub record Entry : Type 0 where
  pub name : Bytes
  pub typeflag : Typeflag
  pub size : ℕ
  pub mkdir_ok : Bool
  pub create_ok : Bool
  pub copy_ok : Bool

-- The entries up to io.EOF or up to an error of the reader.
pub data Stream : Type 0 where
  eof broken : Stream
  next : Entry → Stream → Stream

pub record Archive : Type 0 where
  pub open_ok : Bool
  pub gzip_ok : Bool
  pub mkdir_ok : Bool
  pub stream : Stream

-- What the extraction has put on the disk: directories, and files with the bytes written to them.
pub record Disk : Type 0 where
  pub dirs : List Bytes
  pub files : List (Bytes × ℕ)
  pub total : ℕ

abbrev pub default_max_bytes : ℕ
default_max_bytes = 50 * 1024 * 1024

-- NewUnzipper: `none` stands for a size that is not positive.
abbrev pub new_unzipper : Option ℕ → ℕ
new_unzipper none = default_max_bytes
new_unzipper (some zero) = default_max_bytes
new_unzipper (some (suc n)) = suc n

-- The guard on the joined path.
unfoldable pub is_inside : Bytes → Bytes → Bool
is_inside base path = has_prefix path (base ++ slash ∷ []) || bytes_eq path base

abbrev pub add_dir : Bytes → Disk → Disk
add_dir path d = record d { dirs = path ∷ d.dirs }

-- io.Copy from io.LimitReader: at most `cap` bytes are written.
abbrev written : ℕ → ℕ → ℕ
written cap size = if leb size cap then size else cap

abbrev pub put_file : Bytes → ℕ → Disk → Disk
put_file path n d = record d { files = (path, n) ∷ d.files; total = d.total + n }

-- `case tar.TypeReg`
write_file : ℕ → Entry → Bytes → Disk → Disk × Option UnzipError
write_file max e path d =
    let d1 = add_dir (dir path) d in
    let d2 = put_file path (written (max - d.total) e.size) d1 in
    if not e.mkdir_ok
    then (d, some mkdir_failed)
    else if not e.create_ok
    then (d1, some create_failed)
    else if not e.copy_ok
    then (d2, some copy_failed)
    else if leb max d2.total
    then (d2, some exhausted)
    else (d2, none)

abbrev place : ℕ → Entry → Typeflag → Bytes → Disk → Disk × Option UnzipError
place max e type_dir path d = if e.mkdir_ok then (add_dir path d, none) else (d, some mkdir_failed)
place max e type_reg path d = write_file max e path d
place max e type_other path d = (d, none)

-- One round of the loop.
unfoldable pub extract_entry : ℕ → Bytes → Entry → Disk → Disk × Option UnzipError
unfolding write_file
extract_entry max base e d =
    let path = join_path base (clean e.name) in
    if not (is_inside base path) then (d, some traversal) else place max e e.typeflag path d

extract_loop : ℕ → Bytes → Stream → Disk → Disk × Option UnzipError
extract_loop max base eof d = (d, none)
extract_loop max base broken d = (d, some malformed)
extract_loop max base (next e s) d =
    let (d', stop) = extract_entry max base e d in
    elim stop [ some x ↦ (d', some x) | none ↦ extract_loop max base s d' ]

abbrev pub empty_disk : Disk
empty_disk = record { dirs = []; files = []; total = 0 }

unfoldable pub extract : ℕ → Archive → Bytes → Disk × Option UnzipError
unfolding extract_loop
extract max a target =
    let base = clean target in
    if not a.open_ok
    then (empty_disk, some open_failed)
    else if not a.gzip_ok
    then (empty_disk, some bad_gzip)
    else if not a.mkdir_ok
    then (empty_disk, some mkdir_failed)
    else extract_loop max base a.stream (add_dir base empty_disk)
