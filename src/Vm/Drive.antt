-- ===== src/Vm/Drive.antt =====
-- internal/vm/vm/drive.go: the drives of a virtual machine, as the temporary files that they leave on
-- the host. Every call of the operating system, of MinIO and of a program may fail.
pub mod Leaks
use oblak.Prelude.{
  ◌==◌, if◌then◌else◌, ℕ, ◌+◌, Bool, true, false, not, ◌&&◌, Option, none, some, List, [], ◌∷◌,
}

-- The temporary files and directories on the host; os.CreateTemp and os.MkdirTemp take a new name. The
-- names that are stuck are those that os.Remove and os.RemoveAll fail for, whose errors the code discards
-- or logs. `vm_logs` counts the files /tmp/vm-<id>.log.
pub record Host : Type 0 where
  pub files : List ℕ
  pub next : ℕ
  pub stuck : ℕ → Bool
  pub vm_logs : ℕ

pub record DriveMount : Type 0 where
  pub path : Option ℕ
  pub is_root_device : Bool
  pub is_read_only : Bool
  pub can_save : Bool
  pub can_clean_up : Bool

-- Whether each call that a drive makes succeeds, in the order of the calls.
pub record Calls : Type 0 where
  pub create_ok : Bool
  pub close_ok : Bool
  pub fetch_ok : Bool
  pub extract_dir_ok : Bool
  pub untar_ok : Bool
  pub widen_ok : Bool
  pub image_ok : Bool
  pub image_close_ok : Bool
  pub pack_ok : Bool
  pub truncate_ok : Bool
  pub format_ok : Bool
  pub chmod_ok : Bool

abbrev pub create_temp : Host → Host
create_temp h = record h { files = h.next ∷ h.files; next = h.next + 1 }

-- The other files.
unfoldable pub remove_file : ℕ → List ℕ → List ℕ
remove_file p [] = []
remove_file p (q ∷ files) = let rest = remove_file p files in if q == p then rest else q ∷ rest

-- os.Remove and os.RemoveAll
unfoldable pub remove : ℕ → Host → Host
unfolding remove_file
remove p h = record h { files = if h.stuck p then h.files else remove_file p h.files }

abbrev pub root_drive : DriveMount
root_drive = record {
  path = none;
  is_root_device = true;
  is_read_only = true;
  can_save = false;
  can_clean_up = false;
}

abbrev temp_drive : ℕ → Bool → Bool → DriveMount
temp_drive p read_only save = record {
  path = some p;
  is_root_device = false;
  is_read_only = read_only;
  can_save = save;
  can_clean_up = true;
}

unfoldable pub minio_drive : Calls → Host → Host × Option DriveMount
unfolding remove
minio_drive c h =
    let p = h.next in
    let created = create_temp h in
    if not c.create_ok
    then (h, none)
    else if not c.close_ok
    then (created, none)
    else if not c.fetch_ok
    then (remove p created, none)
    else if not c.chmod_ok
    then (remove p created, none)
    else (created, some (temp_drive p true false))

-- createBlankExt4
unfoldable pub create_blank_ext4 : Calls → Host → Host × Option ℕ
unfolding remove
create_blank_ext4 c h =
    let p = h.next in
    let created = create_temp h in
    if not c.create_ok
    then (h, none)
    else if not (c.close_ok && c.truncate_ok && c.format_ok && c.chmod_ok)
    then (remove p created, none)
    else (created, some p)

abbrev as_drive : Bool → Option ℕ → Option DriveMount
as_drive save none = none
as_drive save (some p) = some (temp_drive p false save)

unfoldable pub minio_upload_drive : Calls → Host → Host × Option DriveMount
unfolding create_blank_ext4
minio_upload_drive c h = let (h', p) = create_blank_ext4 c h in (h', as_drive true p)

unfoldable pub ephemeral_drive : Calls → Host → Host × Option DriveMount
unfolding create_blank_ext4
ephemeral_drive c h = let (h', p) = create_blank_ext4 c h in (h', as_drive false p)

-- From the extracted archive on: the image file, packed and made readable.
pack_image : Calls → Host → Host × Option DriveMount
unfolding remove
pack_image c h =
    let p = h.next in
    let created = create_temp h in
    if not c.image_ok
    then (h, none)
    else if not (c.image_close_ok && c.pack_ok && c.chmod_ok)
    then (remove p created, none)
    else (created, some (temp_drive p true false))

-- The deferred removals of the archive and of the extracted directory come last.
unfoldable pub archive_drive : Calls → Host → Host × Option DriveMount
unfolding remove pack_image
archive_drive c h =
    let tgz = h.next in
    let fetched = create_temp h in
    let directory = fetched.next in
    let extracted = create_temp fetched in
    let (packed, drive) = pack_image c extracted in
    if not c.create_ok
    then (h, none)
    else if not (c.close_ok && c.fetch_ok && c.extract_dir_ok)
    then (remove tgz fetched, none)
    else if not (c.untar_ok && c.widen_ok)
    then (remove tgz (remove directory extracted), none)
    else (remove tgz (remove directory packed), drive)

-- The Cleanup callback of a drive.
unfoldable pub clean_up : DriveMount → Host → Host
unfolding remove
clean_up d h = elim d.path [ none ↦ h | some p ↦ if d.can_clean_up then remove p h else h ]
