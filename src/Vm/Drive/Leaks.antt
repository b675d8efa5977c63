-- ===== src/Vm/Drive/Leaks.antt =====
-- Which temporary files a drive leaves behind.
use mathlib.Core.Path.{subst}
use oblak.Prelude.{
  if_both, if_false, if_true, Bool-cases, length, All, ℕ, ◌+◌, ◌≤◌, ◌<◌, ◌≡◌, refl, sym, ap, ◌∙◌,
  ◌↔◌, inl, inr, Bool, true, false, not, ◌&&◌, Option, none, some, List, [], ◌∷◌, arith,
}
use oblak.Vm.Drive.{
  Host, DriveMount, Calls, create_temp, remove_file, remove, temp_drive, minio_drive,
  create_blank_ext4, as_drive, minio_upload_drive, ephemeral_drive, pack_image, archive_drive,
}

-- No file that is still to be created is one that cannot be removed.
abbrev pub IsRemovable : ℕ → (ℕ → Bool) → Type 0
IsRemovable n stuck = (p : ℕ) → n ≤ p → stuck p ≡ false

-- The names that are taken are older than the next one, and new files can be removed.
abbrev pub IsFresh : Host → Type 0
IsFresh h = All (λ f. f < h.next) h.files × IsRemovable h.next h.stuck

pub removed-files :
    (p : ℕ) (h : Host) → h.stuck p ≡ false → (remove p h).files ≡ remove_file p h.files
unfolding remove
removed-files p h e = if_false _ _ e

later-IsRemovable :
    (h h' : Host)
    → h.next ≤ h'.next
    → h'.stuck ≡ h.stuck
    → IsRemovable h.next h.stuck
    → IsRemovable h'.next h'.stuck
later-IsRemovable h h' n e k p le = ap (λ g. g p) e ∙ k p (omega arith)

remove_file-older : (p : ℕ) (files : List ℕ) → All (λ f. f < p) files → remove_file p files ≡ files
unfolding remove_file
remove_file-older p [] h = refl
remove_file-older p (q ∷ files) h = ground (arith, remove_file-older p files h.1)

pub older : (n m : ℕ) (files : List ℕ) → n ≤ m → All (λ f. f < n) files → All (λ f. f < m) files
older n m [] le h = tt
older n m (f ∷ files) le h = (omega (arith, h.0), older n m files le h.1)

-- Where there is a drive, its own file is on the host besides the files that were there; where there
-- is none, the files are those that were there.
abbrev pub OwnFile : Host → Host → Option DriveMount → Type 0
OwnFile h h' none = h'.files ≡ h.files
OwnFile h h' (some d) =
    (p : ℕ) × (d.path ≡ some p)
    × (d.can_clean_up ≡ true)
    × (h.next ≤ p)
    × (p < h'.next)
    × (h'.files ≡ p ∷ h.files)

pub record Owns (h : Host) (r : Host × Option DriveMount) : Type 0 where
  pub fresh : IsFresh h → IsFresh r.0
  pub later : h.next ≤ r.0.next
  pub same : (r.0.stuck ≡ h.stuck) × (r.0.vm_logs ≡ h.vm_logs)
  pub own : IsFresh h → OwnFile h r.0 r.1

-- Removing the newest files leaves the rest as it was.
pub remove_newest :
    (p : ℕ) (files : List ℕ) → All (λ f. f < p) files → remove_file p (p ∷ files) ≡ files
unfolding remove_file
remove_newest p files h = ground (arith, remove_file-older p files h)

remove_below :
    (p q : ℕ) (files : List ℕ) → p < q → remove_file p (q ∷ files) ≡ q ∷ remove_file p files
unfolding remove_file
remove_below p q files h = ground arith

Owns-none :
    (h h' : Host)
    → h.next ≤ h'.next
    → (h'.stuck ≡ h.stuck) × (h'.vm_logs ≡ h.vm_logs)
    → (IsFresh h → h'.files ≡ h.files)
    → Owns h (h', none)
Owns-none h h' n e f = record {
  fresh = λ k. (
    subst (All (λ x. x < h'.next)) (sym (f k)) (older h.next h'.next h.files (omega arith) k.0),
    later-IsRemovable h h' n e.0 k.1,
  );
  later = omega arith;
  same = e;
  own = f;
}

Owns-same : (h : Host) → Owns h (h, none)
Owns-same h = record { fresh = λ k. k; later = omega arith; same = (refl, refl); own = λ k. refl }

Owns-new :
    (h : Host) (d : DriveMount)
    → d.path ≡ some h.next
    → d.can_clean_up ≡ true
    → Owns h (create_temp h, some d)
Owns-new h d p c = record {
  fresh = λ k. (
    (omega arith, older h.next (h.next + 1) h.files (omega arith) k.0),
    later-IsRemovable h (create_temp h) (omega arith) refl k.1,
  );
  later = omega arith;
  same = (refl, refl);
  own = λ k. (h.next, p, c, omega arith, omega arith, refl);
}

Owns-removed : (h : Host) → Owns h (remove h.next (create_temp h), none)
unfolding remove
Owns-removed h =
    Owns-none h (remove h.next (create_temp h)) (omega arith) (refl, refl)
      (λ k.
        removed-files h.next (create_temp h) (k.1 h.next (omega arith))
        ∙ remove_newest h.next h.files k.0)

-- The drive for the dependencies of a run: where the new file can be closed, it leaves its own file
-- and nothing else.
pub minio_drive-Owns : (c : Calls) (h : Host) → c.close_ok ≡ true → Owns h (minio_drive c h)
unfolding minio_drive
minio_drive-Owns c h e =
    let same = Owns-same h in
    let removed = Owns-removed h in
    let new = Owns-new h (temp_drive h.next true false) refl refl in
    rw e (
      if_both (Owns h) (not c.create_ok) same
        (if_both (Owns h) (not c.fetch_ok) removed (if_both (Owns h) (not c.chmod_ok) removed new)))

blank-Owns :
    (save : Bool) (c : Calls) (h : Host)
    → Owns h ((create_blank_ext4 c h).0, as_drive save (create_blank_ext4 c h).1)
unfolding create_blank_ext4
blank-Owns save c h =
    let P = λ (r : Host × Option ℕ). Owns h (r.0, as_drive save r.1) in
    if_both P (not c.create_ok) (Owns-same h) (
      if_both P (not (c.close_ok && c.truncate_ok && c.format_ok && c.chmod_ok)) (Owns-removed h)
        (Owns-new h (temp_drive h.next false save) refl refl))

pack_image-Owns : (c : Calls) (h : Host) → Owns h (pack_image c h)
unfolding pack_image
pack_image-Owns c h = if_both (Owns h) (not c.image_ok) (Owns-same h) (
    if_both (Owns h) (not (c.image_close_ok && c.pack_ok && c.chmod_ok)) (Owns-removed h)
      (Owns-new h (temp_drive h.next true false) refl refl))

-- The two newest files of `h` go, whatever stands above them.
drop_two :
    (h : Host)
    → IsFresh h
    → remove_file h.next (remove_file (h.next + 1) (create_temp (create_temp h)).files) ≡ h.files
drop_two h k =
    rw
      (remove_newest (h.next + 1) (h.next ∷ h.files)
        (omega arith, older h.next (h.next + 1) h.files (omega arith) k.0))
      (remove_newest h.next h.files k.0)

two-IsFresh : (h : Host) → IsFresh h → IsFresh (create_temp (create_temp h))
two-IsFresh h k = (
  (omega arith, (omega arith, older h.next (h.next + 1 + 1) h.files (omega arith) k.0)),
  later-IsRemovable h (create_temp (create_temp h)) (omega arith) refl k.1,
)

-- A file above the two is kept.
drop_two_below :
    (h : Host) (p : ℕ)
    → IsFresh h
    → h.next + 1 < p
    → remove_file h.next (remove_file (h.next + 1) (p ∷ (create_temp (create_temp h)).files))
      ≡ p ∷ h.files
drop_two_below h p k lt =
    let n = h.next in
    let files = (create_temp (create_temp h)).files in
    ap (remove_file n) (remove_below (n + 1) p files lt)
    ∙ remove_below n p (remove_file (n + 1) files) (omega arith)
    ∙ ap (◌∷◌ p) (drop_two h k)

-- Both removals at the end of ArchiveDrive.
removed_two :
    (h h' : Host)
    → h'.stuck ≡ h.stuck
    → IsRemovable h.next h.stuck
    → (remove h.next (remove (h.next + 1) h')).files
      ≡ remove_file h.next (remove_file (h.next + 1) h'.files)
unfolding remove
removed_two h h' e k =
    let unstuck = λ (p : ℕ) (le : h.next ≤ p). ap (λ g. g p) e ∙ k p le in
    removed-files h.next (remove (h.next + 1) h') (unstuck h.next (omega arith))
    ∙ ap (remove_file h.next) (removed-files (h.next + 1) h' (unstuck (h.next + 1) (omega arith)))

archive_done :
    (h h' : Host) (drive : Option DriveMount)
    → Owns (create_temp (create_temp h)) (h', drive)
    → Owns h (remove h.next (remove (h.next + 1) h'), drive)
unfolding remove
archive_done h h' none o = Owns-none h _ (omega (arith, o.later)) o.same (λ k.
    removed_two h h' o.same.0 k.1
    ∙ ap (λ fs. remove_file h.next (remove_file (h.next + 1) fs)) (o.own (two-IsFresh h k))
    ∙ drop_two h k)
archive_done h h' (some d) o =
    let shrink = λ (fs : List ℕ). remove_file h.next (remove_file (h.next + 1) fs) in
    let own : IsFresh h → OwnFile h (remove h.next (remove (h.next + 1) h')) (some d) = λ k.
      let (p, path, c, lo, hi, fs) = o.own (two-IsFresh h k) in
      (
        p,
        path,
        c,
        omega arith,
        hi,
        removed_two h h' o.same.0 k.1 ∙ ap shrink fs ∙ drop_two_below h p k (omega arith),
      ) in
    record {
      fresh = λ k.
          let (p, path, c, lo, hi, fs) = own k in
          (
            subst (All (λ f. f < h'.next)) (sym fs)
                (hi, older h.next h'.next h.files (omega (arith, o.later)) k.0),
            later-IsRemovable h h' (omega (arith, o.later)) o.same.0 k.1,
          );
      later = omega (arith, o.later);
      same = o.same;
      own = own;
    }

archive_early :
    (h : Host) → Owns h (remove h.next (remove (h.next + 1) (create_temp (create_temp h))), none)
archive_early h =
    archive_done h (create_temp (create_temp h)) none (Owns-same (create_temp (create_temp h)))

-- The drives that are made by the program itself, for the code, for installed packages and for
-- scratch space, on a host whose names are older than the next one and on which the new files can be
-- removed: whichever other call fails, a drive that is returned leaves its own file on the host and
-- nothing else, and where an error is returned the host has the files that it had.
pub drives-Owns :
    (c : Calls) (h : Host)
    → Owns h (archive_drive c h) × Owns h (minio_upload_drive c h) × Owns h (ephemeral_drive c h)
unfolding archive_drive minio_upload_drive ephemeral_drive
drives-Owns c h = (
  if_both (Owns h) (not c.create_ok) (Owns-same h) (
      if_both (Owns h) (not (c.close_ok && c.fetch_ok && c.extract_dir_ok)) (Owns-removed h) (
        if_both (Owns h) (not (c.untar_ok && c.widen_ok)) (archive_early h) (
          archive_done h _ (pack_image c (create_temp (create_temp h))).1
            (pack_image-Owns c (create_temp (create_temp h)))))),
  blank-Owns true c h,
  blank-Owns false c h,
)

leaked-not-Owns : (h h' : Host) → IsFresh h → h'.files ≡ h.next ∷ h.files → Owns h (h', none) → ⊥
leaked-not-Owns h h' k e o = let grown = ap length (sym e ∙ o.own k) in omega arith

-- Where the file for the dependency drive is created on a host whose names are older than the next
-- one, the drive leaves its own file and nothing else, or no file without a drive, exactly when that
-- file can be closed.
pub minio_drive-Owns_iff :
    (c : Calls) (h : Host)
    → IsFresh h
    → c.create_ok ≡ true
    → Owns h (minio_drive c h) ↔ (c.close_ok ≡ true)
unfolding minio_drive
minio_drive-Owns_iff c h k a = (
  λ o. elim (Bool-cases c.close_ok) [
    | inl e ↦ e
    | inr e ↦
        let stuck : minio_drive c h ≡ (create_temp h, none) =
          if_false _ _ (ap not a) ∙ if_true _ _ (ap not e) in
        absurd (leaked-not-Owns h (create_temp h) k refl (subst (Owns h) stuck o))
  ],
  minio_drive-Owns c h,
)
