-- ===== src/Examples/Archives.antt =====
-- The extraction of an archive and the antivirus at concrete inputs.
use oblak.Prelude.{ℕ, ◌≡◌, refl, true, none, some, List, [], ◌∷◌}
use oblak.Text.{Bytes, codes, bytes_eq, has_prefix, split, join}
use oblak.FilePath.{is_abs, push, clean, join_path, dir}
use oblak.Analyzer.Clam.{ResStatus, res_ok, res_found}
use oblak.Analyzer.Unzipper.{
  traversal, type_reg, Entry, Stream, eof, next, Archive, is_inside, extract, extract_entry,
}
use oblak.Analyzer.Unzipper.Bounds.{IsConfined, extract-IsConfined, regular_bytes}

abbrev regular : Bytes → ℕ → Entry
regular name size = record {
  name = name;
  typeflag = type_reg;
  size = size;
  mkdir_ok = true;
  create_ok = true;
  copy_ok = true;
}

abbrev opened : Stream → Archive
opened s = record { open_ok = true; gzip_ok = true; mkdir_ok = true; stream = s }

abbrev pub honest : Archive
honest = opened (next (regular (codes "a/main.py") 10) (next (regular (codes "b.txt") 20) eof))

-- A path that climbs out of the target, behind a good file.
abbrev climbing : Archive
climbing =
    opened (next (regular (codes "main.py") 10) (next (regular (codes "../../etc/passwd") 20) eof))

abbrev tmp : Bytes
tmp = codes "/t/x"

honest_test :
    ((extract 100 honest tmp).1 ≡ none)
    × ((extract 100 honest tmp).0.total ≡ 30)
    × (regular_bytes honest.stream ≡ 30)
unfolding extract extract_entry clean join_path push bytes_eq split join is_abs has_prefix is_inside
    dir
honest_test = (refl, refl, refl)

climbing_test : (extract 100 climbing tmp).1 ≡ some traversal
unfolding extract extract_entry clean join_path push bytes_eq split join is_abs has_prefix is_inside
    dir
climbing_test = refl

tmp_rooted : is_abs tmp ≡ true
unfolding is_abs
tmp_rooted = refl

extract-IsConfined_example : IsConfined (clean tmp) 100 (extract 100 climbing tmp).0
extract-IsConfined_example = extract-IsConfined 100 climbing tmp tmp_rooted

abbrev results : List ResStatus
results = res_ok ∷ res_found ∷ res_ok ∷ []
