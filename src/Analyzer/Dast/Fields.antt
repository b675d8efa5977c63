-- ===== src/Analyzer/Dast/Fields.antt =====
-- internal/analyzer/dast/helpers.go: the parts of one line of the trace.
use oblak.Prelude.{
  ltb, ◌==◌, if◌then◌else◌, take, drop, ℕ, suc, ◌+◌, Bool, true, false, ◌&&◌, ◌||◌, Option, none,
  some, List, [], ◌∷◌, ◌++◌,
}
use oblak.Text.{Bytes, codes, bytes_eq, has_prefix, contains}
use oblak.Analyzer.Dast.Search.{index_byte, index_str, contains_str, trim_space}

-- The text up to the first byte that ends it.
abbrev pub until : (ℕ → Bool) → Bytes → Bytes
until ends [] = []
until ends (c ∷ s) = if ends c then [] else c ∷ until ends s

-- len(line) > 9 behind the space, and colons where a clock has them.
unfoldable pub is_clock : Bytes → Bool
is_clock (h ∷ h' ∷ c ∷ m ∷ m' ∷ d ∷ s ∷ s' ∷ e ∷ rest) = c == b':' && d == b':'
is_clock _ = false

unfoldable pub extract_timestamp : Bytes → Bytes
extract_timestamp [] = []
extract_timestamp (c ∷ s) =
    if c == b' ' && is_clock s then until (λ d. d == b' ') s else extract_timestamp s

-- The position of the last "] ".
unfoldable pub last_bracket : Bytes → Option ℕ
last_bracket [] = none
last_bracket (c ∷ s) = elim (last_bracket s) [
  | some i ↦ some (suc i)
  | none ↦ if c == b']' && has_prefix s (codes " ") then some 0 else none
]

behind_mark : Bytes → Option ℕ → Bytes
behind_mark rest none = []
behind_mark rest (some x) = drop (x + 3) rest

behind_bracket : Bytes → Option ℕ → Bytes
unfolding behind_mark
behind_bracket line none = []
behind_bracket line (some i) =
    let rest = drop (i + 2) line in behind_mark rest (index_str rest (codes " X "))

unfoldable pub extract_body : Bytes → Bytes
unfolding behind_bracket
extract_body line = behind_bracket line (last_bracket line)

-- The byte 34 is the double quote.
abbrev ends_path : ℕ → Bool
ends_path c = c == b',' || c == b')' || c == b' ' || c == 34 || c == b'}'

unfoldable pub extract_path : Bytes → Bytes
extract_path [] = []
extract_path (c ∷ s) = if c == b'/' then until ends_path (c ∷ s) else extract_path s

abbrev markers : List Bytes
markers =
    codes "O_RDONLY"
    ∷ codes "O_WRONLY"
    ∷ codes "O_RDWR"
    ∷ codes "O_CREAT"
    ∷ codes "O_EXCL"
    ∷ codes "O_TRUNC"
    ∷ codes "O_APPEND"
    ∷ []

abbrev add_marker : Bytes → Bytes → Bytes
add_marker [] m = m
add_marker (c ∷ s) m = (c ∷ s) ++ (codes "|" ++ m)

add_markers : Bytes → Bytes → List Bytes → Bytes
add_markers args result [] = result
add_markers args result (m ∷ ms) =
    add_markers args (if contains_str args m then add_marker result m else result) ms

unfoldable pub extract_flags : Bytes → Bytes
unfolding add_markers
extract_flags args = add_markers args [] markers

abbrev first_of : Option ℕ → Option ℕ → Option ℕ
first_of none o = o
first_of (some i) o = some i

abbrev trimmed_to : Bytes → Option ℕ → Bytes
trimmed_to rest none = rest
trimmed_to rest (some end) = trim_space (take end rest)

port_text : Bytes → Option ℕ → Bytes
port_text pr none = []
port_text pr (some pend) = codes ":" ++ trim_space (take pend pr)

port_of : Bytes → Option ℕ → Bytes
unfolding port_text
port_of args none = []
port_of args (some i) = let pr = drop (i + 6) args in port_text pr (index_byte pr b'}')

address_of : Bytes → Option ℕ → Bytes
unfolding port_of
address_of args none = []
address_of args (some i) =
    let rest = drop (i + 6) args in
    let addr = trimmed_to rest (first_of (index_byte rest b',') (index_byte rest b'}')) in
    addr ++ port_of args (index_str args (codes "Port: "))

unfoldable pub extract_net_detail : Bytes → Bytes
unfolding address_of
extract_net_detail args = address_of args (index_str args (codes "Addr: "))

argv_to : Bytes → Option ℕ → Bytes
argv_to rest none = []
argv_to rest (some end) = take (end + 1) rest

argv_of : Bytes → Option ℕ → Bytes
unfolding argv_to
argv_of args none = []
argv_of args (some start) = let rest = drop start args in argv_to rest (index_byte rest b']')

unfoldable pub extract_exec_args : Bytes → Bytes
unfolding argv_of
extract_exec_args args = argv_of args (index_byte args b'[')

-- The result of a call: the text behind the first " = ", without a note in parentheses.
unfoldable pub ret_text : Bytes → Option ℕ → Bytes
ret_text ret none = ret
ret_text ret (some ti) = trim_space (take ti ret)

ret_of : Bytes → Option ℕ → Bytes
unfolding ret_text
ret_of body none = []
ret_of body (some eq) = let ret = drop (eq + 3) body in ret_text ret (index_byte ret b'(')

unfoldable pub return_value : Bytes → Bytes
unfolding ret_of
return_value body = ret_of body (index_str body (codes " = "))

-- a < b, byte by byte.
unfoldable pub timestamp_before : Bytes → Bytes → Bool
timestamp_before s [] = false
timestamp_before [] (d ∷ t) = true
timestamp_before (c ∷ s) (d ∷ t) = ltb c d || (c == d && timestamp_before s t)

unfoldable pub is_one_of : Bytes → List Bytes → Bool
is_one_of s [] = false
is_one_of s (t ∷ ts) = bytes_eq s t || is_one_of s ts

abbrev contains_one_of : Bytes → List Bytes → Bool
contains_one_of s [] = false
contains_one_of s (t ∷ ts) = contains s t || contains_one_of s ts

abbrev starts_with_one_of : Bytes → List Bytes → Bool
starts_with_one_of s [] = false
starts_with_one_of s (t ∷ ts) = has_prefix s t || starts_with_one_of s ts

abbrev dull_paths : List Bytes
dull_paths =
    codes "/tmp/script.py" ∷ codes "script.py" ∷ [] ∷ codes "/" ∷ codes "/tmp" ∷ codes "/tmp/" ∷ []

abbrev dull_trees : List Bytes
dull_trees = codes "/usr/local/" ∷ codes "/usr/lib/" ∷ codes "/root/.local/" ∷ []

abbrev noisy_substrings : List Bytes
noisy_substrings =
    codes "__pycache__"
    ∷ codes ".pyc"
    ∷ codes "pyvenv.cfg"
    ∷ codes "pybuilddir.txt"
    ∷ codes "Setup.local"
    ∷ codes "python311.zip"
    ∷ codes "/etc/localtime"
    ∷ []

unfoldable pub is_noisy_fs_path : Bytes → Bool
unfolding is_one_of
is_noisy_fs_path path =
    is_one_of path dull_paths
    || starts_with_one_of path dull_trees
    || contains_one_of path noisy_substrings
