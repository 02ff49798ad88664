-- ===== src/Shell/Parse.antt =====
-- `parseline` of shlab/tsh.c: how a command line becomes arguments.
use cs_app_labs.Prelude.{
  ℕ, zero, suc, Bool, true, false, Option, none, some, List, [], ◌∷◌, ltb, ◌==◌, if◌then◌else◌,
  length, ◌>>=◌,
}

abbrev pub max_line : ℕ
max_line = 1024

abbrev pub max_args : ℕ
max_args = 128

-- `while (*buf && (*buf == ' ')) buf++`.
unfoldable pub skip_spaces : List ℕ → List ℕ
skip_spaces [] = []
skip_spaces (c ∷ cs) = let rest = skip_spaces cs in if c == b' ' then rest else c ∷ cs

abbrev pub before : ℕ → Option (List ℕ × List ℕ) → Option (List ℕ × List ℕ)
before c none = none
before c (some (arg, rest)) = some (c ∷ arg, rest)

-- `strchr`: what stands before the delimiter, and behind it; `none` is `NULL`.
unfoldable pub split_at : ℕ → List ℕ → Option (List ℕ × List ℕ)
split_at delim [] = none
split_at delim (c ∷ cs) =
    let rest = split_at delim cs in if c == delim then some ([], cs) else before c rest

-- The choice of the delimiter.
unfoldable pub next_argument : List ℕ → Option (List ℕ × List ℕ)
unfolding split_at
next_argument [] = none
next_argument (c ∷ cs) = if c == b'\'' then split_at b'\'' cs else split_at b' ' (c ∷ cs)

abbrev pub with_argument : List ℕ → Option (List (List ℕ)) → Option (List (List ℕ))
with_argument arg none = none
with_argument arg (some args) = some (arg ∷ args)

-- The loop that builds `argv`, on fuel.
unfoldable pub build_argv : ℕ → List ℕ → Option (List (List ℕ))
unfolding next_argument
build_argv zero buf = none
build_argv (suc fuel) buf = elim (next_argument (skip_spaces buf)) [
  | none ↦ some []
  | some (arg, rest) ↦ with_argument arg (build_argv fuel rest)
]

-- `buf[strlen(buf) - 1] = ' '`; a line without characters has no last one.
unfoldable pub replace_last : List ℕ → Option (List ℕ)
replace_last [] = none
replace_last (c ∷ []) = some (b' ' ∷ [])
replace_last (c ∷ d ∷ cs) = replace_last (d ∷ cs) >>= (λ rest. some (c ∷ rest))

abbrev pub is_ampersand : List ℕ → Bool
is_ampersand [] = false
is_ampersand (c ∷ cs) = c == b'&'

-- The last argument decides whether the job runs in the background; its `&` is dropped.
unfoldable pub background : List (List ℕ) → Bool × List (List ℕ)
background [] = (true, [])
background (arg ∷ []) = if is_ampersand arg then (true, []) else (false, arg ∷ [])
background (arg ∷ next ∷ args) = let (bg, rest) = background (next ∷ args) in (bg, arg ∷ rest)

-- `strcpy(buf, cmdline)` into an array of `MAXLINE` characters.
unfoldable pub copy_line : List ℕ → Option (List ℕ)
copy_line cmdline = if ltb (length cmdline) max_line then some cmdline else none

-- `parseline`: what it returns, and `argv` up to `NULL`. `none` is an access outside the line, the
-- array that it is copied to, or `argv`, which has `MAXARGS` places.
unfoldable pub parseline : List ℕ → Option (Bool × List (List ℕ))
parseline cmdline = do
  copy ← copy_line cmdline
  buf ← replace_last copy
  argv ← build_argv (suc (length buf)) buf
  if ltb (length argv) max_args then some (background argv) else none
