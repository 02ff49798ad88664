-- ===== src/Shell/ParseLaws.antt =====
-- `parseline` of shlab/tsh.c reads back the arguments of a written command line, and always ends.
use mathlib.Core.List.{append_assoc}
use cs_app_labs.Prelude.{
  ℕ, zero, suc, ◌+◌, ◌<◌, ◌≤◌, ◌≡◌, refl, sym, ap, ◌∙◌, Bool, true, false, Option, none, some, List,
  [], ◌∷◌, ◌++◌, ltb, ◌==◌, if◌then◌else◌, length, length-append, length-map, map, All, arith,
  Bool-cases, inl, inr, lt→ltb,
}
use cs_app_labs.Shell.Parse.{
  max_line, copy_line, max_args, skip_spaces, split_at, next_argument, with_argument, build_argv,
  replace_last, is_ampersand, background, parseline,
}

-- An argument on a command line, as it is or between single quotes.
pub data Word : Type 0 where
  plain : List ℕ → Word
  quoted : List ℕ → Word

abbrev Lacks : ℕ → List ℕ → Type 0
Lacks d cs = All (λ c. (c == d) ≡ false) cs

-- A plain argument has no space and starts with a character that is no quote; a quoted one has no
-- quote.
abbrev pub IsWritable : Word → Type 0
IsWritable (plain []) = ⊥
IsWritable (plain (c ∷ cs)) = ((c == b'\'') ≡ false) × Lacks b' ' (c ∷ cs)
IsWritable (quoted cs) = Lacks b'\'' cs

abbrev pub text : Word → List ℕ
text (plain cs) = cs
text (quoted cs) = cs

abbrev pub print : Word → List ℕ
print (plain cs) = cs
print (quoted cs) = b'\'' ∷ cs ++ b'\'' ∷ []

-- The words with a space between them, and the end of the line.
abbrev pub line : List Word → Word → List ℕ
line [] last = print last ++ b'\n' ∷ []
line (w ∷ ws) last = print w ++ b' ' ∷ line ws last

-- The same with a space after each word.
abbrev sentence : List Word → List ℕ
sentence [] = []
sentence (w ∷ ws) = print w ++ b' ' ∷ sentence ws

split_at-found :
    (d : ℕ) (cs rest : List ℕ) → Lacks d cs → split_at d (cs ++ d ∷ rest) ≡ some (cs, rest)
unfolding split_at
split_at-found d [] rest h = let same : (d == d) ≡ true = ground arith in rw same refl
split_at-found d (c ∷ cs) rest h = rw (h.0, split_at-found d cs rest h.1) refl

replace_last-append :
    (xs : List ℕ) (c : ℕ) (cs ys : List ℕ)
    → replace_last (c ∷ cs) ≡ some ys
    → replace_last (xs ++ c ∷ cs) ≡ some (xs ++ ys)
unfolding replace_last
replace_last-append [] c cs ys h = h
replace_last-append (x ∷ []) c cs ys h = rw h refl
replace_last-append (x ∷ y ∷ xs) c cs ys h = rw (replace_last-append (y ∷ xs) c cs ys h) refl

append-cons :
    (xs : List ℕ) (c : ℕ) (cs : List ℕ) → (d : ℕ) × (ds : List ℕ) × (xs ++ c ∷ cs ≡ d ∷ ds)
append-cons [] c cs = (c, cs, refl)
append-cons (x ∷ xs) c cs = (x, xs ++ c ∷ cs, refl)

-- A line has a first character.
line-cons : (ws : List Word) (last : Word) → (c : ℕ) × (cs : List ℕ) × (line ws last ≡ c ∷ cs)
line-cons [] last = append-cons (print last) b'\n' []
line-cons (w ∷ ws) last = append-cons (print w) b' ' (line ws last)

replace_last-line :
    (ws : List Word) (last : Word) → replace_last (line ws last) ≡ some (sentence (ws ++ last ∷ []))
unfolding replace_last
replace_last-line [] last = replace_last-append (print last) b'\n' [] (b' ' ∷ []) refl
replace_last-line (w ∷ ws) last =
    let (c, cs, e) = line-cons ws last in
    let rest : replace_last (c ∷ cs) ≡ some (sentence (ws ++ last ∷ [])) =
      ap replace_last (sym e) ∙ replace_last-line ws last in
    let behind : replace_last (b' ' ∷ c ∷ cs) ≡ some (b' ' ∷ sentence (ws ++ last ∷ [])) =
      rw rest refl in
    rw e (replace_last-append (print w) b' ' (c ∷ cs) _ behind)

-- The first argument, and what is left: nothing, or the space behind a quote.
next_argument-word :
    (w : Word) (rest : List ℕ)
    → IsWritable w
    → (left : List ℕ) × (next_argument (skip_spaces (print w ++ b' ' ∷ rest)) ≡ some (text w, left))
      × (skip_spaces left ≡ skip_spaces rest)
unfolding skip_spaces next_argument
next_argument-word (plain []) rest h = absurd h
next_argument-word (plain (c ∷ cs)) rest (start, lacks) =
    (rest, rw (lacks.0, start) (split_at-found b' ' (c ∷ cs) rest lacks), refl)
next_argument-word (quoted cs) rest h = (
  b' ' ∷ rest,
  ap (split_at b'\'') (append_assoc cs (b'\'' ∷ []) (b' ' ∷ rest))
      ∙ split_at-found b'\'' cs (b' ' ∷ rest) h,
  refl,
)

-- The rest of the loop, from the next argument.
abbrev pub continue : ℕ → Option (List ℕ × List ℕ) → Option (List (List ℕ))
continue fuel none = some []
continue fuel (some (arg, rest)) = with_argument arg (build_argv fuel rest)

pub build_argv-suc :
    (fuel : ℕ) (buf : List ℕ)
    → build_argv (suc fuel) buf ≡ continue fuel (next_argument (skip_spaces buf))
unfolding build_argv
build_argv-suc fuel buf = refl

build_argv-sentence :
    (fuel : ℕ) (ws : List Word) (buf : List ℕ)
    → length ws < fuel
    → All IsWritable ws
    → skip_spaces buf ≡ skip_spaces (sentence ws)
    → build_argv fuel buf ≡ some (map text ws)
unfolding skip_spaces next_argument
build_argv-sentence zero ws buf h good same = absurd (omega arith)
build_argv-sentence (suc fuel) [] buf h good same =
    build_argv-suc fuel buf ∙ ap (λ b. continue fuel (next_argument b)) same
build_argv-sentence (suc fuel) (w ∷ ws) buf h (good, goods) same =
    let (left, found, skipped) = next_argument-word w (sentence ws) good in
    build_argv-suc fuel buf
    ∙ ap (λ b. continue fuel (next_argument b)) same
    ∙ ap (continue fuel) found
    ∙ ap (with_argument (text w)) (build_argv-sentence fuel ws left (omega arith) goods skipped)

length-sentence : (ws : List Word) → length ws ≤ length (sentence ws)
length-sentence [] = omega arith
length-sentence (w ∷ ws) =
    omega (arith, length-append (print w) (b' ' ∷ sentence ws), length-sentence ws)

All-append :
    (ws : List Word) (last : Word)
    → All IsWritable ws
    → IsWritable last
    → All IsWritable (ws ++ last ∷ [])
All-append [] last goods good = (good, tt)
All-append (w ∷ ws) last (h, goods) good = (h, All-append ws last goods good)

map-append :
    (ws : List Word) (last : Word) → map text (ws ++ last ∷ []) ≡ map text ws ++ text last ∷ []
map-append [] last = refl
map-append (w ∷ ws) last = ap (λ args. text w ∷ args) (map-append ws last)

-- What the last argument is for.
abbrev pub by_last : List (List ℕ) → List ℕ → Bool × List (List ℕ)
by_last args last = if is_ampersand last then (true, args) else (false, args ++ last ∷ [])

by_last-cons :
    (arg : List ℕ) (args : List (List ℕ)) (last : List ℕ)
    → ((by_last args last).0, arg ∷ (by_last args last).1) ≡ by_last (arg ∷ args) last
by_last-cons arg args last = elim (Bool-cases (is_ampersand last)) [
  | inl marked ↦ rw marked refl
  | inr unmarked ↦ rw unmarked refl
]

background-append :
    (args : List (List ℕ)) (last : List ℕ) → background (args ++ last ∷ []) ≡ by_last args last
unfolding background
background-append [] last = refl
background-append (arg ∷ []) last = by_last-cons arg [] last
background-append (arg ∷ next ∷ args) last =
    ap (λ (r : Bool × List (List ℕ)). (r.0, arg ∷ r.1)) (background-append (next ∷ args) last)
    ∙ by_last-cons arg (next ∷ args) last

pub copy_line-short : (cs : List ℕ) → length cs < max_line → copy_line cs ≡ some cs
unfolding copy_line
copy_line-short cs short = rw (lt→ltb (length cs) max_line short) refl

-- Of a written command line of fewer than `MAXLINE` characters, with fewer than `MAXARGS`
-- arguments, each plain or between quotes, `parseline` gives back the texts of the arguments; if the last one starts with `&`, it is left
-- out and the result is 1, otherwise the result is 0.
pub parseline-line :
    (ws : List Word) (last : Word)
    → All IsWritable ws
    → IsWritable last
    → length ws + 1 < max_args
    → length (line ws last) < max_line
    → parseline (line ws last)
      ≡ some (
          if is_ampersand (text last)
          then (true, map text ws)
          else (false, map text ws ++ text last ∷ []))
unfolding parseline
parseline-line ws last goods good few short =
    let buf = sentence (ws ++ last ∷ []) in
    let count = length-append ws (last ∷ []) in
    let argv : build_argv (suc (length buf)) buf ≡ some (map text (ws ++ last ∷ [])) =
      build_argv-sentence (suc (length buf)) (ws ++ last ∷ []) buf
        (omega (arith, length-sentence (ws ++ last ∷ []))) (All-append ws last goods good) refl in
    let fits : ltb (length (map text (ws ++ last ∷ []))) max_args ≡ true =
      lt→ltb _ _ (omega (arith, count, length-map (ws ++ last ∷ []) text)) in
    rw (copy_line-short (line ws last) short, replace_last-line ws last, argv, fits)
      (ap some (ap background (map-append ws last) ∙ background-append (map text ws) (text last)))
