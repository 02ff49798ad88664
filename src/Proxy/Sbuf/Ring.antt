-- ===== src/Proxy/Sbuf/Ring.antt =====
-- The array of proxylab/sbuf.c as a ring: the items between `front` and `rear`, in order.
use native.Mathlib.Nat.{div-add-mod, mod-lt, mul-le-mul_left}
use cs_app_labs.Prelude.{
  ℕ, zero, suc, ◌+◌, ◌*◌, ◌/◌, ◌%◌, ◌<◌, ◌≤◌, ◌≡◌, ◌≢◌, refl, ap, some, List, [], ◌∷◌, ◌++◌, ltb,
  length, get_elem?, set, get_or, arith, Bool-cases, inl, inr, ltb→lt,
}

-- The `count` items after position `front`.
unfoldable pub ring : (buf : List ℕ) → (n front count : ℕ) → List ℕ
ring buf n front zero = []
ring buf n front (suc count) = get_or buf ((front + 1) % n) 0 ∷ ring buf n (front + 1) count

pub length-ring : (buf : List ℕ) (n front count : ℕ) → length (ring buf n front count) ≡ count
unfolding ring
length-ring buf n front zero = refl
length-ring buf n front (suc count) = ap suc (length-ring buf n (front + 1) count)

-- Two positions less than `n` apart have different places.
mod-apart : (n a d : ℕ) → 0 < d → d < n → a % n ≢ (a + d) % n
mod-apart n a d some_way near same =
    let qa : ℕ = a / n in
    let qb : ℕ = (a + d) / n in
    let ea = div-add-mod a n in
    let eb = div-add-mod (a + d) n in
    elim (Bool-cases (ltb qa qb)) [
      | inl below ↦
          let step : n * suc qa ≤ n * qb = mul-le-mul_left n (ltb→lt qa qb below) in
          omega (arith, step, ea, eb)
      | inr above ↦
          let step : n * qb ≤ n * qa = mul-le-mul_left n (ground arith) in
          omega (arith, step, ea, eb)
    ]

get_elem?-get_or : (xs : List ℕ) (i : ℕ) → i < length xs → get_elem? xs i ≡ some (get_or xs i 0)
get_elem?-get_or [] i h = absurd (omega arith)
get_elem?-get_or (x ∷ xs) zero h = refl
get_elem?-get_or (x ∷ xs) (suc i) h = get_elem?-get_or xs i (omega arith)

get_or-set_self : (xs : List ℕ) (i x : ℕ) → i < length xs → get_or (set xs i x) i 0 ≡ x
get_or-set_self [] i x h = absurd (omega arith)
get_or-set_self (y ∷ xs) zero x h = refl
get_or-set_self (y ∷ xs) (suc i) x h = get_or-set_self xs i x (omega arith)

get_or-set_ne : (xs : List ℕ) (i j x : ℕ) → j ≢ i → get_or (set xs i x) j 0 ≡ get_or xs j 0
get_or-set_ne [] i j x h = refl
get_or-set_ne (y ∷ xs) zero zero x h = absurd (h refl)
get_or-set_ne (y ∷ xs) zero (suc j) x h = refl
get_or-set_ne (y ∷ xs) (suc i) zero x h = refl
get_or-set_ne (y ∷ xs) (suc i) (suc j) x h = get_or-set_ne xs i j x (λ e. h (ap suc e))

-- An item at the next place comes behind the others, which it leaves alone while there is room.
pub ring-set :
    (buf : List ℕ) (n front count p x : ℕ)
    → p ≡ front + suc count
    → count < n
    → length buf ≡ n
    → ring (set buf (p % n) x) n front (suc count) ≡ ring buf n front count ++ (x ∷ [])
unfolding ring
ring-set buf n front zero p x at room size =
    let here : p ≡ front + 1 = omega arith in
    let inside : (front + 1) % n < length buf = omega (arith, mod-lt (front + 1) {m = n} room) in
    rw (here, get_or-set_self buf ((front + 1) % n) x inside) refl
ring-set buf n front (suc count) p x at room size =
    let there : p ≡ (front + 1) + suc count = omega arith in
    let apart : (front + 1) % n ≢ p % n =
      rw there (mod-apart n (front + 1) (suc count) (omega arith) room) in
    rw
      (
        get_or-set_ne buf (p % n) ((front + 1) % n) x apart,
        ring-set buf n (front + 1) count p x there (omega arith) size,
      )
      refl

-- The item at `front + 1` is the first one.
pub get_elem?-ring :
    (buf : List ℕ) (n front : ℕ)
    → 0 < n
    → length buf ≡ n
    → get_elem? buf ((front + 1) % n) ≡ some (get_or buf ((front + 1) % n) 0)
get_elem?-ring buf n front some_place size =
    get_elem?-get_or buf ((front + 1) % n) (omega (arith, mod-lt (front + 1) {m = n} some_place))
