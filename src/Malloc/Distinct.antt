-- ===== src/Malloc/Distinct.antt =====
-- How long a list of distinct addresses of words can be, for the fuel of `find_fit` of
-- malloclab/src/mm.c.
use cs_app_labs.Prelude.{
  ℕ, zero, suc, ◌+◌, ◌*◌, ◌%◌, ◌<◌, ◌≤◌, ◌≡◌, refl, sym, ap, ◌∙◌, true, false, List, [], ◌∷◌,
  length, ◌==◌, if◌then◌else◌, arith, Bool-cases, inl, inr,
}
use cs_app_labs.Malloc.Links.{has}

-- A list of distinct numbers in a short range is short.
abbrev pub Distinct : List ℕ → Type 0
Distinct [] = Unit
Distinct (x ∷ xs) = (has xs x ≡ false) × Distinct xs

abbrev without : ℕ → List ℕ → List ℕ
without y [] = []
without y (x ∷ xs) = let rest = without y xs in if x == y then rest else x ∷ rest

has-without :
    (y : ℕ) (xs : List ℕ) (q : ℕ)
    → has (without y xs) q ≡ true
    → (has xs q ≡ true) × ((q == y) ≡ false)
has-without y [] q h = absurd (cc)
has-without y (x ∷ xs) q h = elim (Bool-cases (x == y)) [
  | inl e ↦
      let gone : without y (x ∷ xs) ≡ without y xs = rw e refl in
      let later : has (without y xs) q ≡ true = sym (ap (λ zs. has zs q) gone) ∙ h in
      ground (arith, has-without y xs q later)
  | inr ne ↦
      let stays : without y (x ∷ xs) ≡ x ∷ without y xs = rw ne refl in
      let later : has (x ∷ without y xs) q ≡ true = sym (ap (λ zs. has zs q) stays) ∙ h in
      ground (arith, later, ne, has-without y xs q)
]

has-without_none : (y : ℕ) (xs : List ℕ) (q : ℕ) → has xs q ≡ false → has (without y xs) q ≡ false
has-without_none y xs q h = elim (Bool-cases (has (without y xs) q)) [
  | inl in_it ↦ absurd (cc ((has-without y xs q in_it).0, h))
  | inr out ↦ out
]

Distinct-without : (y : ℕ) (xs : List ℕ) → Distinct xs → Distinct (without y xs)
Distinct-without y [] d = tt
Distinct-without y (x ∷ xs) (once, d) = elim (Bool-cases (x == y)) [
  | inl e ↦ rw e (Distinct-without y xs d)
  | inr ne ↦ rw ne (has-without_none y xs x once, Distinct-without y xs d)
]

without-none : (y : ℕ) (xs : List ℕ) → has xs y ≡ false → without y xs ≡ xs
without-none y [] h = refl
without-none y (x ∷ xs) h =
    let ne : (x == y) ≡ false = ground (arith, h) in
    rw ne (ap (λ zs. x ∷ zs) (without-none y xs (ground (arith, h))))

length-without : (y : ℕ) (xs : List ℕ) → Distinct xs → length xs ≤ suc (length (without y xs))
length-without y [] d = omega arith
length-without y (x ∷ xs) (once, d) = elim (Bool-cases (x == y)) [
  | inl e ↦
      let same : x ≡ y = ground (arith, e) in
      rw e (omega (arith, ap length (without-none y xs (ap (has xs) (sym same) ∙ once))))
  | inr ne ↦ rw ne (omega (arith, length-without y xs d))
]

pub length_bound :
    (n lo : ℕ) (xs : List ℕ)
    → Distinct xs
    → ((q : ℕ) → has xs q ≡ true → (lo ≤ q) × (q < lo + 8 * n) × (q % 8 ≡ lo % 8))
    → length xs ≤ n
length_bound zero lo [] d within = omega arith
length_bound zero lo (x ∷ xs) d within = absurd (omega (arith, within x (ground arith)))
length_bound (suc n) lo xs d within =
    let y = lo + 8 * n in
    let rest = length_bound n lo (without y xs) (Distinct-without y xs d) (λ q h.
      let (is, ne) = has-without y xs q h in
      let (low, high, same) = within q is in (low, ground (arith, high, same, ne), same)) in
    omega (arith, rest, length-without y xs d)
