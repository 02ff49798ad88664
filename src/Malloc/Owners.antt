-- ===== src/Malloc/Owners.antt =====
-- The addresses and sizes that a client of malloclab/src/mm.c has, and the words that are its own.
use cs_app_labs.Prelude.{
  ℕ, ◌+◌, ◌-◌, ◌%◌, ◌<◌, ◌≤◌, ◌≡◌, ◌⊎◌, sym, ap, ◌∙◌, Bool, true, false, ◌&&◌, ◌||◌, List, [], ◌∷◌,
  ◌++◌, ltb, leb, ◌==◌, arith, Bool-cases, inl, inr, All,
}

-- A piece of memory that begins a run of the user's words and lies in it.
pub record IsOwned (u : ℕ → Bool) (o : ℕ × ℕ) : Type 0 where
  pub low : 8 ≤ o.0
  pub aligned : o.0 % 8 ≡ 0
  pub begins : u o.0 ≡ true
  pub before : u (o.0 - 8) ≡ false
  pub words : (i : ℕ) → i < o.1 → u (o.0 + i) ≡ true

module _ (u v : ℕ → Bool) (e s : ℕ) (same : (q : ℕ) → v q ≡ ((leb e q && ltb q (e + s - 8)) || u q))
    (apart : (q : ℕ) → u q ≡ true → (q + 8 < e) ⊎ (e + s ≤ q)) where
  -- A block that is allocated.
  pub IsOwned-more : (o : ℕ × ℕ) → IsOwned u o → IsOwned v o
  IsOwned-more o is = record {
    low = is.low;
    aligned = is.aligned;
    begins = ground (arith, same o.0, is.begins);
    before = ground (arith, same (o.0 - 8), is.before, is.low, apart o.0 is.begins);
    words = λ i lt. ground (arith, same (o.0 + i), is.words i lt);
  }

  pub IsOwned-new : (n : ℕ) → 8 ≤ e → e % 8 ≡ 0 → n + 8 ≤ s → 9 ≤ s → IsOwned v (e, n)
  IsOwned-new n low even fits wide =
      let clear : u (e - 8) ≡ false = elim (Bool-cases (u (e - 8))) [
        | inl h ↦ absurd (ground (arith, apart (e - 8) h, low))
        | inr out ↦ out
      ] in
      record {
        low = low;
        aligned = even;
        begins = ground (arith, same e, wide);
        before = ground (arith, same (e - 8), clear, low);
        words = λ i lt. ground (arith, same (e + i), lt, fits);
      }

  -- A block that is freed.
  pub IsOwned-less :
      (n : ℕ) (o : ℕ × ℕ) → IsOwned v (e, n) → (e == o.0) ≡ false → IsOwned v o → IsOwned u o
  IsOwned-less n o own ne is = record {
    low = is.low;
    aligned = is.aligned;
    begins = ground (
      arith,
      same o.0,
      same (o.0 - 8),
      is.begins,
      is.before,
      is.aligned,
      own.aligned,
      ne,
      is.low,
    );
    before = ground (arith, same (o.0 - 8), is.before);
    words = λ i lt. elim (Bool-cases (leb e (o.0 + i) && ltb (o.0 + i) (e + s - 8))) [
      | inl inside ↦ elim (Bool-cases (ltb o.0 e)) [
        | inl less ↦
            let lower : o.0 < e = ground (arith, less) in
            let upper : e ≤ o.0 + i = ground (arith, inside) in
            let at : o.0 + (e - 8 - o.0) ≡ e - 8 = omega (arith, is.aligned, own.aligned, lower) in
            let paid : v (e - 8) ≡ true =
              ap v (sym at)
              ∙ is.words (e - 8 - o.0) (omega (arith, is.aligned, own.aligned, lower, upper, lt)) in
            absurd (cc (paid, own.before))
        | inr more ↦ absurd (
            ground
              (arith, inside, more, ne, is.low, is.aligned, own.aligned, is.before, same (o.0 - 8)))
      ]
      | inr out ↦ ground (arith, same (o.0 + i), is.words i lt, out)
    ];
  }

-- Pieces that begin at different places.
abbrev pub Apart : List (ℕ × ℕ) → Type 0
Apart [] = Unit
Apart (o ∷ os) = All (λ (o' : ℕ × ℕ). (o.0 == o'.0) ≡ false) os × Apart os

module _ (u : ℕ → Bool) where
  differs : (e q : ℕ) → u e ≡ false → u q ≡ true → (e == q) ≡ false
  differs e q out in_it = elim (Bool-cases (e == q)) [
    | inl same ↦ let is : e ≡ q = ground (arith, same) in absurd (cc (ap u is, out, in_it))
    | inr ne ↦ ne
  ]

  pub IsOwned-fresh :
      (e : ℕ) (os : List (ℕ × ℕ))
      → u e ≡ false
      → All (IsOwned u) os
      → All (λ (o : ℕ × ℕ). (e == o.0) ≡ false) os
  IsOwned-fresh e [] out owns = tt
  IsOwned-fresh e (o ∷ os) out (is, owns) =
      (differs e o.0 out is.begins, IsOwned-fresh e os out owns)

  -- They do not overlap.
  IsOwned-below : (o o' : ℕ × ℕ) → IsOwned u o → IsOwned u o' → o.0 < o'.0 → o.0 + o.1 ≤ o'.0
  IsOwned-below o o' is is' less = elim (Bool-cases (leb (o.0 + o.1) o'.0)) [
    | inl le ↦ ground (arith, le)
    | inr over ↦
        let beyond : o'.0 < o.0 + o.1 = ground (arith, over) in
        let at : o.0 + (o'.0 - 8 - o.0) ≡ o'.0 - 8 = omega (arith, is.aligned, is'.aligned, less) in
        let paid : u (o'.0 - 8) ≡ true =
          ap u (sym at)
          ∙ is.words (o'.0 - 8 - o.0) (omega (arith, is.aligned, is'.aligned, less, beyond)) in
        absurd (cc (paid, is'.before))
  ]

  pub IsOwned-disjoint :
      (o o' : ℕ × ℕ)
      → IsOwned u o
      → IsOwned u o'
      → (o.0 == o'.0) ≡ false
      → (o.0 + o.1 ≤ o'.0) ⊎ (o'.0 + o'.1 ≤ o.0)
  IsOwned-disjoint o o' is is' ne = elim (Bool-cases (ltb o.0 o'.0)) [
    | inl less ↦ inl (IsOwned-below o o' is is' (ground (arith, less)))
    | inr more ↦ inr (IsOwned-below o' o is' is (ground (arith, more, ne)))
  ]

-- Lists of pieces, and one of them.
module _ {κ} (P : ℕ × ℕ → Type κ) where
  pub All-middle :
      (os : List (ℕ × ℕ)) (o : ℕ × ℕ) (rest : List (ℕ × ℕ))
      → All P (os ++ o ∷ rest)
      → P o × All P (os ++ rest)
  All-middle [] o rest (h, hs) = (h, hs)
  All-middle (x ∷ os) o rest (h, hs) =
      let (here, others) = All-middle os o rest hs in (here, (h, others))

pub All-map {κ μ} :
    (P : ℕ × ℕ → Type κ) (Q : ℕ × ℕ → Type μ) (os : List (ℕ × ℕ))
    → ((o : ℕ × ℕ) → P o → Q o)
    → All P os
    → All Q os
All-map P Q [] f hs = tt
All-map P Q (o ∷ os) f (h, hs) = (f o h, All-map P Q os f hs)

pub Apart-middle :
    (os : List (ℕ × ℕ)) (o : ℕ × ℕ) (rest : List (ℕ × ℕ))
    → Apart (os ++ o ∷ rest)
    → All (λ (o' : ℕ × ℕ). (o.0 == o'.0) ≡ false) (os ++ rest) × Apart (os ++ rest)
Apart-middle [] o rest (ne, apart) = (ne, apart)
Apart-middle (x ∷ os) o rest (ne, apart) =
    let (differ, apart') = Apart-middle os o rest apart in
    let (here, others) = All-middle (λ (o' : ℕ × ℕ). (x.0 == o'.0) ≡ false) os o rest ne in
    ((ground (arith, here), differ), (others, apart'))

-- All pieces of which two things hold.
pub All-less :
    (u v : ℕ → Bool) (e s n : ℕ)
    → ((q : ℕ) → v q ≡ ((leb e q && ltb q (e + s - 8)) || u q))
    → ((q : ℕ) → u q ≡ true → (q + 8 < e) ⊎ (e + s ≤ q))
    → IsOwned v (e, n)
    → (os : List (ℕ × ℕ)) → All (λ (o : ℕ × ℕ). (e == o.0) ≡ false) os
    → All (IsOwned v) os
    → All (IsOwned u) os
All-less u v e s n same apart own [] ne owns = tt
All-less u v e s n same apart own (o ∷ os) (h, ne) (is, owns) =
    (IsOwned-less u v e s same apart n o own h is, All-less u v e s n same apart own os ne owns)

pub All-and {κ μ} :
    (P : ℕ × ℕ → Type κ) (Q : ℕ × ℕ → Type μ) (os : List (ℕ × ℕ))
    → All P os
    → All Q os
    → All (λ (o : ℕ × ℕ). P o × Q o) os
All-and P Q [] hs hs' = tt
All-and P Q (o ∷ os) (h, hs) (h', hs') = ((h, h'), All-and P Q os hs hs')

-- Pieces of memory that do not overlap.
abbrev pub Disjoint : List (ℕ × ℕ) → Type 0
Disjoint [] = Unit
Disjoint (o ∷ os) = All (λ (o' : ℕ × ℕ). (o.0 + o.1 ≤ o'.0) ⊎ (o'.0 + o'.1 ≤ o.0)) os × Disjoint os

IsOwned-beside :
    (u : ℕ → Bool) (o : ℕ × ℕ)
    → IsOwned u o
    → (os : List (ℕ × ℕ)) → All (IsOwned u) os
    → All (λ (o' : ℕ × ℕ). (o.0 == o'.0) ≡ false) os
    → All (λ (o' : ℕ × ℕ). (o.0 + o.1 ≤ o'.0) ⊎ (o'.0 + o'.1 ≤ o.0)) os
IsOwned-beside u o is [] owns ne = tt
IsOwned-beside u o is (o' ∷ os) (is', owns) (h, ne) =
    (IsOwned-disjoint u o o' is is' h, IsOwned-beside u o is os owns ne)

pub IsOwned-Disjoint :
    (u : ℕ → Bool) (os : List (ℕ × ℕ)) → All (IsOwned u) os → Apart os → Disjoint os
IsOwned-Disjoint u [] owns apart = tt
IsOwned-Disjoint u (o ∷ os) (is, owns) (ne, apart) =
    (IsOwned-beside u o is os owns ne, IsOwned-Disjoint u os owns apart)
