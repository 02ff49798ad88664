-- ===== src/Isa/LoaderLaws.antt =====
-- `load_mem` of archlab/sim/misc/isa.c reads back the bytes that a line shows in hexadecimal.
use cs_app_labs.Prelude.{
  ℕ, ◌+◌, ◌-◌, ◌*◌, ◌/◌, ◌%◌, ◌^◌, ◌<◌, ◌≤◌, ◌≡◌, refl, ap, ◌∙◌, true, false, some, List, [], ◌∷◌,
  ◌++◌, ltb, leb, if◌then◌else◌, length, set, length-set, All, arith, lt→ltb,
}
use cs_app_labs.Isa.Memory.{Mem}
use cs_app_labs.Isa.Memory.Bytes.{store_at-in}
use cs_app_labs.Isa.Loader.{is_xdigit, hex2dig, get_address, next_line, get_code}

-- A digit as it is written, in lower case.
abbrev pub hex_digit : ℕ → ℕ
hex_digit d = if ltb d 10 then b'0' + d else b'a' + (d - 10)

abbrev pub hex_bytes : List ℕ → List ℕ
hex_bytes [] = []
hex_bytes (b ∷ bs) = hex_digit (b / 16) ∷ hex_digit (b % 16) ∷ hex_bytes bs

-- Bytes one after another from a place on.
abbrev pub set_bytes : List ℕ → ℕ → List ℕ → List ℕ
set_bytes bytes pos [] = bytes
set_bytes bytes pos (b ∷ bs) = set_bytes (set bytes pos b) (pos + 1) bs

hex2dig-hex_digit : (d : ℕ) → d < 16 → hex2dig (hex_digit d) ≡ d
unfolding hex2dig
hex2dig-hex_digit d h = ground arith

pub is_xdigit-hex_digit : (d : ℕ) → d < 16 → is_xdigit (hex_digit d) ≡ true
is_xdigit-hex_digit d h = ground arith

pub get_code-hex_bytes :
    (m : Mem) (pos n : ℕ) (bs : List ℕ) (stop : ℕ) (rest : List ℕ)
    → length m.contents ≡ m.len
    → pos + length bs ≤ m.len
    → All (λ b. b < 256) bs
    → n + length bs < 2 ^ 31
    → is_xdigit stop ≡ false
    → get_code m pos n (hex_bytes bs ++ stop ∷ rest)
      ≡ some (next_line (record m { contents = set_bytes m.contents pos bs }) (n + length bs))
unfolding get_code
get_code-hex_bytes m pos n [] stop [] size room bytes few end =
    ap (λ (k : ℕ). some (next_line m k)) (omega arith)
get_code-hex_bytes m pos n [] stop (c ∷ rest) size room bytes few end =
    rw end (ap (λ (k : ℕ). some (next_line m k)) (omega arith))
get_code-hex_bytes m pos n (b ∷ bs) stop rest size room (byte, bytes) few end =
    let high : b / 16 < 16 = omega arith in
    let low : b % 16 < 16 = omega arith in
    let count : ltb (n + 1) (2 ^ 31) ≡ true = lt→ltb _ _ (omega arith) in
    let inside : leb m.len pos ≡ false = ground arith in
    let whole : (hex2dig (hex_digit (b / 16)) * 16 + hex2dig (hex_digit (b % 16))) % 2 ^ 8 ≡ b =
      rw (hex2dig-hex_digit (b / 16) high, hex2dig-hex_digit (b % 16) low) (omega arith) in
    rw
      (
        is_xdigit-hex_digit (b / 16) high,
        is_xdigit-hex_digit (b % 16) low,
        inside,
        whole,
        store_at-in m.contents pos b (omega arith),
        count,
      )
      (get_code-hex_bytes (record m { contents = set m.contents pos b }) (pos + 1) (n + 1) bs stop
          rest (length-set m.contents pos b ∙ size) (omega arith) bytes (omega arith) end
        ∙ ap
            (λ (k : ℕ).
              some (
                next_line (record m { contents = set_bytes (set m.contents pos b) (pos + 1) bs })
                  k))
            (omega arith))

-- The digits of a number, most significant first, are read back as an address.
abbrev pub digits_value : ℕ → List ℕ → ℕ
digits_value v [] = v
digits_value v (d ∷ ds) = digits_value (v * 16 + d) ds

abbrev pub hex_digits : List ℕ → List ℕ
hex_digits [] = []
hex_digits (d ∷ ds) = hex_digit d ∷ hex_digits ds

digits_value_mono : (v : ℕ) (ds : List ℕ) → v ≤ digits_value v ds
digits_value_mono v [] = omega arith
digits_value_mono v (d ∷ ds) = omega (arith, digits_value_mono (v * 16 + d) ds)

pub get_address-hex_digits :
    (v : ℕ) (ds : List ℕ) (stop : ℕ) (rest : List ℕ)
    → All (λ d. d < 16) ds
    → digits_value v ds < 2 ^ 63
    → is_xdigit stop ≡ false
    → get_address v (hex_digits ds ++ stop ∷ rest) ≡ some (digits_value v ds, stop ∷ rest)
unfolding get_address
get_address-hex_digits v [] stop rest ds small end = rw end refl
get_address-hex_digits v (d ∷ ds) stop rest (digit, digits) small end =
    let fits : ltb (v * 16 + d) (2 ^ 63) ≡ true =
      lt→ltb _ _ (omega (arith, digits_value_mono (v * 16 + d) ds)) in
    rw (hex2dig-hex_digit d digit, is_xdigit-hex_digit d digit, fits)
      (get_address-hex_digits (v * 16 + d) ds stop rest digits small end)
