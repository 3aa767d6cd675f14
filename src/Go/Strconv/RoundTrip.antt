-- ===== src/Go/Strconv/RoundTrip.antt =====
-- Atoi reads back what %d prints, and the digits are only digits.
use kubeadapt_k8s_pulse.Prelude.{
  Bool-cases, [], arith, false, inl, inr, ltb, none, pos, suc, zero, ℕ, ◌%◌, ◌*◌, ◌+◌, ◌/◌, ◌<◌,
  ◌==◌, ◌^◌, ◌∙◌, ◌∷◌, ◌≡◌, ◌≢◌, ◌≤◌, ◌⊎◌,
}
use kubeadapt_k8s_pulse.Prelude.Text.{Text}
use kubeadapt_k8s_pulse.Go.Strconv.{atoi, decimal, decimal_onto, max_uint64, parse_uint_loop}
use kubeadapt_k8s_pulse.Go.Strings.{Lacks}

-- One digit more, as long as a uint64 holds the value.
parse_digit :
    (m d : ℕ) (rest : Text)
    → d < 10
    → m * 10 + d ≤ max_uint64
    → parse_uint_loop m ((48 + d) ∷ rest) ≡ parse_uint_loop (m * 10 + d) rest
unfolding parse_uint_loop
parse_digit m d rest h b = ground arith

-- Enough fuel, and a number that a uint64 holds.
parse-decimal_onto :
    (f n : ℕ) (rest : Text)
    → n < f
    → n ≤ max_uint64
    → parse_uint_loop 0 (decimal_onto f n rest) ≡ parse_uint_loop n rest
unfolding parse_uint_loop decimal_onto
parse-decimal_onto zero n rest h b = elim h [ ]
parse-decimal_onto (suc f) n rest h b = elim (Bool-cases (ltb n 10)) [
  | inl small ↦ rw small (parse_digit 0 n rest (ground arith) (omega arith) ∙ rw zero_digits)
  | inr big ↦ rw big (
      parse-decimal_onto f (n / 10) ((48 + n % 10) ∷ rest) (ground arith) (omega arith)
      ∙ (parse_digit (n / 10) (n % 10) rest (omega arith) (omega arith) ∙ rw all_digits))
]
  where
    zero_digits : 0 * 10 + n ≡ n
    zero_digits = omega arith

    all_digits : n / 10 * 10 + n % 10 ≡ n
    all_digits = omega arith

-- The first byte of a printed number is a digit.
decimal_onto-head :
    (f n : ℕ) (rest : Text)
    → n < f
    → (c : ℕ) × (s : Text) × (decimal_onto f n rest ≡ c ∷ s) × (48 ≤ c) × (c ≤ 57)
unfolding decimal_onto
decimal_onto-head zero n rest h = elim h [ ]
decimal_onto-head (suc f) n rest h = elim (Bool-cases (ltb n 10)) [
  | inl small ↦ (48 + n, rest, rw small, omega arith, ground arith)
  | inr big ↦
      let (c, s, e, lo, hi) = decimal_onto-head f (n / 10) ((48 + n % 10) ∷ rest) (ground arith) in
      (c, s, rw big e, lo, hi)
]

not_sign : (c b : ℕ) → c ≢ b → (c == b) ≡ false
not_sign c b h = ground arith

unsigned_head :
    (c : ℕ) (s : Text) (n : ℕ)
    → 48 ≤ c
    → c ≤ 57
    → n < 2 ^ 63
    → parse_uint_loop 0 (c ∷ s) ≡ (n, none)
    → atoi (c ∷ s) ≡ (pos n, none)
unfolding atoi
unsigned_head c s n lo hi h parsed =
    rw (not_sign c b'-' (omega arith), not_sign c b'+' (omega arith), parsed) (ground arith)

-- A text that begins with a digit is read as ParseUint reads it.
atoi_unsigned :
    (t : Text) (c : ℕ) (s : Text) (n : ℕ)
    → t ≡ c ∷ s
    → 48 ≤ c
    → c ≤ 57
    → n < 2 ^ 63
    → parse_uint_loop 0 t ≡ (n, none)
    → atoi t ≡ (pos n, none)
unfolding atoi
atoi_unsigned t c s n e lo hi h parsed = rw e (unsigned_head c s n lo hi h (rw e at parsed))

-- A number that an int holds is read back from its decimal form.
pub atoi-decimal : (n : ℕ) → n < 2 ^ 63 → atoi (decimal n) ≡ (pos n, none)
unfolding atoi decimal
atoi-decimal n h =
    let (c, s, e, lo, hi) = decimal_onto-head (suc n) n [] (omega arith) in
    atoi_unsigned (decimal_onto (suc n) n []) c s n e lo hi h
      (parse-decimal_onto (suc n) n [] (omega arith) (omega arith))

-- Numbers with the same decimal form are equal.
pub decimal_injective : (m n : ℕ) → m < 2 ^ 63 → n < 2 ^ 63 → decimal m ≡ decimal n → m ≡ n
decimal_injective m n hm hn e = cc (atoi-decimal m hm, atoi-decimal n hn, e)

-- Every byte of a printed number is a digit, so none of them is a separator.
decimal_onto-digits :
    (b f n : ℕ) (rest : Text) → (b < 48) ⊎ (57 < b) → Lacks b rest → Lacks b (decimal_onto f n rest)
unfolding decimal_onto
decimal_onto-digits b zero n rest h k = k
decimal_onto-digits b (suc f) n rest h k = elim (Bool-cases (ltb n 10)) [
  | inl small ↦ rw small (ground arith, k)
  | inr big ↦ rw big (decimal_onto-digits b f (n / 10) ((48 + n % 10) ∷ rest) h (ground arith, k))
]

pub decimal-Lacks : (b n : ℕ) → (b < 48) ⊎ (57 < b) → Lacks b (decimal n)
unfolding decimal
decimal-Lacks b n h = decimal_onto-digits b (suc n) n [] h tt
