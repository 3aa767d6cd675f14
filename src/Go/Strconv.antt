-- ===== src/Go/Strconv.antt =====
-- strconv.Atoi, the decimal form that fmt's %d prints, and their round trip.
pub mod RoundTrip
pub mod Ascii
use kubeadapt_k8s_pulse.Prelude.{
  Bool, Option, [], if◌then◌else◌, leb, ltb, negsuc, none, pos, refl, some, suc, zero, ℕ, ℤ, ◌%◌,
  ◌&&◌, ◌*◌, ◌+◌, ◌-◌, ◌/◌, ◌==◌, ◌^◌, ◌∷◌, ◌≡◌,
}
use kubeadapt_k8s_pulse.Prelude.Text.{Text, codes}

pub data NumError : Type 0 where
  syntax range : NumError

abbrev pub is_digit : ℕ → Bool
is_digit c = leb 48 c && leb c 57

abbrev pub max_uint64 : ℕ
max_uint64 = 2 ^ 64 - 1

-- The loop of ParseUint in base 10: the first bad byte or overflow ends it.
parse_uint_loop : ℕ → Text → ℕ × Option NumError
parse_uint_loop n [] = (n, none)
parse_uint_loop n (c ∷ s) =
    let rest = parse_uint_loop (n * 10 + (c - 48)) s in
    if is_digit c
    then (if ltb max_uint64 (n * 10 + (c - 48)) then (max_uint64, some range) else rest)
    else (0, some syntax)

parse_uint : Text → ℕ × Option NumError
parse_uint [] = (0, some syntax)
parse_uint (c ∷ s) = parse_uint_loop 0 (c ∷ s)

-- -n, as an integer
abbrev neg : ℕ → ℤ
neg zero = pos 0
neg (suc n) = negsuc n

-- What ParseInt makes of the magnitude: a syntax error gives 0, an overflow the nearest bound.
signed : Bool → ℕ × Option NumError → ℤ × Option NumError
signed minus (n, some syntax) = (pos 0, some syntax)
signed minus (n, err) =
    if minus
    then (if ltb (2 ^ 63) n then (neg (2 ^ 63), some range) else (neg n, none))
    else (if leb (2 ^ 63) n then (pos (2 ^ 63 - 1), some range) else (pos n, none))

-- strconv.Atoi: the value is meaningful beside a range error too.
unfoldable pub atoi : Text → ℤ × Option NumError
unfolding parse_uint_loop parse_uint signed
atoi [] = (pos 0, some syntax)
atoi (c ∷ s) =
    if c == b'-'
    then signed Bool.true (parse_uint s)
    else if c == b'+'
    then signed Bool.false (parse_uint s)
    else signed Bool.false (parse_uint (c ∷ s))

-- The decimal digits of `n` before `rest`; `n` digits of fuel are plenty.
decimal_onto : ℕ → ℕ → Text → Text
decimal_onto zero n rest = rest
decimal_onto (suc f) n rest =
    let more = decimal_onto f (n / 10) ((48 + n % 10) ∷ rest) in
    if ltb n 10 then (48 + n) ∷ rest else more

unfoldable pub decimal : ℕ → Text
unfolding decimal_onto
decimal n = decimal_onto (suc n) n []

decimal_small : decimal 409 ≡ codes "409"
unfolding decimal
decimal_small = refl

atoi_values :
    (atoi (codes "-12") ≡ (negsuc 11, none))
    × (atoi (codes "+5") ≡ (pos 5, none))
    × (atoi (codes "1x") ≡ (pos 0, some syntax))
    × (atoi (codes "-") ≡ (pos 0, some syntax))
    × (atoi (codes "99999999999999999999x") ≡ (pos (2 ^ 63 - 1), some range))
unfolding atoi
atoi_values = (refl, refl, refl, refl, refl)

-- %d of an int
unfoldable pub itoa : ℤ → Text
itoa (pos n) = decimal n
itoa (negsuc n) = b'-' ∷ decimal (suc n)
