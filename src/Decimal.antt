-- ===== src/Decimal.antt =====
-- std::to_string, atoi, strtoll and std::stoull, as the caches use them: decimal text as a list of
-- characters. A number out of range wraps in atoi, as glibc does, and stops at the bound in strtoll.
use gradido_node.Prelude.{
  ℕ, zero, suc, ◌+◌, ◌-◌, ◌*◌, ◌/◌, ◌%◌, ◌^◌, ◌≤◌, ◌<◌, ◌≡◌, refl, ap, ◌∙◌, sym, Bool, true, false,
  ◌&&◌, ◌||◌, List, [], ◌∷◌, ◌++◌, ltb, leb, ◌==◌, if◌then◌else◌, ℤ, pos, negsuc, Outcome, ok,
  throw, invalid_argument, out_of_range, IsInt32, pos_part, neg_part, All, arith, Bool-cases, inl,
  inr,
}

abbrev pub is_digit : ℕ → Bool
is_digit c = leb 48 c && leb c 57

-- The digits of a number, where the fuel is above it.
unfoldable pub digits : ℕ → ℕ → List ℕ
digits zero n = []
digits (suc fuel) n =
    let rest = digits fuel (n / 10) in
    if ltb n 10 then (48 + n) ∷ [] else rest ++ (48 + n % 10) ∷ []

unfoldable pub to_string : ℕ → List ℕ
to_string n = digits (suc n) n

unfoldable pub to_string_int : ℤ → List ℕ
to_string_int (pos n) = to_string n
to_string_int (negsuc n) = 45 ∷ to_string (suc n)

-- The value of the digits in front.
unfoldable pub value_of : ℕ → List ℕ → ℕ
value_of acc [] = acc
value_of acc (c ∷ cs) =
    let rest = value_of (acc * 10 + (c - 48)) cs in if is_digit c then rest else acc

abbrev pub is_space : ℕ → Bool
is_space c = (c == 32) || leb 9 c && leb c 13

unfoldable pub skip_spaces : List ℕ → List ℕ
skip_spaces [] = []
skip_spaces (c ∷ cs) = let rest = skip_spaces cs in if is_space c then rest else c ∷ cs

-- The sign as a Boolean, and the value behind it.
unfoldable pub signed_value : List ℕ → Bool × ℕ
signed_value [] = (false, 0)
signed_value (c ∷ cs) =
    if c == 45
    then (true, value_of 0 cs)
    else if c == 43
    then (false, value_of 0 cs)
    else (false, value_of 0 (c ∷ cs))

-- A 32 bit pattern as an int32_t.
abbrev int32_of : ℕ → ℤ
int32_of n = if ltb n (2 ^ 31) then pos n else negsuc (2 ^ 32 - suc n)

abbrev wrap : Bool × ℕ → ℤ
wrap (false, n) = int32_of (n % 2 ^ 32)
wrap (true, n) = int32_of ((2 ^ 32 - n % 2 ^ 32) % 2 ^ 32)

abbrev clamp : Bool × ℕ → ℤ
clamp (false, n) = if ltb n (2 ^ 63) then pos n else pos (2 ^ 63 - 1)
clamp (true, zero) = pos 0
clamp (true, suc n) = if ltb n (2 ^ 63) then negsuc n else negsuc (2 ^ 63 - 1)

unfoldable pub atoi : List ℕ → ℤ
atoi text = wrap (signed_value (skip_spaces text))

unfoldable pub strtoll : List ℕ → ℤ
strtoll text = clamp (signed_value (skip_spaces text))

abbrev starts_with_digit : List ℕ → Bool
starts_with_digit [] = false
starts_with_digit (c ∷ cs) = is_digit c

abbrev in_range : Bool → ℕ → Outcome ℕ
in_range false n = if ltb n (2 ^ 64) then ok n else throw out_of_range
in_range true n = if ltb n (2 ^ 64) then ok ((2 ^ 64 - n) % 2 ^ 64) else throw out_of_range

-- A text without a number is refused; a number with a minus is taken modulo 2 ^ 64.
unfoldable pub stoull_text : List ℕ → Outcome ℕ
stoull_text [] = throw invalid_argument
stoull_text (c ∷ cs) =
    if is_digit c
    then in_range false (value_of 0 (c ∷ cs))
    else if ((c == 43) || (c == 45)) && starts_with_digit cs
    then in_range (c == 45) (value_of 0 cs)
    else throw invalid_argument

unfoldable pub stoull : List ℕ → Outcome ℕ
stoull text = stoull_text (skip_spaces text)

digit_char : (d : ℕ) → d < 10 → is_digit (48 + d) ≡ true
digit_char d h = ground arith

value_of-digit : (acc d : ℕ) → d < 10 → value_of acc ((48 + d) ∷ []) ≡ acc * 10 + d
unfolding value_of
value_of-digit acc d h = rw (digit_char d h) (omega arith)

value_of-append :
    (acc : ℕ) (xs ys : List ℕ)
    → All (λ c. is_digit c ≡ true) xs
    → value_of acc (xs ++ ys) ≡ value_of (value_of acc xs) ys
unfolding value_of
value_of-append acc [] ys h = refl
value_of-append acc (x ∷ xs) ys h = ground (arith, value_of-append (acc * 10 + (x - 48)) xs ys h.1)

All-append :
    (xs ys : List ℕ)
    → All (λ c. is_digit c ≡ true) xs
    → All (λ c. is_digit c ≡ true) ys
    → All (λ c. is_digit c ≡ true) (xs ++ ys)
All-append [] ys a b = b
All-append (x ∷ xs) ys a b = (a.0, All-append xs ys a.1 b)

digits-All : (fuel n : ℕ) → All (λ c. is_digit c ≡ true) (digits fuel n)
unfolding digits
digits-All zero n = tt
digits-All (suc fuel) n = elim (Bool-cases (ltb n 10)) [
  | inl one ↦ rw one (digit_char n (ground arith), tt)
  | inr more ↦ rw more (
      All-append (digits fuel (n / 10)) _ (digits-All fuel (n / 10))
        (digit_char (n % 10) (omega arith), tt))
]

value_of-digits : (fuel n : ℕ) → n < fuel → value_of 0 (digits fuel n) ≡ n
unfolding digits
value_of-digits zero n h = absurd (omega arith)
value_of-digits (suc fuel) n h = elim (Bool-cases (ltb n 10)) [
  | inl one ↦ rw one (value_of-digit 0 n (ground arith) ∙ omega arith)
  | inr more ↦ rw more (
      value_of-append 0 (digits fuel (n / 10)) _ (digits-All fuel (n / 10))
      ∙ value_of-digit (value_of 0 (digits fuel (n / 10))) (n % 10) (omega arith)
      ∙ ap (λ v. v * 10 + n % 10) (value_of-digits fuel (n / 10) (ground arith))
      ∙ omega arith)
]

-- The text starts with a digit.
digits-first :
    (fuel n : ℕ)
    → n < fuel
    → (c : ℕ) × (cs : List ℕ) × (digits fuel n ≡ c ∷ cs) × (is_digit c ≡ true)
unfolding digits
digits-first zero n h = absurd (omega arith)
digits-first (suc fuel) n h = elim (Bool-cases (ltb n 10)) [
  | inl one ↦ (48 + n, [], rw one refl, digit_char n (ground arith))
  | inr more ↦
      let (c, cs, e, d) = digits-first fuel (n / 10) (ground arith) in
      (c, cs ++ (48 + n % 10) ∷ [], rw (more, e) refl, d)
]

skip_spaces-digit : (c : ℕ) (cs : List ℕ) → is_digit c ≡ true → skip_spaces (c ∷ cs) ≡ c ∷ cs
unfolding skip_spaces
skip_spaces-digit c cs h = ground arith

signed_value-digit :
    (c : ℕ) (cs : List ℕ) → is_digit c ≡ true → signed_value (c ∷ cs) ≡ (false, value_of 0 (c ∷ cs))
unfolding signed_value
signed_value-digit c cs h = ground arith

pub signed_value-to_string : (n : ℕ) → signed_value (skip_spaces (to_string n)) ≡ (false, n)
unfolding to_string
signed_value-to_string n =
    let (c, cs, e, d) = digits-first (suc n) n (omega arith) in
    let value : value_of 0 (c ∷ cs) ≡ n =
      ap (value_of 0) (sym e) ∙ value_of-digits (suc n) n (omega arith) in
    rw e (rw (skip_spaces-digit c cs d) (signed_value-digit c cs d ∙ ap (λ v. (false, v)) value))

value_of-to_string : (n : ℕ) → value_of 0 (to_string n) ≡ n
unfolding to_string
value_of-to_string n = value_of-digits (suc n) n (omega arith)

signed_value-minus : (n : ℕ) → signed_value (skip_spaces (45 ∷ to_string n)) ≡ (true, n)
unfolding signed_value skip_spaces
signed_value-minus n = ap (λ v. (true, v)) (value_of-to_string n)

stoull_text-digit :
    (c : ℕ) (cs : List ℕ)
    → is_digit c ≡ true
    → stoull_text (c ∷ cs) ≡ in_range false (value_of 0 (c ∷ cs))
unfolding stoull_text
stoull_text-digit c cs h = rw h refl

pub stoull-to_string : (n : ℕ) → n < 2 ^ 64 → stoull (to_string n) ≡ ok n
unfolding stoull to_string
stoull-to_string n h =
    let (c, cs, e, d) = digits-first (suc n) n (omega arith) in
    let value : value_of 0 (c ∷ cs) ≡ n =
      ap (value_of 0) (sym e) ∙ value_of-digits (suc n) n (omega arith) in
    rw e (
      rw (skip_spaces-digit c cs d)
        (stoull_text-digit c cs d ∙ ap (in_range false) value ∙ ground arith))

pub atoi-to_string_int : (z : ℤ) → IsInt32 z → atoi (to_string_int z) ≡ z
unfolding atoi to_string_int
atoi-to_string_int (pos n) h = rw (signed_value-to_string n) (ground arith)
atoi-to_string_int (negsuc n) h = rw (signed_value-minus (suc n)) (ground arith)

-- The range of an int64_t.
abbrev pub IsInt64 : ℤ → Type 0
IsInt64 z = (pos_part z < 2 ^ 63) × (neg_part z ≤ 2 ^ 63)

pub strtoll-to_string_int : (z : ℤ) → IsInt64 z → strtoll (to_string_int z) ≡ z
unfolding strtoll to_string_int
strtoll-to_string_int (pos n) h = rw (signed_value-to_string n) (ground arith)
strtoll-to_string_int (negsuc n) h = rw (signed_value-minus (suc n)) (ground arith)
