-- ===== src/Base/Int.antt =====
-- Integers over the native numbers, and `str(n)`.
use agent_authorization_gate.Base.{
  ℕ, zero, suc, ◌+◌, ◌-◌, ◌*◌, ◌/◌, ◌%◌, ◌<◌, ◌≡◌, Str, [], ◌∷◌, arith, ltb, if◌then◌else◌,
  is_space, some, Bool, Option, none, true, leb, ◌&&◌, false, ◌==◌, ◌∙◌, Bool-cases, inl, inr, ap,
  refl,
}

-- `negsuc n` is -(n + 1).
pub data ℤ : Type 0 where
  pos : ℕ → ℤ
  negsuc : ℕ → ℤ

-- The decimal digits of a number before a text, on fuel.
unfoldable pub show_digits : ℕ → ℕ → Str → Str
show_digits zero n rest = rest
show_digits (suc fuel) n rest =
    let d = b'0' + n % 10 in
    let more = show_digits fuel (n / 10) (d ∷ rest) in if ltb n 10 then d ∷ rest else more

-- `str(n)` for a natural number.
unfoldable pub show_nat : ℕ → Str
unfolding show_digits
show_nat n = show_digits (suc n) n []

-- `str(n)`
unfoldable pub show_int : ℤ → Str
unfolding show_nat
show_int (pos n) = show_nat n
show_int (negsuc n) = b'-' ∷ show_nat (suc n)

abbrev is_digit : ℕ → Bool
is_digit c = leb b'0' c && leb c b'9'

abbrev all_space : Str → Bool
all_space [] = true
all_space (c ∷ s) = if is_space c then all_space s else false

-- The digits of `int(text)`, with single underscores between digits and white space after them.
unfoldable pub int_digits : ℕ → Bool → Str → Option ℕ
int_digits n after_digit [] = if after_digit then some n else none
int_digits n after_digit (c ∷ s) =
    let next = int_digits (n * 10 + (c - b'0')) true s in
    let skip = int_digits n false s in
    if is_digit c
    then next
    else if after_digit
    then (if c == b'_' then skip else if is_space c && all_space s then some n else none)
    else none

-- After the white space in front: an optional sign, then digits.
unfoldable pub int_signed : Str → Option ℤ
unfolding int_digits is_space
int_signed [] = none
int_signed (c ∷ s) =
    let skip = int_signed s in
    if is_space c
    then skip
    else if c == b'-'
    then elim (int_digits 0 false s) [
      | none ↦ none
      | some zero ↦ some (pos 0)
      | some (suc n) ↦ some (negsuc n)
    ]
    else if c == b'+'
    then elim (int_digits 0 false s) [ none ↦ none | some n ↦ some (pos n) ]
    else elim (int_digits 0 false (c ∷ s)) [ none ↦ none | some n ↦ some (pos n) ]

-- `int(text)` over ASCII digits and white space; `none` is its ValueError.
unfoldable pub int_of_str : Str → Option ℤ
unfolding int_signed
int_of_str s = int_signed s

int_digits-digit :
    (n d : ℕ) (b : Bool) (s : Str)
    → d < 10
    → int_digits n b ((b'0' + d) ∷ s) ≡ int_digits (n * 10 + d) true s
int_digits-digit n d b s h =
    let same : b'0' + d - b'0' ≡ d = omega arith in
    let digit : is_digit (b'0' + d) ≡ true = ground arith in unfold int_digits in rw digit (rw same)

end_of_digits : (n : ℕ) → int_digits n true [] ≡ some n
unfolding int_digits
end_of_digits n = refl

-- Reading what `show_digits` wrote.
read-show_digits :
    (fuel n : ℕ) (b : Bool) (rest : Str)
    → n < fuel
    → int_digits 0 b (show_digits fuel n rest) ≡ int_digits n true rest
unfolding show_digits
read-show_digits zero n b rest h = absurd (omega arith)
read-show_digits (suc fuel) n b rest h = elim (Bool-cases (ltb n 10)) [
  | inl small ↦
      let same : 0 * 10 + n % 10 ≡ n = ground arith in
      rw small
        (int_digits-digit 0 (n % 10) b rest (omega arith) ∙ ap (λ k. int_digits k true rest) same)
  | inr large ↦
      let same : n / 10 * 10 + n % 10 ≡ n = omega arith in
      rw large (
        read-show_digits fuel (n / 10) b ((b'0' + n % 10) ∷ rest) (ground arith)
        ∙ int_digits-digit (n / 10) (n % 10) true rest (omega arith)
        ∙ ap (λ k. int_digits k true rest) same)
]

-- A text that begins with a digit.
abbrev Digital : Str → Type 0
Digital s = (c : ℕ) × (t : Str) × (s ≡ c ∷ t) × (is_digit c ≡ true)

show_digits-Digital : (fuel n : ℕ) (rest : Str) → Digital rest → Digital (show_digits fuel n rest)
unfolding show_digits
show_digits-Digital zero n rest h = h
show_digits-Digital (suc fuel) n rest h =
    let d : Digital ((b'0' + n % 10) ∷ rest) = (_, _, refl, ground arith) in
    elim (Bool-cases (ltb n 10)) [
      | inl small ↦ rw small d
      | inr large ↦ rw large (show_digits-Digital fuel (n / 10) ((b'0' + n % 10) ∷ rest) d)
    ]

show_nat-Digital : (n : ℕ) → Digital (show_nat n)
unfolding show_nat
show_nat-Digital n =
    let d : Digital ((b'0' + n % 10) ∷ []) = (_, _, refl, ground arith) in
    elim (Bool-cases (ltb n 10)) [
      | inl small ↦ rw small d
      | inr large ↦ rw large (show_digits-Digital n (n / 10) ((b'0' + n % 10) ∷ []) d)
    ]

signed-Digital :
    (s : Str) (n : ℕ) → Digital s → int_digits 0 false s ≡ some n → int_signed s ≡ some (pos n)
signed-Digital [] n (c, t, e, d) h = cc
signed-Digital (c ∷ s) n (x, t, e, d) h =
    let same : x ≡ c = cc in
    let digit : is_digit c ≡ true = rw same at d in
    let not_space : is_space c ≡ false = unfold is_space in ground arith in
    let not_minus : (c == b'-') ≡ false = ground arith in
    let not_plus : (c == b'+') ≡ false = ground arith in
    unfold int_signed in rw not_space (rw not_minus (rw not_plus (rw h)))

-- `int(str(n))` is `n`.
pub int_of_str-show_nat : (n : ℕ) → int_of_str (show_nat n) ≡ some (pos n)
unfolding int_of_str
int_of_str-show_nat n =
    signed-Digital (show_nat n) n (show_nat-Digital n)
      (unfold show_nat in (read-show_digits (suc n) n false [] (omega arith) ∙ end_of_digits n))
