-- ===== src/Decimal/RoundTrip.antt =====
-- `strconv.Atoi` on the numerals of `strconv.Itoa`.
use provider_strapi.Prelude.{
  ℕ, zero, suc, ◌+◌, ◌*◌, ◌/◌, ◌%◌, ◌<◌, ◌≤◌, [], ◌∷◌, ◌++◌, none, some, ◌≡◌, refl, sym, ap, ◌∙◌,
  inl, inr, ltb, arith, Bool-cases, append_assoc, append-nil,
}
use provider_strapi.Prelude.Int.{ℤ, pos, negsuc, InRange}
use provider_strapi.Text.{Text}
use provider_strapi.Decimal.{minus, decimal, itoa, digits, unsigned, positive, negative, atoi}

digits-cons :
    (value d : ℕ) (s : Text) → d < 10 → digits value ((b'0' + d) ∷ s) ≡ digits (value * 10 + d) s
unfolding digits
digits-cons value d s h = ground arith

digits-decimal : (fuel n : ℕ) (s : Text) → n < fuel → digits 0 (decimal fuel n ++ s) ≡ digits n s
unfolding decimal
digits-decimal zero n s h = absurd (omega arith)
digits-decimal (suc fuel) n s h = elim (Bool-cases (ltb n 10)) [
  | inl e ↦
      let whole : 0 * 10 + n ≡ n = omega arith in
      rw e (digits-cons 0 n s (ground arith) ∙ ap (λ (v : ℕ). digits v s) whole)
  | inr e ↦
      let smaller : n / 10 < fuel = ground arith in
      let whole : (n / 10) * 10 + n % 10 ≡ n = omega arith in
      rw (e, append_assoc (decimal fuel (n / 10)) ((b'0' + n % 10) ∷ []) s)
        (digits-decimal fuel (n / 10) ((b'0' + n % 10) ∷ s) smaller
          ∙ digits-cons (n / 10) (n % 10) s (omega arith)
          ∙ ap (λ (v : ℕ). digits v s) whole)
]

-- the first byte of a number is a digit
decimal-cons :
    (fuel n : ℕ) → n < fuel → (c : ℕ) × (s : Text) × (decimal fuel n ≡ c ∷ s) × (b'0' ≤ c)
unfolding decimal
decimal-cons zero n h = absurd (omega arith)
decimal-cons (suc fuel) n h = elim (Bool-cases (ltb n 10)) [
  | inl e ↦ (b'0' + n, [], rw e, omega arith)
  | inr e ↦
      let (c, s, p, q) = decimal-cons fuel (n / 10) (ground arith) in
      (c, s ++ (b'0' + n % 10) ∷ [], rw (e, p), q)
]

unsigned-decimal : (fuel n : ℕ) → n < fuel → unsigned (decimal fuel n) ≡ some n
unfolding unsigned
unsigned-decimal fuel n h =
    let (c, s, p, q) = decimal-cons fuel n h in
    let whole : digits 0 (decimal fuel n) ≡ some n =
      ap (digits 0) (sym (append-nil (decimal fuel n))) ∙ digits-decimal fuel n [] h in
    rw p (rw p at whole)

itoa-pos : (n : ℕ) → itoa (pos n) ≡ decimal (suc n) n
unfolding itoa
itoa-pos n = refl

itoa-negsuc : (n : ℕ) → itoa (negsuc n) ≡ minus ∷ decimal (suc (suc n)) (suc n)
unfolding itoa
itoa-negsuc n = refl

atoi-unsigned : (c : ℕ) (s : Text) → b'0' ≤ c → atoi (c ∷ s) ≡ positive (unsigned (c ∷ s))
unfolding atoi
atoi-unsigned c s h = ground arith

atoi-minus : (s : Text) → atoi (minus ∷ s) ≡ negative (unsigned s)
unfolding atoi
atoi-minus s = refl

pub atoi-nil : atoi [] ≡ none
unfolding atoi
atoi-nil = refl

-- The ID of a role is read back from the external name that is written for it.
pub atoi-itoa : (i : ℤ) → InRange i → atoi (itoa i) ≡ some i
unfolding positive negative
atoi-itoa (pos n) h =
    let (c, s, p, q) = decimal-cons (suc n) n (omega arith) in
    let read = unsigned-decimal (suc n) n (omega arith) in
    rw (itoa-pos n, p, atoi-unsigned c s q, ← p, read) (ground arith)
atoi-itoa (negsuc n) h =
    rw (itoa-negsuc n, atoi-minus, unsigned-decimal (suc (suc n)) (suc n) (omega arith))
      (ground arith)
