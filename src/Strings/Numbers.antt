-- ===== src/Strings/Numbers.antt =====
-- Printing a number and reading it back.
use scale_cluster_agent.Strings.{scan, atoi, digits, itoa, max_int}
use scale_cluster_agent.Prelude.Int.{pos}
use scale_cluster_agent.Prelude.{
  ℕ, zero, suc, ◌+◌, ◌/◌, ◌%◌, ◌≤◌, ◌<◌, ◌≡◌, [], ◌∷◌, some, arith, Text, Lacks, Bool-cases, ltb,
  inl, inr,
}

scan-digits : (f n : ℕ) (out : Text) → n < f → scan (digits f n out) 0 ≡ scan out n
unfolding scan digits
scan-digits zero n out h = elim h [ ]
scan-digits (suc f) n out h = ground (arith, scan-digits f (n / 10) ((b'0' + n % 10) ∷ out))

-- Different numbers are printed differently.
pub scan-itoa : (n : ℕ) → scan (itoa n) 0 ≡ some n
unfolding itoa scan
scan-itoa n = scan-digits (suc n) n [] (omega arith)

digits-Lacks : (f n : ℕ) (out : Text) → Lacks b'-' out → Lacks b'-' (digits f n out)
unfolding digits
digits-Lacks zero n out h = h
digits-Lacks (suc f) n out h = ground (arith, digits-Lacks f (n / 10) ((b'0' + n % 10) ∷ out))

-- A printed number has no sign in it.
pub itoa-Lacks : (n : ℕ) → Lacks b'-' (itoa n)
unfolding itoa
itoa-Lacks n = digits-Lacks (suc n) n [] tt

digits_head :
    (f n : ℕ) (out : Text)
    → n < f
    → (c : ℕ) × (s : Text) × (digits f n out ≡ c ∷ s) × (b'0' ≤ c) × (c ≤ b'9')
unfolding digits
digits_head zero n out h = elim h [ ]
digits_head (suc f) n out h = elim (Bool-cases (ltb n 10)) [
  | inl t ↦ (b'0' + n, out, rw t, omega arith, ground arith)
  | inr t ↦ rw t (digits_head f (n / 10) ((b'0' + n % 10) ∷ out) (ground arith))
]

-- A printed number in the range of `int` is read back.
pub atoi-itoa : (n : ℕ) → n ≤ max_int → atoi (itoa n) ≡ some (pos n)
unfolding itoa atoi
atoi-itoa n h =
    let (c, s, e, lo, hi) = digits_head (suc n) n [] (omega arith) in
    let r = scan-digits (suc n) n [] (omega arith) in rw e (ground (arith, rw e at r))
