-- ===== src/Cardano/Lifting/Digits.antt =====
-- crates/tx3-lift-cardano/src/lifting.rs: the fuel of the decimal digits is enough.
use tx3_lift.Prelude.{
  ℕ, zero, suc, ◌+◌, ◌-◌, ◌*◌, ◌/◌, ◌%◌, ◌<◌, ◌≡◌, refl, sym, ◌∙◌, ap, inl, inr, [], ◌∷◌, ◌++◌,
  Text, ltb, Bool-cases, arith,
}
use tx3_lift.Cardano.Lifting.{decimal_digits, reference_name}

-- the number that digits stand for
abbrev pub read_digits : ℕ → Text → ℕ
read_digits acc [] = acc
read_digits acc (c ∷ cs) = read_digits (acc * 10 + (c - 48)) cs

read_digits-append :
    (cs : Text) (acc c : ℕ) → read_digits acc (cs ++ c ∷ []) ≡ read_digits acc cs * 10 + (c - 48)
read_digits-append [] acc c = refl
read_digits-append (d ∷ cs) acc c = read_digits-append cs (acc * 10 + (d - 48)) c

-- With fuel above `n`, the decimal digits are those of `n`: they read back as `n`.
pub read_digits-decimal_digits : (fuel n : ℕ) → n < fuel → read_digits 0 (decimal_digits fuel n) ≡ n
read_digits-decimal_digits zero n h = omega arith
read_digits-decimal_digits (suc fuel) n h = elim (Bool-cases (ltb n 10)) [
  | inl y ↦ rw y (omega arith)
  | inr m ↦
      let smaller = read_digits-decimal_digits fuel (n / 10) (ground arith) in
      rw m (
        rw (read_digits-append (decimal_digits fuel (n / 10)) 0 (n % 10 + 48), smaller)
          (omega arith))
]

-- the digits of a name, after `ref_`
abbrev read_name : Text → ℕ
read_name (a ∷ b ∷ c ∷ d ∷ cs) = read_digits 0 cs
read_name cs = 0

-- References at different positions of the TIR never get the same name.
pub reference_name_inj : (i j : ℕ) → reference_name i ≡ reference_name j → i ≡ j
reference_name_inj i j h =
    sym (read_digits-decimal_digits (suc i) i (omega arith))
    ∙ ap read_name h
    ∙ read_digits-decimal_digits (suc j) j (omega arith)
