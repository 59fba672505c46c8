-- ===== src/Proof/Binding/Search.antt =====
-- The search for an opening evaluation: what it finds closes, and it finds the first.
use mathlib.Core.Path.{subst}
use clevercon.Prelude.{
  ℕ, zero, suc, ◌+◌, ◌<◌, ◌≡◌, ◌∙◌, refl, true, false, some, arith, Bool-cases, inl, inr, length,
  [], ◌∷◌,
}
use clevercon.Proof.Bytes.{Bytes, zeros, big_endian, copy, length-zeros}
use clevercon.Proof.Inputs.{Crypto}
use clevercon.Proof.Binding.{closes, opening_at, find_opening}
use clevercon.Proof.Binding.Layout.{Is32}

length-copy : (s : Bytes) (at : ℕ) (d : Bytes) → length (copy s at d) ≡ length d
unfolding copy
length-copy s zero [] = refl
length-copy [] zero (x ∷ d) = refl
length-copy (b ∷ s) zero (x ∷ d) = omega (arith, length-copy s zero d)
length-copy s (suc at) [] = refl
length-copy s (suc at) (x ∷ d) = omega (arith, length-copy s at d)

pub opening_at-Is32 : (n : ℕ) → Is32 (opening_at n)
unfolding opening_at
opening_at-Is32 n = length-copy (big_endian 4 n) 28 (zeros 32) ∙ length-zeros 32

module _ (c : Crypto) where
  pub find_opening_sound :
      (rounds n : ℕ) (zeta shifted : Bytes) {o : Bytes}
      → find_opening c rounds n zeta shifted ≡ some o
      → (closes c zeta o shifted ≡ true) × Is32 o
  unfolding find_opening
  find_opening_sound zero n zeta shifted e = cc
  find_opening_sound (suc rounds) n zeta shifted {o} e =
      elim (Bool-cases (closes c zeta (opening_at n) shifted)) [
        | inl here ↦
            let same : opening_at n ≡ o = ground arith in
            subst (λ b. (closes c zeta b shifted ≡ true) × Is32 b) same (here, opening_at-Is32 n)
        | inr later ↦ find_opening_sound rounds (n + 1) zeta shifted (ground arith)
      ]

  -- A counter within the rounds that closes makes the search succeed.
  pub find_opening_complete :
      (rounds n k : ℕ) (zeta shifted : Bytes)
      → k < rounds
      → closes c zeta (opening_at (n + k)) shifted ≡ true
      → (o : Bytes) × (find_opening c rounds n zeta shifted ≡ some o)
  unfolding find_opening
  find_opening_complete zero n k zeta shifted lt h = absurd (omega arith)
  find_opening_complete (suc rounds) n k zeta shifted lt h =
      elim (Bool-cases (closes c zeta (opening_at n) shifted)) [
        | inl here ↦ (opening_at n, rw here)
        | inr later ↦
            let (k', lt', h') = later_round k lt h later in
            rw later (find_opening_complete rounds (n + 1) k' zeta shifted lt' h')
      ]
    where
      later_round :
          (k : ℕ)
          → k < suc rounds
          → closes c zeta (opening_at (n + k)) shifted ≡ true
          → closes c zeta (opening_at n) shifted ≡ false
          → (k' : ℕ) × (k' < rounds) × (closes c zeta (opening_at (n + 1 + k')) shifted ≡ true)
      later_round zero lt h no_luck =
          let e : n + zero ≡ n = omega arith in
          let closed : closes c zeta (opening_at n) shifted ≡ true = rw e at h in cc
      later_round (suc k) lt h no_luck =
          let e : n + suc k ≡ n + 1 + k = omega arith in (k, omega arith, rw e at h)
