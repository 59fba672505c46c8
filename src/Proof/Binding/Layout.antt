-- ===== src/Proof/Binding/Layout.antt =====
-- The header of the proof: seven segments of 32 bytes, then zeros.
use mathlib.Core.List.{append_assoc}
use mathlib.Core.Path.{subst}
use clevercon.Prelude.{
  ℕ, zero, suc, ◌+◌, ◌-◌, ◌≡◌, refl, ap, ◌∙◌, sym, [], ◌∷◌, ◌++◌, length, arith, length-append,
}
use clevercon.Proof.Bytes.{Bytes, zeros, copy, take, drop, subarray, length-zeros}
use clevercon.Proof.Binding.{assemble}

copy_over : (s z r : Bytes) → length z ≡ length s → copy s zero (z ++ r) ≡ s ++ r
unfolding copy
copy_over [] [] [] e = refl
copy_over [] [] (b ∷ r) e = refl
copy_over [] (z ∷ zs) r e = absurd (omega arith)
copy_over (b ∷ s) [] r e = absurd (omega arith)
copy_over (b ∷ s) (z ∷ zs) r e = ap (λ t. b ∷ t) (copy_over s zs r (omega arith))

copy_after : (p s d : Bytes) → copy s (length p) (p ++ d) ≡ p ++ copy s zero d
unfolding copy
copy_after [] s d = refl
copy_after (b ∷ p) s d = ap (λ t. b ∷ t) (copy_after p s d)

-- A write of 32 bytes right after the part that is written.
copy_next :
    (p s z r : Bytes) (at : ℕ)
    → length p ≡ at
    → length z ≡ length s
    → copy s at (p ++ (z ++ r)) ≡ (p ++ s) ++ r
copy_next p s z r at e f =
    subst (λ n. copy s n (p ++ (z ++ r)) ≡ (p ++ s) ++ r) e
      (copy_after p s (z ++ r) ∙ ap (λ t. p ++ t) (copy_over s z r f) ∙ sym (append_assoc p s r))

take_prefix : (s r : Bytes) → take (length s) (s ++ r) ≡ s
unfolding take
take_prefix [] r = refl
take_prefix (b ∷ s) r = ap (λ t. b ∷ t) (take_prefix s r)

drop_prefix : (p r : Bytes) → drop (length p) (p ++ r) ≡ r
unfolding drop
drop_prefix [] r = refl
drop_prefix (b ∷ p) r = drop_prefix p r

-- A segment is read back at its place.
pub subarray_segment :
    (p s r : Bytes) (from to : ℕ)
    → length p ≡ from
    → to ≡ from + length s
    → subarray from to (p ++ (s ++ r)) ≡ s
unfolding subarray
subarray_segment p s r from to e f =
    let n : to - from ≡ length s = omega arith in
    rw n (
      subst (λ k. take (length s) (drop k (p ++ (s ++ r))) ≡ s) e
        (rw (drop_prefix p (s ++ r)) (take_prefix s r)))

abbrev pub Is32 : Bytes → Type 0
Is32 b = length b ≡ 32

length_snoc : (p s : Bytes) (n : ℕ) → length p ≡ n → Is32 s → length (p ++ s) ≡ n + 32
length_snoc p s n e f = omega (arith, length-append p s)

zeros-add : (m n : ℕ) → zeros (m + n) ≡ zeros m ++ zeros n
unfolding zeros
zeros-add zero n = ap zeros (omega arith)
zeros-add (suc m) n =
    let e : suc m + n ≡ suc (m + n) = omega arith in rw e (ap (λ t. 0 ∷ t) (zeros-add m n))

-- A write into the zeros behind the part that is written.
copy_into_zeros :
    (p s : Bytes) (at n : ℕ)
    → length p ≡ at
    → Is32 s
    → copy s at (p ++ zeros (32 + n)) ≡ (p ++ s) ++ zeros n
copy_into_zeros p s at n e f =
    rw (zeros-add 32 n) (copy_next p s (zeros 32) (zeros n) at e (length-zeros 32 ∙ sym f))

module _ (pi cid lin gp sel opening shifted : Bytes) (h0 : Is32 pi) (h1 : Is32 cid) (h2 : Is32 lin)
    (h3 : Is32 gp) (h4 : Is32 sel) (h5 : Is32 opening) (h6 : Is32 shifted) where
  pub assemble_lem :
      assemble pi cid lin gp sel opening shifted
      ≡ ((((((pi ++ cid) ++ lin) ++ gp) ++ sel) ++ opening) ++ shifted) ++ zeros 288
  unfolding assemble
  assemble_lem =
      let l1 = length_snoc pi cid 32 h0 h1 in
      let l2 = length_snoc (pi ++ cid) lin 64 l1 h2 in
      let l3 = length_snoc ((pi ++ cid) ++ lin) gp 96 l2 h3 in
      let l4 = length_snoc (((pi ++ cid) ++ lin) ++ gp) sel 128 l3 h4 in
      let l5 = length_snoc ((((pi ++ cid) ++ lin) ++ gp) ++ sel) opening 160 l4 h5 in
      rw
        (
          copy_into_zeros [] pi 0 480 refl h0,
          copy_into_zeros pi cid 32 448 h0 h1,
          copy_into_zeros (pi ++ cid) lin 64 416 l1 h2,
          copy_into_zeros ((pi ++ cid) ++ lin) gp 96 384 l2 h3,
          copy_into_zeros (((pi ++ cid) ++ lin) ++ gp) sel 128 352 l3 h4,
          copy_into_zeros ((((pi ++ cid) ++ lin) ++ gp) ++ sel) opening 160 320 l4 h5,
          copy_into_zeros (((((pi ++ cid) ++ lin) ++ gp) ++ sel) ++ opening) shifted 192 288 l5 h6,
        )
        refl

  abbrev header : Bytes
  header = assemble pi cid lin gp sel opening shifted

  pub header_reads :
      (subarray 0 32 header ≡ pi)
      × (subarray 32 64 header ≡ cid)
      × (subarray 64 96 header ≡ lin)
      × (subarray 96 128 header ≡ gp)
      × (subarray 128 160 header ≡ sel)
      × (subarray 160 192 header ≡ opening)
      × (subarray 192 224 header ≡ shifted)
  header_reads =
      let l1 = length_snoc pi cid 32 h0 h1 in
      let l2 = length_snoc (pi ++ cid) lin 64 l1 h2 in
      let l3 = length_snoc ((pi ++ cid) ++ lin) gp 96 l2 h3 in
      let l4 = length_snoc (((pi ++ cid) ++ lin) ++ gp) sel 128 l3 h4 in
      let l5 = length_snoc ((((pi ++ cid) ++ lin) ++ gp) ++ sel) opening 160 l4 h5 in
      let z = zeros 288 in
      rw assemble_lem (
        at [] pi (cid ++ (lin ++ (gp ++ (sel ++ (opening ++ (shifted ++ z)))))) 0 refl h0
            (simp append_assoc),
        at pi cid (lin ++ (gp ++ (sel ++ (opening ++ (shifted ++ z))))) 32 h0 h1
            (simp append_assoc),
        at (pi ++ cid) lin (gp ++ (sel ++ (opening ++ (shifted ++ z)))) 64 l1 h2
            (simp append_assoc),
        at ((pi ++ cid) ++ lin) gp (sel ++ (opening ++ (shifted ++ z))) 96 l2 h3
            (simp append_assoc),
        at (((pi ++ cid) ++ lin) ++ gp) sel (opening ++ (shifted ++ z)) 128 l3 h4
            (simp append_assoc),
        at ((((pi ++ cid) ++ lin) ++ gp) ++ sel) opening (shifted ++ z) 160 l4 h5
            (simp append_assoc),
        at (((((pi ++ cid) ++ lin) ++ gp) ++ sel) ++ opening) shifted z 192 l5 h6
            (simp append_assoc),
      )
    where
      at :
          (p s r : Bytes) (from : ℕ) {whole : Bytes}
          → length p ≡ from
          → Is32 s
          → whole ≡ p ++ (s ++ r)
          → subarray from (from + 32) whole ≡ s
      at p s r from e f w = rw w (subarray_segment p s r from (from + 32) e (omega arith))

  pub length-header : length header ≡ 512
  length-header =
      let l1 = length_snoc pi cid 32 h0 h1 in
      let l2 = length_snoc (pi ++ cid) lin 64 l1 h2 in
      let l3 = length_snoc ((pi ++ cid) ++ lin) gp 96 l2 h3 in
      let l4 = length_snoc (((pi ++ cid) ++ lin) ++ gp) sel 128 l3 h4 in
      let l5 = length_snoc ((((pi ++ cid) ++ lin) ++ gp) ++ sel) opening 160 l4 h5 in
      let l6 = length_snoc (((((pi ++ cid) ++ lin) ++ gp) ++ sel) ++ opening) shifted 192 l5 h6 in
      rw assemble_lem (
        omega (
          arith,
          l6,
          length-zeros 288,
          length-append ((((((pi ++ cid) ++ lin) ++ gp) ++ sel) ++ opening) ++ shifted) (zeros 288),
        ))
