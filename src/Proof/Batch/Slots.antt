-- ===== src/Proof/Batch/Slots.antt =====
-- The slots of a batch whose releases show their memberships of an allowlist.
use clevercon.Prelude.{
  ℕ, zero, suc, ◌^◌, ◌≤◌, ◌≡◌, ◌⊎◌, refl, sym, ap, ◌∙◌, subst, Bool, true, some, List, [], ◌∷◌,
  ◌==◌, length, any, count, All, arith, inl, inr,
}
use clevercon.Proof.Bytes.{value}
use clevercon.Proof.Inputs.{Crypto, payee_field, ◌>>=◌, >>=-eq-some}
use clevercon.Proof.Allowlist.{Poseidon, Entry, Allowlist, membership, build_allowlist}
use clevercon.Proof.Allowlist.Climb.{climb}
use clevercon.Proof.Allowlist.Paths.{Verified, membership-Verified}
use clevercon.Proof.Batch.{
  batch_n, BatchRelease, Slot, null_slot, active_slot, slot_of, fill_slots, build_batch_witness,
}

abbrev pub is_active : Slot → Bool
is_active s = s.active == 1

module _ (c : Crypto) where
  build_batch_witness-slots :
      (flags : List Bool) (rs : List BatchRelease) {ss : List Slot}
      → build_batch_witness c flags rs ≡ some ss
      → (length rs ≤ batch_n) × (fill_slots c batch_n rs ≡ some ss)
  unfolding build_batch_witness
  build_batch_witness-slots flags rs h = ground arith

module _ (c : Crypto) (p : Poseidon) where
  -- A release that shows the membership of its payee, which an entry of the allowlist names.
  abbrev pub Shows : List Entry → Allowlist → BatchRelease → Type 0
  Shows entries al r =
      (r.membership ≡ membership p al r.payee_address)
      × (any (λ (e : Entry). e.payee_address == r.payee_address) entries ≡ true)

  -- What the circuit can prove of a slot: a null one pays nothing, and an active one's path leads
  -- from its payee and terms to the root.
  abbrev pub Provable : ℕ → Slot → Type 0
  Provable root s =
      ((s.active ≡ 0) × (s.amount ≡ 0))
      ⊎ ((s.active ≡ 1)
          × (climb p (p.p3 s.payee_field s.payee_cap s.payee_category) s.r3_path s.r3_index ≡ root))

  slot_of-Provable :
      (entries : List Entry) (al : Allowlist) (r : BatchRelease) {s : Slot}
      → Verified c p entries al r.payee_address
      → r.membership ≡ membership p al r.payee_address
      → slot_of c r ≡ some s
      → (s.active ≡ 1)
        × (climb p (p.p3 s.payee_field s.payee_cap s.payee_category) s.r3_path s.r3_index ≡ al.root)
  unfolding slot_of
  slot_of-Provable entries al r {s} v m h =
      let (f, of, k) =
        >>=-eq-some (payee_field c r.payee_address)
          (λ f. some (active_slot (value f) r r.membership)) h in
      let same : v.field ≡ f = cc (v.of_field, of) in
      let last : active_slot (value f) r r.membership ≡ s = cc k in
      let whole : active_slot (value v.field) r (some v.member) ≡ s =
        ap (active_slot (value v.field) r) (sym (m ∙ v.shown))
        ∙ ap (λ f. active_slot (value f) r r.membership) same
        ∙ last in
      subst
        (λ s.
          (s.active ≡ 1)
          × (climb p (p.p3 s.payee_field s.payee_cap s.payee_category) s.r3_path s.r3_index
              ≡ al.root))
        whole (refl, v.leads_up)

  -- What the slots of a batch are: as many as the circuit has, as many of them active as there are
  -- releases, and each provable.
  pub record Filled (n : ℕ) (root : ℕ) (rs : List BatchRelease) (ss : List Slot) : Type 0 where
    pub sized : length ss ≡ n
    pub active : count is_active ss ≡ length rs
    pub provable : All (Provable root) ss

  fill_slots-∷ :
      (n : ℕ) (r : BatchRelease) (rs : List BatchRelease) {ss : List Slot}
      → fill_slots c (suc n) (r ∷ rs) ≡ some ss
      → (s : Slot) × (rest : List Slot) × (slot_of c r ≡ some s)
        × (fill_slots c n rs ≡ some rest)
        × (s ∷ rest ≡ ss)
  unfolding fill_slots
  fill_slots-∷ n r rs {ss} h =
      let (s, l, h1) =
        >>=-eq-some (slot_of c r) (λ s. fill_slots c n rs >>= λ rest. some (s ∷ rest)) h in
      let (rest, q, h2) = >>=-eq-some (fill_slots c n rs) (λ rest. some (s ∷ rest)) h1 in
      (s, rest, l, q, cc h2)

  fill_slots-null :
      (n : ℕ) {ss : List Slot}
      → fill_slots c (suc n) [] ≡ some ss
      → (rest : List Slot) × (fill_slots c n [] ≡ some rest) × (null_slot ∷ rest ≡ ss)
  unfolding fill_slots
  fill_slots-null n {ss} h =
      let (rest, q, h1) = >>=-eq-some (fill_slots c n []) (λ rest. some (null_slot ∷ rest)) h in
      (rest, q, cc h1)

  fill_slots-zero :
      (rs : List BatchRelease) {ss : List Slot} → fill_slots c 0 rs ≡ some ss → [] ≡ ss
  unfolding fill_slots
  fill_slots-zero rs h = cc h

  null-Filled :
      (n root : ℕ) (rest : List Slot)
      → Filled n root [] rest
      → Filled (suc n) root [] (null_slot ∷ rest)
  unfolding null_slot
  null-Filled n root rest f = record {
    sized = omega (arith, f.sized);
    active = f.active;
    provable = (inl (refl, refl), f.provable);
  }

  active-Filled :
      (n root : ℕ) (r : BatchRelease) (rs : List BatchRelease) (s : Slot) (rest : List Slot)
      → s.active ≡ 1
      → climb p (p.p3 s.payee_field s.payee_cap s.payee_category) s.r3_path s.r3_index ≡ root
      → Filled n root rs rest
      → Filled (suc n) root (r ∷ rs) (s ∷ rest)
  active-Filled n root r rs s rest a up f = record {
    sized = omega (arith, f.sized);
    active = rw a (ap (λ k. suc k) f.active);
    provable = (inr (a, up), f.provable);
  }

  fill_slots-Filled :
      (entries : List Entry) (depth : ℕ) (al : Allowlist) (n : ℕ) (rs : List BatchRelease)
      (ss : List Slot)
      → build_allowlist c p entries depth ≡ some al
      → length entries ≤ 2 ^ depth
      → All (Shows entries al) rs
      → length rs ≤ n
      → fill_slots c n rs ≡ some ss
      → Filled n al.root rs ss
  fill_slots-Filled entries depth al zero [] ss b room shown few h =
      subst (Filled 0 al.root []) (fill_slots-zero [] h)
        (record { sized = refl; active = refl; provable = tt })
  fill_slots-Filled entries depth al zero (r ∷ rs) ss b room shown few h = ground arith
  fill_slots-Filled entries depth al (suc n) [] ss b room shown few h =
      let (rest, q, e) = fill_slots-null n h in
      subst (Filled (suc n) al.root []) e (
        null-Filled n al.root rest
          (fill_slots-Filled entries depth al n [] rest b room tt (omega arith) q))
  fill_slots-Filled entries depth al (suc n) (r ∷ rs) ss b room shown few h =
      let (s, rest, l, q, e) = fill_slots-∷ n r rs h in
      let member = membership-Verified c p entries depth r.payee_address al b room shown.0.1 in
      let (a, up) = slot_of-Provable entries al r member shown.0.0 l in
      subst (Filled (suc n) al.root (r ∷ rs)) e (
        active-Filled n al.root r rs s rest a up
          (fill_slots-Filled entries depth al n rs rest b room shown.1 (omega (arith, few)) q))

  -- The witness of a batch whose releases show their payees' memberships of an allowlist within its
  -- capacity: it has exactly the circuit's slots, as many active ones as there are releases; a null
  -- slot pays nothing, and the path of an active one leads from its payee and terms to the root.
  pub build_batch_witness-Filled :
      (entries : List Entry) (depth : ℕ) (al : Allowlist) (flags : List Bool)
      (rs : List BatchRelease) (ss : List Slot)
      → build_allowlist c p entries depth ≡ some al
      → length entries ≤ 2 ^ depth
      → All (Shows entries al) rs
      → build_batch_witness c flags rs ≡ some ss
      → Filled batch_n al.root rs ss
  build_batch_witness-Filled entries depth al flags rs ss b room shown h =
      let (few, filled) = build_batch_witness-slots c flags rs h in
      fill_slots-Filled entries depth al batch_n rs ss b room shown few filled
