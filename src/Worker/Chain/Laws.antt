-- ===== src/Worker/Chain/Laws.antt =====
-- A delegate's call is retried only where the network refused the transaction for its sequence
-- number, so at most one transaction of a call is ever accepted.
use clevercon.Prelude.{
  ℕ, zero, suc, ◌+◌, ◌<◌, ◌≡◌, refl, ◌∙◌, ◌⊎◌, inl, inr, none, some, arith, Option-cases,
}
use clevercon.Worker.Chain.{
  exhausted, Outcome, err, error_bad_seq, Attempt, SubmitResult, run_attempt, submit_from,
  submit_delegate_call,
}

-- The attempt got as far as the network, which refused it for its sequence number.
pub record IsRefused (a : Attempt) : Type 0 where
  pub reached : a.rpc_error ≡ none
  pub simulated : a.simulation_error ≡ none
  pub refused : a.response ≡ error_bad_seq

run_attempt-none : (a : Attempt) → run_attempt a ≡ none → IsRefused a
unfolding run_attempt
run_attempt-none a h = ground arith

-- The attempts from `k` on, up to the `j`-th, were refused.
abbrev AllRefused : (ℕ → Attempt) → ℕ → ℕ → Type 0
AllRefused server k j = (i : ℕ) → i < j → IsRefused (server (k + i))

AllRefused-suc :
    (server : ℕ → Attempt) (k j : ℕ)
    → IsRefused (server k)
    → AllRefused server (k + 1) j
    → AllRefused server k (suc j)
AllRefused-suc server k j h later zero lt = let e : k + zero ≡ k = omega arith in rw e h
AllRefused-suc server k j h later (suc i) lt =
    let e : k + suc i ≡ k + 1 + i = omega arith in rw e (later i (omega arith))

-- The result is that of the first attempt that was not refused, if there is one.
abbrev EndsAt : (ℕ → Attempt) → ℕ → ℕ → Outcome SubmitResult → Type 0
EndsAt server k left r =
    ((j : ℕ) × (j < left) × (run_attempt (server (k + j)) ≡ some r) × AllRefused server k j)

submit_from_next :
    (n left k : ℕ) (server : ℕ → Attempt)
    → run_attempt (server k) ≡ none
    → submit_from n (suc left) k server ≡ submit_from n left (k + 1) server
unfolding submit_from
submit_from_next n left k server e = rw (e, submit_from)

submit_from_now :
    (n left k : ℕ) (server : ℕ → Attempt) {r : Outcome SubmitResult}
    → run_attempt (server k) ≡ some r
    → submit_from n (suc left) k server ≡ r
unfolding submit_from
submit_from_now n left k server e = rw (e, submit_from)

submit_from_none :
    (n k : ℕ) (server : ℕ → Attempt) → submit_from n zero k server ≡ err (exhausted n)
unfolding submit_from
submit_from_none n k server = refl

submit_from_cases :
    (n left k : ℕ) (server : ℕ → Attempt)
    → EndsAt server k left (submit_from n left k server)
      ⊎ ((submit_from n left k server ≡ err (exhausted n)) × AllRefused server k left)
submit_from_cases n zero k server = inr (submit_from_none n k server, λ i h. absurd (omega arith))
submit_from_cases n (suc left) k server = elim (Option-cases (run_attempt (server k))) [
  | inr (r, e) ↦
      let here : k + zero ≡ k = omega arith in
      inl (
        zero,
        omega arith,
        rw (here, submit_from_now n left k server e) e,
        λ i h. absurd (omega arith),
      )
  | inl e ↦ elim (submit_from_cases n left (k + 1) server) [
    | inl (j, lt, ends, before) ↦
        let there : k + suc j ≡ k + 1 + j = omega arith in
        inl (
          suc j,
          omega arith,
          rw (submit_from_next n left k server e, there) ends,
          AllRefused-suc server k j (run_attempt-none (server k) e) before,
        )
    | inr (r, all_refused) ↦ inr (
      submit_from_next n left k server e ∙ r,
      AllRefused-suc server k left (run_attempt-none (server k) e) all_refused,
    )
  ]
]

-- A delegate's call ends in one of two ways. Either its result is that of one attempt, and every
-- attempt before that one got to the network and was refused there for its sequence number, so
-- that no transaction but the last can have been accepted; or all four attempts were refused so,
-- and the call fails, not deterministically.
pub submit_delegate_call_cases :
    (server : ℕ → Attempt)
    → ((j : ℕ) × (j < 4)
        × (run_attempt (server (0 + j)) ≡ some (submit_delegate_call server))
        × ((i : ℕ) → i < j → IsRefused (server (0 + i))))
      ⊎ ((submit_delegate_call server ≡ err (exhausted 4))
          × ((i : ℕ) → i < 4 → IsRefused (server (0 + i))))
unfolding submit_delegate_call
submit_delegate_call_cases server = submit_from_cases 4 4 0 server
