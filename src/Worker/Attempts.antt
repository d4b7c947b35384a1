-- ===== src/Worker/Attempts.antt =====
-- The attempts to register: how many there are, and which answer counts.
use duck_launcher.Base.{
  ℕ, zero, suc, ◌+◌, ◌≡◌, ◌<◌, refl, ◌∙◌, ap, inl, inr, ◌⊎◌, Option, none, some, arith,
  Option-cases, sym,
}
use duck_launcher.Routes.WorkerRoutes.{WorkerRegisterRequest, WorkerRegisterResponse}
use duck_launcher.Worker.Registration.{
  Registered, registered, gave_up, attempts_from, WorkerSettings, Resources, WorkerState, IdText,
  uuid, register_payload, register_with_coordinator, settle,
}

module _ {ℓ} {S : Type ℓ} (post : ℕ → WorkerRegisterRequest → S → Option WorkerRegisterResponse × S)
    (payload : WorkerRegisterRequest) where
  -- What the world is after some attempts, from the given one on, and whether each of them failed.
  abbrev pub after : ℕ → ℕ → S → S
  after zero attempt world = world
  after (suc n) attempt world = after n (suc attempt) (post attempt payload world).1

  abbrev pub AllFail : ℕ → ℕ → S → Type 0
  AllFail zero attempt world = Unit
  AllFail (suc n) attempt world =
      ((post attempt payload world).0 ≡ none)
      × AllFail n (suc attempt) (post attempt payload world).1

  -- The loop ends with the first answer, or with the last of its failures.
  abbrev pub Ends : ℕ → ℕ → S → Registered × S → Type ℓ
  Ends left attempt world done =
      ((n : ℕ) × (response : WorkerRegisterResponse) × (n < left)
        × AllFail n attempt world
        × ((post (attempt + n) payload (after n attempt world)).0 ≡ some response)
        × (done ≡ (registered (attempt + n) response, after (suc n) attempt world)))
      ⊎ (AllFail left attempt world × (done ≡ (gave_up, after left attempt world)))

  -- An attempt that fails puts the end off by one.
  later :
      (left attempt : ℕ) (world : S) (done : Registered × S)
      → (post attempt payload world).0 ≡ none
      → Ends left (suc attempt) (post attempt payload world).1 done
      → Ends (suc left) attempt world done
  later left attempt world done failed (inl (n, response, early, fails, answers, ended)) =
      let same : suc attempt + n ≡ attempt + suc n = omega arith in
      inl (
        suc n,
        response,
        omega (arith, early),
        (failed, fails),
        ap (λ k. (post k payload (after n (suc attempt) (post attempt payload world).1)).0)
              (sym same)
            ∙ answers,
        ended
            ∙ ap
                (λ k. (
                  registered k response,
                  after (suc n) (suc attempt) (post attempt payload world).1,
                ))
                same,
      )
  later left attempt world done failed (inr (fails, ended)) = inr ((failed, fails), ended)

  attempts_from-Ends :
      (left attempt : ℕ) (world : S)
      → Ends left attempt world (attempts_from post left attempt payload world)
  unfolding attempts_from
  attempts_from-Ends zero attempt world = inr (tt, refl)
  attempts_from-Ends (suc left) attempt world =
      let answer = post attempt payload world in
      elim (Option-cases (answer.0)) [
        | inr (response, e) ↦
            let same : attempt + 0 ≡ attempt = omega arith in
            inl (
              0,
              response,
              omega arith,
              tt,
              ap (λ k. (post k payload world).0) same ∙ e,
              rw (attempts_from, e) (ap (λ k. (registered k response, answer.1)) (sym same)),
            )
        | inl e ↦
            later left attempt world (attempts_from post (suc left) attempt payload world) e
              (rw (attempts_from, e) (attempts_from-Ends left (suc attempt) answer.1))
      ]

-- The registration ends whatever the coordinator answers: with the first answer that is no error, to
-- one of the `max_attempts` attempts, of which no later one is made; or, where they all fail, with
-- the error after `max_attempts` of them.
pub register_attempts-Ends {ℓ} :
    {S : Type ℓ} (post : ℕ → WorkerRegisterRequest → S → Option WorkerRegisterResponse × S)
    (settings : WorkerSettings) (resources : Resources) (existing_id max_attempts : ℕ)
    (state : WorkerState) (stored : Option IdText) (world : S)
    → let payload = register_payload settings resources existing_id in
      let done =
        register_with_coordinator post settings resources existing_id max_attempts state stored
          world in
      ((n : ℕ) × (response : WorkerRegisterResponse) × (n < max_attempts)
        × AllFail post payload n 1 world
        × ((post (1 + n) payload (after post payload n 1 world)).0 ≡ some response)
        × (done ≡ (
          registered (1 + n) response,
          record state { worker_id = some response.worker_id },
          some (uuid response.worker_id),
          after post payload (suc n) 1 world,
        )))
      ⊎ (AllFail post payload max_attempts 1 world
          × (done ≡ (gave_up, state, stored, after post payload max_attempts 1 world)))
unfolding register_with_coordinator
register_attempts-Ends post settings resources existing_id max_attempts state stored world =
    let payload = register_payload settings resources existing_id in
    elim (attempts_from-Ends post payload max_attempts 1 world) [
      | inl (n, response, early, fails, answers, ended) ↦
          inl (n, response, early, fails, answers, ap (settle post state stored) ended)
      | inr (fails, ended) ↦ inr (fails, ap (settle post state stored) ended)
    ]
