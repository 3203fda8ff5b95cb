-- ===== src/Health/Answers.antt =====
-- What the handlers of pkg/ecnet/health/health.go answer.
use erie_canal_net.Base.{
  ℕ, ◌≡◌, refl, sym, ap, ◌⊎◌, inl, inr, Bool, true, false, List, [], ◌∷◌, ◌++◌, Option, none, some,
  Text, codes, ◌==◌, nat_eq, arith, All, Bool-cases, Option-cases, subst, ==_iff,
}
use erie_canal_net.Health.{
  Probe, HttpProbe, Response, ask_urls, ask_probes, ready_response, alive_response,
  readiness_handler, liveness_handler,
}

-- An element that fails, after elements that all pass
pub record FirstFailure {A : Type 0} (Passes Fails : A → Type 0) (xs : List A) (y : A)
    : Type 0 where
  pub before : List A
  pub after : List A
  pub split : xs ≡ before ++ y ∷ after
  pub passed : All Passes before
  pub failed : Fails y

module _ {A : Type 0} (Passes Fails : A → Type 0) where
  FirstFailure-cons :
      (x : A) (xs : List A) (y : A)
      → Passes x
      → FirstFailure Passes Fails xs y
      → FirstFailure Passes Fails (x ∷ xs) y
  FirstFailure-cons x xs y p f = record {
    before = x ∷ f.before;
    after = f.after;
    split = ap (λ l. x ∷ l) f.split;
    passed = (p, f.passed);
    failed = f.failed;
  }

  FirstFailure-here : (x : A) (xs : List A) → Fails x → FirstFailure Passes Fails (x ∷ xs) x
  FirstFailure-here x xs p = record {
    before = [];
    after = xs;
    split = refl;
    passed = tt;
    failed = p;
  }

module _ {E : Type 0} (send : Text → Option ℕ) (send_error : Text → E)
    (error_text : Option E → Text) where
  -- The URL answers 200.
  abbrev pub Answers200 : HttpProbe → Type 0
  Answers200 u = send u.url ≡ some 200

  -- The URL does not answer at all, and the response is 503 with the error; or it answers with
  -- another code, and the response is that code, with no error.
  abbrev pub Refused : Text → Response → HttpProbe → Type 0
  Refused failed r u =
      ((send u.url ≡ none)
        × (r.code ≡ 503)
        × (r.body ≡ failed ++ (u.url ++ (codes ": " ++ error_text (some (send_error u.url))))))
      ⊎ ((code : ℕ) × (send u.url ≡ some code)
          × (¬ (code ≡ 200))
          × (r.code ≡ code)
          × (r.body ≡ failed ++ (u.url ++ (codes ": " ++ error_text none))))

  -- The response is 200 as all URLs answer 200, or that of the first one that does not.
  abbrev pub UrlAnswer : Text → Text → List HttpProbe → Response → Type 0
  UrlAnswer failed passed urls r =
      (All Answers200 urls × (r.code ≡ 200) × (r.body ≡ passed))
      ⊎ ((u : HttpProbe) × FirstFailure Answers200 (Refused failed r) urls u)

  -- Or it is that of the first probe that fails, whatever the URLs are.
  abbrev pub Answer :
      (Probe → Bool) → Text → Text → Text → Text → List Probe → List HttpProbe → Response → Type 0
  Answer passes probe_failed says failed passed probes urls r =
      ((p : Probe) × FirstFailure (λ q. passes q ≡ true) (λ q. passes q ≡ false) probes p
        × (r.code ≡ 503)
        × (r.body ≡ probe_failed ++ (p.id ++ says)))
      ⊎ (All (λ p. passes p ≡ true) probes × UrlAnswer failed passed urls r)

  ask_urls-UrlAnswer :
      (failed passed : Text) (urls : List HttpProbe)
      → UrlAnswer failed passed urls (ask_urls send send_error error_text failed passed urls)
  unfolding ask_urls
  ask_urls-UrlAnswer failed passed [] = inl (tt, refl, refl)
  ask_urls-UrlAnswer failed passed (u ∷ us) = elim (Option-cases (send u.url)) [
    | inl silent ↦ inr (
      u,
      FirstFailure-here Answers200
          (Refused failed (ask_urls send send_error error_text failed passed (u ∷ us))) u us
          (inl (silent, ground (arith, silent), ground (arith, silent))),
    )
    | inr (code, answers) ↦ elim (Bool-cases (code == 200)) [
      | inr bad ↦ inr (
        u,
        FirstFailure-here Answers200
            (Refused failed (ask_urls send send_error error_text failed passed (u ∷ us))) u us
            (inr (
              code,
              answers,
              ground (arith, bad),
              ground (arith, answers, bad),
              ground (arith, answers, bad),
            )),
      )
      | inl good ↦
          let ok = subst (λ n. send u.url ≡ some n) ((==_iff code 200).0 good) answers in
          subst (UrlAnswer failed passed (u ∷ us)) (sym (skipped ok))
            (elim (ask_urls-UrlAnswer failed passed us) [
              | inl (all, e, e') ↦ inl ((ok, all), e, e')
              | inr (v, first) ↦ inr (
                v,
                FirstFailure-cons Answers200
                    (Refused failed (ask_urls send send_error error_text failed passed us)) u us v
                    ok first,
              )
            ])
    ]
  ]
    where
      skipped :
          send u.url ≡ some 200
          → ask_urls send send_error error_text failed passed (u ∷ us)
            ≡ ask_urls send send_error error_text failed passed us
      skipped ok = ground (arith, ok)

  ask_probes-Answer :
      (passes : Probe → Bool) (probe_failed says failed passed : Text) (probes : List Probe)
      (urls : List HttpProbe)
      → Answer passes probe_failed says failed passed probes urls (
          ask_probes send send_error error_text passes
            (λ p. probe_failed ++ (p.id ++ says))
            failed
            passed
            probes
            urls)
  unfolding ask_probes
  ask_probes-Answer passes probe_failed says failed passed [] urls =
      inr (tt, ask_urls-UrlAnswer failed passed urls)
  ask_probes-Answer passes probe_failed says failed passed (p ∷ ps) urls =
      elim (Bool-cases (passes p)) [
        | inr bad ↦ inl (
          p,
          FirstFailure-here (λ q. passes q ≡ true) (λ q. passes q ≡ false) p ps bad,
          ground (arith, bad),
          ground (arith, bad),
        )
        | inl good ↦
            subst (Answer passes probe_failed says failed passed (p ∷ ps) urls) (sym (skipped good))
              (elim (ask_probes-Answer passes probe_failed says failed passed ps urls) [
                | inl (q, first, e, e') ↦ inl (
                  q,
                  FirstFailure-cons (λ q. passes q ≡ true) (λ q. passes q ≡ false) p ps q good
                      first,
                  e,
                  e',
                )
                | inr (all, answer) ↦ inr ((good, all), answer)
              ])
      ]
    where
      skipped :
          passes p ≡ true
          → ask_probes send send_error error_text passes
              (λ q. probe_failed ++ (q.id ++ says))
              failed
              passed
              (p ∷ ps)
              urls
            ≡ ask_probes send send_error error_text passes
                (λ q. probe_failed ++ (q.id ++ says))
                failed
                passed
                ps
                urls
      skipped good = ground (arith, good)

  -- The readiness handler answers 503 with the name of the first probe that is not ready, if there is
  -- one. Else it answers for the first URL that does not answer 200: 503 with the error if there was
  -- no response from it, and the code of the response if there was one, both with the URL; and if
  -- all URLs answer 200, it answers 200 and that the service is ready. The liveness handler does so
  -- for the probes that are not alive.
  pub handlers-Answer :
      (probes : List Probe) (urls : List HttpProbe)
      → Answer
          (λ p. p.readiness)
          (codes "Readiness probe for ")
          (codes " indicates it is not ready")
          (codes "Readiness probe failed for URL ")
          (codes "Service is ready")
          probes
          urls
          (readiness_handler send send_error error_text probes urls)
        × Answer
            (λ p. p.liveness)
            (codes "Liveness probe for ")
            (codes " indicates it is not alive")
            (codes "Liveness probe failed for URL ")
            (codes "Service is alive")
            probes
            urls
            (liveness_handler send send_error error_text probes urls)
  unfolding readiness_handler liveness_handler
  handlers-Answer probes urls = (
    ask_probes-Answer (λ p. p.readiness) (codes "Readiness probe for ")
        (codes " indicates it is not ready") (codes "Readiness probe failed for URL ")
        ready_response probes urls,
    ask_probes-Answer (λ p. p.liveness) (codes "Liveness probe for ")
        (codes " indicates it is not alive") (codes "Liveness probe failed for URL ") alive_response
        probes urls,
  )
