-- ===== src/Health.antt =====
-- health.go of pkg/ecnet/health: the probes and the handlers that ask them.
pub mod Answers
use erie_canal_net.Base.{
  ℕ, Bool, true, false, not, ◌&&◌, ◌||◌, List, [], ◌∷◌, ◌++◌, Option, none, some, Text, codes, ◌==◌,
  nat_eq, if◌then◌else◌,
}

-- `Probes`
pub record Probe : Type 0 where
  pub liveness : Bool
  pub readiness : Bool
  pub id : Text

-- `HTTPProbe`
pub record HttpProbe : Type 0 where
  pub url : Text

pub record Response : Type 0 where
  pub code : ℕ
  pub body : Text

abbrev pub status_service_unavailable : ℕ
status_service_unavailable = 503

abbrev pub ready_response : Text
ready_response = codes "Service is ready"

abbrev pub alive_response : Text
alive_response = codes "Service is alive"

abbrev pub not_ready : Probe → Text
not_ready p = codes "Readiness probe for " ++ (p.id ++ codes " indicates it is not ready")

abbrev pub not_alive : Probe → Text
not_alive p = codes "Liveness probe for " ++ (p.id ++ codes " indicates it is not alive")

-- `send` is the HTTP client: a status, or an error where there is none.
module _ {E : Type 0} (send : Text → Option ℕ) (send_error : Text → E)
    (error_text : Option E → Text) where
  -- `Probe`
  abbrev pub probe : HttpProbe → ℕ × Option E
  probe p = elim (send p.url) [
    | none ↦ (status_service_unavailable, some (send_error p.url))
    | some code ↦ (code, none)
  ]

  -- Whether the loop over the URLs goes on
  abbrev pub url_passes : HttpProbe → Bool
  url_passes p = elim (probe p).1 [ some _ ↦ false | none ↦ (probe p).0 == 200 ]

  abbrev pub url_failed : Text → HttpProbe → Response
  url_failed failed p = record {
    code = (probe p).0;
    body = failed ++ (p.url ++ (codes ": " ++ error_text (probe p).1));
  }

  pub ask_urls : Text → Text → List HttpProbe → Response
  ask_urls failed passed [] = record { code = 200; body = passed }
  ask_urls failed passed (p ∷ ps) =
      let rest = ask_urls failed passed ps in if url_passes p then rest else url_failed failed p

  pub ask_probes :
      (Probe → Bool) → (Probe → Text) → Text → Text → List Probe → List HttpProbe → Response
  unfolding ask_urls
  ask_probes passes says failed passed [] urls = ask_urls failed passed urls
  ask_probes passes says failed passed (p ∷ ps) urls =
      let rest = ask_probes passes says failed passed ps urls in
      if passes p then rest else record { code = status_service_unavailable; body = says p }

  -- `ReadinessHandler` and `LivenessHandler`
  unfoldable pub readiness_handler : List Probe → List HttpProbe → Response
  unfolding ask_probes
  readiness_handler probes urls =
      ask_probes (λ p. p.readiness) not_ready (codes "Readiness probe failed for URL ")
        ready_response probes urls

  unfoldable pub liveness_handler : List Probe → List HttpProbe → Response
  unfolding ask_probes
  liveness_handler probes urls =
      ask_probes (λ p. p.liveness) not_alive (codes "Liveness probe failed for URL ") alive_response
        probes urls

-- `SimpleHandler`
abbrev pub simple_handler : Response
simple_handler = record { code = 200; body = codes "Health OK" }
