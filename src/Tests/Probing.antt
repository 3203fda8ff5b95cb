-- ===== src/Tests/Probing.antt =====
-- A server that is ready, and a URL that redirects.
use erie_canal_net.Base.{ℕ, true, [], ◌∷◌, Option, none, some, Text, codes}
use erie_canal_net.Health.{Probe, HttpProbe, readiness_handler, liveness_handler}
use erie_canal_net.Health.Answers.{Answer, handlers-Answer}

abbrev server : Probe
server = record { liveness = true; readiness = true; id = codes "pipy-repo" }

abbrev page : HttpProbe
page = record { url = codes "http://127.0.0.1/" }

-- The error is the URL.
abbrev send : Text → Option ℕ
send url = some 302

abbrev send_error : Text → Text
send_error url = url

abbrev error_text : Option Text → Text
error_text none = codes "%!s(<nil>)"
error_text (some e) = e

handlers_example :
    Answer send send_error error_text
      (λ p. p.readiness)
      (codes "Readiness probe for ")
      (codes " indicates it is not ready")
      (codes "Readiness probe failed for URL ")
      (codes "Service is ready")
      (server ∷ [])
      (page ∷ [])
      (readiness_handler send send_error error_text (server ∷ []) (page ∷ []))
    × Answer send send_error error_text
        (λ p. p.liveness)
        (codes "Liveness probe for ")
        (codes " indicates it is not alive")
        (codes "Liveness probe failed for URL ")
        (codes "Service is alive")
        (server ∷ [])
        (page ∷ [])
        (liveness_handler send send_error error_text (server ∷ []) (page ∷ []))
handlers_example = handlers-Answer send send_error error_text (server ∷ []) (page ∷ [])
