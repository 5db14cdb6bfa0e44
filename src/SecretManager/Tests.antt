-- ===== src/SecretManager/Tests.antt =====
-- The theorems on secretmanager/ at concrete inputs.
use sakumock.Core.IdGenerator.{IdGenerator}
use sakumock.Dict
use sakumock.SecretManager.Store
use sakumock.SecretManager.Store.{secret_not_found}
use sakumock.SecretManager.Store.Refinement.{Request, step, answer, answer_version}
use sakumock.SecretManager.Store.Answers.{unveil_after_requests, serve_all}
use sakumock.Prelude.{◌≡◌, List, [], ◌∷◌, pos, ok, err, string_eq}

abbrev ids : IdGenerator
ids = record { next = pos 900; reserved = Dict.empty }

abbrev requests : List Request
requests =
    Request.create "7" "db" "old"
    ∷ Request.create "7" "db" "new"
    ∷ Request.create "7" "api" "key"
    ∷ Request.delete "7" "api"
    ∷ []

unveil_after_requests_example :
    Store.unveil (serve_all requests (Store.new_memory_store ids)) "7" "db" (pos 0) ≡ ok ("new", 2)
unfolding step answer answer_version
unveil_after_requests_example = unveil_after_requests ids requests "7" "db" (pos 0)

unveil_deleted :
    Store.unveil (serve_all requests (Store.new_memory_store ids)) "7" "api" (pos 0)
    ≡ err secret_not_found
unfolding step answer answer_version
unveil_deleted = unveil_after_requests ids requests "7" "api" (pos 0)
