-- ===== src/Controller/Calls.antt =====
-- Predicates on the calls of a controller.
use infisical_entity_operato.Base.{◌≢◌, arith}
use infisical_entity_operato.Platform.{Method, Call, http}
use infisical_entity_operato.Exec.Emits.{Permits, Reads}

-- No request to delete something in Infisical
abbrev pub NotDelete : Call → Type 0
NotDelete (http request) = request.method ≢ Method.delete
NotDelete _ = Unit

-- No request to Infisical at all
abbrev pub NotHttp : Call → Type 0
NotHttp (http request) = ⊥
NotHttp _ = Unit

pub Permits-get : Permits NotDelete Method.get
Permits-get = record { at = λ request e. ground (arith, e) }

pub Permits-post : Permits NotDelete Method.post
Permits-post = record { at = λ request e. ground (arith, e) }

pub Permits-patch : Permits NotDelete Method.patch
Permits-patch = record { at = λ request e. ground (arith, e) }

pub Reads_NotDelete : Reads NotDelete
Reads_NotDelete = record { at = λ kind k. tt }

pub Reads_NotHttp : Reads NotHttp
Reads_NotHttp = record { at = λ kind k. tt }
