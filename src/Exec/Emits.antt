-- ===== src/Exec/Emits.antt =====
-- Every call that a piece of code makes satisfies `Q`: one rule for each way to build code.
use infisical_entity_operato.Base.{
  ◌≡◌, refl, ap, Bool, true, false, Option, none, some, All, if◌then◌else◌,
}
use infisical_entity_operato.Result.{Result, ok, err}
use infisical_entity_operato.Failure.{Error}
use infisical_entity_operato.Platform.{
  Method, Request, http, Key, Kind, Object, Call, read, create, update, patch_status, Run, Platform,
}
use infisical_entity_operato.Exec.Core.{
  Exec, continue, leave, pure, raise, lift, check, attempt, or_return, or_wrap, ◌>>=◌,
}
use infisical_entity_operato.Exec.Kubernetes.{
  read_connection, read_organization, read_project, read_environment, read_identity,
  read_universal_auth, read_kubernetes_auth, read_secret, create_object, update_object,
  patch_object_status, written,
}

pub record Emits {E A : Type 0} (Q : Call → Type 0) (m : Exec E A) : Type 0 where
  pub at : (r : Run) → All Q r.calls → All Q (m r).1.calls

-- Every request of this method may be sent.
pub record Permits (Q : Call → Type 0) (method : Method) : Type 0 where
  pub at : (request : Request) → request.method ≡ method → Q (http request)

-- Every object may be read.
pub record Reads (Q : Call → Type 0) : Type 0 where
  pub at : (kind : Kind) (k : Key) → Q (read kind k)

module _ {E A : Type 0} {Q : Call → Type 0} where
  pub Emits-pure : (a : A) → Emits Q (pure {E = E} a)
  unfolding pure
  Emits-pure a = record { at = λ r h. h }

  pub Emits-raise : (e : E) → Emits Q (raise {A = A} e)
  unfolding raise
  Emits-raise e = record { at = λ r h. h }

  pub Emits-lift : (x : Result E A) → Emits Q (lift x)
  unfolding lift
  Emits-lift x = record { at = λ r h. h }

  pub Emits-if :
      (b : Bool) (m n : Exec E A)
      → (b ≡ true → Emits Q m)
      → (b ≡ false → Emits Q n)
      → Emits Q (if b then m else n)
  Emits-if true m n km kn = km refl
  Emits-if false m n km kn = kn refl

pub Emits-check : {E : Type 0} {Q : Call → Type 0} (o : Option E) → Emits Q (check o)
unfolding check
Emits-check none = record { at = λ r h. h }
Emits-check (some e) = record { at = λ r h. h }

module _ {E A B : Type 0} {Q : Call → Type 0} where
  continue-Emits :
      (x : Result E A) (f : A → Exec E B) (r : Run)
      → ((a : A) → x ≡ ok a → Emits Q (f a))
      → All Q r.calls
      → All Q (continue x f r).1.calls
  continue-Emits (ok a) f r kf h = (kf a refl).at r h
  continue-Emits (err e) f r kf h = h

  pub Emits-bind :
      (m : Exec E A) (f : A → Exec E B) → Emits Q m → ((a : A) → Emits Q (f a)) → Emits Q (m >>= f)
  unfolding ◌>>=◌
  Emits-bind m f km kf = record {
    at = λ r h. continue-Emits (m r).0 f (m r).1 (λ a _. kf a) (km.at r h);
  }

  -- The rest of the block may use that the value came of `x`.
  pub Emits-bind_lift :
      (x : Result E A) (f : A → Exec E B)
      → ((a : A) → x ≡ ok a → Emits Q (f a))
      → Emits Q (lift x >>= f)
  unfolding ◌>>=◌ lift
  Emits-bind_lift x f kf = record { at = λ r h. continue-Emits x f r kf h }

module _ {E F A : Type 0} {Q : Call → Type 0} where
  pub Emits-attempt : (m : Exec E A) → Emits Q m → Emits Q (attempt {F = F} m)
  unfolding attempt
  Emits-attempt m km = record { at = λ r h. km.at r h }

  leave-Emits :
      (x : Result E A) (h : E → Exec F F) (r : Run)
      → ((e : E) → Emits Q (h e))
      → All Q r.calls
      → All Q (leave x h r).1.calls
  leave-Emits (ok a) h r kh q = q
  leave-Emits (err e) h r kh q = (kh e).at r q

  pub Emits-or_return :
      (m : Exec E A) (h : E → Exec F F)
      → Emits Q m
      → ((e : E) → Emits Q (h e))
      → Emits Q (or_return m h)
  unfolding or_return
  Emits-or_return m h km kh = record { at = λ r q. leave-Emits (m r).0 h (m r).1 kh (km.at r q) }

  pub Emits-or_wrap : (m : Exec E A) (f : E → F) → Emits Q m → Emits Q (or_wrap m f)
  unfolding or_wrap
  Emits-or_wrap m f km = record { at = λ r h. km.at r h }

module _ {E F A B : Type 0} {Q : Call → Type 0} where
  or_return-Emits :
      (x : Result E A) (h : E → Exec F F) (f : A → Exec F B) (r : Run)
      → ((e : E) → Emits Q (h e))
      → ((a : A) → x ≡ ok a → Emits Q (f a))
      → All Q r.calls
      → All Q (continue (leave x h r).0 f (leave x h r).1).1.calls
  or_return-Emits (ok a) h f r kh kf q = (kf a refl).at r q
  or_return-Emits (err e) h f r kh kf q = ended (h e r).0 (h e r).1 ((kh e).at r q)
    where
      ended :
          (response : Result F F) (r1 : Run)
          → All Q r1.calls
          → All Q
              (continue {A = A} {B = B}
                (elim response [ ok e' ↦ err e' | err e' ↦ err e' ])
                f
                r1).1.calls
      ended (ok e') r1 q' = q'
      ended (err e') r1 q' = q'

  -- The rest of the block may use that the value came of a run of `m`.
  pub Emits-bind_or_return :
      (m : Exec E A) (h : E → Exec F F) (f : A → Exec F B)
      → Emits Q m
      → ((e : E) → Emits Q (h e))
      → ((a : A) (r r1 : Run) → m r ≡ (ok a, r1) → Emits Q (f a))
      → Emits Q (or_return m h >>= f)
  unfolding ◌>>=◌ or_return
  Emits-bind_or_return m h f km kh kf = record {
    at = λ r q.
        or_return-Emits (m r).0 h f (m r).1 kh (λ a is. kf a r (m r).1 (ap (λ x. (x, (m r).1)) is))
          (km.at r q);
  }

module _ (platform : Platform) {Q : Call → Type 0} (reads : Reads Q) (k : Key) where
  pub Emits-read_connection : Emits Q (read_connection platform k)
  unfolding read_connection
  Emits-read_connection = record { at = λ r h. (reads.at Kind.connection k, h) }

  pub Emits-read_organization : Emits Q (read_organization platform k)
  unfolding read_organization
  Emits-read_organization = record { at = λ r h. (reads.at Kind.organization k, h) }

  pub Emits-read_project : Emits Q (read_project platform k)
  unfolding read_project
  Emits-read_project = record { at = λ r h. (reads.at Kind.project k, h) }

  pub Emits-read_environment : Emits Q (read_environment platform k)
  unfolding read_environment
  Emits-read_environment = record { at = λ r h. (reads.at Kind.environment k, h) }

  pub Emits-read_identity : Emits Q (read_identity platform k)
  unfolding read_identity
  Emits-read_identity = record { at = λ r h. (reads.at Kind.identity k, h) }

  pub Emits-read_universal_auth : Emits Q (read_universal_auth platform k)
  unfolding read_universal_auth
  Emits-read_universal_auth = record { at = λ r h. (reads.at Kind.universal_auth k, h) }

  pub Emits-read_kubernetes_auth : Emits Q (read_kubernetes_auth platform k)
  unfolding read_kubernetes_auth
  Emits-read_kubernetes_auth = record { at = λ r h. (reads.at Kind.kubernetes_auth k, h) }

  pub Emits-read_secret : Emits Q (read_secret platform k)
  unfolding read_secret
  Emits-read_secret = record { at = λ r h. (reads.at Kind.secret k, h) }

pub calls-written : (o : Option Error) (r : Run) → (written o r).1.calls ≡ r.calls
calls-written none r = refl
calls-written (some e) r = refl

module _ (platform : Platform) {Q : Call → Type 0} where
  pub Emits-update_object : (o : Object) → Q (update o) → Emits Q (update_object platform o)
  unfolding update_object
  Emits-update_object o q = record { at = λ r h. rw calls-written (q, h) }

  pub Emits-create_object : (o : Object) → Q (create o) → Emits Q (create_object platform o)
  unfolding create_object
  Emits-create_object o q = record { at = λ r h. rw calls-written (q, h) }

  pub Emits-patch_object_status :
      (before after : Object)
      → Q (patch_status before after)
      → Emits Q (patch_object_status platform before after)
  unfolding patch_object_status
  Emits-patch_object_status before after q = record { at = λ r h. rw calls-written (q, h) }

pub ruleset emits_rules = (
  Emits-pure, Emits-raise, Emits-lift, Emits-if, Emits-check, Emits-bind, Emits-attempt,
  Emits-or_return, Emits-or_wrap, Emits-read_connection, Emits-read_organization,
  Emits-read_project, Emits-read_environment, Emits-read_identity, Emits-read_universal_auth,
  Emits-read_kubernetes_auth, Emits-read_secret, Emits-create_object, Emits-update_object,
  Emits-patch_object_status,
)
