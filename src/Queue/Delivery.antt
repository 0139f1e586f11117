-- ===== src/Queue/Delivery.antt =====
-- What the middleware makes of a consumer that fails.
use logtrace_backend.Common.{ℕ, ◌≡◌, ◌∙◌}
use logtrace_backend.Domain.{Error, ok, err}
use logtrace_backend.Queue.{Consumer, Middlewares, with_middleware}

-- The documented behaviour of the middlewares: a recovered consumer that returns is itself, a message
-- that cannot be processed goes to the poison queue and counts as processed, and only an
-- error is retried.
pub record IsWatermill {Payload W : Type 0} (ms : Middlewares Payload W) : Type 0 where
  pub recovers : (h : Consumer Payload W) (p : Payload) (w : W) → ms.recoverer h p w ≡ h p w
  pub salvages :
      (publish : Consumer Payload W) (h : Consumer Payload W) (p : Payload) (e : Error) (w v v' : W)
      → h p w ≡ (err e, v)
      → publish p v ≡ (ok tt, v')
      → ms.poison_queue publish h p w ≡ (ok tt, v')
  pub keeps :
      (publish : Consumer Payload W) (h : Consumer Payload W) (p : Payload) (w v : W)
      → h p w ≡ (ok tt, v)
      → ms.poison_queue publish h p w ≡ (ok tt, v)
  pub settles :
      (n : ℕ) (h : Consumer Payload W) (p : Payload) (w v : W)
      → h p w ≡ (ok tt, v)
      → ms.retry n h p w ≡ (ok tt, v)

module _ {Payload W : Type 0} (ms : Middlewares Payload W) (laws : IsWatermill ms)
    (publish_poison : Consumer Payload W) where
  -- A consumer that fails is run once where the poison queue takes its message: the retries around it
  -- see no error.
  pub with_middleware-fails_once :
      (h : Consumer Payload W) (p : Payload) (e : Error) (w v v' : W)
      → h p w ≡ (err e, v)
      → publish_poison p v ≡ (ok tt, v')
      → with_middleware ms publish_poison h p w ≡ (ok tt, v')
  unfolding with_middleware
  with_middleware-fails_once h p e w v v' failed published = laws.settles 3 _ p w v' (
      laws.salvages publish_poison (ms.recoverer h) p e w v v' (laws.recovers h p w ∙ failed)
        published)

  pub with_middleware-succeeds :
      (h : Consumer Payload W) (p : Payload) (w v : W)
      → h p w ≡ (ok tt, v)
      → with_middleware ms publish_poison h p w ≡ (ok tt, v)
  unfolding with_middleware
  with_middleware-succeeds h p w v passed =
      laws.settles 3 _ p w v
        (laws.keeps publish_poison (ms.recoverer h) p w v (laws.recovers h p w ∙ passed))
