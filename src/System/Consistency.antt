-- ===== src/System/Consistency.antt =====
-- Whatever the order of requests and batches, references resolve.
use carbon_veritas.Store.Action.{World}
use carbon_veritas.Store.References.{RefsResolve}
use carbon_veritas.Indexer.Sync.Integrity.{process_all-RefsResolve}
use carbon_veritas.Api.Requests.{Service}
use carbon_veritas.Api.Requests.Integrity.{handle-RefsResolve}
use carbon_veritas.Api.Auth.Integrity.{exchange_token-RefsResolve}
use carbon_veritas.Api.Certificates.Integrity.{enqueue_batch-RefsResolve}
use carbon_veritas.System.{
  Libraries, Step, request, exchange, certificates, batch, Reaches, here, then,
}

module _ {C : Type 0} (s : Service C) (l : Libraries) where
  Step-RefsResolve : {w v : World C} → Step s l w v → RefsResolve w.db → RefsResolve v.db
  Step-RefsResolve {w} (request now sub r) h = handle-RefsResolve s now sub r w h
  Step-RefsResolve {w} (exchange now wallet signed id) h =
      exchange_token-RefsResolve s.client l.auth l.key l.sign now wallet signed id w h
  Step-RefsResolve {w} (certificates user_id ids) h =
      enqueue_batch-RefsResolve l.sha256 l.show s.client user_id ids w h
  Step-RefsResolve {w} (batch events) h = process_all-RefsResolve s.client s.date events w h

  -- The API and the indexer work on one database. Say that the references resolve when each
  -- credit, approval, offer, trade and retirement refers to users, credits and offers that exist.
  -- If they resolve, then they still do after any sequence of the requests of Api/Requests,
  -- exchanges of a challenge, batches of certificates and batches of events, in any order and
  -- whatever fails.
  pub Reaches-RefsResolve : {w v : World C} → Reaches s l w v → RefsResolve w.db → RefsResolve v.db
  Reaches-RefsResolve here h = h
  Reaches-RefsResolve (then before last) h = Step-RefsResolve last (Reaches-RefsResolve before h)
