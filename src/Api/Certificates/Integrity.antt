-- ===== src/Api/Certificates/Integrity.antt =====
-- A batch of certificates keeps the relations between the tables.
use carbon_veritas.Base.{ℕ, String, Bool, List}
use carbon_veritas.Store.Rows.{modify, All-modify}
use carbon_veritas.Store.Schema.{Db, Certificate, Retirement}
use carbon_veritas.Store.Prisma.{PrismaClient}
use carbon_veritas.Store.Action.{World}
use carbon_veritas.Store.References.{RefsResolve, RetirementRefs}
use carbon_veritas.Api.Certificates.{stamp, enqueue_batch}
use carbon_veritas.Api.Certificates.Rules.{enqueue_batch-keeps}

set_certificates-RefsResolve :
    (d : Db) (rows : List Certificate)
    → RefsResolve d
    → RefsResolve (record d { certificates = rows })
set_certificates-RefsResolve d rows h = record {
  credits = h.credits;
  approvals = h.approvals;
  offers = h.offers;
  trades = h.trades;
  retirements = h.retirements;
}

stamped-RefsResolve :
    (p : Retirement → Bool) (hash : String) (d : Db)
    → RefsResolve d
    → RefsResolve (record d { retirements = modify p (stamp hash) d.retirements })
stamped-RefsResolve p hash d h = record {
  credits = h.credits;
  approvals = h.approvals;
  offers = h.offers;
  trades = h.trades;
  retirements = All-modify (RetirementRefs d) p (stamp hash) d.retirements (λ r k. k) h.retirements;
}

pub enqueue_batch-RefsResolve :
    (sha256 : String → String) (show : ℕ → String) (client : PrismaClient) {C : Type 0}
    (user_id : String) (ids : List ℕ) (w : World C)
    → RefsResolve w.db
    → RefsResolve (enqueue_batch sha256 show client user_id ids w).1.db
enqueue_batch-RefsResolve sha256 show client =
    enqueue_batch-keeps RefsResolve sha256 show
      (λ user_id c r id d h _. set_certificates-RefsResolve d _ h) stamped-RefsResolve client
