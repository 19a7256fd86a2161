-- ===== src/System.antt =====
-- The API and the indexer at work on one database: requests, exchanges of a challenge, batches of
-- certificates and batches of events in any order. The exchange comes before there is a token, and
-- `enqueueBatch` takes the user of the token as it is.
pub mod Consistency
mod Tests
use carbon_veritas.Base.{ℕ, String, List}
use carbon_veritas.Store.Action.{World}
use carbon_veritas.Indexer.Events.{SyncEvent}
use carbon_veritas.Indexer.Sync.{process_all}
use carbon_veritas.Api.Auth.{WebAuth, SigningKey, Claims, exchange_token}
use carbon_veritas.Api.Certificates.{enqueue_batch}
use carbon_veritas.Api.Requests.{Service, Request, handle}

-- What the sign-in and the certificates take from outside: the Stellar SDK, the key of the server,
-- the JWT library, the digest and the writing of numbers.
pub record Libraries : Type 0 where
  pub auth : WebAuth
  pub key : SigningKey
  pub sign : Claims → String
  pub sha256 : String → String
  pub show : ℕ → String

module _ {C : Type 0} (s : Service C) (l : Libraries) where
  -- One piece of work: a request with its time and the user of its token, an exchange of a
  -- challenge, a batch of certificates of a user, or a batch of events.
  pub data Step (w : World C) : World C → Type 0 where
    request : (now : ℕ) (sub : String) (r : Request) → Step w (handle s now sub r w)
    exchange :
        (now : ℕ) (wallet signed id : String)
        → Step w (exchange_token s.client l.auth l.key l.sign now wallet signed id w).1
    certificates :
        (user_id : String) (ids : List ℕ)
        → Step w (enqueue_batch l.sha256 l.show s.client user_id ids w).1
    batch : (events : List SyncEvent) → Step w (process_all s.client s.date events w).1

  pub data Reaches (w : World C) : World C → Type 0 where
    here : Reaches w w
    then : {v u : World C} → Reaches w v → Step v u → Reaches w u
