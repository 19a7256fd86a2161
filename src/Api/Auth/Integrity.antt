-- ===== src/Api/Auth/Integrity.antt =====
-- What an exchange writes, and that it keeps the relations between the tables.
use carbon_veritas.Base.{
  ℕ, ◌≡◌, ◌⊎◌, inl, inr, String, List, [], ◌∷◌, ◌++◌, arith, sym, Option-cases,
}
use mathlib.Core.Path.{subst}
use carbon_veritas.Store.Rows.{find?, modify}
use carbon_veritas.Store.Schema.{Db, User, Challenge, challenge_by_id, user_by_pub}
use carbon_veritas.Store.Prisma.{PrismaClient}
use carbon_veritas.Store.Action.{World, users}
use carbon_veritas.Store.References.{RefsResolve, add_user-RefsResolve}
use carbon_veritas.Api.Auth.{
  WebAuth, SigningKey, Claims, use_challenge, sign_up, exchange_token, check_signed, sign_in,
  get_server_keypair,
}

set_challenges-RefsResolve :
    (d : Db) (rows : List Challenge) → RefsResolve d → RefsResolve (record d { challenges = rows })
set_challenges-RefsResolve d rows h = record {
  credits = h.credits;
  approvals = h.approvals;
  offers = h.offers;
  trades = h.trades;
  retirements = h.retirements;
}

module _ (client : PrismaClient) {C : Type 0} (auth : WebAuth) (key : SigningKey)
    (sign : Claims → String) where
  pub exchange_token-db :
      (now : ℕ) (wallet signed id : String) (w : World C)
      → let after = (exchange_token client auth key sign now wallet signed id w).1.db in
        let rows = modify (challenge_by_id id) (use_challenge now) w.db.challenges in
        (after ≡ w.db)
        ⊎ ((after ≡ record w.db { challenges = rows })
            ⊎ (after ≡ record w.db {
              challenges = rows;
              users = w.db.users ++ sign_up wallet (client.cuid w.drawn) ∷ [];
            }))
  unfolding exchange_token sign_in check_signed get_server_keypair
  exchange_token-db now wallet signed id w =
      let p = challenge_by_id id in
      elim (Option-cases (find? p w.db.challenges)) [
        | inl missing ↦ inl (ground (arith, client.find_unique_lem Challenge p w.db.challenges))
        | inr (c, found) ↦ ground (
          arith,
          client.find_unique_lem Challenge p w.db.challenges,
          client.update_found Challenge p (use_challenge now) w.db.challenges c found,
          client.find_unique_lem User (user_by_pub wallet) w.db.users,
          client.create_new User users.clash (sign_up wallet (client.cuid w.drawn)) w.db.users,
        )
      ]

  pub exchange_token-RefsResolve :
      (now : ℕ) (wallet signed id : String) (w : World C)
      → RefsResolve w.db
      → RefsResolve (exchange_token client auth key sign now wallet signed id w).1.db
  exchange_token-RefsResolve now wallet signed id w h =
      let rows = modify (challenge_by_id id) (use_challenge now) w.db.challenges in
      let d = record w.db { challenges = rows } in
      let h' = set_challenges-RefsResolve w.db rows h in
      elim (exchange_token-db now wallet signed id w) [
        | inl same ↦ subst RefsResolve (sym same) h
        | inr (inl used) ↦ subst RefsResolve (sym used) h'
        | inr (inr new) ↦
            subst RefsResolve (sym new)
              (add_user-RefsResolve d h' (sign_up wallet (client.cuid w.drawn)))
      ]
