-- ===== src/Database/Transactions.antt =====
-- What the program relies on of transactions, as the documentation of database/sql and PostgreSQL
-- has it. A commit that returns an error is taken not to have committed.
use schemago.Base.{◌≡◌, Bool, true, false, List, ok, err}
use schemago.Text.{Bytes}
use schemago.Database.{Runtime, SqlArg, SqlError}

pub record Transactions (rt : Runtime) : Type 1 where
  pub Contents : Type 0
  -- What other sessions see, what the open transaction sees, and whether there is one.
  pub committed : rt.World → Contents
  pub working : rt.World → Contents
  pub in_tx : rt.World → Bool
  -- A statement such as COMMIT, which ends the transaction by itself.
  pub ends_tx : Bytes → Bool
  -- What a statement may make of the contents; one that calls the clock may do several things.
  pub Runs : Bytes → List SqlArg → Contents → Contents → Type 0
  pub now_committed : (w : rt.World) → committed (rt.now w).1 ≡ committed w
  pub now_in_tx : (w : rt.World) → in_tx (rt.now w).1 ≡ in_tx w
  pub now_working : (w : rt.World) → working (rt.now w).1 ≡ working w
  pub begin_committed : (w : rt.World) → committed (rt.begin_tx w).1 ≡ committed w
  pub begin_in_tx : (w : rt.World) → (rt.begin_tx w).0 ≡ ok tt → in_tx (rt.begin_tx w).1 ≡ true
  pub begin_working :
      (w : rt.World) → (rt.begin_tx w).0 ≡ ok tt → working (rt.begin_tx w).1 ≡ committed w
  pub exec_committed :
      (q : Bytes) (args : List SqlArg) (w : rt.World)
      → in_tx w ≡ true
      → ends_tx q ≡ false
      → committed (rt.exec q args w).1 ≡ committed w
  pub exec_in_tx :
      (q : Bytes) (args : List SqlArg) (w : rt.World)
      → in_tx w ≡ true
      → ends_tx q ≡ false
      → in_tx (rt.exec q args w).1 ≡ true
  pub exec_working :
      (q : Bytes) (args : List SqlArg) (w : rt.World)
      → in_tx w ≡ true
      → ends_tx q ≡ false
      → (rt.exec q args w).0 ≡ ok tt
      → Runs q args (working w) (working (rt.exec q args w).1)
  pub commit_committed :
      (w : rt.World)
      → in_tx w ≡ true
      → (rt.commit w).0 ≡ ok tt
      → committed (rt.commit w).1 ≡ working w
  pub commit_failed :
      (w : rt.World) (e : SqlError)
      → (rt.commit w).0 ≡ err e
      → committed (rt.commit w).1 ≡ committed w
  pub rollback_committed : (w : rt.World) → committed (rt.rollback w).1 ≡ committed w
