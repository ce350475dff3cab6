-- ===== src/Transaction.antt =====
-- The records of transaction/transaction.go. Addresses are their 47 bytes.
use raft_project.Common.{ℕ}
use raft_project.Common.Lists.{Bytes}

pub record Order : Type 0 where
  pub id : Bytes
  pub address : Bytes
  pub price : ℕ
  pub hash : Bytes
  pub ciphertext : Bytes
  pub signature : Bytes
  pub tradename : Bytes
  pub region : Bytes

pub record Transaction : Type 0 where
  pub nonce : ℕ
  pub block_number : ℕ
  pub amount : ℕ
  pub from : Bytes
  pub to : Bytes
  pub hash : Bytes
  pub signature : Bytes
  pub time : ℕ
  pub fee : ℕ
  pub root : Bytes
  pub script : Bytes
  pub ord : Order
  pub errmsg : Bytes
