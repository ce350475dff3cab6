-- ===== src/Chain/Queries/Stored.antt =====
-- What is read back of what has been stored, and what becomes of a block that `NewBlock` makes.
use raft_project.Common.{
  ℕ, ◌^◌, ◌%◌, ◌≡◌, ◌≢◌, refl, ap, Bool, true, false, Option, none, some, List, [], ◌∷◌, ◌++◌,
  arith,
}
use raft_project.Common.Lists.{Bytes, codes, bytes_eq, bytes_eq_iff, length, length-append, All}
use raft_project.Common.Outcome.{Outcome, ok, or_panic, gave}
use raft_project.Codec.{e32func, e64func}
use raft_project.Codec.Words.{decode-encode_words}
use raft_project.Store.{Badger, Willing, found, e_map_key, mget, mset}
use raft_project.Merkle as Merkle
use raft_project.Transaction.{Transaction}
use raft_project.Contract.Exec.{Db}
use raft_project.Chain.{add_u64, keep}
use raft_project.Chain.Distr.{MinerTx, distr}
use raft_project.Chain.Block.{Block, set_block_data}
use raft_project.Chain.Results.{block_change, calculation_results, check_results}
use raft_project.Chain.Results.Accepted.{check_results_accepts}
use raft_project.Chain.Queries.{
  QueryError, value_of, tree_of, numbered, texts, height, set_hash, get_transaction,
  get_transaction_height, json_of, new_block,
}

numbered-plain :
    (n : ℕ) (txs : List Transaction)
    → All (λ tx. length tx.script ≡ 0) txs
    → All (λ tx. length tx.script ≡ 0) (numbered n txs)
unfolding numbered
numbered-plain n [] h = tt
numbered-plain n (tx ∷ txs) h = (h.0, numbered-plain n txs h.1)

ok_same : (x y : Block) → ◌≡◌ {A = Outcome QueryError Block} (ok x) (ok y) → x ≡ y
ok_same x y e = cc

not_panic :
    (o : Option (List MinerTx)) (ms : List MinerTx)
    → ◌≡◌ {A = Outcome QueryError (List MinerTx)} (or_panic o) (ok ms)
    → o ≡ some ms
not_panic none ms e = cc
not_panic (some ps) ms e = let same : ps ≡ ms = cc in ap some same

map_key_longer : (m k : Bytes) → m ≢ e_map_key m k
unfolding e_map_key
map_key_longer m k e =
    let head : Bytes = e32func (length m % 2 ^ 32) in
    omega (arith, ap length e, length-append head (m ++ b'+' ∷ k), length-append m (b'+' ∷ k))

module _ (b : Badger) where
  open b use {Txn}

  -- The payments and the transactions of a block that is made.
  new_block_pays :
      (sha256 sha3 : Bytes → Bytes) (verify : Bytes → Bytes → Bytes → Bool)
      (to_bytes : Transaction → Bytes) (to_json : List Transaction → Bytes) (s : Txn)
      (commits : Bool) (now : ℕ) (trs : List Transaction) (minaddr ds cm qtj : Bytes) (blk : Block)
      → new_block b sha256 sha3 verify to_bytes to_json s commits now trs minaddr ds cm qtj ≡ ok blk
      → ((n : ℕ) × (blk.txs ≡ numbered n trs))
        × (distr verify blk.txs blk.miner ds cm qtj blk.height ≡ some blk.first_tx)
  unfolding new_block set_hash
  new_block_pays sha256 sha3 verify to_bytes to_json s commits now trs minaddr ds cm qtj blk e =
      let (h_c, e0, f0) = gave _ blk (height b s commits) e in
      let txs = numbered (add_u64 h_c 1) trs in
      let (tree, e1, f1) = gave _ blk (tree_of (Merkle.new sha256 (texts to_bytes txs))) f0 in
      let (root, e2, f2) = gave _ blk (tree_of (Merkle.get_mt_hash sha256 tree)) f1 in
      let (bhash, e3, f3) = gave _ blk (value_of (mget b s (e64func h_c) (codes "hash"))) f2 in
      let (mintx, e4, f4) =
        gave _ blk (or_panic (distr verify txs minaddr ds cm qtj (add_u64 h_c 1))) f3 in
      let same = ok_same _ blk f4 in
      rw (← same) (
        (add_u64 h_c 1, refl),
        not_panic (distr verify txs minaddr ds cm qtj (add_u64 h_c 1)) mintx e4,
      )

  -- A block that `NewBlock` makes of transactions without scripts, with the results that the node which made
  -- it adds to it, passes the check of every node that has the same addresses for the shop, the community
  -- and the distributor, whatever that node has stored.
  pub new_block_passes :
      (sha256 sha3 : Bytes → Bytes) (verify : Bytes → Bytes → Bytes → Bool)
      (to_bytes : Transaction → Bytes) (to_json : List Transaction → Bytes) (s s' : Txn) (db : Db)
      (commits : Bool) (now : ℕ) (trs : List Transaction) (minaddr ds cm qtj : Bytes) (blk : Block)
      → All (λ tx. length tx.script ≡ 0) trs
      → new_block b sha256 sha3 verify to_bytes to_json s commits now trs minaddr ds cm qtj ≡ ok blk
      → check_results b sha3 verify s' db
          (block_change (calculation_results b sha3 s blk))
          ds
          cm
          qtj
        ≡ ok true
  unfolding block_change calculation_results
  new_block_passes sha256 sha3 verify to_bytes to_json s s' db commits now trs minaddr ds cm qtj blk
        plain e =
      let ((n, same), due) =
        new_block_pays sha256 sha3 verify to_bytes to_json s commits now trs minaddr ds cm qtj blk
          e in
      check_results_accepts b sha3 verify s' db (block_change (calculation_results b sha3 s blk)) ds
        cm qtj (rw same (numbered-plain n trs plain)) due

  module _ (w : Willing b) where
    -- After the data of a transaction has been written with a height of 64 bits, by a transaction that
    -- takes every write, the transaction is read by its hash, and so is the height.
    pub get_transaction-set_block_data :
        (of_json : Bytes → Option Transaction) (to_json : Transaction → Option Bytes) (s : Txn)
        (block_hash hash text : Bytes) (h : ℕ)
        → (get_transaction b of_json
              (set_block_data b to_json s block_hash hash text (e64func h))
              hash
            ≡ json_of (of_json text))
          × (get_transaction_height b
                (set_block_data b to_json s block_hash hash text (e64func h))
                hash
              ≡ ok (h % 2 ^ 64))
    unfolding get_transaction get_transaction_height set_block_data mset mget keep
    get_transaction-set_block_data of_json to_json s block_hash hash text h =
        let (s1, p1) = w.puts s (e_map_key block_hash hash) text in
        let (s2, p2) = w.puts s1 (e_map_key hash text) (e64func h) in
        let (s3, p3) = w.puts s2 hash text in
        let own : b.get s3 hash ≡ found text =
          ground (arith, b.get-put s2 s3 hash text hash p3, bytes_eq_iff hash hash) in
        let apart : bytes_eq hash (e_map_key hash text) ≡ false =
          ground (arith, bytes_eq_iff hash (e_map_key hash text), map_key_longer hash text) in
        let at : b.get s3 (e_map_key hash text) ≡ found (e64func h) = ground (
          arith,
          b.get-put s2 s3 hash text (e_map_key hash text) p3,
          apart,
          b.get-put s1 s2 (e_map_key hash text) (e64func h) (e_map_key hash text) p2,
          bytes_eq_iff (e_map_key hash text) (e_map_key hash text),
        ) in
        rw (set_block_data, p1, p2, p3) (rw own refl, rw (own, at, (decode-encode_words h).5) refl)
