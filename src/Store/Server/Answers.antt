-- ===== src/Store/Server/Answers.antt =====
-- What the server's clients rely on.
use raft_project.Common.{
  ◌<◌, ◌≡◌, refl, ap, ◌∙◌, Bool, true, false, ◌+◌, ◌^◌, some, List, [], ◌∷◌, ◌++◌,
}
use raft_project.Common.Tests.{if◌then◌else◌}
use raft_project.Common.Lists.{Bytes, codes, bytes_eq, bytes_eq_refl, length}
use raft_project.Store.{Badger, Willing, Fetch, found}
use raft_project.Store.{e_map_key, mset, mget}
use raft_project.Store.Scan.{Iterator, In}
use raft_project.Store.Scan.Fields.{mkeys_lem}
use raft_project.Store.Lists.Ends.{IsList}
use raft_project.Store.Database.Durable.{llpop-lrpush}
use raft_project.Store.Database.{Database, db_set, db_get, db_mset, db_mkeys}
use raft_project.Store.Server.{
  find_command, resp_simple, resp_bulk, resp_integer, resp_array, Format, bulk_of, deal_set,
  deal_get, deal_hset, deal_hkeys, deal_lpop, deal_rpush, run_command, serve,
}

bulk_of-if :
    (c : Bool) (v : Bytes) (r : Fetch)
    → bulk_of (if c then found v else r) ≡ (if c then resp_bulk v else bulk_of r)
bulk_of-if true v r = refl
bulk_of-if false v r = refl

module _ (b : Badger) (it : Iterator b) (base : Database b) (f : Format) where
  -- After a SET that the database takes, a GET of the key answers with its value, and a GET of any other
  -- key answers what it did before.
  pub get-set :
      (w : Willing b)
      → ((d : base.Data) (s : b.Txn) → (d' : base.Data) × (base.commit d s ≡ some d'))
      → (d : base.Data) (k v j : Bytes)
      → (d' : base.Data) × (serve b it base f d (codes "SET" ∷ k ∷ v ∷ [])
          ≡ some (d', resp_simple (codes "OK")))
        × (serve b it base f d' (codes "GET" ∷ j ∷ [])
            ≡ some (d', (if bytes_eq k j then resp_bulk v else bulk_of (db_get b base d j))))
  unfolding serve find_command run_command deal_set deal_get bytes_eq db_set db_get
  get-set w commits d k v j =
      let (s1, put) = w.puts (base.begin d) k v in
      let (d', committed) = commits d s1 in
      let read : b.get (base.begin d') j
          ≡ (if bytes_eq k j then found v else b.get (base.begin d) j) =
        base.get-commit d d' s1 j committed ∙ b.get-put (base.begin d) s1 k v j put in
      (
        d',
        rw (put, committed) refl,
        ap (λ r. some (d', r))
            (ap bulk_of read ∙ bulk_of-if (bytes_eq k j) v (b.get (base.begin d) j)),
      )

  -- A value that is pushed at the right end of a list of the database is answered with the list's
  -- new length, and stands behind the values that are there: an LPOP after it answers with the
  -- first of them, and leaves the others and the value. The database takes every write and commit,
  -- and the list has at least one value and less than 2^64 - 3.
  pub lpop-rpush :
      (w : Willing b)
      → (commits : (d : base.Data) (s : b.Txn) → (d' : base.Data) × (base.commit d s ≡ some d'))
      → (d : base.Data) (k x v : Bytes) (xs : List Bytes) → IsList b (base.begin d) k (x ∷ xs)
      → length xs + 4 < 2 ^ 64
      → (d1 : base.Data) × (d2 : base.Data) × (serve b it base f d (codes "RPUSH" ∷ k ∷ v ∷ [])
          ≡ some (d1, resp_integer (length xs + 2)))
        × (serve b it base f d1 (codes "LPOP" ∷ k ∷ []) ≡ some (d2, resp_bulk x))
        × IsList b (base.begin d2) k (xs ++ v ∷ [])
  unfolding serve find_command run_command deal_rpush deal_lpop bytes_eq
  lpop-rpush w commits d k x v xs h few =
      let (d1, d2, pushed, popped, rest) = llpop-lrpush b w base commits d k x v xs h few in
      (d1, d2, rw pushed refl, rw popped refl, rest)

  -- After an HSET of a field that the database takes, HKEYS of the map answers with its fields, this one
  -- among them.
  pub hkeys-hset :
      (w : Willing b)
      → ((d : base.Data) (s : b.Txn) → (d' : base.Data) × (base.commit d s ≡ some d'))
      → (d : base.Data) (m k v : Bytes) → length m + 5 < 2 ^ 32
      → (d' : base.Data) × (ks : List Bytes) × (serve b it base f d (codes "HSET" ∷ m ∷ k ∷ v ∷ [])
          ≡ some (d', resp_integer 1))
        × (serve b it base f d' (codes "HKEYS" ∷ m ∷ []) ≡ some (d', resp_array ks))
        × In k ks
  unfolding serve find_command run_command deal_hset deal_hkeys bytes_eq db_mset db_mkeys mset mget
  hkeys-hset w commits d m k v short =
      let (s1, put) = w.puts (base.begin d) (e_map_key m k) v in
      let (d', committed) = commits d s1 in
      let (ks, all, same) = mkeys_lem b it (base.begin d') m short in
      let read : b.get (base.begin d') (e_map_key m k) ≡ found v =
        base.get-commit d d' s1 (e_map_key m k) committed
        ∙ b.get-put (base.begin d) s1 (e_map_key m k) v (e_map_key m k) put
        ∙ rw (bytes_eq_refl (e_map_key m k)) refl in
      (d', ks, rw (put, committed) refl, rw all refl, (same k).1 (v, read))
