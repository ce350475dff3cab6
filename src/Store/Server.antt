-- ===== src/Store/Server.antt =====
-- The database server of until/store/server: the commands of exec.go, the replies of response.go, and
-- how server.go finds a command.
pub mod Replies
pub mod Answers
use raft_project.Common.{
  ℕ, zero, suc, ◌+◌, ◌%◌, ◌^◌, ◌≡◌, Bool, true, false, Option, none, some, List, [], ◌∷◌, ◌++◌,
}
use raft_project.Common.Tests.{if◌then◌else◌}
use raft_project.Common.Lists.{Bytes, codes, bytes_eq, length}
use raft_project.Common.Outcome.{Outcome, ok, err, panic, ◌>>=◌}
use raft_project.Store.{Badger, Fetch, found, not_exist, failed}
use raft_project.Store.Scan.{Iterator}
use raft_project.Store.Lists.{ListError, write_refused}
use raft_project.Store.Database.{
  Database, db_del, db_set, db_get, db_mdel, db_mset, db_mget, db_mkeys, db_mvals, db_mclear,
  db_llen, db_lclear, db_llpush, db_llpop, db_lrpush, db_lrpop, db_lrange, db_lset, db_lindex,
  db_sdel, db_sadd, db_selem, db_smembers, db_sclear, db_zdel, db_zadd, db_zscore, db_zrange,
  db_zclear,
}

-- The commands, in the order of `dealRegister`.
pub data Command : Type 0 where
  set del get hset hdel hget hkeys hvals hclear : Command
  sadd srem sismember smembers sclear : Command
  zadd zrem zscore zrange zclear : Command
  lpop lpush rpop rpush lset llen lindex lrange lclear : Command

unfoldable pub find_command : Bytes → List (Bytes × Command) → Option Command
find_command name [] = none
find_command name ((n, c) ∷ cs) = if bytes_eq n name then some c else find_command name cs

abbrev pub deal_register : List (Bytes × Command)
deal_register =
    (codes "SET", set)
    ∷ (codes "DEL", del)
    ∷ (codes "GET", get)
    ∷ (codes "HSET", hset)
    ∷ (codes "HDEL", hdel)
    ∷ (codes "HGET", hget)
    ∷ (codes "HKEYS", hkeys)
    ∷ (codes "HVALS", hvals)
    ∷ (codes "HCLEAR", hclear)
    ∷ (codes "SADD", sadd)
    ∷ (codes "SREM", srem)
    ∷ (codes "SISMEMBER", sismember)
    ∷ (codes "SMEMBERS", smembers)
    ∷ (codes "SCLEAR", sclear)
    ∷ (codes "ZADD", zadd)
    ∷ (codes "ZREM", zrem)
    ∷ (codes "ZSCORE", zscore)
    ∷ (codes "ZRANGE", zrange)
    ∷ (codes "ZCLEAR", zclear)
    ∷ (codes "LPOP", lpop)
    ∷ (codes "LPUSH", lpush)
    ∷ (codes "RPOP", rpop)
    ∷ (codes "RPUSH", rpush)
    ∷ (codes "LSET", lset)
    ∷ (codes "LLEN", llen)
    ∷ (codes "LINDEX", lindex)
    ∷ (codes "LRANGE", lrange)
    ∷ (codes "LCLEAR", lclear)
    ∷ []

-- What a command answers.
pub data Reply : Type 0 where
  resp_error : Bytes → Reply
  resp_integer : ℕ → Reply
  resp_simple : Bytes → Reply
  resp_bulk : Bytes → Reply
  resp_array : List Bytes → Reply

-- The texts of errors, and the numbers of strconv and fmt, from outside the repository. `parse_int`
-- gives a word of 64 bits, for a number that fits into as many bits as it is asked for.
pub record Format : Type 0 where
  pub refused : Bytes
  pub list_error : ListError → Bytes
  pub fetch_error : Fetch → Bytes
  pub parse_int : ℕ → Bytes → Option ℕ
  pub parse_error : Bytes → Bytes
  pub show_int : ℕ → Bytes
  pub show_int32 : ℕ → Bytes

-- The name in the message for too few arguments, of which two are another command's or no command's.
abbrev pub own_name : Command → Bytes
own_name set = codes "SET"
own_name del = codes "DEL"
own_name get = codes "GET"
own_name hset = codes "HSET"
own_name hdel = codes "HDEL"
own_name hget = codes "HGET"
own_name hkeys = codes "HKEYS"
own_name hvals = codes "HVALS"
own_name hclear = codes "HCLEAR"
own_name sadd = codes "SADD"
own_name srem = codes "SREM"
own_name sismember = codes "SISMEMBER"
own_name smembers = codes "SMEMBERS"
own_name sclear = codes "SMEMBERS"
own_name zadd = codes "ZADD"
own_name zrem = codes "ZREM"
own_name zscore = codes "ZSCORE"
own_name zrange = codes "ZRANGE"
own_name zclear = codes "ZCLEAR"
own_name lpop = codes "LPOP"
own_name lpush = codes "LPUSH"
own_name rpop = codes "RPOP"
own_name rpush = codes "RPUSH"
own_name lset = codes "LSET"
own_name llen = codes "LLEN"
own_name lindex = codes "LINDEX"
own_name lrange = codes "LRANE"
own_name lclear = codes "LCLEAR"

unfoldable pub too_few : Command → Reply
too_few c =
    resp_error (codes "wrong number of arguments for '" ++ (own_name c ++ codes "' command"))

abbrev pub bulk_of : Fetch → Reply
bulk_of (found v) = resp_bulk v
bulk_of not_exist = resp_bulk []
bulk_of failed = resp_bulk []

abbrev pub truth : Bool → Reply
truth true = resp_integer 1
truth false = resp_integer 0

-- The database after a command, and its answer; `none` is a panic.
module _ (b : Badger) (it : Iterator b) (base : Database b) (f : Format) where
  open base use {Data}

  abbrev pub Answer : Type 0
  Answer = Option (Data × Reply)

  abbrev pub with1 : Command → Data → List Bytes → (Bytes → Answer) → Answer
  with1 c d [] k = some (d, too_few c)
  with1 c d (x ∷ xs) k = k x

  abbrev pub with2 : Command → Data → List Bytes → (Bytes → Bytes → Answer) → Answer
  with2 c d [] k = some (d, too_few c)
  with2 c d (x ∷ []) k = some (d, too_few c)
  with2 c d (x ∷ (y ∷ ys)) k = k x y

  abbrev pub with3 : Command → Data → List Bytes → (Bytes → Bytes → Bytes → Answer) → Answer
  with3 c d [] k = some (d, too_few c)
  with3 c d (x ∷ []) k = some (d, too_few c)
  with3 c d (x ∷ (y ∷ [])) k = some (d, too_few c)
  with3 c d (x ∷ (y ∷ (z ∷ zs))) k = k x y z

  -- A write, with the answer if it fails and if it succeeds.
  abbrev pub wrote : Data → Option Data → Reply → Reply → Answer
  wrote d none bad good = some (d, bad)
  wrote d (some d') bad good = some (d', good)

  abbrev pub scores_wrote : Data → Outcome Fetch Data → Answer
  scores_wrote d (ok d') = some (d', truth true)
  scores_wrote d (err e) = some (d, truth false)
  scores_wrote d panic = none

  abbrev pub read_all : Data → Outcome Fetch (List Bytes) → (Fetch → Reply) → Answer
  read_all d (ok xs) bad = some (d, resp_array xs)
  read_all d (err e) bad = some (d, bad e)
  read_all d panic bad = none

  abbrev pub listed :
      {A : Type 0}
      → Data
      → Outcome ListError (Data × A)
      → (ListError → Reply)
      → (A → Reply)
      → Answer
  listed d (ok (d', a)) bad good = some (d', good a)
  listed d (err e) bad good = some (d, bad e)
  listed d panic bad good = none

  abbrev pub read_list :
      {A : Type 0} → Data → Outcome ListError A → (ListError → Reply) → (A → Reply) → Answer
  read_list d (ok a) bad good = some (d, good a)
  read_list d (err e) bad good = some (d, bad e)
  read_list d panic bad good = none

  abbrev pub read_number : {A : Type 0} → Data → Outcome Fetch A → Reply → (A → Reply) → Answer
  read_number d (ok n) bad good = some (d, good n)
  read_number d (err e) bad good = some (d, bad)
  read_number d panic bad good = none

  -- `strconv.ParseInt(s, 0, bits)`
  abbrev pub parsed : Data → Option ℕ → Reply → (ℕ → Answer) → Answer
  parsed d none bad k = some (d, bad)
  parsed d (some n) bad k = k n

  abbrev pub as_error : ListError → Reply
  as_error e = resp_error (f.list_error e)

  abbrev pub as_nil : ListError → Reply
  as_nil e = resp_bulk []

  abbrev pub no_number : Bytes → Reply
  no_number s = resp_error (f.parse_error s)

  unfoldable pub deal_set : Data → List Bytes → Answer
  deal_set d args =
      with2 set d args
        (λ k v. wrote d (db_set b base d k v) (resp_error f.refused) (resp_simple (codes "OK")))

  unfoldable pub deal_del : Data → List Bytes → Answer
  deal_del d args = with1 del d args (λ k. wrote d (db_del b base d k) (truth false) (truth true))

  unfoldable pub deal_get : Data → List Bytes → Answer
  deal_get d args = with1 get d args (λ k. some (d, bulk_of (db_get b base d k)))

  unfoldable pub deal_hset : Data → List Bytes → Answer
  deal_hset d args =
      with3 hset d args
        (λ k j v. wrote d (db_mset b base d k j v) (resp_error f.refused) (truth true))

  unfoldable pub deal_hdel : Data → List Bytes → Answer
  deal_hdel d args =
      with2 hdel d args (λ k j. wrote d (db_mdel b base d k j) (truth false) (truth true))

  unfoldable pub deal_hget : Data → List Bytes → Answer
  deal_hget d args = with2 hget d args (λ k j. some (d, bulk_of (db_mget b base d k j)))

  unfoldable pub deal_hkeys : Data → List Bytes → Answer
  deal_hkeys d args =
      with1 hkeys d args (λ k. read_all d (db_mkeys b it base d k) (λ e. resp_array []))

  unfoldable pub deal_hvals : Data → List Bytes → Answer
  deal_hvals d args =
      with1 hvals d args (λ k. read_all d (db_mvals b it base d k) (λ e. resp_array []))

  unfoldable pub deal_hclear : Data → List Bytes → Answer
  deal_hclear d args =
      with1 hclear d args (λ k. wrote d (db_mclear b it base d k) (truth false) (truth true))

  unfoldable pub deal_sadd : Data → List Bytes → Answer
  deal_sadd d args =
      with2 sadd d args (λ k v. wrote d (db_sadd b base d k v) (truth false) (truth true))

  unfoldable pub deal_srem : Data → List Bytes → Answer
  deal_srem d args =
      with2 srem d args (λ k v. wrote d (db_sdel b base d k v) (truth false) (truth true))

  unfoldable pub deal_sismember : Data → List Bytes → Answer
  deal_sismember d args =
      with2 sismember d args (λ k v. read_number d (db_selem b base d k v) (truth false) truth)

  unfoldable pub deal_smembers : Data → List Bytes → Answer
  deal_smembers d args =
      with1 smembers d args (λ k. read_all d (db_smembers b it base d k) (λ e. resp_array []))

  unfoldable pub deal_sclear : Data → List Bytes → Answer
  deal_sclear d args =
      with1 sclear d args (λ k. wrote d (db_sclear b it base d k) (truth false) (truth true))

  unfoldable pub deal_zadd : Data → List Bytes → Answer
  deal_zadd d args = with3 zadd d args (λ k s v.
      parsed d (f.parse_int 32 s) (truth false)
        (λ n. wrote d (db_zadd b base d k (n % 2 ^ 32) v) (truth false) (truth true)))

  unfoldable pub deal_zrem : Data → List Bytes → Answer
  deal_zrem d args =
      with2 zrem d args (λ k v. wrote d (db_zdel b base d k v) (truth false) (truth true))

  unfoldable pub deal_zscore : Data → List Bytes → Answer
  deal_zscore d args = with2 zscore d args (λ k v.
      read_number d (db_zscore b base d k v) (resp_bulk []) (λ n. resp_bulk (f.show_int32 n)))

  unfoldable pub deal_zrange : Data → List Bytes → Answer
  deal_zrange d args = with3 zrange d args (λ k x y. parsed d (f.parse_int 32 x) (no_number x) (λ m.
      parsed d (f.parse_int 32 y) (no_number y) (λ n.
        read_all d (db_zrange b it base d k (m % 2 ^ 32) (n % 2 ^ 32))
          (λ e. resp_error (f.fetch_error e)))))

  unfoldable pub deal_zclear : Data → List Bytes → Answer
  deal_zclear d args = with1 zclear d args (λ k. scores_wrote d (db_zclear b it base d k))

  unfoldable pub deal_lpop : Data → List Bytes → Answer
  deal_lpop d args = with1 lpop d args (λ k. listed d (db_llpop b base d k) as_nil resp_bulk)

  unfoldable pub deal_lpush : Data → List Bytes → Answer
  deal_lpush d args =
      with2 lpush d args (λ k v. listed d (db_llpush b base d k v) as_error resp_integer)

  unfoldable pub deal_rpop : Data → List Bytes → Answer
  deal_rpop d args = with1 rpop d args (λ k. listed d (db_lrpop b base d k) as_nil resp_bulk)

  unfoldable pub deal_rpush : Data → List Bytes → Answer
  deal_rpush d args =
      with2 rpush d args (λ k v. listed d (db_lrpush b base d k v) as_error resp_integer)

  unfoldable pub deal_lset : Data → List Bytes → Answer
  deal_lset d args = with3 lset d args (λ k i v.
      parsed d (f.parse_int 64 i) (no_number i)
        (λ n. listed d (db_lset b base d k n v) as_error (λ u. resp_simple (codes "OK"))))

  unfoldable pub deal_llen : Data → List Bytes → Answer
  deal_llen d args =
      with1 llen d args (λ k. read_number d (db_llen b base d k) (truth false) resp_integer)

  unfoldable pub deal_lindex : Data → List Bytes → Answer
  deal_lindex d args = with2 lindex d args (λ k i.
      parsed d (f.parse_int 64 i) (no_number i)
        (λ n. read_list d (db_lindex b base d k n) as_nil resp_bulk))

  unfoldable pub deal_lrange : Data → List Bytes → Answer
  deal_lrange d args = with3 lrange d args (λ k x y. parsed d (f.parse_int 64 x) (no_number x) (λ m.
      parsed d (f.parse_int 64 y) (no_number y)
        (λ n. read_list d (db_lrange b base d k m n) (λ e. resp_array []) resp_array)))

  unfoldable pub deal_lclear : Data → List Bytes → Answer
  deal_lclear d args =
      with1 lclear d args
        (λ k. listed d (db_lclear b base d k) (λ e. truth false) (λ u. truth true))

  unfoldable pub run_command : Command → Data → List Bytes → Answer
  run_command set d args = deal_set d args
  run_command del d args = deal_del d args
  run_command get d args = deal_get d args
  run_command hset d args = deal_hset d args
  run_command hdel d args = deal_hdel d args
  run_command hget d args = deal_hget d args
  run_command hkeys d args = deal_hkeys d args
  run_command hvals d args = deal_hvals d args
  run_command hclear d args = deal_hclear d args
  run_command sadd d args = deal_sadd d args
  run_command srem d args = deal_srem d args
  run_command sismember d args = deal_sismember d args
  run_command smembers d args = deal_smembers d args
  run_command sclear d args = deal_sclear d args
  run_command zadd d args = deal_zadd d args
  run_command zrem d args = deal_zrem d args
  run_command zscore d args = deal_zscore d args
  run_command zrange d args = deal_zrange d args
  run_command zclear d args = deal_zclear d args
  run_command lpop d args = deal_lpop d args
  run_command lpush d args = deal_lpush d args
  run_command rpop d args = deal_rpop d args
  run_command rpush d args = deal_rpush d args
  run_command lset d args = deal_lset d args
  run_command llen d args = deal_llen d args
  run_command lindex d args = deal_lindex d args
  run_command lrange d args = deal_lrange d args
  run_command lclear d args = deal_lclear d args

  abbrev pub answer : Data → Bytes → List Bytes → Option Command → Answer
  answer d name args none = some (d, resp_error (codes "unknown command '" ++ (name ++ codes "'")))
  answer d name args (some c) = run_command c d args

  -- What `serve` does with a request, whose first argument `readRequest` has put in capitals. There may
  -- be none, which is a panic.
  unfoldable pub serve : Data → List Bytes → Answer
  serve d [] = none
  serve d (name ∷ args) = answer d name args (find_command name deal_register)
