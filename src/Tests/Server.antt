-- ===== src/Tests/Server.antt =====
-- The theorems on the servers at concrete inputs.
use raft_project.Common.{
  ℕ, ◌-◌, ◌*◌, ◌<◌, ◌≡◌, ◌↔◌, ◌⊎◌, zero, suc, refl, ap, ◌∙◌, inl, inr, Bool, true, false, ◌&&◌,
  Option, none, some, List, [], ◌∷◌, ◌++◌, arith,
}
use raft_project.Common.Tests.{◌==◌, if◌then◌else◌, leb, Bool-cases}
use raft_project.Common.Lists.{Bytes, bytes_eq, bytes_eq_iff, codes, take, drop}
use raft_project.Common.Outcome.{ok, err}
use raft_project.Common.Dict.{Dict, lookup}
use raft_project.Codec.{e64func}
use raft_project.Store.{found, e_map_key, mget}
use raft_project.Store.Scan.{In, HasPrefix, Iterator, mkeys}
use raft_project.Store.Scan.Fields.{mkeys_lem}
use raft_project.Store.Lists.Ends.{IsList}
use raft_project.Store.Database.{db_get}
use raft_project.Store.Server.{resp_simple, resp_bulk, resp_integer, Format, bulk_of, serve}
use raft_project.Store.Server.Answers.{get-set, lpop-rpush}
use raft_project.Server.{ReqData, Hex, Json, err_data, block_by_num_fy}
use raft_project.Server.Paging.{newest_first, block_by_num_fy_lem}
use raft_project.Chain.Block.{Block}
use raft_project.Chain.Queries.{get_block_by_height}
use raft_project.Tests.Store.{disk, fetch, willing}
use raft_project.Tests.Lists.{file, two, two-Holds, name}

-- Whether a key begins with a prefix.
abbrev begins : Bytes → Bytes → Bool
begins [] key = true
begins (x ∷ p) [] = false
begins (x ∷ p) (y ∷ key) = x == y && begins p key

both_true : (x y : Bool) → (x && y) ≡ true → (x ≡ true) × (y ≡ true)
both_true true y h = (refl, h)
both_true false y h = cc h

begins-HasPrefix : (p key : Bytes) → begins p key ≡ true → HasPrefix p key
begins-HasPrefix [] key h = (key, refl)
begins-HasPrefix (x ∷ p) [] h = cc h
begins-HasPrefix (x ∷ p) (y ∷ key) h =
    let (same, rest) = both_true (x == y) (begins p key) h in
    let (t, e) = begins-HasPrefix p key rest in
    let head : y ≡ x = ground (arith, same) in (t, rw (head, e) refl)

begins-append : (p t : Bytes) → begins p (p ++ t) ≡ true
begins-append [] t = refl
begins-append (x ∷ p) t = ground (arith, begins-append p t)

-- The keys of a dictionary with a prefix.
abbrev matching : Bytes → Dict Bytes → List Bytes
matching p [] = []
matching p ((k, v) ∷ d) = let rest = matching p d in if begins p k then k ∷ rest else rest

lookup-cons :
    (j key v : Bytes) (d : Dict Bytes)
    → ((w : Bytes) × (lookup key d ≡ some w))
    → (w : Bytes) × (lookup key ((j, v) ∷ d) ≡ some w)
unfolding lookup
lookup-cons j key v d (w, e) = elim (Bool-cases (bytes_eq j key)) [
  | inl same ↦ rw same (v, refl)
  | inr other ↦ rw other (w, e)
]

picked :
    (t : Bool) (k key : Bytes) (rest : List Bytes)
    → In key (if t then k ∷ rest else rest)
    → ((t ≡ true) × (k ≡ key)) ⊎ In key rest
picked true k key rest (inl e) = inl (refl, e)
picked true k key rest (inr i) = inr i
picked false k key rest i = inr i

In-kept :
    (t : Bool) (k key : Bytes) (rest : List Bytes)
    → In key rest
    → In key (if t then k ∷ rest else rest)
In-kept true k key rest i = inr i
In-kept false k key rest i = i

matching-lookup :
    (p key : Bytes) (d : Dict Bytes)
    → In key (matching p d)
    → (begins p key ≡ true) × ((v : Bytes) × (lookup key d ≡ some v))
unfolding lookup
matching-lookup p key [] i = absurd i
matching-lookup p key ((k, v) ∷ d) i = elim (picked (begins p k) k key (matching p d) i) [
  | inl (fits, same) ↦
      let own : bytes_eq k key ≡ true = (bytes_eq_iff k key).1 same in
      (rw (← same) fits, (v, rw own refl))
  | inr later ↦ let (fits, at) = matching-lookup p key d later in (fits, lookup-cons k key v d at)
]

lookup-matching :
    (p t v : Bytes) (d : Dict Bytes)
    → fetch (lookup (p ++ t) d) ≡ found v
    → In (p ++ t) (matching p d)
unfolding lookup
lookup-matching p t v [] h = cc h
lookup-matching p t v ((k, w) ∷ d) h = elim (Bool-cases (bytes_eq k (p ++ t))) [
  | inl same ↦
      let is : k ≡ p ++ t = (bytes_eq_iff k (p ++ t)).0 same in
      let fits : begins p k ≡ true = ap (begins p) is ∙ begins-append p t in rw fits (inl is)
  | inr other ↦
      let rest : fetch (lookup (p ++ t) d) ≡ found v = rw (← h, other) refl in
      In-kept (begins p k) k (p ++ t) (matching p d) (lookup-matching p t v d rest)
]

fetched : (o : Option Bytes) → ((v : Bytes) × (o ≡ some v)) → (v : Bytes) × (fetch o ≡ found v)
fetched o (v, e) = (v, ap fetch e)

abbrev walk : Iterator disk
walk = record {
  keys = λ s p q. matching p s;
  keys-found = λ s p q key i.
      let (fits, at) = matching-lookup p key s i in
      (begins-HasPrefix p key fits, fetched (lookup key s) at);
  found-keys = λ s p t v h. lookup-matching p t v s h;
}

-- A dictionary with one field of a map.
abbrev mapped : Dict Bytes
unfolding e_map_key
mapped = (e_map_key name (codes "x"), codes "y") ∷ []

mkeys_lem_example :
    (ks : List Bytes) × (mkeys disk walk mapped name ≡ ok ks)
    × ((k : Bytes) → In k ks ↔ ((v : Bytes) × (mget disk mapped name k ≡ found v)))
mkeys_lem_example = mkeys_lem disk walk mapped name (omega arith)

abbrev format : Format
format = record {
  refused = codes "refused";
  list_error = λ e. codes "list";
  fetch_error = λ e. codes "read";
  parse_int = λ bits s. some 0;
  parse_error = λ s. s;
  show_int = λ n. codes "n";
  show_int32 = λ n. codes "n";
}

get-set_example :
    (d' : Dict Bytes) × (serve disk walk file format two (codes "SET" ∷ codes "k" ∷ codes "v" ∷ [])
      ≡ some (d', resp_simple (codes "OK")))
    × (serve disk walk file format d' (codes "GET" ∷ codes "j" ∷ [])
        ≡ some (
          d',
          if bytes_eq (codes "k") (codes "j")
              then resp_bulk (codes "v")
              else bulk_of (db_get disk file two (codes "j")),
        ))
get-set_example =
    get-set disk walk file format willing (λ d s. (s, refl)) two (codes "k") (codes "v") (codes "j")

lpop-rpush_example :
    (d1 : Dict Bytes) × (d2 : Dict Bytes) × (serve disk walk file format two
        (codes "RPUSH" ∷ name ∷ codes "d" ∷ [])
      ≡ some (d1, resp_integer 3))
    × (serve disk walk file format d1 (codes "LPOP" ∷ name ∷ []) ≡ some (d2, resp_bulk (codes "a")))
    × IsList disk d2 name (codes "b" ∷ codes "d" ∷ [])
lpop-rpush_example =
    lpop-rpush disk walk file format willing (λ d s. (s, refl)) two name (codes "a") (codes "d")
      (codes "b" ∷ []) (inr (0, two-Holds)) (omega arith)

abbrev only : Block
only = record {
  height = 1;
  prev_block_hash = [];
  txs = [];
  root = [];
  version = 1;
  timestamp = 5;
  hash = codes "b";
  miner = [];
  txres = [];
  first_tx = [];
}

-- A chain of one block.
abbrev chain : Dict Bytes
unfolding e_map_key e64func
chain =
    (codes "height", e64func 1)
    ∷ (e_map_key (e64func 1) (codes "hash"), codes "b")
    ∷ (codes "b", codes "t")
    ∷ []

abbrev asked : ReqData
asked = record { address = []; hash = []; num = 2; page = 1 }

abbrev hex : Hex
hex = record { encode = λ s. s; decode = λ s. some s }

abbrev json : Json
json = record {
  request = λ text. some asked;
  sent_tx = λ text. none;
  block = λ text. some only;
  tx = λ text. none;
}

only-read : (h : ℕ) → h < 1 → get_block_by_height disk json.block chain (suc h) ≡ ok only
unfolding get_block_by_height mget lookup chain e_map_key e64func raft_project.Codec.e32func
    raft_project.Codec.le_encode bytes_eq
only-read zero h = refl
only-read (suc i) h = absurd (omega arith)

block_by_num_fy_lem_example : block_by_num_fy disk walk hex json chain [] ≡ (
    if leb 1 ((1 - 1) * 2)
    then err err_data
    else ok (1, take 2 (drop ((1 - 1) * 2) (newest_first disk walk hex json (λ h. only) 1))))
unfolding raft_project.Chain.Queries.get_max_block_height raft_project.Codec.d64func lookup chain
    raft_project.Codec.decode_at raft_project.Codec.le_decode e64func raft_project.Codec.le_encode
    bytes_eq
block_by_num_fy_lem_example =
    block_by_num_fy_lem disk walk hex json chain [] asked 1 (λ h. only) refl refl only-read
      (omega arith) (omega arith) (omega arith) (omega arith) (omega arith)
