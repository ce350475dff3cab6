-- ===== src/Server/Paging.antt =====
-- The pages of blocks that the HTTP server answers with.
use raft_project.Common.{
  ℕ, zero, suc, ◌-◌, ◌*◌, ◌%◌, ◌^◌, ◌≤◌, ◌<◌, ◌≡◌, refl, ap, ◌∙◌, inl, inr, true, false, ◌||◌, some,
  List, [], ◌∷◌, arith,
}
use raft_project.Common.Tests.{leb, ◌==◌, if◌then◌else◌, Bool-cases}
use raft_project.Common.Lists.{Bytes, take, drop}
use raft_project.Common.Outcome.{ok, err}
use raft_project.Store.{Badger}
use raft_project.Store.Scan.{Iterator}
use raft_project.Chain.{sub_u64}
use raft_project.Chain.Block.{Block}
use raft_project.Chain.Queries.{get_max_block_height, get_block_by_height}
use raft_project.Txpool.{lt_i64}
use raft_project.Server.{
  err_data, ReqData, Hex, Json, BlockView, paged_view, block_view, page_blocks, block_by_num_fy,
}

-- The first height of a page, as the server computes it.
first_height :
    (max q : ℕ)
    → max < 2 ^ 63
    → q < 2 ^ 63
    → q < max
    → (sub_u64 max q ≡ max - q) × ((max - q == 0 || lt_i64 (max - q) 0) ≡ false)
first_height max q small fits below =
    (omega (arith, small, fits, below), ground (arith, small, below))

no_height :
    (max q : ℕ)
    → max < 2 ^ 63
    → q < 2 ^ 63
    → max ≤ q
    → (sub_u64 max q == 0 || lt_i64 (sub_u64 max q) 0) ≡ true
no_height max q small fits above = ground (arith, small, fits, above)

module _ (b : Badger) (it : Iterator b) (hex : Hex) (json : Json) where
  -- All blocks from a height down, as a page shows them.
  unfoldable pub newest_first : (ℕ → Block) → ℕ → List BlockView
  newest_first blk zero = []
  newest_first blk (suc i) = block_view hex (paged_view hex) (blk (suc i)) ∷ newest_first blk i

  page_blocks_lem :
      (s : b.Txn) (blk : ℕ → Block) (max n i : ℕ)
      → ((h : ℕ) → h < max → get_block_by_height b json.block s (suc h) ≡ ok (blk (suc h)))
      → i ≤ max
      → page_blocks b it hex json s n i ≡ take n (newest_first blk i)
  unfolding page_blocks newest_first
  page_blocks_lem s blk max zero i read h = refl
  page_blocks_lem s blk max (suc n) zero read h = refl
  page_blocks_lem s blk max (suc n) (suc i) read h =
      rw (page_blocks, read i (omega arith))
        (ap (λ rest. block_view hex (paged_view hex) (blk (suc i)) ∷ rest)
          (page_blocks_lem s blk max n i read (omega arith)))

  drop-newest_first :
      (blk : ℕ → Block) (k i : ℕ) → drop k (newest_first blk i) ≡ newest_first blk (i - k)
  unfolding newest_first
  drop-newest_first blk zero i = ap (newest_first blk) (omega arith)
  drop-newest_first blk (suc k) zero =
      let none_left : zero - suc k ≡ zero = omega arith in rw none_left refl
  drop-newest_first blk (suc k) (suc i) =
      drop-newest_first blk k i ∙ ap (newest_first blk) (omega arith)

  -- On a chain whose blocks can all be read, the server's page of `num` blocks is that page of the list
  -- of all blocks, the newest first, and a page behind the list's end is an error. The page is at least
  -- the first, and the chain's height and the number of blocks before the page have 63 bits.
  pub block_by_num_fy_lem :
      (s : b.Txn) (body : Bytes) (req : ReqData) (max : ℕ) (blk : ℕ → Block)
      → json.request body ≡ some req
      → get_max_block_height b s ≡ ok max
      → ((h : ℕ) → h < max → get_block_by_height b json.block s (suc h) ≡ ok (blk (suc h)))
      → req.num < 2 ^ 63
      → 1 ≤ req.page
      → req.page < 2 ^ 63
      → max < 2 ^ 63
      → (req.page - 1) * req.num < 2 ^ 63
      → block_by_num_fy b it hex json s body ≡ (
          if leb max ((req.page - 1) * req.num)
          then err err_data
          else ok (max, take req.num (drop ((req.page - 1) * req.num) (newest_first blk max))))
  unfolding block_by_num_fy
  block_by_num_fy_lem s body req max blk parsed top read few first page small fits =
      let q = (req.page - 1) * req.num in
      let signs : (lt_i64 req.num 0 || lt_i64 req.page 0) ≡ false = ground (arith, few, page) in
      let before : sub_u64 req.page 1 ≡ req.page - 1 = omega (arith, first, page) in
      let product : q % 2 ^ 64 ≡ q = omega (arith, fits) in
      rw (parsed, signs, top, before, product)
        (elim (Bool-cases (leb max q)) [
          | inl behind ↦ rw (behind, no_height max q small fits (ground (arith, behind))) refl
          | inr inside ↦
              let below : q < max = ground (arith, inside) in
              let (from, fine) = first_height max q small fits below in
              rw (inside, from, fine, drop-newest_first blk q max)
                (ap (λ bs. ok (max, bs))
                  (page_blocks_lem s blk max req.num (max - q) read (omega arith)))
        ])
