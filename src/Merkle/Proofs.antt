-- ===== src/Merkle/Proofs.antt =====
-- Proof paths of until/merkle/merkle.go: `constructPath`, `validate` and `VerifyNode`.
use mathlib.Core.List.{reverse}
use raft_project.Common.{
  ℕ, zero, suc, ◌+◌, ◌≡◌, ◌≢◌, refl, inl, inr, Bool, true, false, Option, none, some, List, [], ◌∷◌,
  ◌++◌, arith,
}
use raft_project.Common.Tests.{leb, Bool-cases, ◌==◌, if◌then◌else◌}
use raft_project.Common.Lists.{Bytes, bytes_eq, bytes_eq_iff, length, take, drop, get_elem?, All}
use raft_project.Common.Outcome.{Outcome, ok, panic}
use raft_project.Merkle.{MerkleNode, leaf, branch, root_of}
use raft_project.Merkle.Build.{leaves, IsHashed}

pub record ProofElem : Type 0 where
  pub is_left : Bool
  pub node_root : Bytes
  pub sibling_root : Bytes

-- A slice of proof elements is a part of an array, which other slices may share.
pub record ProofArray : Type 0 where
  pub cells : List ProofElem
  pub cap : ℕ

pub record MerkleProof : Type 0 where
  pub array : ℕ
  pub len : ℕ

abbrev pub Arrays : Type 0
Arrays = List ProofArray

abbrev pub no_cells : ProofArray
no_cells = record { cells = []; cap = 0 }

abbrev array_or : Option ProofArray → ProofArray
array_or none = no_cells
array_or (some a) = a

unfoldable pub array_of : Arrays → MerkleProof → ProofArray
array_of mem p = array_or (get_elem? mem p.array)

unfoldable pub elems : Arrays → MerkleProof → List ProofElem
elems mem p = take p.len (array_of mem p).cells

unfoldable pub set_array : ℕ → ProofArray → Arrays → Arrays
set_array i a [] = []
set_array zero a (c ∷ mem) = a ∷ mem
set_array (suc i) a (c ∷ mem) = c ∷ set_array i a mem

-- The cells from the `i`-th on, overwritten.
abbrev pub overwrite : ℕ → List ProofElem → List ProofElem → List ProofElem
overwrite i xs cells = take i cells ++ (xs ++ drop (i + length xs) cells)

bytes_eq_ne : (a c : Bytes) → a ≢ c → bytes_eq a c ≡ false
bytes_eq_ne a c h = ground (arith, bytes_eq_iff a c)

All-split : (P : Bytes → Type 0) (xs ys : List Bytes) → All P (xs ++ ys) → All P xs × All P ys
All-split P [] ys h = (tt, h)
All-split P (x ∷ xs) ys h = let (hx, hy) = All-split P xs ys h.1 in ((h.0, hx), hy)

no_length : (xs : List ProofElem) → length xs ≡ 0 → xs ≡ []
no_length [] e = refl
no_length (x ∷ xs) e = absurd (omega (arith, e))

-- `grow` is the capacity of the array that `append` allocates, from the old one and the length.
module _ (grow : ℕ → ℕ → ℕ) (h : Bytes → Bytes) where
  -- `append`, in place where the array has room.
  unfoldable pub append_elems : Arrays → MerkleProof → List ProofElem → Arrays × MerkleProof
  append_elems mem p xs =
      let a = array_of mem p in
      let n = p.len + length xs in
      let written = record a { cells = overwrite p.len xs a.cells } in
      let copied : ProofArray = record { cells = elems mem p ++ xs; cap = grow a.cap n } in
      if leb n a.cap
      then (set_array p.array written mem, record { array = p.array; len = n })
      else (mem ++ copied ∷ [], record { array = length mem; len = n })

  -- `MerkleProof{}`
  unfoldable pub empty_proof : Arrays → Arrays × MerkleProof
  empty_proof mem = (mem ++ no_cells ∷ [], record { array = length mem; len = 0 })

  unfoldable pub construct_path : Arrays → MerkleProof → MerkleNode → Bytes → Arrays × MerkleProof
  construct_path mem proof (leaf content root) node =
      if bytes_eq root node then (mem, proof) else empty_proof mem
  construct_path mem proof (branch root ln rn) node =
      let l : ProofElem = record {
        is_left = true;
        node_root = root_of ln;
        sibling_root = root_of rn;
      } in
      let r : ProofElem = record {
        is_left = false;
        node_root = root_of rn;
        sibling_root = root_of ln;
      } in
      let (mem1, p1) = append_elems mem proof (l ∷ []) in
      let (mem2, lpath) = construct_path mem1 p1 ln node in
      let (mem3, p3) = append_elems mem2 proof (r ∷ []) in
      let (mem4, rpath) = construct_path mem3 p3 rn node in
      append_elems mem4 lpath (elems mem4 rpath)

  -- `validate`, along the elements from the last to the first.
  unfoldable pub validate : List ProofElem → Bytes → Bytes → Bool
  validate [] root node = bytes_eq node root
  validate (e ∷ es) root node =
      let up =
        h (if e.is_left then e.node_root ++ e.sibling_root else e.sibling_root ++ e.node_root) in
      let rest = validate es root up in if bytes_eq e.node_root node then rest else false

  unfoldable pub merkle_proof : MerkleNode → Bytes → Arrays × MerkleProof
  merkle_proof tree node = let (mem, p) = empty_proof [] in construct_path mem p tree node

  unfoldable pub verify_leaf : MerkleNode → Bytes → Bool
  verify_leaf tree node =
      let (mem, p) = merkle_proof tree node in validate (reverse (elems mem p)) (root_of tree) node

  -- `VerifyNode`, which panics on a nil root and on no data.
  unfoldable pub verify_node : Option MerkleNode → Bytes → Outcome Bytes Bool
  verify_node none content = panic
  verify_node (some tree) content =
      if length content == 0 then panic else ok (verify_leaf tree (h content))

  append_elems-len :
      (mem : Arrays) (p : MerkleProof) (xs : List ProofElem)
      → (append_elems mem p xs).1.len ≡ p.len + length xs
  unfolding append_elems
  append_elems-len mem p xs = elim (Bool-cases (leb (p.len + length xs) (array_of mem p).cap)) [
    | inl room ↦ rw room refl
    | inr full ↦ rw full refl
  ]

  no_elems : (mem : Arrays) (p : MerkleProof) → p.len ≡ 0 → length (elems mem p) ≡ 0
  unfolding elems
  no_elems mem p e = rw e refl

  append_none-len :
      (mem : Arrays) (p q : MerkleProof)
      → p.len ≡ 0
      → q.len ≡ 0
      → (append_elems mem p (elems mem q)).1.len ≡ 0
  append_none-len mem p q e e' =
      omega (arith, append_elems-len mem p (elems mem q), no_elems mem q e', e)

  -- There is no path to what no leaf has for its hash.
  construct_path-none :
      (t : MerkleNode) (mem : Arrays) (p : MerkleProof) (node : Bytes)
      → All (λ x. h x ≢ node) (leaves t)
      → IsHashed h t
      → (construct_path mem p t node).1.len ≡ 0
  unfolding construct_path empty_proof
  construct_path-none (leaf content root) mem p node (apart, done) hashed =
      rw (hashed, bytes_eq_ne (h content) node apart) refl
  construct_path-none (branch root l r) mem p node apart hashed =
      let l_elem : ProofElem = record {
        is_left = true;
        node_root = root_of l;
        sibling_root = root_of r;
      } in
      let r_elem : ProofElem = record {
        is_left = false;
        node_root = root_of r;
        sibling_root = root_of l;
      } in
      let (mem1, p1) = append_elems mem p (l_elem ∷ []) in
      let (mem2, lpath) = construct_path mem1 p1 l node in
      let (mem3, p3) = append_elems mem2 p (r_elem ∷ []) in
      let (mem4, rpath) = construct_path mem3 p3 r node in
      let (left, right) = All-split (λ x. h x ≢ node) (leaves l) (leaves r) apart in
      append_none-len mem4 lpath rpath (construct_path-none l mem1 p1 node left hashed.1)
        (construct_path-none r mem3 p3 node right hashed.2)

  -- When no leaf of a tree has the hash of some data, `VerifyNode` answers whether that hash is the
  -- tree's root, whatever room `append` leaves in its arrays.
  pub verify_node-none :
      (t : MerkleNode) (content : Bytes)
      → IsHashed h t
      → All (λ x. h x ≢ h content) (leaves t)
      → content ≢ []
      → verify_node (some t) content ≡ ok (bytes_eq (h content) (root_of t))
  unfolding verify_node verify_leaf merkle_proof validate
  verify_node-none t [] hashed apart filled = absurd (filled refl)
  verify_node-none t (c ∷ cs) hashed apart filled =
      let (mem, p) = empty_proof [] in
      let (mem1, p1) = construct_path mem p t (h (c ∷ cs)) in
      let none_found : elems mem1 p1 ≡ [] =
        no_length (elems mem1 p1)
          (no_elems mem1 p1 (construct_path-none t mem p (h (c ∷ cs)) apart hashed)) in
      let some_data : (suc (length cs) == 0) ≡ false = ground arith in
      rw (none_found, some_data) refl
