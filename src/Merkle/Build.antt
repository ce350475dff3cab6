-- ===== src/Merkle/Build.antt =====
-- The tree of a list: it exists, and its leaves are the list.
use raft_project.Common.{
  ℕ, zero, suc, ◌-◌, ◌≤◌, ◌<◌, ◌≡◌, ◌≢◌, refl, false, some, List, [], ◌∷◌, ◌++◌, arith,
}
use raft_project.Common.Tests.{◌==◌, if◌then◌else◌}
use raft_project.Common.Lists.{
  Bytes, length, take, drop, All, All-take, length-take, length-drop, take-append-drop,
}
use raft_project.Common.Outcome.{ok, ◌>>=◌}
use raft_project.Merkle.{
  MerkleNode, leaf, branch, root_of, power_of_two, mk_leaf, mk_branch, first_leaf,
  mk_merkle_tree_root, new, get_mt_hash,
}
use raft_project.Merkle.PowerOfTwo.{power_of_two_bounds}

abbrev pub leaves : MerkleNode → List Bytes
leaves (leaf content root) = content ∷ []
leaves (branch root left right) = leaves left ++ leaves right

abbrev pub IsFilled : Bytes → Type 0
IsFilled x = x ≢ []

-- Every root is the hash of what is below it.
abbrev pub IsHashed : (Bytes → Bytes) → MerkleNode → Type 0
IsHashed h (leaf content root) = root ≡ h content
IsHashed h (branch root left right) =
    (root ≡ h (root_of left ++ root_of right)) × IsHashed h left × IsHashed h right

-- The form of a tree, which depends on the number of its leaves alone.
pub data Shape : Type 0 where
  tip : Shape
  fork : Shape → Shape → Shape

pub shape : ℕ → ℕ → Shape
shape zero n = tip
shape (suc fuel) n =
    let forked = fork (shape fuel (power_of_two n)) (shape fuel (n - power_of_two n)) in
    if n == 1 then tip else forked

abbrev pub HasShape : MerkleNode → Shape → Type 0
HasShape (leaf content root) tip = Unit
HasShape (leaf content root) (fork l r) = ⊥
HasShape (branch root left right) tip = ⊥
HasShape (branch root left right) (fork l r) = HasShape left l × HasShape right r

pub All-drop {ℓ κ} :
    {A : Type ℓ} (P : A → Type κ) (n : ℕ) (xs : List A) → All P xs → All P (drop n xs)
All-drop P zero xs a = a
All-drop P (suc n) [] a = tt
All-drop P (suc n) (x ∷ xs) a = All-drop P n xs a.1

pub mk_leaf-filled :
    (h : Bytes → Bytes) (x : Bytes) → IsFilled x → mk_leaf h x ≡ some (leaf x (h x))
unfolding mk_leaf
mk_leaf-filled h [] f = absurd (f refl)
mk_leaf-filled h (c ∷ x) f = ground arith

module _ (h : Bytes → Bytes) where
  split_step :
      (fuel n : ℕ) (items : List Bytes) (left right : MerkleNode)
      → 1 < n
      → mk_merkle_tree_root h fuel (power_of_two n) (take (power_of_two n) items) ≡ ok (some left)
      → mk_merkle_tree_root h fuel (n - power_of_two n) (drop (power_of_two n) items)
        ≡ ok (some right)
      → mk_merkle_tree_root h (suc fuel) n items
        ≡ ok (some (branch (h (root_of left ++ root_of right)) left right))
  unfolding mk_merkle_tree_root mk_branch
  split_step fuel n items left right big on_left on_right =
      let more : (n == 1) ≡ false = ground arith in rw (more, on_left, on_right) refl

  build :
      (fuel n : ℕ) (items : List Bytes)
      → All IsFilled items
      → length items ≡ n
      → 0 < n
      → n ≤ fuel
      → (t : MerkleNode) × (mk_merkle_tree_root h fuel n items ≡ ok (some t))
        × (leaves t ≡ items)
        × IsHashed h t
        × HasShape t (shape fuel n)
  unfolding shape
  build zero n items f e p q = absurd (omega arith)
  build (suc fuel) n [] f e p q = absurd (omega arith)
  build (suc fuel) n (x ∷ []) f e p q = (
    leaf x (h x),
    rw (← e) (unfold mk_merkle_tree_root first_leaf in rw (mk_leaf-filled h x f.0) refl),
    refl,
    refl,
    rw (← e) tt,
  )
  build (suc fuel) n (x ∷ y ∷ rest) f e p q =
      let items : List Bytes = x ∷ y ∷ rest in
      let i : ℕ = power_of_two n in
      let (above, below) = power_of_two_bounds n (omega arith) in
      let (left, on_left, left_leaves, left_hashed, left_shape) =
        build fuel i (take i items) (All-take IsFilled i items f)
          (length-take i items (omega arith)) above (omega arith) in
      let (right, on_right, right_leaves, right_hashed, right_shape) =
        build fuel (n - i) (drop i items) (All-drop IsFilled i items f)
          (omega (arith, length-drop i items)) (omega arith) (omega arith) in
      (
        branch (h (root_of left ++ root_of right)) left right,
        split_step fuel n items left right (omega arith) on_left on_right,
        rw (left_leaves, right_leaves) (take-append-drop i items),
        (refl, left_hashed, right_hashed),
        (let more : (n == 1) ≡ false = ground arith in rw more (left_shape, right_shape)),
      )

  pub new-shape :
      (x : Bytes) (xs : List Bytes)
      → All IsFilled (x ∷ xs)
      → (t : MerkleNode) × ((new h (x ∷ xs) >>= get_mt_hash h) ≡ ok (root_of t))
        × (leaves t ≡ x ∷ xs)
        × IsHashed h t
        × HasShape t (shape (length (x ∷ xs)) (length (x ∷ xs)))
  unfolding new get_mt_hash
  new-shape x xs f =
      let (t, built, listed, hashed, formed) =
        build (length (x ∷ xs)) (length (x ∷ xs)) (x ∷ xs) f refl (omega arith) (omega arith) in
      (t, rw built refl, listed, hashed, formed)

  -- A list of byte strings, at least one and none of them empty, has a tree, whose leaves are the
  -- list in its order and whose every root is the hash of what is below it; the tree's hash is the
  -- root of the whole.
  pub new-leaves :
      (x : Bytes) (xs : List Bytes)
      → All IsFilled (x ∷ xs)
      → (t : MerkleNode) × (new h (x ∷ xs) ≡ ok (some (some t)))
        × (leaves t ≡ x ∷ xs)
        × IsHashed h t
        × (get_mt_hash h (some (some t)) ≡ ok (root_of t))
  unfolding new get_mt_hash
  new-leaves x xs f =
      let (t, built, listed, hashed, _) =
        build (length (x ∷ xs)) (length (x ∷ xs)) (x ∷ xs) f refl (omega arith) (omega arith) in
      (t, rw built refl, listed, hashed, refl)
