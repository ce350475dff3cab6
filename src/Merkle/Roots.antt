-- ===== src/Merkle/Roots.antt =====
-- What the root of a tree says of its leaves.
use raft_project.Common.{
  ℕ, suc, ◌<◌, ◌≡◌, ◌≢◌, refl, sym, ap, ◌∙◌, ◌⊎◌, inl, inr, List, [], ◌∷◌, ◌++◌, arith,
}
use raft_project.Common.Tests.{Bool-cases}
use raft_project.Common.Lists.{
  Bytes, bytes_eq, bytes_eq_iff, bytes_eq-false→ne, length, take, drop, take_at, drop_at, All,
  length-append,
}
use raft_project.Common.Outcome.{◌>>=◌}
use raft_project.Merkle.{
  MerkleNode, leaf, branch, root_of, mk_branch, first_leaf, mk_merkle_tree_root, power_of_two, new,
  get_mt_hash,
}
use raft_project.Merkle.Build.{
  leaves, IsFilled, IsHashed, Shape, tip, fork, HasShape, shape, new-shape, mk_leaf-filled,
}

-- Two different byte strings with one hash.
abbrev pub Collision : (Bytes → Bytes) → Type 0
Collision h = (a b : Bytes) × (a ≢ b) × (h a ≡ h b)

hash_cases : (h : Bytes → Bytes) (a b : Bytes) → h a ≡ h b → (a ≡ b) ⊎ Collision h
hash_cases h a b e = elim (Bool-cases (bytes_eq a b)) [
  | inl same ↦ inl ((bytes_eq_iff a b).0 same)
  | inr differ ↦ inr (a, b, bytes_eq-false→ne a b differ, e)
]

module _ (h : Bytes → Bytes) (k : ℕ) (sized : (x : Bytes) → length (h x) ≡ k) where
  length-root : (t : MerkleNode) → IsHashed h t → length (root_of t) ≡ k
  length-root (leaf content root) e = rw e (sized content)
  length-root (branch root left right) e = rw e.0 (sized (root_of left ++ root_of right))

  roots :
      (t u : MerkleNode) (s : Shape)
      → HasShape t s
      → HasShape u s
      → IsHashed h t
      → IsHashed h u
      → root_of t ≡ root_of u
      → (leaves t ≡ leaves u) ⊎ Collision h
  roots (leaf x root) (leaf y root') tip ft fu ht hu e = elim (hash_cases h x y (sym ht ∙ e ∙ hu)) [
    | inl same ↦ inl (rw same)
    | inr found ↦ inr found
  ]
  roots (leaf x root) (branch root' l' r') tip ft fu ht hu e = absurd fu
  roots (leaf x root) u (fork s s') ft fu ht hu e = absurd ft
  roots (branch root l r) u tip ft fu ht hu e = absurd ft
  roots (branch root l r) (leaf x root') (fork s s') ft fu ht hu e = absurd fu
  roots (branch root l r) (branch root' l' r') (fork s s') ft fu ht hu e =
      elim (hash_cases h (root_of l ++ root_of r) (root_of l' ++ root_of r')
        (sym ht.0 ∙ e ∙ hu.0)) [
          | inr found ↦ inr found
          | inl same ↦
              let size = length-root l ht.1 in
              let size' = length-root l' hu.1 in
              let left : root_of l ≡ root_of l' =
                sym (take_at (root_of l) (root_of r) size)
                ∙ ap (take k) same
                ∙ take_at (root_of l') (root_of r') size' in
              let right : root_of r ≡ root_of r' =
                sym (drop_at (root_of l) (root_of r) size)
                ∙ ap (drop k) same
                ∙ drop_at (root_of l') (root_of r') size' in
              elim (roots l l' s ft.0 fu.0 ht.1 hu.1 left) [
                | inr found ↦ inr found
                | inl lefts ↦ elim (roots r r' s' ft.1 fu.1 ht.2 hu.2 right) [
                  | inr found ↦ inr found
                  | inl rights ↦ inl (rw (lefts, rights))
                ]
              ]
        ]

  -- If two lists of equally many byte strings, none of them empty, have trees with one hash, the
  -- lists are the same, or two different byte strings with the same hash are found. The hash has a
  -- fixed size.
  pub root_binds :
      (x y : Bytes) (xs ys : List Bytes)
      → All IsFilled (x ∷ xs)
      → All IsFilled (y ∷ ys)
      → length xs ≡ length ys
      → (new h (x ∷ xs) >>= get_mt_hash h) ≡ (new h (y ∷ ys) >>= get_mt_hash h)
      → (x ∷ xs ≡ y ∷ ys) ⊎ Collision h
  root_binds x y xs ys fx fy size e =
      let (t, t_root, t_leaves, t_hashed, t_shape) = new-shape h x xs fx in
      let (u, u_root, u_leaves, u_hashed, u_shape) = new-shape h y ys fy in
      let same : root_of t ≡ root_of u = cc (t_root, u_root, e) in
      elim (roots t u (shape (suc (length xs)) (suc (length xs))) t_shape (rw size u_shape) t_hashed
        u_hashed same) [
          | inl listed ↦ inl (sym t_leaves ∙ listed ∙ u_leaves)
          | inr found ↦ inr found
        ]

  -- A leaf is hashed as a branch is, so the tree of any two byte strings has the same hash as the
  -- tree of one: of their two hashes, put together.
  pub branch_passes_for_leaf :
      (a b : Bytes)
      → a ≢ []
      → b ≢ []
      → 0 < k
      → (new h (a ∷ b ∷ []) >>= get_mt_hash h) ≡ (new h ((h a ++ h b) ∷ []) >>= get_mt_hash h)
  unfolding new mk_merkle_tree_root first_leaf mk_branch get_mt_hash power_of_two
  branch_passes_for_leaf a b fa fb some_size =
      let filled : (h a ++ h b) ≢ [] =
        λ e. omega (arith, sized a, length-append (h a) (h b), ap length e) in
      rw (mk_leaf-filled h a fa, mk_leaf-filled h b fb, mk_leaf-filled h (h a ++ h b) filled) refl
