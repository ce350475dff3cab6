-- ===== src/Store/Scan/Fields.antt =====
-- `mkeys` gives the fields of a map.
use raft_project.Common.{
  ◌+◌, ◌^◌, ◌<◌, ◌≡◌, ◌↔◌, refl, sym, ap, ◌∙◌, inl, inr, List, [], ◌∷◌, ◌++◌, append_assoc,
}
use raft_project.Common.Lists.{Bytes, length}
use raft_project.Common.Outcome.{Outcome, ok}
use raft_project.Store.{Badger, Fetch, found, e_map_key, d_map_key, mget}
use raft_project.Store.Keys.{d_map_key-e_map_key}
use raft_project.Store.Scan.{In, HasPrefix, Iterator, each, mkeys}

-- The prefix of a map and a field make the field's key.
map_prefix : (m t : Bytes) → e_map_key m [] ++ t ≡ e_map_key m t
unfolding e_map_key
map_prefix m t = simp (append_assoc)

module _ (m : Bytes) (short : length m + 5 < 2 ^ 32) where
  same_field : (j k : Bytes) → e_map_key m j ≡ e_map_key m k → j ≡ k
  same_field j k e =
      let both : ◌≡◌ {A = Outcome Fetch Bytes} (ok j) (ok k) =
        sym (d_map_key-e_map_key m j short) ∙ ap d_map_key e ∙ d_map_key-e_map_key m k short in
      cc both

  fields :
      (keys : List Bytes)
      → ((key : Bytes) → In key keys → HasPrefix (e_map_key m []) key)
      → (ks : List Bytes) × (each d_map_key keys ≡ ok ks)
        × ((k : Bytes) → In k ks ↔ In (e_map_key m k) keys)
  unfolding each
  fields [] prefixed = ([], refl, λ k. (λ h. h, λ h. h))
  fields (key ∷ keys) prefixed =
      let (t, e) = prefixed key (inl refl) in
      let is : key ≡ e_map_key m t = e ∙ map_prefix m t in
      let (ks, all, same) = fields keys (λ k i. prefixed k (inr i)) in
      (
        t ∷ ks,
        rw (is, d_map_key-e_map_key m t short, all) refl,
        λ k. (
          λ i. elim i [
            | inl e' ↦ inl (is ∙ ap (e_map_key m) e')
            | inr later ↦ inr ((same k).0 later)
          ],
          λ i. elim i [
            | inl e' ↦ inl (same_field t k (sym is ∙ e'))
            | inr later ↦ inr ((same k).1 later)
          ],
        ),
      )

module _ (b : Badger) (it : Iterator b) where
  -- `mkeys` gives the fields of a map for which the transaction has a value, and no others. The map's
  -- name is shorter than 2^32 - 5 bytes.
  pub mkeys_lem :
      (s : b.Txn) (m : Bytes)
      → length m + 5 < 2 ^ 32
      → (ks : List Bytes) × (mkeys b it s m ≡ ok ks)
        × ((k : Bytes) → In k ks ↔ ((v : Bytes) × (mget b s m k ≡ found v)))
  unfolding mkeys mget
  mkeys_lem s m short =
      let p = e_map_key m [] in
      let (ks, all, same) =
        fields m short (it.keys s p p) (λ key i. (it.keys-found s p p key i).0) in
      (
        ks,
        all,
        λ k. (
          λ i. (it.keys-found s p p (e_map_key m k) ((same k).0 i)).1,
          λ (v, h).
              (same k).1 (rw (← map_prefix m k) (it.found-keys s p k v (rw (map_prefix m k) h))),
        ),
      )
