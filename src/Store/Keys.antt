-- ===== src/Store/Keys.antt =====
-- The keys of map entries.
use raft_project.Common.{
  ℕ, ◌+◌, ◌%◌, ◌^◌, ◌<◌, ◌≡◌, ap, sym, ◌∙◌, [], ◌∷◌, ◌++◌, append_assoc, arith,
}
use raft_project.Common.Tests.{le→ltb-false}
use raft_project.Common.Lists.{Bytes, length, take, take_at, drop_at, length-append}
use raft_project.Common.Outcome.{Outcome, ok}
use raft_project.Codec.{e32func, le_decode, eslice, dslice, LengthError}
use raft_project.Codec.Slices.{dslice-eslice}
use raft_project.Codec.Words.{le_decode-le_encode4}
use raft_project.Store.{e_map_key, d_map_key}

map_key_lem : (m k : Bytes) → e_map_key m k ≡ b'm' ∷ (eslice m ++ b'+' ∷ k)
unfolding e_map_key eslice
map_key_lem m k = rw append_assoc

unfoldable pub tail : Bytes → Bytes
tail [] = []
tail (c ∷ cs) = cs

ok_pair :
    {a b c d : Bytes}
    → ◌≡◌ {A = Outcome LengthError (Bytes × Bytes)} (ok (a, b)) (ok (c, d))
    → (a ≡ c) × (b ≡ d)
ok_pair h = (cc, cc)

-- Different entries, of one map or of two, have different keys, as long as names and keys are
-- shorter than 2^32 together.
pub e_map_key_injective :
    (m k m' k' : Bytes)
    → length m + (length k + 1) < 2 ^ 32
    → length m' + (length k' + 1) < 2 ^ 32
    → e_map_key m k ≡ e_map_key m' k'
    → (m ≡ m') × (k ≡ k')
unfolding tail
e_map_key_injective m k m' k' small small' e =
    let body : eslice m ++ b'+' ∷ k ≡ eslice m' ++ b'+' ∷ k' =
      ap tail (sym (map_key_lem m k) ∙ e ∙ map_key_lem m' k') in
    let parts = ok_pair (
      sym (dslice-eslice m (b'+' ∷ k) (omega arith))
      ∙ ap dslice body
      ∙ dslice-eslice m' (b'+' ∷ k') (omega arith)) in
    (parts.0, ap tail parts.1)

le_decode-e32func : (n : ℕ) → n < 2 ^ 32 → le_decode (e32func n) ≡ n
unfolding e32func
le_decode-e32func n h = omega (arith, le_decode-le_encode4 n)

length-e32func : (n : ℕ) → length (e32func n) ≡ 4
unfolding e32func
length-e32func n = omega arith

-- The entry's own key is read back from the key that it is stored under, if the map's name has at
-- most 2^32 - 6 bytes.
pub d_map_key-e_map_key : (m k : Bytes) → length m + 5 < 2 ^ 32 → d_map_key (e_map_key m k) ≡ ok k
unfolding d_map_key e_map_key
d_map_key-e_map_key m k h =
    let n : ℕ = length m in
    let head : Bytes = e32func n in
    let small : n % 2 ^ 32 ≡ n = omega arith in
    let whole : Bytes = m ++ b'+' ∷ k in
    let value : le_decode (take 4 (head ++ whole)) ≡ n =
      rw (take_at head whole (length-e32func n)) (le_decode-e32func n (omega arith)) in
    let front : Bytes = head ++ (m ++ b'+' ∷ []) in
    let split : head ++ whole ≡ front ++ k = rw (append_assoc, append_assoc) in
    let front_size : length front ≡ 5 + n =
      omega (
        arith,
        length-append head (m ++ b'+' ∷ []),
        length-append m (b'+' ∷ []),
        length-e32func n,
      ) in
    let size : length (head ++ whole) ≡ 5 + n + length k =
      rw split (omega (arith, length-append front k, front_size)) in
    let wide : (5 + n) % 2 ^ 32 ≡ 5 + n = omega arith in
    rw
      (
        small,
        value,
        wide,
        le→ltb-false (length (head ++ whole)) 4 (omega (arith, size)),
        le→ltb-false (length (head ++ whole)) (5 + n) (omega (arith, size)),
      )
      (rw (split, drop_at front k front_size))
