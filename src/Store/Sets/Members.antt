-- ===== src/Store/Sets/Members.antt =====
-- What is in a set of until/store/bg/bg.go, and what score it has.
use raft_project.Common.{
  ℕ, ◌+◌, ◌%◌, ◌^◌, ◌<◌, ◌≡◌, refl, sym, ap, ◌∙◌, Bool, true, false, ◌&&◌, some, inl, inr, [], ◌∷◌,
  arith,
}
use raft_project.Common.Tests.{if◌then◌else◌, Bool-cases}
use raft_project.Common.Lists.{Bytes, bytes_eq, bytes_eq_iff, bytes_eq-false→ne, length}
use raft_project.Common.Outcome.{ok, and_then-some}
use raft_project.Codec.{e32func}
use raft_project.Codec.Words.{decode-encode_words}
use raft_project.Store.{Badger, Fetch, found, not_exist, e_map_key}
use raft_project.Store.Keys.{e_map_key_injective, tail}
use raft_project.Store.Sets.{
  e_set_key, e_zet_key, e_zet_score, member, sadd, sdel, selem, zadd, zscore,
}

-- Entries of a set whose name and value are short.
abbrev pub IsShort : Bytes → Bytes → Type 0
IsShort k v = length k + (length v + 1) < 2 ^ 32

set_key-map_key : (k v : Bytes) → e_map_key k v ≡ b'm' ∷ tail (e_set_key k v)
unfolding tail e_map_key e_set_key
set_key-map_key k v = refl

e_set_key_injective :
    (k v k' v' : Bytes)
    → IsShort k v
    → IsShort k' v'
    → e_set_key k v ≡ e_set_key k' v'
    → (k ≡ k') × (v ≡ v')
e_set_key_injective k v k' v' short short' e =
    e_map_key_injective k v k' v' short short'
      (set_key-map_key k v ∙ ap (λ x. b'm' ∷ tail x) e ∙ sym (set_key-map_key k' v'))

and-true : (c d : Bool) → c && d ≡ true → (c ≡ true) × (d ≡ true)
and-true true d h = (refl, h)
and-true false d h = cc

member-if :
    (c : Bool) (x y : Fetch) → member (if c then x else y) ≡ (if c then member x else member y)
member-if true x y = refl
member-if false x y = refl

zet_keys-ne : (k v : Bytes) (n : ℕ) → bytes_eq (e_zet_score k v n) (e_zet_key k v) ≡ false
unfolding e_zet_score e_zet_key bytes_eq
zet_keys-ne k v n = ground arith

set_key-eq :
    (k v k' v' : Bytes)
    → IsShort k v
    → IsShort k' v'
    → bytes_eq (e_set_key k v) (e_set_key k' v') ≡ bytes_eq k k' && bytes_eq v v'
set_key-eq k v k' v' short short' = elim (Bool-cases (bytes_eq (e_set_key k v) (e_set_key k' v'))) [
  | inl e ↦
      let (one, two) =
        e_set_key_injective k v k' v' short short'
          ((bytes_eq_iff (e_set_key k v) (e_set_key k' v')).0 e) in
      rw (e, (bytes_eq_iff k k').1 one, (bytes_eq_iff v v').1 two) refl
  | inr e ↦ elim (Bool-cases (bytes_eq k k' && bytes_eq v v')) [
    | inr differ ↦ rw (e, differ) refl
    | inl same ↦
        let one : k ≡ k' =
          (bytes_eq_iff k k').0 (and-true (bytes_eq k k') (bytes_eq v v') same).0 in
        let two : v ≡ v' =
          (bytes_eq_iff v v').0 (and-true (bytes_eq k k') (bytes_eq v v') same).1 in
        absurd (bytes_eq-false→ne (e_set_key k v) (e_set_key k' v') e (rw (one, two) refl))
  ]
]

module _ (b : Badger) where
  open b use {Txn, get, put, delete}

  -- After a value is added to a set the set has it, and after it is taken out the set has it not; every
  -- other value of that set, and every value of every other set, is a member if it was. A set's name and
  -- a value of it are shorter than 2^32 together.
  pub selem_lem :
      (s added taken : Txn) (k v k' v' : Bytes)
      → IsShort k v
      → IsShort k' v'
      → sadd b s k v ≡ some added
      → sdel b s k v ≡ some taken
      → (selem b added k' v'
          ≡ (if bytes_eq k k' && bytes_eq v v' then ok true else selem b s k' v'))
        × (selem b taken k' v'
            ≡ (if bytes_eq k k' && bytes_eq v v' then ok false else selem b s k' v'))
  unfolding sadd sdel selem
  selem_lem s added taken k v k' v' short short' p q = (
    rw (b.get-put s added (e_set_key k v) [] (e_set_key k' v') p, set_key-eq k v k' v' short short')
        (member-if (bytes_eq k k' && bytes_eq v v') (found []) (get s (e_set_key k' v'))),
    rw (b.get-delete s taken (e_set_key k v) (e_set_key k' v') q, set_key-eq k v k' v' short short')
        (member-if (bytes_eq k k' && bytes_eq v v') not_exist (get s (e_set_key k' v'))),
  )

  -- The score that is given to a value is its score.
  zscore-zadd :
      (s s' : Txn) (k v : Bytes) (score : ℕ)
      → zadd b s k score v ≡ some s'
      → zscore b s' k v ≡ ok (score % 2 ^ 32)
  unfolding zadd zscore
  zscore-zadd s s' k v score e =
      let (s1, p1, p2) =
        and_then-some (put s (e_zet_key k v) (e32func score))
          (λ s1. put s1 (e_zet_score k v score) []) s' e in
      let kept : get s' (e_zet_key k v) ≡ get s1 (e_zet_key k v) = ground (
        arith,
        b.get-put s1 s' (e_zet_score k v score) [] (e_zet_key k v) p2,
        zet_keys-ne k v score,
      ) in
      let written : get s1 (e_zet_key k v) ≡ found (e32func score) = ground (
        arith,
        b.get-put s s1 (e_zet_key k v) (e32func score) (e_zet_key k v) p1,
        bytes_eq_iff (e_zet_key k v) (e_zet_key k v),
      ) in
      rw (kept, written, (decode-encode_words score).3) refl
