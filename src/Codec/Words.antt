-- ===== src/Codec/Words.antt =====
-- Round trips and bounds of the integer codecs, at every width at once.
use raft_project.Common.{ℕ, zero, suc, ◌+◌, ◌*◌, ◌/◌, ◌%◌, ◌^◌, ◌<◌, ◌≡◌, refl, ap, [], ◌∷◌, arith}
use native.Mathlib.Nat.{pow-suc}
use raft_project.Common.Lists.{Bytes, length, All, IsByte}
use raft_project.Common.Outcome.{ok}
use raft_project.Codec.{
  le_encode, le_decode, decode_at, e8func, d8func, e16func, d16func, e32func, d32func, e64func,
  d64func, eb16func, db16func, eb32func, db32func, eb64func, db64func,
}

pub length-le_encode : (k n : ℕ) → length (le_encode k n) ≡ k
unfolding le_encode
length-le_encode zero n = refl
length-le_encode (suc k) n = ap suc (length-le_encode k (n / 256))

pub le_encode-IsByte : (k n : ℕ) → All IsByte (le_encode k n)
unfolding le_encode
le_encode-IsByte zero n = tt
le_encode-IsByte (suc k) n = (omega arith, le_encode-IsByte k (n / 256))

pub le_decode_bound : (bs : Bytes) → All IsByte bs → le_decode bs < 256 ^ length bs
unfolding le_decode
le_decode_bound [] h = omega arith
le_decode_bound (b ∷ bs) h = omega (arith, pow-suc 256 (length bs), le_decode_bound bs h.1, h.0)

pub le_encode-le_decode : (bs : Bytes) → All IsByte bs → le_encode (length bs) (le_decode bs) ≡ bs
unfolding le_encode le_decode
le_encode-le_decode [] h = refl
le_encode-le_decode (b ∷ bs) h =
    let m : ℕ = le_decode bs in
    let low : (b + 256 * m) % 256 ≡ b = omega (arith, h.0) in
    let high : (b + 256 * m) / 256 ≡ m = omega (arith, h.0) in
    rw (low, high, le_encode-le_decode bs h.1)

-- Writing an integer at 1, 2, 4 or 8 bytes in either byte order and reading it back never fails,
-- and gives the integer cut to that many bits; a 16, 32 or 64 bit value is given back unchanged.
pub decode-encode_words :
    (n : ℕ)
    → (d8func (e8func n) ≡ ok (n % 2 ^ 8))
      × (d16func (e16func n) ≡ ok (n % 2 ^ 16))
      × (db16func (eb16func n) ≡ ok (n % 2 ^ 16))
      × (d32func (e32func n) ≡ ok (n % 2 ^ 32))
      × (db32func (eb32func n) ≡ ok (n % 2 ^ 32))
      × (d64func (e64func n) ≡ ok (n % 2 ^ 64))
      × (db64func (eb64func n) ≡ ok (n % 2 ^ 64))
unfolding e8func d8func e16func d16func e32func d32func e64func d64func eb16func db16func eb32func
    db32func eb64func db64func
decode-encode_words n = (
  ap ok (omega arith),
  ap ok (omega arith),
  ap ok (omega arith),
  ap ok (omega arith),
  ap ok (omega arith),
  ap ok (omega arith),
  ap ok (omega arith),
)

decode_at-eq-ok :
    (k : ℕ) (f : Bytes → ℕ) (bs : Bytes) {n : ℕ}
    → decode_at k f bs ≡ ok n
    → (length bs ≡ k) × (f bs ≡ n)
unfolding decode_at
decode_at-eq-ok k f bs h = ground arith

le_inverse :
    (k : ℕ) (bs : Bytes) {n : ℕ}
    → All IsByte bs
    → decode_at k le_decode bs ≡ ok n
    → (le_encode k n ≡ bs) × (n < 256 ^ k)
le_inverse k bs {n} valid h =
    let (len, value) = decode_at-eq-ok k le_decode bs h in
    (
      rw (← len, ← value) (le_encode-le_decode bs valid),
      rw (← len, ← value) (le_decode_bound bs valid),
    )

-- A byte string that is read as a 64 bit integer is exactly what that integer is written as, and the
-- integer is below 2^64; so no two stored values stand for one integer.
pub encode-decode_u64 :
    (bs : Bytes) {n : ℕ} → All IsByte bs → d64func bs ≡ ok n → (e64func n ≡ bs) × (n < 2 ^ 64)
unfolding d64func e64func
encode-decode_u64 bs valid h = le_inverse 8 bs valid h

pub le_decode-le_encode8 : (n : ℕ) → le_decode (le_encode 8 n) ≡ n % 2 ^ 64
unfolding le_encode le_decode
le_decode-le_encode8 n = omega arith

pub le_decode-le_encode4 : (n : ℕ) → le_decode (le_encode 4 n) ≡ n % 2 ^ 32
unfolding le_encode le_decode
le_decode-le_encode4 n = omega arith
