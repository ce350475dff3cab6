-- ===== src/Contract/Script/RoundTrip.antt =====
-- What `Read` makes of what `Show` wrote.
use raft_project.Common.{
  ℕ, zero, suc, ◌+◌, ◌≡◌, ◌<◌, ◌≤◌, ◌^◌, ◌⊎◌, List, [], ◌∷◌, ◌++◌, append_assoc, arith, refl, ◌%◌,
  inl, inr,
}
use raft_project.Common.Tests.{ltb, if◌then◌else◌, Bool-cases, le→ltb-false}
use raft_project.Common.Lists.{
  Bytes, length, drop, length-append, take-all, drop-all, take_at, drop_at, All,
}
use raft_project.Common.Outcome.{ok, ◌>>=◌}
use raft_project.Codec.{le_decode, e32func, e64func, eslice, dslice}
use raft_project.Codec.Words.{le_decode-le_encode4, le_decode-le_encode8}
use raft_project.Codec.Slices.{length-eslice, dslice-eslice}
use raft_project.Contract.Script.{
  Value, num, text, absent, ScriptArgument, Script, amount, percentage, order, address, token_id,
  show_argument, show_value, read_argument, show_arguments, read_arguments, show, read,
  zero_arguments,
}

-- A value of the kind that its type number announces, in range.
abbrev pub Announced : ℕ → Value → Type 0
Announced typ (num n) = ((typ ≡ amount) ⊎ (typ ≡ percentage)) × (n < 2 ^ 64)
Announced typ (text s) = (typ ≡ order) ⊎ ((typ ≡ address) ⊎ (typ ≡ token_id))
Announced typ absent = ⊥

abbrev pub HasType : ScriptArgument → Type 0
HasType a = Announced a.typ a.value

length-e32func : (n : ℕ) → length (e32func n) ≡ 4
unfolding e32func
length-e32func n = omega arith

le_decode-e32func : (n : ℕ) → n < 2 ^ 32 → le_decode (e32func n) ≡ n
unfolding e32func
le_decode-e32func n h = omega (arith, le_decode-le_encode4 n)

read_num :
    (a : ScriptArgument) (typ n : ℕ) (rest : Bytes)
    → Announced typ (num n)
    → read_argument a (e32func typ ++ (e64func n ++ rest))
      ≡ ok (record { typ = typ; value = num n }, rest)
unfolding read_argument e32func e64func
read_num a typ n rest h = ground (arith, le_decode-le_encode4 typ, le_decode-le_encode8 n)

read_text :
    (a : ScriptArgument) (typ : ℕ) (s rest : Bytes)
    → Announced typ (text s)
    → length s + length rest < 2 ^ 32
    → read_argument a (e32func typ ++ (eslice s ++ rest))
      ≡ ok (record { typ = typ; value = text s }, rest)
unfolding read_argument e32func
read_text a typ s rest h fits = ground (arith, le_decode-le_encode4 typ, dslice-eslice s rest fits)

read_typed :
    (a : ScriptArgument) (typ : ℕ) (v : Value) (rest : Bytes)
    → Announced typ v
    → length (e32func typ ++ show_value v) + length rest < 2 ^ 32
    → read_argument a ((e32func typ ++ show_value v) ++ rest)
      ≡ ok (record { typ = typ; value = v }, rest)
unfolding show_value
read_typed a typ (num n) rest h fits = rw append_assoc (read_num a typ n rest h)
read_typed a typ (text s) rest h fits = rw append_assoc (
    read_text a typ s rest h
      (omega (arith, length-append (e32func typ) (eslice s), length-eslice s)))
read_typed a typ absent rest h fits = absurd h

read-show_argument :
    (a r : ScriptArgument) (rest : Bytes)
    → HasType r
    → length (show_argument r) + length rest < 2 ^ 32
    → read_argument a (show_argument r ++ rest) ≡ ok (r, rest)
unfolding show_argument
read-show_argument a r rest h fits = read_typed a r.typ r.value rest h fits

le-length-show_argument : (r : ScriptArgument) → 4 ≤ length (show_argument r)
unfolding show_argument
le-length-show_argument r =
    omega (arith, length-append (e32func r.typ) (show_value r.value), length-e32func r.typ)

le-length-show_arguments : (args : List ScriptArgument) → length args ≤ length (show_arguments args)
unfolding show_arguments
le-length-show_arguments [] = omega arith
le-length-show_arguments (a ∷ args) = omega (
  arith,
  length-append (show_argument a) (show_arguments args),
  le-length-show_argument a,
  le-length-show_arguments args,
)

read-show_arguments :
    (args room : List ScriptArgument) (rest : Bytes)
    → All HasType args
    → length args ≤ length room
    → length (show_arguments args) + length rest < 2 ^ 32
    → read_arguments (length args) room (show_arguments args ++ rest)
      ≡ ok (args ++ drop (length args) room, rest)
unfolding show_arguments read_arguments
read-show_arguments [] room rest h enough fits = refl
read-show_arguments (a ∷ args) [] rest h enough fits = absurd (omega arith)
read-show_arguments (a ∷ args) (r ∷ room) rest h enough fits =
    let split = length-append (show_argument a) (show_arguments args) in
    let more = length-append (show_arguments args) rest in
    rw (
      append_assoc,
      read-show_argument r a (show_arguments args ++ rest) h.0 (omega (arith, split, more)),
      read-show_arguments args room rest h.1 (omega arith) (omega (arith, split)),
    )

length-zero_arguments : (n : ℕ) → length (zero_arguments n) ≡ n
length-zero_arguments zero = refl
length-zero_arguments (suc n) = omega (arith, length-zero_arguments n)

-- The entries that the loop of `Read` runs over, for a receiver and a count.
abbrev room_for : ℕ → List ScriptArgument → List ScriptArgument
room_for n old = if ltb (length old % 2 ^ 32) n then zero_arguments n else old

room_for_lem :
    (n : ℕ) (old : List ScriptArgument)
    → length old < 2 ^ 32
    → (n ≤ length (room_for n old)) × (drop n (room_for n old) ≡ drop n old)
room_for_lem n old h = elim (Bool-cases (ltb (length old % 2 ^ 32) n)) [
  | inl short ↦
      let len = length-zero_arguments n in
      let below : length old ≤ n = ground arith in
      rw short (
        omega (arith, len),
        rw (drop-all n (zero_arguments n) (omega (arith, len)), drop-all n old below),
      )
  | inr enough ↦ rw enough (ground arith, refl)
]

show_lem :
    (s : Script)
    → length s.args < 2 ^ 32
    → show s ≡ e32func (length s.args) ++ (eslice s.name ++ show_arguments s.args)
unfolding show
show_lem s h =
    let small : length s.args % 2 ^ 32 ≡ length s.args = omega arith in
    rw (small, take-all (length s.args) s.args (omega arith))

-- `Read` behind the count that it finds.
read_counted :
    (r : Script) (n : ℕ) (tail : Bytes)
    → n < 2 ^ 32
    → read r (e32func n ++ tail) ≡ (
        dslice tail >>= λ named. read_arguments n (room_for n r.args) named.1 >>= λ filled.
        ok (record { name = named.0; args = filled.0 }, filled.1))
unfolding read
read_counted r n tail h =
    let len = length-e32func n in
    rw (
      le→ltb-false (length (e32func n ++ tail)) 4
          (omega (arith, length-append (e32func n) tail, len)),
      take_at (e32func n) tail len,
      drop_at (e32func n) tail len,
      le_decode-e32func n h,
    )

-- A script whose arguments hold what their types announce is read back as it was shown, with what
-- follows it left over, whatever receiver it is read into; only arguments of the receiver beyond the
-- script's own stay behind it. The text, the script's and the receiver's arguments are fewer than
-- 2^32.
pub read-show :
    (s r : Script) (rest : Bytes)
    → All HasType s.args
    → length s.args < 2 ^ 32
    → length r.args < 2 ^ 32
    → length (show s) + length rest < 2 ^ 32
    → read r (show s ++ rest)
      ≡ ok (record { name = s.name; args = s.args ++ drop (length s.args) r.args }, rest)
read-show s r rest typed count few fits =
    let n = length s.args in
    let shown = show_lem s count in
    let room = room_for_lem n r.args few in
    let outer = length-append (e32func n) (eslice s.name ++ show_arguments s.args) in
    let inner = length-append (eslice s.name) (show_arguments s.args) in
    let tail = length-append (show_arguments s.args) rest in
    let size : length (show s) ≡ 8 + length s.name + length (show_arguments s.args) =
      rw shown (omega (arith, outer, inner, length-e32func n, length-eslice s.name)) in
    rw (
      shown,
      append_assoc,
      append_assoc,
      read_counted r n _ count,
      dslice-eslice s.name (show_arguments s.args ++ rest) (omega (arith, tail, size)),
      read-show_arguments s.args (room_for n r.args) rest typed room.0 (omega (arith, size)),
      room.1,
    )
