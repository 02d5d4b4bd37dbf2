-- ===== src/Tests/Toy.antt =====
-- A cryptography that is easy to compute and has the properties that the theorems rely on. It hides
-- nothing: a shared secret is a sum, and a ciphertext is the text.
use go_ratchet.Prelude.{
  ℕ, zero, suc, ◌+◌, ltb, ◌&&◌, ◌≡◌, refl, sym, ap, ◌∙◌, arith, Bool, true, none, some, [], ◌∷◌,
  Bytes, IsBytes, length, get_or, replicate, bytes_eq, fit,
}
use go_ratchet.Crypto.{Crypto, CryptoLaws}

abbrev head : Bytes → ℕ
head [] = 0
head (x ∷ xs) = x

abbrev tail : Bytes → Bytes
tail [] = []
tail (x ∷ xs) = xs

-- The sum of the first bytes of two slices, place by place.
abbrev add : ℕ → Bytes → Bytes → Bytes
add zero xs ys = []
add (suc n) xs ys = (head xs + head ys) ∷ add n (tail xs) (tail ys)

length-add : (n : ℕ) (xs ys : Bytes) → length (add n xs ys) ≡ n
length-add zero xs ys = refl
length-add (suc n) xs ys = ap suc (length-add n (tail xs) (tail ys))

add_comm : (n : ℕ) (xs ys : Bytes) → add n xs (add n ys []) ≡ add n ys (add n xs [])
add_comm zero xs ys = refl
add_comm (suc n) xs ys =
    let e : head xs + (head ys + 0) ≡ head ys + (head xs + 0) = omega arith in
    rw (e, add_comm n (tail xs) (tail ys))

abbrev pub toy : Crypto
toy = record {
  x25519 = λ k p. some (add 32 k p);
  basepoint = [];
  hmac_sha256 = λ k m. add 32 k (1 ∷ m);
  hkdf_sha256 = λ s salt info i. get_or s i 0 + get_or salt i 0 + i;
  cbc_encrypt = λ k v d. d;
  cbc_decrypt = λ k v d. d;
  mod_inverse = λ n m. none;
  ulid_set_time = λ now b. b;
  sha512 = λ b. replicate 64 0;
  ed25519_sign = λ k m. fit 64 m;
  ed25519_verify = λ p m s. bytes_eq (fit 64 m) s;
  seal_anonymous = λ text p s. some text;
  open_anonymous = λ box p k. some box;
}

some-inj : {x y : Bytes} → some x ≡ some y → x ≡ y
some-inj h = cc

toy_comm :
    (a b pa pb : Bytes)
    → toy.x25519 a toy.basepoint ≡ some pa
    → toy.x25519 b toy.basepoint ≡ some pb
    → toy.x25519 a pb ≡ toy.x25519 b pa
toy_comm a b pa pb h k =
    ap (λ p. some (add 32 a p)) (sym (some-inj k))
    ∙ ap some (add_comm 32 a b)
    ∙ ap (λ p. some (add 32 b p)) (some-inj h)

pub toy_laws : CryptoLaws toy
toy_laws = record {
  length-x25519 = λ k p s h. ap length (sym (some-inj h)) ∙ length-add 32 k p;
  x25519_comm = toy_comm;
  length-hmac_sha256 = λ k m. length-add 32 k (1 ∷ m);
  length-cbc_encrypt = λ k v d. refl;
  cbc_decrypt-cbc_encrypt = λ k v d hk hv hd. refl;
}

-- A test for bytes.
abbrev pub are_bytes : Bytes → Bool
are_bytes [] = true
are_bytes (x ∷ xs) = ltb x 256 && are_bytes xs

pub are_bytes-IsBytes : (src : Bytes) → are_bytes src ≡ true → IsBytes src
are_bytes-IsBytes [] h = tt
are_bytes-IsBytes (x ∷ xs) h =
    let first : ltb x 256 ≡ true = ground arith in
    let rest : are_bytes xs ≡ true = ground arith in (ground arith, are_bytes-IsBytes xs rest)
