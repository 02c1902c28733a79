-- ===== src/Core/Blob/Layout.antt =====
-- Blobs survive the way to their bytes and back, and so do bytes that are read as a blob.
use ferusa.Base.{
  subst, ℕ, zero, suc, ◌+◌, ◌≤◌, ◌≡◌, refl, ap, sym, ◌∙◌, true, [], ◌∷◌, ◌++◌, Text, starts_with,
  ltb, length, take, drop, ok, arith, length-append, length-take, length-drop, take-append,
  drop-append, take-append-drop, Bool-cases, inl, inr,
}
use ferusa.Core.Blob.{EncryptedBlob, vault_blob_magic_v2, to_bytes, from_bytes, slices}

-- The array types of the source, and a tag at the end of the ciphertext.
pub record IsBlob (b : EncryptedBlob) : Type 0 where
  pub salt_16 : length b.salt ≡ 16
  pub nonce_24 : length b.nonce ≡ 24
  pub tagged : 16 ≤ length b.ciphertext

take_exactly : (n : ℕ) (s t : Text) → length s ≡ n → take n (s ++ t) ≡ s
take_exactly n s t h = ap (λ m. take m (s ++ t)) (sym h) ∙ take-append s t

drop_exactly : (n : ℕ) (s t : Text) → length s ≡ n → drop n (s ++ t) ≡ t
drop_exactly n s t h = ap (λ m. drop m (s ++ t)) (sym h) ∙ drop-append s t

drop_empty : (n : ℕ) → ◌≡◌ {A = Text} (drop n []) []
drop_empty zero = refl
drop_empty (suc n) = refl

drop-drop : (m n : ℕ) (s : Text) → drop (m + n) s ≡ drop m (drop n s)
drop-drop m zero s = ap (λ k. drop k s) (omega arith)
drop-drop m (suc n) [] = drop_empty (m + suc n) ∙ sym (drop_empty m)
drop-drop m (suc n) (b ∷ s) = ap (λ k. drop k (b ∷ s)) (more m n) ∙ drop-drop m n s
  where
    more : (m n : ℕ) → m + suc n ≡ suc (m + n)
    more m n = omega arith

blob_eq :
    (a b : EncryptedBlob)
    → a.salt ≡ b.salt
    → a.nonce ≡ b.nonce
    → a.ciphertext ≡ b.ciphertext
    → a ≡ b
blob_eq a b h k l = λ i. record { salt = h i; nonce = k i; ciphertext = l i }

slices-to_bytes : (b : EncryptedBlob) → IsBlob b → slices (to_bytes b) ≡ b
unfolding to_bytes
slices-to_bytes b h =
    let t = b.nonce ++ b.ciphertext in
    let past = drop_exactly 16 b.salt t h.salt_16 in
    blob_eq (slices (to_bytes b)) b (take_exactly 16 b.salt t h.salt_16)
      (ap (take 24) past ∙ take_exactly 24 b.nonce b.ciphertext h.nonce_24)
      (drop-drop 24 16 (b.salt ++ t)
        ∙ ap (drop 24) past
        ∙ drop_exactly 24 b.nonce b.ciphertext h.nonce_24)

long : (b : EncryptedBlob) → IsBlob b → 64 ≤ length (to_bytes b)
unfolding to_bytes
long b h = omega (
  arith,
  length-append b.salt (b.nonce ++ b.ciphertext),
  length-append b.nonce b.ciphertext,
  h.salt_16,
  h.nonce_24,
  h.tagged,
)

magic : (b : EncryptedBlob) → starts_with (to_bytes b) vault_blob_magic_v2 ≡ true
unfolding to_bytes
magic b = refl

readable :
    (bytes : Text) (b : EncryptedBlob)
    → starts_with bytes vault_blob_magic_v2 ≡ true
    → 64 ≤ length bytes
    → slices bytes ≡ b
    → from_bytes bytes ≡ ok b
unfolding from_bytes
readable bytes b p l e = rw (p, sym e) (ground arith)

-- A blob whose ciphertext has its tag is read back from its bytes.
pub from_bytes-to_bytes : (b : EncryptedBlob) → IsBlob b → from_bytes (to_bytes b) ≡ ok b
from_bytes-to_bytes b h = readable (to_bytes b) b (magic b) (long b h) (slices-to_bytes b h)

prefix_split : (s p : Text) → starts_with s p ≡ true → s ≡ p ++ drop (length p) s
prefix_split s [] h = refl
prefix_split [] (c ∷ p) h = ground arith
prefix_split (a ∷ s) (c ∷ p) h = ground (arith, prefix_split s p)

to_bytes-slices :
    (bytes : Text) → starts_with bytes vault_blob_magic_v2 ≡ true → to_bytes (slices bytes) ≡ bytes
unfolding to_bytes
to_bytes-slices bytes h =
    let r = drop 8 bytes in
    let d = drop 24 bytes in
    ap (λ x. vault_blob_magic_v2 ++ x)
      (ap (λ x. take 16 r ++ (take 24 d ++ x)) (drop-drop 24 24 bytes)
        ∙ ap (λ x. take 16 r ++ x) (take-append-drop 24 d ∙ drop-drop 16 8 bytes)
        ∙ take-append-drop 16 r)
    ∙ sym (prefix_split bytes vault_blob_magic_v2 h)

slices-IsBlob : (bytes : Text) → 64 ≤ length bytes → IsBlob (slices bytes)
slices-IsBlob bytes h = record {
  salt_16 = omega (arith, length-take 16 (drop 8 bytes), length-drop 8 bytes);
  nonce_24 = omega (arith, length-take 24 (drop 24 bytes), length-drop 24 bytes);
  tagged = omega (arith, length-drop 48 bytes);
}

read_as :
    (bytes : Text) (b : EncryptedBlob)
    → from_bytes bytes ≡ ok b
    → (starts_with bytes vault_blob_magic_v2 ≡ true) × (64 ≤ length bytes) × (slices bytes ≡ b)
unfolding from_bytes
read_as bytes b h = elim (Bool-cases (starts_with bytes vault_blob_magic_v2)) [
  | inl e ↦ elim (Bool-cases (ltb (length bytes) 64)) [
    | inl f ↦ absurd (ground arith)
    | inr f ↦ (e, ground arith, ground arith)
  ]
  | inr e ↦ absurd (ground arith)
]

-- Bytes that are read are the bytes of the blob that they are read as, so no two files are read as
-- the same blob, and that blob has a salt, a nonce and a tag of full length.
pub to_bytes-from_bytes :
    (bytes : Text) (b : EncryptedBlob) → from_bytes bytes ≡ ok b → (to_bytes b ≡ bytes) × IsBlob b
unfolding from_bytes to_bytes
to_bytes-from_bytes bytes b h =
    let (p, l, e) = read_as bytes b h in
    (ap to_bytes (sym e) ∙ to_bytes-slices bytes p, subst IsBlob e (slices-IsBlob bytes l))
