-- ===== src/Crypto/Envelope.antt =====
-- internal/crypto/provisioning.go: the device reads what the server has sealed.
use minnal_labs.Base.{
  ℕ, zero, suc, ◌+◌, ◌≤◌, ◌<◌, ltb, false, ◌≡◌, ◌≢◌, refl, ap, Option, none, some, List, [], ◌∷◌,
  ◌++◌, arith,
}
use minnal_labs.Base.Rows.{length, take}
use minnal_labs.Base.Exec.{Outcome, ok, err}
use minnal_labs.Enrollment.Devices.{ProvisioningPayload}
use minnal_labs.Crypto.{
  Library, key_info, skip, envelope, seal_bundle, encrypt_provisioning_bundle, decrypt_bundle,
  with_shared,
}

-- what the documentation of the functions says
pub record IsSound (l : Library) : Type 0 where
  pub decode-encode : (bs : List l.Byte) → l.decode_base64 (l.encode_base64 bs) ≡ some bs
  pub length-bytes : (k : l.Public) → length (l.bytes k) ≡ 32
  pub new_public_key-bytes : (k : l.Public) → l.new_public_key (l.bytes k) ≡ some k
  pub ecdh_comm : (a b : l.Private) → l.ecdh a (l.public_key b) ≡ l.ecdh b (l.public_key a)
  pub byte_value-version_byte : (n : ℕ) → n < 256 → l.byte_value (l.version_byte n) ≡ n
  -- the tag of GCM has 16 bytes
  pub length-seal : (k n : List l.Byte) (p : ProvisioningPayload) → 16 ≤ length (l.seal k n p)
  pub unseal-seal :
      (k n : List l.Byte) (p : ProvisioningPayload) → l.unseal k n (l.seal k n p) ≡ some p

module _ {ℓ} {A : Type ℓ} where
  length-append : (xs ys : List A) → length (xs ++ ys) ≡ length xs + length ys
  length-append [] ys = omega arith
  length-append (x ∷ xs) ys = omega (arith, length-append xs ys)

  take-append : (n : ℕ) (xs ys : List A) → length xs ≡ n → take n (xs ++ ys) ≡ xs
  take-append zero [] ys e = refl
  take-append zero (x ∷ xs) ys e = absurd (omega (arith, e))
  take-append (suc n) [] ys e = absurd (omega (arith, e))
  take-append (suc n) (x ∷ xs) ys e = ap (λ r. x ∷ r) (take-append n xs ys (omega (arith, e)))

  skip-append : (t k : ℕ) (xs ys : List A) → t ≡ length xs + k → skip t (xs ++ ys) ≡ skip k ys
  unfolding skip
  skip-append t k [] ys e = let same : t ≡ k = omega (arith, e) in ap (λ n. skip n ys) same
  skip-append zero k (x ∷ xs) ys e = absurd (omega (arith, e))
  skip-append (suc t) k (x ∷ xs) ys e = skip-append t k xs ys (omega (arith, e))

-- a bundle comes out, and the device reads the payload from it
abbrev pub IsReadAs : (l : Library) → l.Private → ProvisioningPayload → Outcome l.Text → Type 0
IsReadAs l device payload (ok text) = decrypt_bundle l device text ≡ some payload
IsReadAs l device payload (err e) = ⊥

module _ (l : Library) (sound : IsSound l) (ephemeral device : l.Private) (nonce : List l.Byte)
    (long : length nonce ≡ 12) (payload : ProvisioningPayload) where
  long_enough :
      (server : l.Public) (sealed : List l.Byte)
      → 16 ≤ length sealed
      → ltb (suc (length (l.bytes server ++ (nonce ++ sealed)))) (1 + 32 + 12 + 16) ≡ false
  long_enough server sealed tag =
      let front = sound.length-bytes server in
      rw (length-append (l.bytes server) (nonce ++ sealed), length-append nonce sealed, front, long)
        (ground (arith, tag))

  opens :
      (shared : List l.Byte)
      → l.ecdh ephemeral (l.public_key device) ≡ some shared
      → decrypt_bundle l device (seal_bundle l ephemeral shared payload nonce) ≡ some payload
  unfolding decrypt_bundle seal_bundle envelope skip
  opens shared e =
      let server = l.public_key ephemeral in
      let sealed = l.seal (l.hkdf_sha256 shared key_info) nonce payload in
      let front = sound.length-bytes server in
      rw
        (
          sound.decode-encode (envelope l server nonce sealed),
          long_enough server sealed
              (sound.length-seal (l.hkdf_sha256 shared key_info) nonce payload),
          sound.byte_value-version_byte 1 (omega arith),
          take-append 32 (l.bytes server) (nonce ++ sealed) front,
          skip-append 32 0 (l.bytes server) (nonce ++ sealed) (omega (arith, front)),
          skip-append 44 12 (l.bytes server) (nonce ++ sealed) (omega (arith, front)),
          skip-append 12 0 nonce sealed (omega (arith, long)),
          take-append 12 nonce sealed long,
          sound.new_public_key-bytes server,
          sound.ecdh_comm device ephemeral,
          e,
        )
        (sound.unseal-seal (l.hkdf_sha256 shared key_info) nonce payload)

  with_shared-opens :
      (o : Option (List l.Byte))
      → l.ecdh ephemeral (l.public_key device) ≡ o
      → o ≢ none
      → IsReadAs l device payload (with_shared l ephemeral payload (some nonce) o)
  with_shared-opens none e some_key = some_key refl
  with_shared-opens (some shared) e some_key = opens shared e

  -- If the key agreement gives a secret, `EncryptProvisioningBundle` returns a bundle, and the device that
  -- has the private key accepts its length and its version and reads the same payload from it, as the
  -- device's side of the tests does. The nonce has 12 bytes, and the cryptographic functions are as documented.
  pub encrypt_provisioning_bundle-decrypt_bundle :
      l.ecdh ephemeral (l.public_key device) ≢ none
      → IsReadAs l device payload (
          encrypt_provisioning_bundle l (some ephemeral) (some nonce) (l.public_key device) payload)
  unfolding encrypt_provisioning_bundle
  encrypt_provisioning_bundle-decrypt_bundle some_key = with_shared-opens _ refl some_key
