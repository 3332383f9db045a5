-- ===== src/Crypto.antt =====
-- internal/crypto/provisioning.go: the envelope that hands a device its settings. The cryptographic
-- functions are a parameter, and so is what a byte and a text of base64 are; a payload stands for its
-- JSON.
pub mod Envelope
pub mod Tests
use Prim.Native.String.{◌++◌ as append}
use minnal_labs.Base.{
  ℕ, zero, suc, ◌+◌, ltb, Bool, false, not, String, Option, none, some, List, [], ◌∷◌, ◌++◌, ◌==◌,
  if◌then◌else◌,
}
use minnal_labs.Base.Rows.{length, take}
use minnal_labs.Base.Text.Decimal.{decimal}
use minnal_labs.Base.Exec.{Outcome, ok, err}
use minnal_labs.World.{wrap, errorf}
use minnal_labs.Enrollment.Devices.{ProvisioningPayload}

-- the functions of crypto/ecdh, golang.org/x/crypto/hkdf, crypto/cipher and encoding/base64 that the
-- code calls; `none` is an error
pub record Library : Type 1 where
  pub Byte : Type 0
  pub Text : Type 0
  pub Private : Type 0
  pub Public : Type 0
  pub version_byte : ℕ → Byte
  pub byte_value : Byte → ℕ
  pub decode_base64 : Text → Option (List Byte)
  pub encode_base64 : List Byte → Text
  pub new_public_key : List Byte → Option Public
  pub bytes : Public → List Byte
  pub public_key : Private → Public
  pub ecdh : Private → Public → Option (List Byte)
  pub hkdf_sha256 : List Byte → String → List Byte
  pub seal : List Byte → List Byte → ProvisioningPayload → List Byte
  pub unseal : List Byte → List Byte → List Byte → Option ProvisioningPayload

abbrev pub provisioning_version : ℕ
provisioning_version = 1

abbrev pub key_info : String
key_info = "iot-provisioning-v1"

-- `envelope[n:]`
unfoldable pub skip {ℓ} : {A : Type ℓ} → ℕ → List A → List A
skip zero xs = xs
skip (suc n) [] = []
skip (suc n) (x ∷ xs) = skip n xs

module _ (l : Library) where
  abbrev or_malformed : Option l.Public → Outcome l.Public
  or_malformed none = err (errorf "invalid public key")
  or_malformed (some k) = ok k

  abbrev of_length : List l.Byte → Outcome l.Public
  of_length raw =
      if length raw == 32
      then or_malformed (l.new_public_key raw)
      else err (errorf (append "key must be 32 bytes, got " (decimal (length raw))))

  abbrev decoded : Option (List l.Byte) → Outcome l.Public
  decoded none = err (errorf "invalid base64")
  decoded (some raw) = of_length raw

  -- `ParseDevicePublicKey`
  unfoldable pub parse_device_public_key : l.Text → Outcome l.Public
  parse_device_public_key text = decoded (l.decode_base64 text)

  -- the layout: the version, the server's public key, the nonce, the ciphertext
  unfoldable pub envelope : l.Public → List l.Byte → List l.Byte → List l.Byte
  envelope ephemeral nonce ciphertext =
      l.version_byte provisioning_version ∷ (l.bytes ephemeral ++ (nonce ++ ciphertext))

  -- the key is derived, the payload sealed
  unfoldable pub seal_bundle : l.Private → List l.Byte → ProvisioningPayload → List l.Byte → l.Text
  unfolding envelope
  seal_bundle ephemeral shared payload nonce = l.encode_base64 (
      envelope (l.public_key ephemeral) nonce
        (l.seal (l.hkdf_sha256 shared key_info) nonce payload))

  abbrev with_nonce :
      l.Private → List l.Byte → ProvisioningPayload → Option (List l.Byte) → Outcome l.Text
  with_nonce ephemeral shared payload none = err (errorf "generate nonce")
  with_nonce ephemeral shared payload (some nonce) = ok (seal_bundle ephemeral shared payload nonce)

  abbrev pub with_shared :
      l.Private → ProvisioningPayload → Option (List l.Byte) → Option (List l.Byte) → Outcome l.Text
  with_shared ephemeral payload random none = err (errorf "ecdh")
  with_shared ephemeral payload random (some shared) = with_nonce ephemeral shared payload random

  -- `EncryptProvisioningBundle`, with the new key pair and the nonce, if random bytes are there. The
  -- derived key always has the length that AES-256 takes.
  unfoldable pub encrypt_provisioning_bundle :
      Option l.Private → Option (List l.Byte) → l.Public → ProvisioningPayload → Outcome l.Text
  unfolding seal_bundle
  encrypt_provisioning_bundle none random device payload = err (errorf "generate ephemeral key")
  encrypt_provisioning_bundle (some ephemeral) random device payload =
      with_shared ephemeral payload random (l.ecdh ephemeral device)

  -- what a device does, as in provisioning_test.go: an envelope that is too short or of another version
  -- is refused, and the slices are [1:33], [33:45] and [45:]
  abbrev unsealed : List l.Byte → List l.Byte → Option (List l.Byte) → Option ProvisioningPayload
  unsealed nonce ciphertext none = none
  unsealed nonce ciphertext (some shared) =
      l.unseal (l.hkdf_sha256 shared key_info) nonce ciphertext

  abbrev with_server_key :
      l.Private → List l.Byte → List l.Byte → Option l.Public → Option ProvisioningPayload
  with_server_key device nonce ciphertext none = none
  with_server_key device nonce ciphertext (some server) =
      unsealed nonce ciphertext (l.ecdh device server)

  -- `envelope[0]` is 1
  abbrev has_version : List l.Byte → Bool
  has_version [] = false
  has_version (b ∷ bs) = l.byte_value b == 1

  abbrev read_envelope : l.Private → Option (List l.Byte) → Option ProvisioningPayload
  read_envelope device none = none
  read_envelope device (some bytes) =
      if ltb (length bytes) (1 + 32 + 12 + 16)
      then none
      else if not (has_version bytes)
      then none
      else with_server_key device (take 12 (skip 33 bytes)) (skip 45 bytes)
          (l.new_public_key (take 32 (skip 1 bytes)))

  unfoldable pub decrypt_bundle : l.Private → l.Text → Option ProvisioningPayload
  unfolding skip
  decrypt_bundle device text = read_envelope device (l.decode_base64 text)
