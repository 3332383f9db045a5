-- ===== src/Crypto/Tests.antt =====
-- A run of internal/crypto/provisioning.go with small functions in the place of the cryptography.
use minnal_labs.Base.{
  ℕ, zero, suc, ◌+◌, ◌≡◌, ◌≢◌, refl, ap, arith, ◌⊎◌, inl, inr, Option, none, some, List, [], ◌∷◌,
}
use minnal_labs.Base.Exec.{ok}
use minnal_labs.Enrollment.Devices.{ProvisioningPayload}
use minnal_labs.Crypto.{Library, parse_device_public_key, encrypt_provisioning_bundle}
use minnal_labs.Crypto.Envelope.{IsSound, IsReadAs, encrypt_provisioning_bundle-decrypt_bundle}

-- a number, or a sealed payload
abbrev SmallByte : Type 0
SmallByte = ℕ ⊎ ProvisioningPayload

abbrev zeros : ℕ → List SmallByte
zeros zero = []
zeros (suc n) = inl 0 ∷ zeros n

abbrev first_number : List SmallByte → Option ℕ
first_number (inl k ∷ bs) = some k
first_number _ = none

abbrev first_payload : List SmallByte → Option ProvisioningPayload
first_payload (inr p ∷ bs) = some p
first_payload _ = none

abbrev number_of : SmallByte → ℕ
number_of (inl k) = k
number_of (inr p) = 0

abbrev small : Library
small = record {
  Byte = SmallByte;
  Text = List SmallByte;
  Private = ℕ;
  Public = ℕ;
  version_byte = λ n. inl n;
  byte_value = number_of;
  decode_base64 = λ text. some text;
  encode_base64 = λ bs. bs;
  new_public_key = first_number;
  bytes = λ k. inl k ∷ zeros 31;
  public_key = λ k. k;
  ecdh = λ a b. some (inl (a + b) ∷ []);
  hkdf_sha256 = λ shared info. shared;
  seal = λ key salt p. inr p ∷ zeros 15;
  unseal = λ key salt bs. first_payload bs;
}

small-IsSound : IsSound small
small-IsSound = record {
  decode-encode = λ bs. refl;
  length-bytes = λ k. refl;
  new_public_key-bytes = λ k. refl;
  ecdh_comm = λ a b. let same : a + b ≡ b + a = omega arith in ap (λ n. some (inl n ∷ [])) same;
  byte_value-version_byte = λ n h. refl;
  length-seal = λ k n p. omega arith;
  unseal-seal = λ k n p. refl;
}

abbrev payload : ProvisioningPayload
payload = record {
  device_id = "42";
  user_id = "7";
  home_id = "3";
  mqtt_host = "mqtt.example.com";
  mqtt_port = "1883";
  mqtt_username = "home_7_3_abc123";
  mqtt_password = "supersecretpassword";
  mqtt_connect_delay_seconds = 15;
  wifi_ssid = "TestNetwork";
  wifi_password = "wifipass123";
}

reads_keys : parse_device_public_key small (inl 9 ∷ zeros 31) ≡ ok 9
unfolding parse_device_public_key
reads_keys = refl

encrypt_provisioning_bundle-decrypt_bundle_example :
    IsReadAs small 9 payload
      (encrypt_provisioning_bundle small (some 5) (some (zeros 12)) 9 payload)
encrypt_provisioning_bundle-decrypt_bundle_example =
    encrypt_provisioning_bundle-decrypt_bundle small small-IsSound 5 9 (zeros 12) refl payload
      some_key
  where
    some_key : small.ecdh 5 9 ≢ none
    some_key e = cc
