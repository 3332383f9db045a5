-- ===== src/Config/Broker.antt =====
-- internal/config/config.go: the broker's address that devices are told.
use Prim.Native.String.{◌++◌}
use text.Mathlib.TextLemmas.{nil-append, cons-append}
use minnal_labs.Base.{
  ℕ, ◌≡◌, refl, String, Bool, true, false, ◌&&◌, ◌||◌, some, arith, inl, inr, leb, ◌==◌, str_eq,
  Bool-cases,
}
use minnal_labs.Base.Text.{is_space, trim_space, has_prefix, drop}
use minnal_labs.Base.Text.Parts.{after_scheme, has_char}
use minnal_labs.Base.Text.All.{
  all_of, all_of-append, all_of-weaken, trim_space-all, has_char-all, cut-all, cut_last-append,
}
use minnal_labs.Config.{
  AppConfig, or_default, broker_address, split_host_port, from_broker, mqtt_host_and_port,
}

or_default-filled : (d s : String) → str_eq d "" ≡ false → str_eq (or_default d s) "" ≡ false
or_default-filled d s h = elim (Bool-cases (str_eq s "")) [
  | inl e ↦ rw e h
  | inr e ↦ rw (e, e) refl
]

-- `MQTTHostAndPort` always names a host and a port.
pub mqtt_host_and_port-filled :
    (c : AppConfig)
    → (str_eq (mqtt_host_and_port c).0 "" ≡ false) × (str_eq (mqtt_host_and_port c).1 "" ≡ false)
unfolding mqtt_host_and_port
mqtt_host_and_port-filled c =
    let (host, port) =
      from_broker c.mqtt_broker (trim_space c.mqtt_host) (trim_space c.mqtt_port) in
    (or_default-filled "localhost" host refl, or_default-filled "1883" port refl)

-- letters, digits, the dot and the dash
abbrev pub is_host_char : ℕ → Bool
is_host_char c =
    (leb 65 c && leb c 90)
    || (leb 97 c && leb c 122)
    || (leb 48 c && leb c 57)
    || (c == 46)
    || (c == 45)

-- and the colon
abbrev is_address_char : ℕ → Bool
is_address_char c = is_host_char c || (c == 58)

-- and the slash
abbrev is_broker_char : ℕ → Bool
is_broker_char c = is_address_char c || (c == 47)

module _ (c : ℕ) where
  no_space : is_broker_char c ≡ true → is_space c ≡ false
  no_space h = ground (arith, h)

  no_slash : is_address_char c ≡ true → (c == 47) ≡ false
  no_slash h = ground (arith, h)

  no_colon : is_host_char c ≡ true → (c == 58) ≡ false
  no_colon h = ground (arith, h)

  no_open : is_address_char c ≡ true → (c == 91) ≡ false
  no_open h = ground (arith, h)

  no_close : is_address_char c ≡ true → (c == 93) ≡ false
  no_close h = ground (arith, h)

  in_address : is_host_char c ≡ true → is_address_char c ≡ true
  in_address h = ground (arith, h)

  in_broker : is_address_char c ≡ true → is_broker_char c ≡ true
  in_broker h = ground (arith, h)

-- a text literal in front, character by character
spelled_out :
    (a : String)
    → "tcp://" ++ a
      ≡ String.◌∷◌ "t"
          (String.◌∷◌ "c" (String.◌∷◌ "p" (String.◌∷◌ ":" (String.◌∷◌ "/" (String.◌∷◌ "/" a)))))
spelled_out a =
    rw
      (
        cons-append "t" "cp://" a,
        cons-append "c" "p://" a,
        cons-append "p" "://" a,
        cons-append ":" "//" a,
        cons-append "/" "/" a,
        cons-append "/" "" a,
        nil-append a,
      )
      refl

after_scheme-tcp : (a : String) → after_scheme ("tcp://" ++ a) ≡ some a
unfolding after_scheme has_prefix drop
after_scheme-tcp a = rw (spelled_out a) refl

no_bracket : (s : String) → has_char 91 s ≡ false → has_prefix s "[" ≡ false
unfolding has_char has_prefix
no_bracket String.[] h = refl
no_bracket (String.◌∷◌ c s) h = ground (arith, h)

module _ (host port : String) (h : all_of is_host_char host ≡ true)
    (p : all_of is_host_char port ≡ true) where
  address-chars : all_of is_address_char (host ++ String.◌∷◌ ":" port) ≡ true
  address-chars =
      all_of-append is_address_char host _
        (all_of-weaken is_host_char is_address_char in_address host h)
        (all_of-weaken is_host_char is_address_char in_address port p)

  broker-address :
      broker_address ("tcp://" ++ (host ++ String.◌∷◌ ":" port)) ≡ host ++ String.◌∷◌ ":" port
  unfolding broker_address
  broker-address =
      let a = host ++ String.◌∷◌ ":" port in
      let chars =
        all_of-append is_broker_char "tcp://" a refl
          (all_of-weaken is_address_char is_broker_char in_broker a address-chars) in
      rw
        (
          broker_address,
          trim_space-all is_broker_char no_space ("tcp://" ++ a) chars,
          after_scheme-tcp a,
          cut-all is_address_char 47 no_slash a address-chars,
        )
        refl

  split-address : split_host_port (host ++ String.◌∷◌ ":" port) ≡ some (host, port)
  unfolding split_host_port
  split-address =
      let a = host ++ String.◌∷◌ ":" port in
      let open_ = has_char-all is_address_char 91 no_open a address-chars in
      let close = has_char-all is_address_char 93 no_close a address-chars in
      rw
        (
          split_host_port,
          no_bracket a open_,
          open_,
          close,
          cut_last-append is_host_char 58 no_colon host port ":" refl p,
          has_char-all is_host_char 58 no_colon host h,
        )
        refl

  -- A broker at `tcp://host:port` is told to devices as that host and that port, if none is set: the
  -- host and the port are not empty, of letters, digits, dots and dashes.
  pub mqtt_host_and_port-broker :
      (c : AppConfig)
      → str_eq host "" ≡ false
      → str_eq port "" ≡ false
      → trim_space c.mqtt_host ≡ ""
      → trim_space c.mqtt_port ≡ ""
      → c.mqtt_broker ≡ "tcp://" ++ (host ++ String.◌∷◌ ":" port)
      → mqtt_host_and_port c ≡ (host, port)
  unfolding mqtt_host_and_port from_broker
  mqtt_host_and_port-broker c some_host some_port no_host no_port e =
      rw
        (
          mqtt_host_and_port, no_host, no_port, e, from_broker, broker-address, split-address,
          some_host, some_port,
        )
        refl
