-- ===== src/Address/Types.antt =====
-- libavtransport/address.h and include/avtransport/connection.h: addresses and the kinds of connection,
-- with what the address parser asks of the system, and its results.
use mathlib.Core.Path.{subst}
use qproto.Common.{
  ℕ, ◌+◌, Bool, true, false, List, [], Option, none, some, Err, enomem, ◌≡◌, refl, length,
  if◌then◌else◌, replicate,
}
use qproto.Common.Int.{ℤ, pos}

pub data AvtAddressConnection : Type 0 where
  null_address file fd_address unix url_address socket callback : AvtAddressConnection

-- The public protocols, and those that address.h adds.
pub data AvtProtocolType : Type 0 where
  datagram udp udp_lite quic stream_protocol file_protocol callback_pkt : AvtProtocolType

pub data AvtProtocolMode : Type 0 where
  default passive active : AvtProtocolMode

-- Pointers to functions of the user, and to his data.
pub record Callbacks : Type 0 where
  pub opaque : ℕ
  pub output : ℕ
  pub input : ℕ

abbrev pub no_callbacks : Callbacks
no_callbacks = record { opaque = 0; output = 0; input = 0 }

-- `default_sid` is `none` for NULL. Of the 65535 entries of the array, those after the last that was
-- written are left out: they are 0.
pub record AddressOptions : Type 0 where
  pub rx_buf : ℕ
  pub tx_buf : ℕ
  pub default_sid : Option (List ℕ)
  pub nb_default_sid : ℕ
  pub start_time : ℤ
  pub certfile : Option (List ℕ)
  pub keyfile : Option (List ℕ)

pub record AvtAddress : Type 0 where
  pub type : AvtAddressConnection
  pub path : Option (List ℕ)
  pub fd : ℤ
  pub host : List ℕ
  pub uuid : List ℕ
  pub listen : Bool
  pub interface : Option (List ℕ)
  pub interface_idx : ℕ
  pub ip : List ℕ
  pub port : ℕ
  pub scope : ℕ
  pub proto : AvtProtocolType
  pub mode : AvtProtocolMode
  pub opts : AddressOptions
  pub pcb : Callbacks
  pub dcb : Callbacks

-- After `memset(addr, 0, sizeof(*addr))`.
abbrev pub zeroed : AvtAddress
zeroed = record {
  type = null_address;
  path = none;
  fd = pos 0;
  host = [];
  uuid = replicate 16 0;
  listen = false;
  interface = none;
  interface_idx = 0;
  ip = replicate 16 0;
  port = 0;
  scope = 0;
  proto = datagram;
  mode = default;
  opts = record {
    rx_buf = 0;
    tx_buf = 0;
    default_sid = none;
    nb_default_sid = 0;
    start_time = pos 0;
    certfile = none;
    keyfile = none;
  };
  pcb = no_callbacks;
  dcb = no_callbacks;
}

-- inet_pton: 1 with the address, 0, or -1.
pub data Pton {ℓ} (A : Type ℓ) : Type ℓ where
  parsed : A → Pton A
  unparsed bad_family : Pton A

-- The hints to getaddrinfo that depend on the address.
pub record Hints : Type 0 where
  pub udp_lite : Bool
  pub passive : Bool

-- What the system answers. `has_memory` is whether an allocation of so many bytes succeeds; a failed
-- one ends the parse, but for that of an interface's name. `lookup_host` is getaddrinfo: the bytes of
-- the first result's socket address. `start_of` is strtod and the conversion to nanoseconds.
pub record System : Type 0 where
  pub has_memory : ℕ → Bool
  pub pton4 : List ℕ → Pton ℕ
  pub pton6 : List ℕ → Pton (List ℕ)
  pub lookup_host : List ℕ → List ℕ → Hints → Option (List ℕ)
  pub interface_index : List ℕ → ℕ
  pub start_of : List ℕ → Option ℤ

abbrev pub strdup : System → List ℕ → Option (List ℕ)
strdup sys s = if sys.has_memory (length s + 1) then some s else none

-- A use of NULL or of memory out of bounds, an error, or a value. After an error nothing of the address
-- is used but to free it.
pub data Outcome {ℓ} (A : Type ℓ) : Type ℓ where
  fault : Outcome A
  fail : Err → Outcome A
  done : A → Outcome A

infixl 5 ◌>>=◌
abbrev pub ◌>>=◌ {ℓ κ} : {A : Type ℓ} {B : Type κ} → Outcome A → (A → Outcome B) → Outcome B
fault >>= f = fault
fail e >>= f = fail e
done a >>= f = f a

-- A pointer that the code goes through, and an allocation that it checks.
abbrev pub deref {ℓ} : {A : Type ℓ} → Option A → Outcome A
deref none = fault
deref (some a) = done a

abbrev pub allocated {ℓ} : {A : Type ℓ} → Option A → Outcome A
allocated none = fail enomem
allocated (some a) = done a

-- What a value that is returned says of the two parts.
pub done->>= {ℓ κ} :
    {A : Type ℓ} {B : Type κ} (m : Outcome A) (f : A → Outcome B) {b : B}
    → (m >>= f) ≡ done b
    → (a : A) × (m ≡ done a) × (f a ≡ done b)
done->>= fault f h = cc
done->>= (fail e) f h = cc
done->>= (done a) f h = (a, refl, h)

-- What holds of a value, if one is returned.
abbrev pub Ensures {ℓ κ} : {A : Type ℓ} → (A → Type κ) → Outcome A → Type κ
Ensures P fault = Unit
Ensures P (fail e) = Unit
Ensures P (done a) = P a

pub Ensures->>= {ℓ κ μ} :
    {A : Type ℓ} {B : Type κ} (Q : B → Type μ) (m : Outcome A) (f : A → Outcome B)
    → ((a : A) → m ≡ done a → Ensures Q (f a))
    → Ensures Q (m >>= f)
Ensures->>= Q fault f h = tt
Ensures->>= Q (fail e) f h = tt
Ensures->>= Q (done a) f h = h a refl

pub Ensures-done {ℓ κ} :
    {A : Type ℓ} (P : A → Type κ) (m : Outcome A) (a : A) → Ensures P m → m ≡ done a → P a
Ensures-done P m a h e = subst (Ensures P) e h

pub Ensures-if {ℓ κ} :
    {A : Type ℓ} (P : A → Type κ) (b : Bool) (x y : Outcome A)
    → Ensures P x
    → Ensures P y
    → Ensures P (if b then x else y)
Ensures-if P true x y p q = p
Ensures-if P false x y p q = q

pub Ensures-option {ℓ κ μ} :
    {A : Type ℓ} {B : Type κ} (P : B → Type μ) (o : Option A) (x : Outcome B) (f : A → Outcome B)
    → Ensures P x
    → ((a : A) → Ensures P (f a))
    → Ensures P (elim o [ none ↦ x | some a ↦ f a ])
Ensures-option P none x f p q = p
Ensures-option P (some a) x f p q = q a
