-- ===== src/Tls.antt =====
-- TLS for the masters (tls.rs): loading the certificates and the key, the acceptor, and the proxy
-- that each connection of the TLS listener gets. The library rustls, the files and the network are
-- parameters.
pub mod Acceptor
pub mod Clients
pub mod Polls
use iec104bridge.Base.{ℕ, not, Bool, true, false, Option, none, some, List, [], ◌∷◌}
use iec104bridge.Base.Result.{Result, ok, err, ◌>>=◌, ◌>>◌, bail_if, ok_or, bind_iff, ok_or_iff}
use iec104bridge.Environment.{Text, Option-map}

-- What is used of rustls and of its PEM reader. `certs` gives an item for each certificate, `none`
-- where reading or decoding fails; `private_key` fails, finds no key, or gives the first. The first
-- builder of a process panics unless `determines_provider`: a default provider of the cryptography
-- was installed, or the crate's features leave exactly one.
pub record TlsLibrary : Type 1 where
  pub File : Type 0
  pub Cert : Type 0
  pub PrivateKey : Type 0
  pub RootStore : Type 0
  pub Verifier : Type 0
  pub Acceptor : Type 0
  pub open_file : Text → Option File
  pub certs : File → List (Option Cert)
  pub private_key : File → Option (Option PrivateKey)
  pub no_roots : RootStore
  pub add : RootStore → Cert → Option RootStore
  pub determines_provider : Bool
  pub verifier : RootStore → Option Verifier
  pub with_single_cert : Verifier → List Cert → PrivateKey → Option Acceptor

pub data PemError : Type 0 where
  cannot_open parse_failed no_certificates no_private_key : Text → PemError

pub data TlsError : Type 0 where
  loading_ca loading_cert loading_key : PemError → TlsError
  adding_ca verifier_failed inconsistent : TlsError
  builder_panicked : TlsError

pub record TlsConfig : Type 0 where
  pub cert_path : Text
  pub key_path : Text
  pub ca_cert_path : Text

abbrev pub with_context : {E F A : Type 0} → (E → F) → Result E A → Result F A
with_context f (ok a) = ok a
with_context f (err e) = err (f e)

-- `collect` into a `Result`: all items, or the first error.
unfoldable pub collect : {A : Type 0} → List (Option A) → Option (List A)
collect [] = some []
collect (none ∷ items) = none
collect (some a ∷ items) = elim (collect items) [ none ↦ none | some rest ↦ some (a ∷ rest) ]

abbrev pub is_empty : {A : Type 0} → List A → Bool
is_empty [] = true
is_empty (a ∷ rest) = false

module _ (lib : TlsLibrary) where
  unfoldable pub load_certs : Text → Result PemError (List lib.Cert)
  unfolding collect
  load_certs path = do
    file ← ok_or (lib.open_file path) (cannot_open path)
    certs ← ok_or (collect (lib.certs file)) (parse_failed path)
    bail_if (is_empty certs) (no_certificates path)
    ok certs

  unfoldable pub load_private_key : Text → Result PemError lib.PrivateKey
  load_private_key path = do
    file ← ok_or (lib.open_file path) (cannot_open path)
    key ← ok_or (lib.private_key file) (parse_failed path)
    ok_or key (no_private_key path)

  unfoldable pub add_all : lib.RootStore → List lib.Cert → Result TlsError lib.RootStore
  add_all root_store [] = ok root_store
  add_all root_store (cert ∷ certs) = do
    added ← ok_or (lib.add root_store cert) adding_ca
    add_all added certs

  unfoldable pub build_acceptor : TlsConfig → Result TlsError lib.Acceptor
  unfolding load_certs load_private_key add_all
  build_acceptor cfg = do
    ca_certs ← with_context loading_ca (load_certs cfg.ca_cert_path)
    root_store ← add_all lib.no_roots ca_certs
    bail_if (not lib.determines_provider) builder_panicked
    client_verifier ← ok_or (lib.verifier root_store) verifier_failed
    server_certs ← with_context loading_cert (load_certs cfg.cert_path)
    server_key ← with_context loading_key (load_private_key cfg.key_path)
    ok_or (lib.with_single_cert client_verifier server_certs server_key) inconsistent

-- A plain connection, or one through TLS.
pub data MaybeTlsStream (Tcp Tls : Type 0) : Type 0 where
  plaintext : Tcp → MaybeTlsStream Tcp Tls
  tls : Tls → MaybeTlsStream Tcp Tls

-- The end of `copy_bidirectional`.
pub data Copied : Type 0 where
  closed : ℕ → ℕ → Copied
  broken_pipe connection_reset other_error : Copied

-- The network: the handshake on a connection, the connection to an address, and the copying.
pub record Network (lib : TlsLibrary) : Type 1 where
  pub Tcp : Type 0
  pub TlsStream : Type 0
  pub accept : lib.Acceptor → Tcp → Option TlsStream
  pub peer_certificates : TlsStream → List lib.Cert
  pub SocketAddr : Type 0
  pub connect : SocketAddr → Option Tcp
  pub copy_bidirectional : MaybeTlsStream Tcp TlsStream → Tcp → Copied

-- What a proxy's task does after the handshake.
pub data ProxyCall {lib : TlsLibrary} (net : Network lib) : Type 0 where
  connecting : net.SocketAddr → ProxyCall net
  copying : MaybeTlsStream net.Tcp net.TlsStream → net.Tcp → Copied → ProxyCall net

module _ {lib : TlsLibrary} (net : Network lib) where
  pub accept_tls : net.Tcp → lib.Acceptor → Option (MaybeTlsStream net.Tcp net.TlsStream)
  accept_tls tcp acceptor = Option-map tls (net.accept acceptor tcp)

  -- The bytes between the two ends, once both are there.
  proxied :
      MaybeTlsStream net.Tcp net.TlsStream → net.SocketAddr → Option net.Tcp → List (ProxyCall net)
  proxied stream address none = connecting address ∷ []
  proxied stream address (some local) =
      connecting address ∷ copying stream local (net.copy_bidirectional stream local) ∷ []

  after_handshake :
      Option (MaybeTlsStream net.Tcp net.TlsStream) → net.SocketAddr → List (ProxyCall net)
  unfolding proxied
  after_handshake none address = []
  after_handshake (some stream) address = proxied stream address (net.connect address)

  -- The calls of the task, in their order.
  unfoldable pub spawn_tls_proxy : net.Tcp → lib.Acceptor → net.SocketAddr → List (ProxyCall net)
  unfolding accept_tls after_handshake
  spawn_tls_proxy tcp acceptor address = after_handshake (accept_tls tcp acceptor) address
