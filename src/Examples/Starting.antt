-- ===== src/Examples/Starting.antt =====
-- TLS and the start of the bridge, with a library in which a certificate is a number.
use mathlib.Core.Path.{subst}
use iec104bridge.Base.{
  ℕ, ◌≡◌, ◌⊎◌, ◌↔◌, refl, inl, inr, Bool, true, false, Option, none, some, List, [], ◌∷◌, ◌++◌,
  ◌==◌, if◌then◌else◌, Bool-cases, All, arith,
}
use iec104bridge.Base.Result.{ok, err}
use iec104bridge.Environment.{Text, codes, same}
use iec104bridge.Endpoint.{decimal}
use iec104bridge.Tls.{
  TlsLibrary, TlsConfig, Network, closed, collect, load_certs, load_private_key, add_all,
  build_acceptor,
}
use iec104bridge.Tls.Acceptor.{IsAcceptorOf, build_acceptor_iff}
use iec104bridge.Tls.Clients.{IsWebPki}
use iec104bridge.Startup.{
  Host, StartCall, panicked, server_spec, settings_of, supervising, metrics_listening,
  tls_listening, tls_bind, main,
}
use iec104bridge.Startup.Sequence.{TlsCalls, server_calls, main_iff}
use iec104bridge.Startup.Confined.{IsConfined, main-IsConfined}
use iec104bridge.Examples.Settings.{full, full_config, full_read}

abbrev contains : List ℕ → ℕ → Bool
contains [] d = false
contains (c ∷ cs) d = if c == d then true else contains cs d

abbrev from_roots : List ℕ → Option (List ℕ)
from_roots [] = none
from_roots (c ∷ cs) = some (c ∷ cs)

abbrev authorities : Bool → List (Option ℕ)
authorities true = some 1 ∷ some 2 ∷ []
authorities false = some 3 ∷ []

-- A file is its path; the CA file has two certificates, the other one.
abbrev library : TlsLibrary
library = record {
  File = Text;
  Cert = ℕ;
  PrivateKey = Text;
  RootStore = List ℕ;
  Verifier = List ℕ;
  Acceptor = List ℕ;
  open_file = λ path. some path;
  certs = λ file. authorities (same file (codes "ca.pem"));
  private_key = λ file. some (some file);
  no_roots = [];
  add = λ store c. some (c ∷ store);
  determines_provider = true;
  verifier = from_roots;
  with_single_cert = λ v chain key. some v;
}

abbrev admitted : Bool → ℕ → Option ℕ
admitted b tcp = if b then some tcp else none

-- A client is the certificate that validates its chain.
abbrev network : Network library
network = record {
  Tcp = ℕ;
  TlsStream = ℕ;
  accept = λ roots tcp. admitted (contains roots tcp) tcp;
  peer_certificates = λ stream. stream ∷ [];
  SocketAddr = ℕ;
  connect = λ address. some 9;
  copy_bidirectional = λ stream local. closed 100 200;
}

contains-cons : (c d : ℕ) (s : List ℕ) → contains (c ∷ s) d ≡ true → (contains s d ≡ true) ⊎ (d ≡ c)
contains-cons c d s h = elim (Bool-cases (c == d)) [
  | inl y ↦ inr (ground arith)
  | inr n ↦ inl (ground arith)
]

admitted_only :
    (b : Bool) (tcp stream : ℕ) → admitted b tcp ≡ some stream → (b ≡ true) × (tcp ≡ stream)
admitted_only true tcp stream h = (refl, cc h)
admitted_only false tcp stream h = absurd (cc h)

built_from :
    (s v a : List ℕ) (tcp stream : ℕ)
    → from_roots s ≡ some v
    → some v ≡ some a
    → admitted (contains a tcp) tcp ≡ some stream
    → contains s stream ≡ true
built_from [] v a tcp stream e k h = absurd (cc e)
built_from (c ∷ cs) v a tcp stream e k h =
    let (y, same_client) = admitted_only (contains a tcp) tcp stream h in
    let same_roots : a ≡ c ∷ cs = cc (e, k) in
    subst (λ s. contains s stream ≡ true) same_roots
      (subst (λ d. contains a d ≡ true) same_client y)

network-IsWebPki : IsWebPki network
network-IsWebPki = record {
  Trusts = λ store c. contains store c ≡ true;
  Validates = λ c chain. chain ≡ c ∷ [];
  no_roots_trusts = λ c h. absurd (cc h);
  add_trusts = λ s t c d e h. contains-cons c d s (cc (h, e));
  accept_validates =
      λ s v chain key a tcp stream e k h. (stream, built_from s v a tcp stream e k h, refl);
}

abbrev files : TlsConfig
files = record {
  cert_path = codes "cert.pem";
  key_path = codes "key.pem";
  ca_cert_path = codes "ca.pem";
}

abbrev roots : List ℕ
roots = 2 ∷ 1 ∷ []

roots_built : build_acceptor library files ≡ ok roots
unfolding build_acceptor load_certs load_private_key add_all collect same
roots_built = refl

build_acceptor_iff_example :
    (build_acceptor library files ≡ ok roots) ↔ IsAcceptorOf library files roots
build_acceptor_iff_example = build_acceptor_iff library files roots

abbrev host : Host
host = record {
  lib = library;
  net = network;
  builds = λ spec. true;
  parse = λ text. some 2405;
  binds = λ text. true;
}

main-IsConfined_example :
    All (IsConfined host network-IsWebPki full_config) (main host full_config []).1
    × ((main host full_config []).0 ≡ err panicked
        → (full_config.tls_enabled ≡ true) × (host.lib.determines_provider ≡ false))
main-IsConfined_example = main-IsConfined host network-IsWebPki full_config full full_read

-- The calls of a start with TLS.
abbrev calls : List (StartCall host)
calls =
    supervising (settings_of full_config)
    ∷ metrics_listening (codes "0.0.0.0:" ++ decimal full_config.metrics_port)
    ∷ tls_listening (tls_bind host full_config) roots 2405
    ∷ server_calls host full_config

main_iff_example : (main host full_config [] ≡ (ok tt, calls)) ↔ (
    (host.builds (server_spec full_config) ≡ true)
    × (made : List (StartCall host)) × TlsCalls host full_config full_config.tls_enabled made
    × (calls
        ≡ supervising (settings_of full_config)
          ∷ metrics_listening (codes "0.0.0.0:" ++ decimal full_config.metrics_port)
          ∷ (made ++ server_calls host full_config)))
main_iff_example = main_iff host full_config calls
