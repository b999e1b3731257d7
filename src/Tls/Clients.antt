-- ===== src/Tls/Clients.antt =====
-- Who reaches the IEC-104 server through the TLS listener.
use mathlib.Core.List.{Mem, mem-cons_self, mem-cons_of_mem}
use iec104bridge.Base.{◌≡◌, ◌⊎◌, inl, inr, refl, Option, none, some, List, [], ◌∷◌, All}
use iec104bridge.Base.Result.{ok}
use iec104bridge.Environment.{Option-map}
use iec104bridge.Tls.{
  TlsLibrary, TlsConfig, tls, Network, ProxyCall, connecting, copying, build_acceptor, accept_tls,
  proxied, after_handshake, spawn_tls_proxy,
}
use iec104bridge.Tls.Acceptor.{HoldsCerts, Adds, build_acceptor_iff}

-- What rustls documents: a root store trusts the certificates that were added to it, and a
-- handshake of an acceptor whose verifier was built from a store succeeds only for a client whose
-- chain is validated by a certificate that the store trusts.
pub record IsWebPki {lib : TlsLibrary} (net : Network lib) : Type 1 where
  pub Trusts : lib.RootStore → lib.Cert → Type 0
  pub Validates : lib.Cert → List lib.Cert → Type 0
  pub no_roots_trusts : (c : lib.Cert) → ¬ Trusts lib.no_roots c
  pub add_trusts :
      (s t : lib.RootStore) (c d : lib.Cert)
      → lib.add s c ≡ some t
      → Trusts t d
      → Trusts s d ⊎ (d ≡ c)
  pub accept_validates :
      (s : lib.RootStore) (v : lib.Verifier) (chain : List lib.Cert) (key : lib.PrivateKey)
      (a : lib.Acceptor) (tcp : net.Tcp) (stream : net.TlsStream)
      → lib.verifier s ≡ some v
      → lib.with_single_cert v chain key ≡ some a
      → net.accept a tcp ≡ some stream
      → (c : lib.Cert) × Trusts s c × Validates c (net.peer_certificates stream)

module _ {lib : TlsLibrary} {net : Network lib} (w : IsWebPki net) where
  -- The stream of a client that a certificate of the CA file validates.
  abbrev pub IsAuthentic : TlsConfig → net.TlsStream → Type 0
  IsAuthentic cfg stream =
      (roots : List lib.Cert) × HoldsCerts lib cfg.ca_cert_path roots
      × (c : lib.Cert) × Mem c roots
      × w.Validates c (net.peer_certificates stream)

  -- The proxy connects to the server only for such a client, and copies between its stream and that
  -- connection.
  abbrev pub IsVouchedFor : net.TlsStream → net.SocketAddr → ProxyCall net → Type 0
  IsVouchedFor stream address (connecting a) = a ≡ address
  IsVouchedFor stream address (copying s local r) =
      (s ≡ tls stream) × (net.connect address ≡ some local)

  Adds-Trusts :
      (s : lib.RootStore) (certs : List lib.Cert) (t : lib.RootStore) (d : lib.Cert)
      → Adds lib s certs t
      → w.Trusts t d
      → w.Trusts s d ⊎ Mem d certs
  Adds-Trusts s [] t d e h = inl (rw e h)
  Adds-Trusts s (c ∷ certs) t d (u, e, r) h = elim (Adds-Trusts u certs t d r h) [
    | inl old ↦ elim (w.add_trusts s u c d e old) [
      | inl older ↦ inl older
      | inr new ↦ inr (rw new mem-cons_self)
    ]
    | inr m ↦ inr (mem-cons_of_mem c m)
  ]

  build_acceptor-IsAuthentic :
      (cfg : TlsConfig) (acceptor : lib.Acceptor) (tcp : net.Tcp) (stream : net.TlsStream)
      → build_acceptor lib cfg ≡ ok acceptor
      → net.accept acceptor tcp ≡ some stream
      → IsAuthentic cfg stream
  build_acceptor-IsAuthentic cfg acceptor tcp stream built e =
      let (roots, r, store, s, _, verifier, v, chain, _, key, _, a) =
        (build_acceptor_iff lib cfg acceptor).0 built in
      let (c, t, k) = w.accept_validates store verifier chain key acceptor tcp stream v a e in
      elim (Adds-Trusts lib.no_roots roots store c s t) [
        | inl n ↦ absurd (w.no_roots_trusts c n)
        | inr m ↦ (roots, r, c, m, k)
      ]

  proxied-IsVouchedFor :
      (stream : net.TlsStream) (address : net.SocketAddr) (o : Option net.Tcp)
      → net.connect address ≡ o
      → All (IsVouchedFor stream address) (proxied net (tls stream) address o)
  unfolding proxied
  proxied-IsVouchedFor stream address none e = (refl, tt)
  proxied-IsVouchedFor stream address (some local) e = (refl, ((refl, e), tt))

  after_handshake-IsVouchedFor :
      (cfg : TlsConfig) (acceptor : lib.Acceptor) (tcp : net.Tcp) (address : net.SocketAddr)
      (o : Option net.TlsStream)
      → build_acceptor lib cfg ≡ ok acceptor
      → net.accept acceptor tcp ≡ o
      → (after_handshake net (Option-map tls o) address ≡ [])
        ⊎ ((stream : net.TlsStream) × (net.accept acceptor tcp ≡ some stream)
            × IsAuthentic cfg stream
            × All (IsVouchedFor stream address) (after_handshake net (Option-map tls o) address))
  unfolding after_handshake
  after_handshake-IsVouchedFor cfg acceptor tcp address none built e = inl refl
  after_handshake-IsVouchedFor cfg acceptor tcp address (some stream) built e = inr (
    stream,
    e,
    build_acceptor-IsAuthentic cfg acceptor tcp stream built e,
    proxied-IsVouchedFor stream address (net.connect address) refl,
  )

  -- If rustls does what it documents: the proxy of an acceptor that was built from a configuration
  -- either does nothing, or has completed the handshake with a client whose chain a certificate of
  -- the configured CA file validates; then it connects to the given address only, and copies only
  -- between the stream of that client and that connection.
  pub spawn_tls_proxy-IsAuthentic :
      (cfg : TlsConfig) (acceptor : lib.Acceptor) (tcp : net.Tcp) (address : net.SocketAddr)
      → build_acceptor lib cfg ≡ ok acceptor
      → (spawn_tls_proxy net tcp acceptor address ≡ [])
        ⊎ ((stream : net.TlsStream) × (net.accept acceptor tcp ≡ some stream)
            × IsAuthentic cfg stream
            × All (IsVouchedFor stream address) (spawn_tls_proxy net tcp acceptor address))
  unfolding spawn_tls_proxy accept_tls
  spawn_tls_proxy-IsAuthentic cfg acceptor tcp address built =
      after_handshake-IsVouchedFor cfg acceptor tcp address (net.accept acceptor tcp) built refl
