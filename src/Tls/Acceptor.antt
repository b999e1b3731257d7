-- ===== src/Tls/Acceptor.antt =====
-- When an acceptor is built, and what from.
use iec104bridge.Base.{
  Bool, arith, true, false, not, ◌≡◌, ◌≢◌, ◌↔◌, refl, sym, ap, ◌∙◌, Option, none, some, List, [],
  ◌∷◌, map,
}
use iec104bridge.Base.Result.{
  ◌>>=◌, Meets, bind-Meets, bail-Meets, ok_or, Result, ok, err, ◌>>◌, bail_if, bind_iff, ok_or_iff,
}
use iec104bridge.Environment.{Text}
use iec104bridge.Tls.{
  TlsLibrary, TlsConfig, TlsError, builder_panicked, adding_ca, verifier_failed, loading_ca,
  loading_cert, loading_key, inconsistent, no_certificates, is_empty, with_context, collect,
  load_certs, load_private_key, add_all, build_acceptor,
}

with_context_iff :
    {E F A : Type 0} (f : E → F) (m : Result E A) (a : A) → (with_context f m ≡ ok a) ↔ (m ≡ ok a)
with_context_iff f (ok x) a = (λ k. cc k, λ k. cc k)
with_context_iff f (err e) a = (λ k. absurd (cc k), λ k. absurd (cc k))

collected_iff :
    {A : Type 0} (a : A) (items : List (Option A)) (o : Option (List A))
    → ((ys : List A) → (o ≡ some ys) ↔ (items ≡ map some ys))
    → (xs : List A)
    → (elim o [ none ↦ none | some rest ↦ some (a ∷ rest) ] ≡ some xs)
      ↔ (some a ∷ items ≡ map some xs)
collected_iff a items none h [] = (λ k. absurd (cc k), λ k. absurd (cc k))
collected_iff a items (some ys) h [] = (λ k. absurd (cc k), λ k. absurd (cc k))
collected_iff a items none h (x ∷ xs) = (λ k. absurd (cc k), λ k. cc ((h xs).1 (cc k)))
collected_iff a items (some ys) h (x ∷ xs) =
    (λ k. cc ((h ys).0 refl, k), λ k. cc ((h xs).1 (cc k), k))

collect_iff :
    {A : Type 0} (items : List (Option A)) (xs : List A)
    → (collect items ≡ some xs) ↔ (items ≡ map some xs)
unfolding collect
collect_iff [] [] = (λ k. refl, λ k. refl)
collect_iff [] (x ∷ xs) = (λ k. absurd (cc k), λ k. absurd (cc k))
collect_iff (none ∷ items) [] = (λ k. absurd (cc k), λ k. absurd (cc k))
collect_iff (none ∷ items) (x ∷ xs) = (λ k. absurd (cc k), λ k. absurd (cc k))
collect_iff (some a ∷ items) xs = collected_iff a items (collect items) (collect_iff items) xs

determined_iff :
    {A : Type 0} (b : Bool) (m : Result TlsError A) (a : A)
    → ((bail_if (not b) builder_panicked >> m) ≡ ok a) ↔ ((b ≡ true) × (m ≡ ok a))
determined_iff true m a = (λ k. (refl, k), λ (_, k). k)
determined_iff false m a = (λ k. absurd (cc k), λ (k, _). absurd (cc k))

module _ (lib : TlsLibrary) where
  -- The file holds these certificates, and nothing that is none; at least one.
  abbrev pub HoldsCerts : Text → List lib.Cert → Type 0
  HoldsCerts path certs =
      (certs ≢ [])
      × (file : lib.File) × (lib.open_file path ≡ some file)
      × (lib.certs file ≡ map some certs)

  abbrev pub HoldsKey : Text → lib.PrivateKey → Type 0
  HoldsKey path key =
      (file : lib.File) × (lib.open_file path ≡ some file)
      × (lib.private_key file ≡ some (some key))

  -- The second store is the first with these certificates added.
  abbrev pub Adds : lib.RootStore → List lib.Cert → lib.RootStore → Type 0
  Adds s [] t = s ≡ t
  Adds s (cert ∷ certs) t = (u : lib.RootStore) × (lib.add s cert ≡ some u) × Adds u certs t

  -- An acceptor for the certificates of the CA file, with the chain and the key of the other two.
  abbrev pub IsAcceptorOf : TlsConfig → lib.Acceptor → Type 0
  IsAcceptorOf cfg acceptor =
      (roots : List lib.Cert) × HoldsCerts cfg.ca_cert_path roots
      × (store : lib.RootStore) × Adds lib.no_roots roots store
      × (lib.determines_provider ≡ true)
      × (verifier : lib.Verifier) × (lib.verifier store ≡ some verifier)
      × (chain : List lib.Cert) × HoldsCerts cfg.cert_path chain
      × (key : lib.PrivateKey) × HoldsKey cfg.key_path key
      × (lib.with_single_cert verifier chain key ≡ some acceptor)

  nonempty_iff :
      (path : Text) (xs certs : List lib.Cert)
      → ((bail_if (is_empty xs) (no_certificates path) >> ok xs) ≡ ok certs)
        ↔ ((certs ≢ []) × (xs ≡ certs))
  nonempty_iff path [] certs = (λ k. absurd (cc k), λ (n, k). absurd (n (sym k)))
  nonempty_iff path (x ∷ xs) certs = (λ k. (λ e. cc (k, e), cc k), λ (n, k). cc k)

  pub load_certs_iff :
      (path : Text) (certs : List lib.Cert)
      → (load_certs lib path ≡ ok certs) ↔ HoldsCerts path certs
  unfolding load_certs
  load_certs_iff path certs = (
    λ e.
        let (file, o, e1) = (bind_iff _ _ _).0 e in
        let (xs, c, e2) = (bind_iff _ _ _).0 e1 in
        let (n, k) = (nonempty_iff path xs certs).0 e2 in
        (
          n,
          file,
          (ok_or_iff _ _ _).0 o,
          (collect_iff _ _).0 ((ok_or_iff _ _ _).0 c) ∙ ap (map some) k,
        ),
    λ (n, file, o, c). (bind_iff _ _ _).1 (
      file,
      (ok_or_iff _ _ _).1 o,
      (bind_iff _ _ _).1 (
        certs,
        (ok_or_iff _ _ _).1 ((collect_iff _ _).1 c),
        (nonempty_iff path certs certs).1 (n, refl),
      ),
    ),
  )

  pub load_private_key_iff :
      (path : Text) (key : lib.PrivateKey)
      → (load_private_key lib path ≡ ok key) ↔ HoldsKey path key
  unfolding load_private_key
  load_private_key_iff path key = (
    λ e.
        let (file, o, e1) = (bind_iff _ _ _).0 e in
        let (found, c, e2) = (bind_iff _ _ _).0 e1 in
        (file, (ok_or_iff _ _ _).0 o, (ok_or_iff _ _ _).0 c ∙ ap some ((ok_or_iff _ _ _).0 e2)),
    λ (file, o, c).
        (bind_iff _ _ _).1
          (file, (ok_or_iff _ _ _).1 o, (bind_iff _ _ _).1 (some key, (ok_or_iff _ _ _).1 c, refl)),
  )

  pub add_all_iff :
      (s : lib.RootStore) (certs : List lib.Cert) (t : lib.RootStore)
      → (add_all lib s certs ≡ ok t) ↔ Adds s certs t
  unfolding add_all
  add_all_iff s [] t = (λ k. cc k, λ k. cc k)
  add_all_iff s (cert ∷ certs) t = (
    λ e.
        let (u, a, e1) = (bind_iff _ _ _).0 e in
        (u, (ok_or_iff _ _ _).0 a, (add_all_iff u certs t).0 e1),
    λ (u, a, r). (bind_iff _ _ _).1 (u, (ok_or_iff _ _ _).1 a, (add_all_iff u certs t).1 r),
  )

  -- An acceptor is built exactly if rustls can determine its provider and the three files can be
  -- read: the CA file as one certificate or more, which all are added to an empty store that a
  -- verifier of clients is built from; and the chain and the key, which go together.
  pub build_acceptor_iff :
      (cfg : TlsConfig) (acceptor : lib.Acceptor)
      → (build_acceptor lib cfg ≡ ok acceptor) ↔ IsAcceptorOf cfg acceptor
  unfolding build_acceptor
  build_acceptor_iff cfg acceptor = (
    λ e.
        let (roots, r, e1) = (bind_iff _ _ _).0 e in
        let (store, s, e2) = (bind_iff _ _ _).0 e1 in
        let (d, e2') = (determined_iff lib.determines_provider _ _).0 e2 in
        let (verifier, v, e3) = (bind_iff _ _ _).0 e2' in
        let (chain, c, e4) = (bind_iff _ _ _).0 e3 in
        let (key, k, e5) = (bind_iff _ _ _).0 e4 in
        (
          roots,
          (load_certs_iff _ _).0 ((with_context_iff _ _ _).0 r),
          store,
          (add_all_iff _ _ _).0 s,
          d,
          verifier,
          (ok_or_iff _ _ _).0 v,
          chain,
          (load_certs_iff _ _).0 ((with_context_iff _ _ _).0 c),
          key,
          (load_private_key_iff _ _).0 ((with_context_iff _ _ _).0 k),
          (ok_or_iff _ _ _).0 e5,
        ),
    λ (roots, r, store, s, d, verifier, v, chain, c, key, k, a). (bind_iff _ _ _).1 (
      roots,
      (with_context_iff _ _ _).1 ((load_certs_iff _ _).1 r),
      (bind_iff _ _ _).1 (
        store,
        (add_all_iff _ _ _).1 s,
        (determined_iff lib.determines_provider _ _).1 (
          d,
          (bind_iff _ _ _).1 (
            verifier,
            (ok_or_iff _ _ _).1 v,
            (bind_iff _ _ _).1 (
              chain,
              (with_context_iff _ _ _).1 ((load_certs_iff _ _).1 c),
              (bind_iff _ _ _).1 (
                key,
                (with_context_iff _ _ _).1 ((load_private_key_iff _ _).1 k),
                (ok_or_iff _ _ _).1 a,
              ),
            ),
          ),
        ),
      ),
    ),
  )

  -- The only error that is a panic.
  abbrev pub PanicsFor : TlsError → Type 0
  PanicsFor e = e ≡ builder_panicked → lib.determines_provider ≡ false

  with_context-PanicsFor :
      {E A : Type 0} (f : E → TlsError) (m : Result E A)
      → ((x : E) → f x ≢ builder_panicked)
      → Meets (λ a. Unit) PanicsFor (with_context f m)
  with_context-PanicsFor f (ok a) h = tt
  with_context-PanicsFor f (err x) h = λ k. absurd (h x k)

  ok_or-PanicsFor :
      {A : Type 0} (o : Option A) (e : TlsError)
      → e ≢ builder_panicked
      → Meets (λ a. Unit) PanicsFor (ok_or o e)
  ok_or-PanicsFor none e h = λ k. absurd (h k)
  ok_or-PanicsFor (some a) e h = tt

  add_all-PanicsFor :
      (s : lib.RootStore) (certs : List lib.Cert)
      → Meets (λ a. Unit) PanicsFor (add_all lib s certs)
  unfolding add_all
  add_all-PanicsFor s [] = tt
  add_all-PanicsFor s (cert ∷ certs) =
      bind-Meets (λ a. Unit) PanicsFor (ok_or (lib.add s cert) adding_ca) _
        (ok_or-PanicsFor (lib.add s cert) adding_ca (λ k. cc k)) λ u _. add_all-PanicsFor u certs

  abbrev pub Panics : {A : Type 0} → Result TlsError A → Type 0
  Panics m = Meets (λ a. Unit) PanicsFor m

  -- One step of the building, and the rest.
  then-PanicsFor :
      {A : Type 0} (m : Result TlsError A) (f : A → Result TlsError lib.Acceptor)
      → Panics m
      → ((a : A) → Panics (f a))
      → Panics (m >>= f)
  then-PanicsFor (ok a) f p h = h a
  then-PanicsFor (err e) f p h = p

  -- Building the acceptor panics only if rustls cannot determine its provider.
  pub build_acceptor-PanicsFor : (cfg : TlsConfig) → Panics (build_acceptor lib cfg)
  unfolding build_acceptor
  build_acceptor-PanicsFor cfg =
      then-PanicsFor (with_context loading_ca (load_certs lib cfg.ca_cert_path)) _
        (with_context-PanicsFor loading_ca (load_certs lib cfg.ca_cert_path) (λ x k. cc k))
        λ ca_certs.
          then-PanicsFor (add_all lib lib.no_roots ca_certs) _
            (add_all-PanicsFor lib.no_roots ca_certs)
            λ store.
              bail-Meets (λ a. Unit) PanicsFor (not lib.determines_provider) builder_panicked _
                (λ n k. ground (arith, n))
                λ _.
                  then-PanicsFor (ok_or (lib.verifier store) verifier_failed) _
                    (ok_or-PanicsFor (lib.verifier store) verifier_failed (λ k. cc k))
                    λ verifier.
                      then-PanicsFor (with_context loading_cert (load_certs lib cfg.cert_path)) _
                        (with_context-PanicsFor loading_cert (load_certs lib cfg.cert_path)
                          (λ x k. cc k))
                        λ chain.
                          then-PanicsFor
                            (with_context loading_key (load_private_key lib cfg.key_path)) _
                            (with_context-PanicsFor loading_key (load_private_key lib cfg.key_path)
                              (λ x k. cc k))
                            λ key.
                              ok_or-PanicsFor (lib.with_single_cert verifier chain key) inconsistent
                                (λ k. cc k)
