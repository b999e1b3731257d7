-- ===== src/Concurrent/Current.antt =====
-- Whatever is sent is current.
use mathlib.Core.Path.{subst}
use iec104bridge.Base.{
  ℕ, ◌≡◌, refl, sym, ap, ◌∙◌, Bool, true, false, none, some, List, [], ◌∷◌, ◌++◌, unwrap_or,
  if◌then◌else◌, All, All-map, arith, ◌==◌, ◌&&◌, ==_iff,
}
use iec104bridge.Store.{CachedPoint, Entry, DataStore, find, values}
use iec104bridge.Store.Laws.{
  Differs, HasDistinctKeys, IsKeyed, find-insert, insert-HasDistinctKeys, insert-IsKeyed,
}
use iec104bridge.Server.{Settings}
use iec104bridge.Loop.Cache.{last_at, last_at-append, IsSound}
use iec104bridge.Concurrent.{
  Shown, Bridge, replay, Reads, none_left, pick, Step, cache_point, dispatch, interrogate, Reach,
  here, next,
}

module _ (default_ca : ℕ) where
  -- The point is of the last message that had arrived for its address.
  abbrev pub IsCurrent : Shown → Type 0
  IsCurrent w =
      last_at default_ca (unwrap_or w.point.message.ca default_ca) w.point.message.ioa w.arrived
        none
      ≡ some w.point

  abbrev Finds : DataStore → CachedPoint → Type 0
  Finds s c = find (unwrap_or c.message.ca default_ca) c.message.ioa s ≡ some c

  Finds-later :
      (e : Entry) (s r : DataStore)
      → All (Differs e) r
      → IsKeyed default_ca r
      → All (Finds s) (values r)
      → All (Finds (e ∷ s)) (values r)
  unfolding find
  Finds-later e s [] d k h = tt
  Finds-later e s (f ∷ r) (d, ds) ((a, b), ks) (h, hs) = (ground arith, Finds-later e s r ds ks hs)

  Finds-values :
      (s : DataStore) → HasDistinctKeys s → IsKeyed default_ca s → All (Finds s) (values s)
  unfolding find
  Finds-values [] d k = tt
  Finds-values (e ∷ s) (d, ds) ((a, b), ks) =
      (ground arith, Finds-later e s s d ks (Finds-values s ds ks))

module _ (P : CachedPoint → Type 0) where
  All-remove :
      (c : CachedPoint) (before after : List CachedPoint)
      → All P (before ++ c ∷ after)
      → P c × All P (before ++ after)
  All-remove c [] after h = h
  All-remove c (b ∷ before) after (a, h) = let (x, r) = All-remove c before after h in (x, (a, r))

  All-Reads : {points cached : List CachedPoint} → Reads points cached → All P cached → All P points
  All-Reads none_left h = tt
  All-Reads (pick c before after r) h =
      let (a, k) = All-remove c before after h in (a, All-Reads r k)

module _ (settings : Settings) where
  -- The cache has the last message of each address, the message that is to be dispatched is the
  -- last of its address, and everything that was sent was current.
  pub record IsFollowed (s : Bridge) : Type 0 where
    pub sound : IsSound settings.default_ca s.store
    pub latest :
        (ca ioa : ℕ) → find ca ioa s.store ≡ last_at settings.default_ca ca ioa s.arrived none
    pub ready :
        (c : CachedPoint)
        → s.pending ≡ some c
        → IsCurrent settings.default_ca (record { point = c; arrived = s.arrived })
    pub current : All (IsCurrent settings.default_ca) s.shown

  replay-IsCurrent :
      (arrived points : List CachedPoint) (shown : List Shown)
      → All (λ c. IsCurrent settings.default_ca (record { point = c; arrived = arrived })) points
      → All (IsCurrent settings.default_ca) shown
      → All (IsCurrent settings.default_ca) (replay arrived points shown)
  replay-IsCurrent arrived [] shown h k = k
  replay-IsCurrent arrived (c ∷ cs) shown (a, h) k = replay-IsCurrent arrived cs _ h (a, k)

  arrived-IsCurrent :
      (arrived : List CachedPoint) (c : CachedPoint)
      → IsCurrent settings.default_ca (record { point = c; arrived = arrived ++ c ∷ [] })
  arrived-IsCurrent arrived c =
      let ca = unwrap_or c.message.ca settings.default_ca in
      last_at-append settings.default_ca ca c.message.ioa arrived (c ∷ []) none
      ∙ rw ((==_iff ca ca).1 refl, (==_iff c.message.ioa c.message.ioa).1 refl) refl

  sent-IsCurrent :
      (b : Bool) (w : Shown) (shown : List Shown)
      → IsCurrent settings.default_ca w
      → All (IsCurrent settings.default_ca) shown
      → All (IsCurrent settings.default_ca) (if b then shown else w ∷ shown)
  sent-IsCurrent true w shown a h = h
  sent-IsCurrent false w shown a h = (a, h)

  Step-IsFollowed : (s t : Bridge) → Step settings s t → IsFollowed s → IsFollowed t
  Step-IsFollowed s t (cache_point c idle k) v = rw k (record {
    sound = record {
      distinct = insert-HasDistinctKeys _ _ c s.store v.sound.distinct;
      keyed = insert-IsKeyed settings.default_ca c s.store v.sound.keyed;
    };
    latest = λ ca ioa.
        find-insert (unwrap_or c.message.ca settings.default_ca) c.message.ioa ca ioa c s.store
        ∙ ap
            (λ o.
              if unwrap_or c.message.ca settings.default_ca == ca && c.message.ioa == ioa
              then some c
              else o)
            (v.latest ca ioa)
        ∙ sym (last_at-append settings.default_ca ca ioa s.arrived (c ∷ []) none);
    ready = λ x e.
        subst
          (λ y. IsCurrent settings.default_ca (record { point = y; arrived = s.arrived ++ c ∷ [] }))
          (cc e) (arrived-IsCurrent s.arrived c);
    current = v.current;
  })
  Step-IsFollowed s t (dispatch c e k) v = rw k (record {
    sound = v.sound;
    latest = v.latest;
    ready = λ x n. absurd (cc n);
    current =
        sent-IsCurrent settings.gi_only (record { point = c; arrived = s.arrived }) s.shown
          (v.ready c e) v.current;
  })
  Step-IsFollowed s t (interrogate points p k) v = rw k (record {
    sound = v.sound;
    latest = v.latest;
    ready = v.ready;
    current =
        replay-IsCurrent s.arrived points s.shown
          (All-Reads
            (λ c. IsCurrent settings.default_ca (record { point = c; arrived = s.arrived })) p
            (All-map (values s.store)
              (λ c found.
                sym (v.latest (unwrap_or c.message.ca settings.default_ca) c.message.ioa) ∙ found)
              (Finds-values settings.default_ca s.store v.sound.distinct v.sound.keyed)))
          v.current;
  })

  Reach-IsFollowed : {s : Bridge} → Reach settings s → IsFollowed s
  unfolding find
  Reach-IsFollowed here = record {
    sound = record { distinct = tt; keyed = tt };
    latest = λ ca ioa. refl;
    ready = λ c e. absurd (cc e);
    current = tt;
  }
  Reach-IsFollowed (next r st) = Step-IsFollowed _ _ st (Reach-IsFollowed r)

  -- However messages and interrogations interleave, from an empty cache: every point that is sent,
  -- live or in reply to an interrogation, is that of the last message which has arrived for its
  -- address by then.
  pub Reach-IsCurrent :
      {s : Bridge} → Reach settings s → All (IsCurrent settings.default_ca) s.shown
  Reach-IsCurrent r = (Reach-IsFollowed r).current
