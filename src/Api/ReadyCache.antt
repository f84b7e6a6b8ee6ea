-- ===== src/Api/ReadyCache.antt =====
-- What the cache of handleReady in internal/api/server.go answers.
use walkie_talk_server.Base.{
  sym, subst, if◌then◌else◌, ℕ, ◌+◌, ◌<◌, ◌≡◌, refl, ◌⊎◌, inl, inr, Bool, true, false, List, [],
  ◌∷◌, map, Option, none, some, ltb, lt→ltb, arith, all, ◌&&◌, Bool-cases,
}
use walkie_talk_server.Api.Ready.{
  Settings, Report, Origin, hit, miss, Cache, Probe, new_report, cached_at, handle_ready,
  handle_readies,
}

hits :
    (c : Settings) (start : ℕ) (k : Cache) (ps : List Probe)
    → ltb 0 c.readiness_cache_ttl ≡ true
    → all (λ q. ltb q.now k.expires) ps ≡ true
    → handle_readies c start ps (some k) ≡ map (λ q. (k.report, hit)) ps
unfolding handle_readies handle_ready cached_at
hits c start k [] t h = refl
hits c start k (p ∷ ps) t h = ground (arith, hits c start k ps t)

-- A request that finds no report in the cache is answered with a new one, and every request that
-- starts before that report expires is answered with the same, as a hit. The cache is on.
pub handle_readies-cached :
    (c : Settings) (start : ℕ) (k : Option Cache) (p : Probe) (ps : List Probe)
    → 0 < c.readiness_cache_ttl
    → cached_at c p.now k ≡ none
    → all (λ q. ltb q.now (p.now + c.readiness_cache_ttl)) ps ≡ true
    → handle_readies c start (p ∷ ps) k
      ≡ (new_report c start p, miss) ∷ map (λ q. (new_report c start p, hit)) ps
unfolding handle_readies handle_ready
handle_readies-cached c start k p ps t e h =
    let k' : Cache = record {
      report = new_report c start p;
      expires = p.now + c.readiness_cache_ttl;
    } in
    ground (
      arith,
      lt→ltb 0 c.readiness_cache_ttl t,
      hits c start k' ps (lt→ltb 0 c.readiness_cache_ttl t) h,
    )

-- A report was made by one of the requests, which started less than the time to live before.
abbrev pub IsFresh : Settings → ℕ → List Probe → Probe → Report → Type 0
IsFresh c start [] q r = ⊥
IsFresh c start (p ∷ seen) q r =
    ((r ≡ new_report c start p) × (q.now < p.now + c.readiness_cache_ttl))
    ⊎ IsFresh c start seen q r

abbrev pub AllFresh : Settings → ℕ → List Probe → List Probe → List (Report × Origin) → Type 0
AllFresh c start seen [] [] = Unit
AllFresh c start seen (q ∷ qs) ((r, hit) ∷ rs) =
    IsFresh c start seen q r × AllFresh c start (q ∷ seen) qs rs
AllFresh c start seen (q ∷ qs) ((r, miss) ∷ rs) =
    (r ≡ new_report c start q) × AllFresh c start (q ∷ seen) qs rs
AllFresh c start seen qs rs = ⊥

abbrev IsKept : Settings → ℕ → List Probe → Option Cache → Type 0
IsKept c start seen none = Unit
IsKept c start [] (some k) = ⊥
IsKept c start (p ∷ seen) (some k) =
    ((k.report ≡ new_report c start p) × (k.expires ≡ p.now + c.readiness_cache_ttl))
    ⊎ IsKept c start seen (some k)

IsKept-weaken :
    (c : Settings) (start : ℕ) (q : Probe) (seen : List Probe) (k : Option Cache)
    → IsKept c start seen k
    → IsKept c start (q ∷ seen) k
IsKept-weaken c start q seen none h = tt
IsKept-weaken c start q seen (some k) h = inr h

IsFresh-kept :
    (c : Settings) (start : ℕ) (seen : List Probe) (q : Probe) (k : Cache)
    → IsKept c start seen (some k)
    → q.now < k.expires
    → IsFresh c start seen q k.report
IsFresh-kept c start [] q k h b = h
IsFresh-kept c start (p ∷ seen) q k (inl (e, f)) b = inl (e, omega arith)
IsFresh-kept c start (p ∷ seen) q k (inr h) b = inr (IsFresh-kept c start seen q k h b)

cached_at_lem :
    (c : Settings) (now : ℕ) (k : Option Cache)
    → (cached_at c now k ≡ none)
      ⊎ ((k' : Cache) × (k ≡ some k') × (cached_at c now k ≡ some k'.report) × (now < k'.expires))
unfolding cached_at
cached_at_lem c now none = inl refl
cached_at_lem c now (some k) =
    elim (Bool-cases (ltb 0 c.readiness_cache_ttl && ltb now k.expires)) [
      | inl e ↦ inr (k, refl, (rw e), (ground arith))
      | inr e ↦ inl (rw e)
    ]

IsKept-new :
    (c : Settings) (start : ℕ) (seen : List Probe) (p : Probe) (k : Option Cache) (t : Bool)
    → IsKept c start seen k
    → IsKept c start (p ∷ seen) (
        if t
        then some
            (record { report = new_report c start p; expires = p.now + c.readiness_cache_ttl })
        else k)
IsKept-new c start seen p k true h = inl (refl, refl)
IsKept-new c start seen p k false h = IsKept-weaken c start p seen k h

after_miss : Settings → ℕ → Probe → Option Cache → Option Cache
after_miss c start p k =
    if ltb 0 c.readiness_cache_ttl
    then some (record { report = new_report c start p; expires = p.now + c.readiness_cache_ttl })
    else k

handle_ready_miss :
    (c : Settings) (start : ℕ) (p : Probe) (k : Option Cache)
    → cached_at c p.now k ≡ none
    → handle_ready c start p k ≡ ((new_report c start p, miss), after_miss c start p k)
unfolding handle_ready after_miss
handle_ready_miss c start p k e = ground arith

handle_ready_hit :
    (c : Settings) (start : ℕ) (p : Probe) (k : Option Cache) (r : Report)
    → cached_at c p.now k ≡ some r
    → handle_ready c start p k ≡ ((r, hit), k)
unfolding handle_ready
handle_ready_hit c start p k r e = ground arith

fresh_from :
    (c : Settings) (start : ℕ) (seen ps : List Probe) (k : Option Cache)
    → IsKept c start seen k
    → AllFresh c start seen ps (handle_readies c start ps k)
unfolding handle_readies after_miss
fresh_from c start seen [] k h = tt
fresh_from c start seen (p ∷ ps) k h =
    let Goal = λ (d : (Report × Origin) × Option Cache).
      AllFresh c start seen (p ∷ ps) (d.0 ∷ handle_readies c start ps d.1) in
    elim (cached_at_lem c p.now k) [
      | inl e ↦ subst Goal (sym (handle_ready_miss c start p k e)) (
        refl,
        fresh_from c start (p ∷ seen) ps (after_miss c start p k)
            (IsKept-new c start seen p k (ltb 0 c.readiness_cache_ttl) h),
      )
      | inr (k', q, e, b) ↦ subst Goal (sym (handle_ready_hit c start p k k'.report e)) (
        IsFresh-kept c start seen p k' (subst (IsKept c start seen) q h) b,
        fresh_from c start (p ∷ seen) ps k (IsKept-weaken c start p seen k h),
      )
    ]

-- Every report of handleReady was made for its own request, as a miss, or for an earlier one that
-- started less than the time to live before, as a hit, in whatever order the times come.
pub handle_readies-fresh :
    (c : Settings) (start : ℕ) (ps : List Probe)
    → AllFresh c start [] ps (handle_readies c start ps none)
handle_readies-fresh c start ps = fresh_from c start [] ps none tt
