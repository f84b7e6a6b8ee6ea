-- ===== src/Store/Calls.antt =====
-- One key of the limiter in internal/store/rate_store.go, while others call with other keys.
use mathlib.Core.List.{append-nil}
use walkie_talk_server.Store.{RateStore, Outside, check, check_local, items_of, in_window}
use walkie_talk_server.Store.Window.{
  allowed, keep-keep, items_of-insert, evict_few, length-insert-le,
}
use walkie_talk_server.Store.Bound.{in_span, in_span-noted}
use walkie_talk_server.Base.{
  ℕ, ◌+◌, ◌≤◌, ◌≡◌, ◌≢◌, refl, sym, inl, inr, Bool, true, false, List, [], ◌∷◌, ◌++◌, Text, arith,
  if◌then◌else◌, length, keep, keep-append, if_pos, if_neg, Bool-cases, ◌==◌,
}
use walkie_talk_server.Base.Dict.{insert}

-- checkLocal as long as the map is not shrunk.
check_local_lem :
    (order : List Text) (t : ℕ) (j : Text) (most span : ℕ) (s : RateStore)
    → length s.times + 1 ≤ 50000
    → let kept = keep (in_window span t) (items_of j s.times) in
      let ok = allowed most span t (items_of j s.times) in
      check_local order t j most span s
      ≡ (record s { times = insert j (if ok then kept ++ t ∷ [] else kept) s.times }, ok)
unfolding check_local allowed
check_local_lem order t j most span s few =
    let kept = keep (in_window span t) (items_of j s.times) in
    ground (
      arith,
      evict_few order (insert j (kept ++ t ∷ []) s.times),
      length-insert-le j (kept ++ t ∷ []) s.times,
    )

module _ (k : Text) (limit window : ℕ) where
  -- The store holds, from now on, the calls with the key that passed; they keep to the limit. There
  -- is no Redis, and the map can take so many keys before it is shrunk.
  pub record Holds (now left : ℕ) (passed : List ℕ) (s : RateStore) : Type 0 where
    pub local : s.has_redis ≡ false
    pub small : length s.times + left ≤ 50000
    pub agrees :
        (m : ℕ)
        → now ≤ m
        → keep (in_window window m) (items_of k s.times) ≡ keep (in_window window m) passed
    pub bounded : (m : ℕ) → in_span limit window m passed ≤ limit

  -- What one step of the program does to the store: nothing, a call with another key, or one with
  -- the key, which then passes or not. With the time of the call, and of a call that passed.
  pub data Use (s : RateStore) : ℕ → List ℕ → RateStore → Type 0 where
    unused : (t : ℕ) → Use s t [] s
    other :
        (o : Outside) (j : Text) (most span : ℕ)
        → j ≢ k
        → Use s o.counted_at [] (check o j most span s).0
    counted :
        (o : Outside)
        → Use s o.counted_at
            (if (check o k limit window s).1 then o.counted_at ∷ [] else [])
            (check o k limit window s).0

  check-local :
      (o : Outside) (j : Text) (most span : ℕ) (s : RateStore)
      → s.has_redis ≡ false
      → check o j most span s
        ≡ (if most == 0 then (s, false) else check_local o.key_order o.counted_at j most span s)
  unfolding check
  check-local o j most span s e = ground arith

  module _ (now left : ℕ) (passed : List ℕ) (s : RateStore)
      (h : Holds now (left + 1) passed s) where
    unused-Holds : (t : ℕ) → now ≤ t → Holds t left passed s
    unused-Holds t le = record {
      local = h.local;
      small = omega (arith, h.small);
      agrees = λ m e. h.agrees m (omega arith);
      bounded = h.bounded;
    }

    other-Holds :
        (o : Outside) (j : Text) (most span : ℕ)
        → j ≢ k
        → now ≤ o.counted_at
        → Holds o.counted_at left passed (check o j most span s).0
    other-Holds o j most span d le = elim (Bool-cases (most == 0)) [
      | inl z ↦ rw (check-local o j most span s h.local, z) (unused-Holds o.counted_at le)
      | inr z ↦
          let t = o.counted_at in
          let kept = keep (in_window span t) (items_of j s.times) in
          let ts = if allowed most span t (items_of j s.times) then kept ++ t ∷ [] else kept in
          rw
            (
              check-local o j most span s h.local,
              z,
              check_local_lem o.key_order t j most span s (omega (arith, h.small)),
            )
            (record {
              local = h.local;
              small = omega (arith, h.small, length-insert-le j ts s.times);
              agrees =
                  λ m e. rw (items_of-insert j k ts s.times, if_neg _ d) (h.agrees m (omega arith));
              bounded = h.bounded;
            })
    ]

    allowed-passed :
        (t : ℕ)
        → now ≤ t
        → allowed limit window t (items_of k s.times) ≡ allowed limit window t passed
    unfolding allowed
    allowed-passed t le = rw (h.agrees t le)

    counted-agrees :
        (t m : ℕ) (ok : Bool)
        → now ≤ t
        → t ≤ m
        → let kept = keep (in_window window t) (items_of k s.times) in
          keep (in_window window m) (if ok then kept ++ t ∷ [] else kept)
          ≡ keep (in_window window m) (passed ++ (if ok then t ∷ [] else []))
    counted-agrees t m true le e =
        let kept = keep (in_window window t) (items_of k s.times) in
        rw
          (
            keep-append (in_window window m) kept (t ∷ []),
            keep-append (in_window window m) passed (t ∷ []),
            keep-keep window t m (items_of k s.times) e,
            h.agrees m (omega arith),
          )
          refl
    counted-agrees t m false le e =
        rw (append-nil, keep-keep window t m (items_of k s.times) e) (h.agrees m (omega arith))

    counted-bounded :
        (t m : ℕ) (ok : Bool)
        → allowed limit window t passed ≡ ok
        → in_span limit window m (passed ++ (if ok then t ∷ [] else [])) ≤ limit
    counted-bounded t m true e = in_span-noted limit window t passed h.bounded e m
    counted-bounded t m false e = rw append-nil (h.bounded m)

    counted-Holds :
        (o : Outside)
        → now ≤ o.counted_at
        → Holds o.counted_at left
            (passed ++ (if (check o k limit window s).1 then o.counted_at ∷ [] else []))
            (check o k limit window s).0
    counted-Holds o le = elim (Bool-cases (limit == 0)) [
      | inl z ↦
          rw (check-local o k limit window s h.local, z, append-nil) (unused-Holds o.counted_at le)
      | inr z ↦
          let t = o.counted_at in
          let kept = keep (in_window window t) (items_of k s.times) in
          let ok = allowed limit window t (items_of k s.times) in
          let ts = if ok then kept ++ t ∷ [] else kept in
          rw
            (
              check-local o k limit window s h.local,
              z,
              check_local_lem o.key_order t k limit window s (omega (arith, h.small)),
            )
            (record {
              local = h.local;
              small = omega (arith, h.small, length-insert-le k ts s.times);
              agrees = λ m e.
                  rw (items_of-insert k k ts s.times, if_pos _ refl) (counted-agrees t m ok le e);
              bounded = λ m. counted-bounded t m ok (sym (allowed-passed t le));
            })
    ]

  -- Every step keeps what the store holds, with the time of the call if it passed.
  pub Use-Holds :
      {now left : ℕ} {passed : List ℕ} {s : RateStore} {t : ℕ} {ts : List ℕ} {s' : RateStore}
      → Use s t ts s'
      → now ≤ t
      → Holds now (left + 1) passed s
      → Holds t left (passed ++ ts) s'
  Use-Holds {now} {left} {passed} {s} (unused u) le h =
      rw append-nil (unused-Holds now left passed s h u le)
  Use-Holds {now} {left} {passed} {s} (other o j most span d) le h =
      rw append-nil (other-Holds now left passed s h o j most span d le)
  Use-Holds {now} {left} {passed} {s} (counted o) le h = counted-Holds now left passed s h o le
