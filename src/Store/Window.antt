-- ===== src/Store/Window.antt =====
-- checkLocal of internal/store/rate_store.go against a limiter that forgets nothing.
use walkie_talk_server.Store.{RateStore, check_local, items_of, in_window, evict}
use walkie_talk_server.Base.{
  ℕ, ◌+◌, ◌≤◌, ◌≡◌, refl, inl, inr, Bool, true, false, List, [], ◌∷◌, ◌++◌, Text, text_dec, arith,
  not, ap₂, ltb, leb, if◌then◌else◌, length, keep, keep-append, ite, if_pos, Bool-cases,
}
use walkie_talk_server.Base.Dict.{lookup, insert, remove, lookup-insert}

-- Calls of checkLocal: the key and the time of each. The limit and the window go by the key.
module _ (limit window : Text → ℕ) (order : List Text) where
  unfoldable pub verdicts : List (Text × ℕ) → RateStore → List Bool
  verdicts [] s = []
  verdicts ((k, t) ∷ calls) s =
      let r = check_local order t k (limit k) (window k) s in r.1 ∷ verdicts calls r.0

-- The specification: per key, the times of all calls that passed. A call passes if fewer than
-- `limit` of them lie in the window that ends now.
abbrev pub History : Type 0
History = Text → List ℕ

abbrev pub empty_history : History
empty_history k = []

unfoldable pub noted : Text → ℕ → History → History
noted k t h j = ite (text_dec k j) (h k ++ t ∷ []) (h j)

unfoldable pub allowed : ℕ → ℕ → ℕ → List ℕ → Bool
unfolding in_window
allowed limit window now ts = ltb (length (keep (in_window window now) ts)) limit

module _ (limit window : Text → ℕ) where
  unfoldable pub ideal : List (Text × ℕ) → History → List Bool
  ideal [] h = []
  ideal ((k, t) ∷ calls) h =
      let ok = allowed (limit k) (window k) t (h k) in
      ok ∷ ideal calls (if ok then noted k t h else h)

-- The times of the calls do not go back.
abbrev pub Ordered : ℕ → List (Text × ℕ) → Type 0
Ordered now [] = Unit {0}
Ordered now ((k, t) ∷ calls) = (now ≤ t) × Ordered t calls

pub keep-keep :
    (w n m : ℕ) (ts : List ℕ)
    → n ≤ m
    → keep (in_window w m) (keep (in_window w n) ts) ≡ keep (in_window w m) ts
unfolding in_window
keep-keep w n m [] h = refl
keep-keep w n m (t ∷ ts) h = ground (arith, keep-keep w n m ts)

-- The store agrees with the history from now on.
abbrev Agrees : (Text → ℕ) → ℕ → RateStore → History → Type 0
Agrees window now s h =
    (k : Text) (m : ℕ)
    → now ≤ m
    → keep (in_window (window k) m) (items_of k s.times) ≡ keep (in_window (window k) m) (h k)

pub items_of-insert :
    (k j : Text) (ts : List ℕ) (m : List (Text × List ℕ))
    → items_of j (insert k ts m) ≡ ite (text_dec k j) ts (items_of j m)
unfolding items_of
items_of-insert k j ts m = ground (arith, lookup-insert k j ts m)

length-remove-le : (k : Text) (m : List (Text × List ℕ)) → length (remove k m) ≤ length m
unfolding remove
length-remove-le k [] = omega arith
length-remove-le k ((j, v) ∷ m) = ground (arith, length-remove-le k m)

pub length-insert-le :
    (k : Text) (v : List ℕ) (m : List (Text × List ℕ)) → length (insert k v m) ≤ length m + 1
unfolding insert
length-insert-le k v [] = omega arith
length-insert-le k v ((j, w) ∷ m) = ground (arith, length-insert-le k v m, length-remove-le k m)

pub evict_few :
    (order : List Text) (m : List (Text × List ℕ)) → length m ≤ 50000 → evict order m ≡ m
unfolding evict
evict_few order m h = ground arith

module _ (window : Text → ℕ) (k : Text) (t now : ℕ) (s : RateStore) (h : History) where
  kept : List ℕ
  kept = keep (in_window (window k) t) (items_of k s.times)

  Agrees-rejected :
      now ≤ t
      → Agrees window now s h
      → (j : Text) (m : ℕ) → t ≤ m
      → keep (in_window (window j) m) (items_of j (insert k kept s.times))
        ≡ keep (in_window (window j) m) (h j)
  unfolding kept
  Agrees-rejected le a j m tm = elim (text_dec k j) [
    | yes e ↦ ground (
      arith,
      items_of-insert k j kept s.times,
      keep-keep (window k) t m (items_of k s.times),
      a k m,
      e,
    )
    | no e ↦ ground (arith, items_of-insert k j kept s.times, a j m)
  ]

  Agrees-accepted :
      now ≤ t
      → Agrees window now s h
      → (j : Text) (m : ℕ) → t ≤ m
      → keep (in_window (window j) m) (items_of j (insert k (kept ++ t ∷ []) s.times))
        ≡ keep (in_window (window j) m) (noted k t h j)
  unfolding kept noted
  Agrees-accepted le a j m tm = elim (text_dec k j) [
    | yes e ↦
        rw
          (
            items_of-insert k j (kept ++ t ∷ []) s.times,
            if_pos _ e,
            if_pos _ e,
            keep-append (in_window (window j) m) kept (t ∷ []),
            keep-append (in_window (window j) m) (h k) (t ∷ []),
          )
          (ground (arith, keep-keep (window k) t m (items_of k s.times), a k m, e))
    | no e ↦ ground (arith, items_of-insert k j (kept ++ t ∷ []) s.times, a j m)
  ]

module _ (limit window : Text → ℕ) (order : List Text) where
  check_local-rejected :
      (k : Text) (t now : ℕ) (s : RateStore) (h : History)
      → leb (limit k) (length (kept window k t now s h)) ≡ true
      → check_local order t k (limit k) (window k) s
        ≡ (record s { times = insert k (kept window k t now s h) s.times }, false)
  unfolding check_local kept
  check_local-rejected k t now s h e = rw e

  check_local-accepted :
      (k : Text) (t now : ℕ) (s : RateStore) (h : History)
      → length s.times + 1 ≤ 50000
      → leb (limit k) (length (kept window k t now s h)) ≡ false
      → check_local order t k (limit k) (window k) s
        ≡ (record s { times = insert k (kept window k t now s h ++ t ∷ []) s.times }, true)
  unfolding check_local kept
  check_local-accepted k t now s h few e =
      let ts = keep (in_window (window k) t) (items_of k s.times) ++ t ∷ [] in
      rw (e, evict_few order (insert k ts s.times) (omega (arith, length-insert-le k ts s.times)))

  allowed-kept :
      (k : Text) (t now : ℕ) (s : RateStore) (h : History) (b : Bool)
      → now ≤ t
      → Agrees window now s h
      → leb (limit k) (length (kept window k t now s h)) ≡ b
      → allowed (limit k) (window k) t (h k) ≡ not b
  unfolding allowed kept
  allowed-kept k t now s h b le a e = rw (← a k t le) (ground arith)

  step-Agrees :
      (k : Text) (t now : ℕ) (s : RateStore) (h : History)
      → length s.times + 1 ≤ 50000
      → now ≤ t
      → Agrees window now s h
      → let r = check_local order t k (limit k) (window k) s in
        let ok = allowed (limit k) (window k) t (h k) in
        (r.1 ≡ ok)
        × (length r.0.times ≤ length s.times + 1)
        × Agrees window t r.0 (if ok then noted k t h else h)
  step-Agrees k t now s h few le a =
      let old = kept window k t now s h in
      elim (Bool-cases (leb (limit k) (length old))) [
        | inl e ↦
            rw (check_local-rejected k t now s h e, allowed-kept k t now s h true le a e)
              (refl, length-insert-le k old s.times, Agrees-rejected window k t now s h le a)
        | inr e ↦
            rw (check_local-accepted k t now s h few e, allowed-kept k t now s h false le a e)
              (
                refl,
                length-insert-le k (old ++ t ∷ []) s.times,
                Agrees-accepted window k t now s h le a,
              )
      ]

  verdicts-Agrees :
      (calls : List (Text × ℕ)) (now : ℕ) (s : RateStore) (h : History)
      → length s.times + length calls ≤ 50000
      → Ordered now calls
      → Agrees window now s h
      → verdicts limit window order calls s ≡ ideal limit window calls h
  unfolding verdicts ideal
  verdicts-Agrees [] now s h few o a = refl
  verdicts-Agrees ((k, t) ∷ calls) now s h few o a =
      let st = step-Agrees k t now s h (omega arith) o.0 a in
      ap₂ (λ x xs. x ∷ xs) st.0 (verdicts-Agrees calls t _ _ (omega arith) o.1 st.2)

  -- The local limiter of a fresh store gives the verdicts of the limiter that remembers every call
  -- that passed, for ordered times and as long as the map cannot reach the size that is shrunk.
  pub verdicts-ideal :
      (calls : List (Text × ℕ)) (s : RateStore)
      → s.times ≡ []
      → length calls ≤ 50000
      → Ordered 0 calls
      → verdicts limit window order calls s ≡ ideal limit window calls empty_history
  unfolding items_of lookup
  verdicts-ideal calls s e few o =
      verdicts-Agrees calls 0 s empty_history (rw e (omega arith)) o (λ k m _. rw e)
