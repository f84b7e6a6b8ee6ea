-- ===== src/Store/Bound.antt =====
-- How many calls the local limiter of internal/store/rate_store.go lets into one window.
use mathlib.Core.List.{append-nil, append_assoc}
use walkie_talk_server.Store.{RateStore, in_window}
use walkie_talk_server.Base.{
  ℕ, ◌+◌, ◌≤◌, ◌≡◌, ap, inl, inr, Bool, true, ◌&&◌, List, [], ◌∷◌, ◌++◌, Text, text_dec, arith, leb,
  if◌then◌else◌, length, keep, ite, if_pos, if_neg, subst, ap, Bool-cases,
}
use walkie_talk_server.Store.Window.{
  verdicts, verdicts-ideal, History, empty_history, noted, allowed, ideal, Ordered,
}

-- The ideal limiter never lets more than `limit` calls of a key into a window.
module _ (limit window : ℕ) where
  -- How many of the times lie in the window that ends at `now`, and not after it.
  unfoldable pub in_span : ℕ → List ℕ → ℕ
  unfolding in_window
  in_span now ts = length (keep (λ t. leb t now && in_window window now t) ts)

  in_span-le :
      (n m : ℕ) (ts : List ℕ) → n ≤ m → in_span m ts ≤ length (keep (in_window window n) ts)
  unfolding in_span
  in_span-le n m [] h = omega arith
  in_span-le n m (t ∷ ts) h = ground (arith, in_span-le n m ts)

  in_span-append :
      (n m : ℕ) (ts : List ℕ) → in_span m (ts ++ n ∷ []) ≤ in_span m ts + (if leb n m then 1 else 0)
  unfolding in_span
  in_span-append n m [] = ground arith
  in_span-append n m (t ∷ ts) = ground (arith, in_span-append n m ts)

  -- If a call is let in only where the window has room, every window holds at most `limit`.
  pub in_span-noted :
      (n : ℕ) (ts : List ℕ)
      → ((m : ℕ) → in_span m ts ≤ limit)
      → allowed limit window n ts ≡ true
      → (m : ℕ) → in_span m (ts ++ n ∷ []) ≤ limit
  unfolding allowed
  in_span-noted n ts h ok m = ground (arith, h m, in_span-le n m ts, in_span-append n m ts)

-- The times of the calls with a key that passed, given the verdicts.
unfoldable pub passed : Text → List (Text × ℕ) → List Bool → List ℕ
passed k [] vs = []
passed k (c ∷ calls) [] = []
passed k ((j, t) ∷ calls) (v ∷ vs) =
    if v then ite (text_dec j k) (t ∷ passed k calls vs) (passed k calls vs) else passed k calls vs

noted-append :
    (j k : Text) (t : ℕ) (h : History) (rest : List ℕ)
    → noted j t h k ++ rest ≡ h k ++ ite (text_dec j k) (t ∷ rest) rest
unfolding noted
noted-append j k t h rest = ground (arith, append_assoc (h k) (t ∷ []) rest, ap h)

module _ (limit window : Text → ℕ) (k : Text) where
  noted_bounded :
      (j : Text) (t : ℕ) (h : History)
      → ((m : ℕ) → in_span (limit k) (window k) m (h k) ≤ limit k)
      → allowed (limit j) (window j) t (h j) ≡ true
      → (m : ℕ) → in_span (limit k) (window k) m (noted j t h k) ≤ limit k
  unfolding noted
  noted_bounded j t h b ok m = elim (text_dec j k) [
    | yes e ↦ rw (if_pos _ e, e) (in_span-noted (limit k) (window k) t (h k) b (rw e at ok) m)
    | no e ↦ rw (if_neg _ e) (b m)
  ]

  ideal_bounded :
      (calls : List (Text × ℕ)) (h : History)
      → ((m : ℕ) → in_span (limit k) (window k) m (h k) ≤ limit k)
      → (m : ℕ)
      → in_span (limit k) (window k) m (h k ++ passed k calls (ideal limit window calls h))
        ≤ limit k
  unfolding passed ideal
  ideal_bounded [] h b m = rw append-nil (b m)
  ideal_bounded ((j, t) ∷ calls) h b m = elim (Bool-cases (allowed (limit j) (window j) t (h j))) [
    | inl e ↦ rw e (
        subst (λ ts. in_span (limit k) (window k) m ts ≤ limit k) (noted-append j k t h _)
          (ideal_bounded calls (noted j t h) (noted_bounded j t h b e) m))
    | inr e ↦ rw e (ideal_bounded calls h b m)
  ]

  -- Of the calls with one key that the local limiter of a fresh store lets through, at most `limit`
  -- lie in any window, for ordered times and as long as the map cannot reach the size that is shrunk.
  pub check_local_window :
      (order : List Text) (calls : List (Text × ℕ)) (s : RateStore)
      → s.times ≡ []
      → length calls ≤ 50000
      → Ordered 0 calls
      → (now : ℕ)
      → in_span (limit k) (window k) now (passed k calls (verdicts limit window order calls s))
        ≤ limit k
  unfolding in_span
  check_local_window order calls s e few o now =
      rw (verdicts-ideal limit window order calls s e few o)
        (ideal_bounded calls empty_history (λ m. nothing m) now)
    where
      nothing : (m : ℕ) → in_span (limit k) (window k) m [] ≤ limit k
      nothing m = omega arith
