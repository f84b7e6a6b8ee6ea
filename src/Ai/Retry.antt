-- ===== src/Ai/Retry.antt =====
-- Which attempt of postJSONWithRetry in internal/ai/client.go decides, and how long it waits.
use walkie_talk_server.Base.{
  subst, sym, ℕ, zero, suc, ◌+◌, ◌-◌, ◌*◌, ◌^◌, ◌≤◌, ◌≡◌, ◌⊎◌, inl, inr, refl, Bool, true, false,
  not, List, [], ◌∷◌, Option, none, some, Text, lit, ltb, leb, if◌then◌else◌, is_empty, length, all,
  arith, min, Bool-cases,
}
use walkie_talk_server.Json.{trim}
use walkie_talk_server.Ai.Clean.{Library, extract_reply}
use walkie_talk_server.Ai.Request.{
  Attempt, unmade, failed, replied, Reply, reply, failure, retryable_status, backoff, is_ok,
  try_posts, post_json_with_retry,
}

-- With at most five attempts and a base of at most five seconds nothing overflows.
pub backoff_lem :
    (attempt base : ℕ)
    → 1 ≤ attempt
    → attempt ≤ 5
    → base ≤ 5000000000
    → backoff attempt base ≡ min (base * 2 ^ (attempt - 1)) 4000000000
unfolding backoff
backoff_lem zero base h k b = omega arith
backoff_lem (suc zero) base h k b = ground arith
backoff_lem (suc (suc zero)) base h k b = ground arith
backoff_lem (suc (suc (suc zero))) base h k b = ground arith
backoff_lem (suc (suc (suc (suc zero)))) base h k b = ground arith
backoff_lem (suc (suc (suc (suc (suc zero))))) base h k b = ground arith
backoff_lem (suc (suc (suc (suc (suc (suc n)))))) base h k b = omega arith

backoff_short :
    (attempt base : ℕ)
    → 1 ≤ attempt
    → attempt ≤ 5
    → base ≤ 5000000000
    → leb (backoff attempt base) 4000000000 ≡ true
backoff_short attempt base h k b = ground (arith, backoff_lem attempt base h k b)

all_cons :
    (w : ℕ) (ws : List ℕ)
    → leb w 4000000000 ≡ true
    → all (λ w. leb w 4000000000) ws ≡ true
    → all (λ w. leb w 4000000000) (w ∷ ws) ≡ true
all_cons w ws h k = ground arith

module _ (g : Library) (attempts base : ℕ) (net : ℕ → Attempt) where
  -- Another attempt follows this one, were there turns left.
  abbrev pub continues : Attempt → Bool
  continues (unmade e) = false
  continues (failed e) = true
  continues (replied code body) =
      if is_ok code then is_empty (extract_reply g body) else retryable_status code

  abbrev pub verdict : Attempt → Reply
  verdict (unmade e) = failure e
  verdict (failed e) = failure e
  verdict (replied code body) =
      if not (is_ok code)
      then failure (g.http_error code (trim body 180))
      else if is_empty (extract_reply g body)
      then failure (lit "AI backend returned JSON without text/reply/response")
      else reply (extract_reply g body)

  -- From attempt `k` on, the first that ends the loop, or the last of all.
  abbrev pub deciding : ℕ → ℕ → ℕ
  deciding zero k = k
  deciding (suc left) k = if continues (net k) then deciding left (suc k) else k

  last_turn :
      (k : ℕ) (last : Option Text) (a : Attempt)
      → net k ≡ a
      → ltb k attempts ≡ false
      → try_posts g attempts base net 1 k last ≡ (verdict a, [])
  unfolding try_posts
  last_turn k last (unmade e) h l = ground arith
  last_turn k last (failed e) h l = ground arith
  last_turn k last (replied code body) h l = ground arith

  -- A turn that does not end the loop waits, or does not wait at all, and goes on.
  abbrev GoesOn : ℕ → ℕ → Option Text → Type 0
  GoesOn left k last =
      (e : Text) × ((try_posts g attempts base net (suc left) k last ≡ (
        (try_posts g attempts base net left (suc k) (some e)).0,
        backoff k base ∷ (try_posts g attempts base net left (suc k) (some e)).1,
      ))
        ⊎ (try_posts g attempts base net (suc left) k last
            ≡ try_posts g attempts base net left (suc k) (some e)))

  next_turn :
      (left k : ℕ) (last : Option Text) (a : Attempt)
      → net k ≡ a
      → ltb k attempts ≡ true
      → continues a ≡ true
      → GoesOn left k last
  unfolding try_posts
  next_turn left k last (unmade e) h l c = ground arith
  next_turn left k last (failed e) h l c = (e, inl (ground arith))
  next_turn left k last (replied code body) h l c = elim (Bool-cases (is_ok code)) [
    | inl o ↦ (lit "AI backend returned JSON without text/reply/response", inr (ground arith))
    | inr o ↦ (g.http_error code (trim body 180), inl (ground arith))
  ]

  end_turn :
      (left k : ℕ) (last : Option Text) (a : Attempt)
      → net k ≡ a
      → continues a ≡ false
      → try_posts g attempts base net (suc left) k last ≡ (verdict a, [])
  unfolding try_posts
  end_turn left k last (unmade e) h c = ground arith
  end_turn left k last (failed e) h c = ground arith
  end_turn left k last (replied code body) h c = ground arith

  abbrev pub Result : ℕ → ℕ → Reply × List ℕ → Type 0
  Result left k r =
      (r.0 ≡ verdict (net (deciding left k)))
      × (length r.1 ≤ left)
      × (base ≤ 5000000000 → attempts ≤ 5 → all (λ w. leb w 4000000000) r.1 ≡ true)

  run :
      (left k : ℕ) (last : Option Text)
      → 1 ≤ k
      → k + left ≡ attempts
      → Result left k (try_posts g attempts base net (suc left) k last)
  run zero k last p h =
      subst (Result 0 k) (sym (last_turn k last (net k) refl (ground arith)))
        (refl, omega arith, λ x y. refl)
  run (suc left) k last p h = elim (Bool-cases (continues (net k))) [
    | inr c ↦
        subst (Result (suc left) k) (sym (end_turn (suc left) k last (net k) refl c))
          ((rw c), omega arith, λ x y. refl)
    | inl c ↦
        let (e, way) = next_turn (suc left) k last (net k) refl (ground arith) c in
        let (a, b, w) = run left (suc k) (some e) (omega arith) (omega arith) in
        elim way [
          | inl q ↦ subst (Result (suc left) k) (sym q) (
            (rw c a),
            omega arith,
            λ x y.
                all_cons (backoff k base)
                  (try_posts g attempts base net (suc left) (suc k) (some e)).1
                  (backoff_short k base p (omega arith) x) (w x y),
          )
          | inr q ↦ subst (Result (suc left) k) (sym q) ((rw c a), omega arith, w)
        ]
  ]

  -- The loop returns what the first attempt that ends it gave, or else the last; it waits less often
  -- than there are attempts, and never longer than four seconds under the bounds that Load sets.
  pub post_json_with_retry-verdict :
      1 ≤ attempts → Result (attempts - 1) 1 (post_json_with_retry g attempts base net)
  unfolding post_json_with_retry
  post_json_with_retry-verdict h =
      subst (λ n. Result (attempts - 1) 1 (try_posts g attempts base net n 1 none)) (omega arith)
        (run (attempts - 1) 1 none (omega arith) (omega arith))
