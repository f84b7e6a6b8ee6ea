-- ===== src/Store/ScriptLimit.antt =====
-- How many calls the script of internal/store/rate_store.go lets through.
use mathlib.Core.List.{map-append}
use walkie_talk_server.Json.{Float64, ℤ, pos, negsuc}
use walkie_talk_server.Base.{
  ℕ, suc, ◌≤◌, ◌≡◌, refl, sym, ◌∙◌, ap, all, all-append, inl, inr, Bool, true, false, not, List, [],
  ◌∷◌, ◌++◌, map, none, some, Text, arith, leb, ltb, if◌then◌else◌, length, keep, keep-append,
  Bool-cases, ltb_of_leb,
}
use walkie_talk_server.Base.Dict.{lookup, insert}
use walkie_talk_server.Store.Script.{
  SortedSet, live_entries, expiry, rate_script, unix_seconds, cutoff_of, ttl_of, eval_rate_script,
  counts,
}

abbrev scores : List (Text × ℕ) → List ℕ
scores = map (λ e. e.1)

scores-keep :
    (p : ℕ → Bool) (es : List (Text × ℕ)) → scores (keep (λ e. p e.1) es) ≡ keep p (scores es)
scores-keep p [] = refl
scores-keep p (e ∷ es) = ground (arith, scores-keep p es)

length-scores : (es : List (Text × ℕ)) → length (scores es) ≡ length es
length-scores [] = refl
length-scores (e ∷ es) = ap suc (length-scores es)

length-map_score : (p : ℕ → ℕ) (xs : List ℕ) → length (map p xs) ≡ length xs
length-map_score p [] = refl
length-map_score p (x ∷ xs) = ap suc (length-map_score p xs)

-- A new member goes to the end.
scores-insert :
    (k : Text) (n : ℕ) (es : List (Text × ℕ))
    → lookup k es ≡ none
    → scores (insert k n es) ≡ scores es ++ n ∷ []
unfolding lookup insert
scores-insert k n [] h = refl
scores-insert k n ((j, m) ∷ es) h = ground (arith, scores-insert k n es)

lookup-keep :
    (p : Text × ℕ → Bool) (k : Text) (es : List (Text × ℕ))
    → lookup k es ≡ none
    → lookup k (keep p es) ≡ none
unfolding lookup
lookup-keep p k [] h = refl
lookup-keep p k ((j, m) ∷ es) h = ground (arith, lookup-keep p k es)

lookup-live :
    (k : Text) (now : ℕ) (z : SortedSet)
    → lookup k z.entries ≡ none
    → lookup k (live_entries now z) ≡ none
unfolding live_entries lookup
lookup-live k now z h = ground arith

all_mono :
    (n m : ℕ) (ts : List ℕ) → n ≤ m → all (λ t. leb t n) ts ≡ true → all (λ t. leb t m) ts ≡ true
all_mono n m [] h a = refl
all_mono n m (t ∷ ts) h a = ground (arith, all_mono n m ts)

expiry_mono : (ttl : ℤ) (t n : ℕ) → t ≤ n → expiry ttl t ≤ expiry ttl n
unfolding expiry
expiry_mono (pos k) t n h = omega arith
expiry_mono (negsuc k) t n h = omega arith

module _ (f : Float64) where
  -- The set holds, from `now` on, the float64s of the calls of the history that count; a set that is
  -- going to expire has by then no such call.
  pub record Holds (window now : ℕ) (z : SortedSet) (ts : List ℕ) : Type 0 where
    pub past : all (λ t. leb t now) ts ≡ true
    pub agree :
        (m : ℕ)
        → now ≤ m
        → keep (λ x. not (f.less_eq x (cutoff_of f window m))) (scores (live_entries m z))
          ≡ map (unix_seconds f) (keep (counts f window m) ts)

module _ (f : Float64) (window : ℕ)
    (mono : (x m n : ℕ)
      → m ≤ n
      → f.less_eq x (cutoff_of f window m) ≡ true
      → f.less_eq x (cutoff_of f window n) ≡ true)
    (aged : (t m : ℕ) → expiry (ttl_of f window) t ≤ m → counts f window m t ≡ false) where
  abbrev above : ℕ → ℕ → Bool
  above m x = not (f.less_eq x (cutoff_of f window m))

  keep-keep :
      (n m : ℕ) (xs : List ℕ) → n ≤ m → keep (above m) (keep (above n) xs) ≡ keep (above m) xs
  keep-keep n m [] h = refl
  keep-keep n m (x ∷ xs) h = ground (arith, keep-keep n m xs, mono x n m)

  keep-map :
      (m : ℕ) (ts : List ℕ)
      → keep (above m) (map (unix_seconds f) ts)
        ≡ map (unix_seconds f) (keep (counts f window m) ts)
  keep-map m [] = refl
  keep-map m (t ∷ ts) = ground (arith, keep-map m ts)

  keep-counts :
      (n m : ℕ) (ts : List ℕ)
      → n ≤ m
      → keep (above m) (map (unix_seconds f) (keep (counts f window n) ts))
        ≡ map (unix_seconds f) (keep (counts f window m) ts)
  keep-counts n m ts h =
      ap (keep (above m)) (sym (keep-map n ts))
      ∙ keep-keep n m (map (unix_seconds f) ts) h
      ∙ keep-map m ts

  keep_past :
      (n m : ℕ) (ts : List ℕ)
      → all (λ t. leb t n) ts ≡ true
      → expiry (ttl_of f window) n ≤ m
      → keep (counts f window m) ts ≡ []
  keep_past n m [] a h = refl
  keep_past n m (t ∷ ts) a h =
      ground (arith, keep_past n m ts, aged t m, expiry_mono (ttl_of f window) t n)

  module _ (now limit : ℕ) (member : Text) (z : SortedSet) (ts : List ℕ) (earlier : ℕ)
      (le : earlier ≤ now) (h : Holds f window earlier z ts) where
    room : List (Text × ℕ)
    room = keep (λ e. not (f.less_eq e.1 (cutoff_of f window now))) (live_entries now z)

    scores-room : scores room ≡ map (unix_seconds f) (keep (counts f window now) ts)
    unfolding room
    scores-room = scores-keep (above now) (live_entries now z) ∙ h.agree now le

    keep-room :
        (m : ℕ)
        → now ≤ m
        → keep (above m) (scores room) ≡ map (unix_seconds f) (keep (counts f window m) ts)
    keep-room m k = rw scores-room (keep-counts now m ts k)

    all-room : all (λ t. leb t now) ts ≡ true
    all-room = all_mono earlier now ts le h.past

    all-now : all (λ t. leb t now) (ts ++ now ∷ []) ≡ true
    all-now = all-append (λ t. leb t now) ts (now ∷ []) all-room (ground arith)

    Holds-rejected : Holds f window now (record { entries = room; expires_at = z.expires_at }) ts
    unfolding live_entries
    Holds-rejected = record {
      past = all-room;
      agree = λ m k. ground (arith, keep-room m k, h.agree m);
    }

    abbrev entered : SortedSet
    entered = record {
      entries = insert member (unix_seconds f now) room;
      expires_at = some (expiry (ttl_of f window) now);
    }

    -- The float64s of the calls that count, once this call is in the set.
    scores-entered :
        (m : ℕ)
        → now ≤ m
        → lookup member room ≡ none
        → keep (above m) (scores (insert member (unix_seconds f now) room))
          ≡ map (unix_seconds f) (keep (counts f window m) (ts ++ now ∷ []))
    scores-entered m k new =
        rw
          (
            scores-insert member (unix_seconds f now) room new,
            keep-append (above m) (scores room) (unix_seconds f now ∷ []),
            keep-room m k,
          )
          (sym (map-counts m))
      where
        map-counts :
            (m : ℕ)
            → map (unix_seconds f) (keep (counts f window m) (ts ++ now ∷ []))
              ≡ map (unix_seconds f) (keep (counts f window m) ts)
                ++ keep (above m) (unix_seconds f now ∷ [])
        map-counts m =
            sym (keep-map m (ts ++ now ∷ []))
            ∙ ap (keep (above m)) (map-append (unix_seconds f) ts (now ∷ []))
            ∙ keep-append (above m) (map (unix_seconds f) ts) (unix_seconds f now ∷ [])
            ∙ ap (λ xs. xs ++ keep (above m) (unix_seconds f now ∷ [])) (keep-map m ts)

    Holds-accepted : lookup member room ≡ none → Holds f window now entered (ts ++ now ∷ [])
    unfolding live_entries
    Holds-accepted new = record {
      past = all-now;
      agree = λ m k. elim (Bool-cases (leb (expiry (ttl_of f window) now) m)) [
        | inl e ↦ rw (e, keep_past now m (ts ++ now ∷ []) all-now (ground arith)) refl
        | inr e ↦ rw e (scores-entered m k new)
      ];
    }

-- What Check asks of the script: a call is let through exactly if fewer calls than the limit were let
-- through whose float64 is above its cutoff, and then the set holds the history with the call in it.
-- The clock, which Redis and the callers share, does not go back, and the member is not in the set. A
-- cutoff grows with the time, and at the end of the time to live a call is at the cutoff or below, by
-- the rounding of float64.
pub eval_rate_script-allowed :
    (f : Float64) (window : ℕ)
    → ((x m n : ℕ)
        → m ≤ n
        → f.less_eq x (cutoff_of f window m) ≡ true
        → f.less_eq x (cutoff_of f window n) ≡ true)
    → ((t m : ℕ) → expiry (ttl_of f window) t ≤ m → counts f window m t ≡ false)
    → (now limit : ℕ) (member : Text) (z : SortedSet) (ts : List ℕ) (earlier : ℕ) → earlier ≤ now
    → lookup member z.entries ≡ none
    → Holds f window earlier z ts
    → let r = eval_rate_script f window now member limit z in
      let ok = ltb (length (keep (counts f window now) ts)) limit in
      (r.1 ≡ (if ok then 1 else 0)) × Holds f window now r.0 (if ok then ts ++ now ∷ [] else ts)
unfolding eval_rate_script rate_script room
eval_rate_script-allowed f window mono aged now limit member z ts earlier le new h =
    let kept = room f window mono aged now limit member z ts earlier le h in
    let same : length kept ≡ length (keep (counts f window now) ts) =
      sym (length-scores kept)
      ∙ ap length (scores-room f window mono aged now limit member z ts earlier le h)
      ∙ length-map_score (unix_seconds f) (keep (counts f window now) ts) in
    elim (Bool-cases (leb limit (length kept))) [
      | inl e ↦
          rw (e, ← same, ltb_of_leb limit (length kept) e)
            (refl, Holds-rejected f window mono aged now limit member z ts earlier le h)
      | inr e ↦
          rw (e, ← same, ltb_of_leb limit (length kept) e)
            (
              refl,
              Holds-accepted f window mono aged now limit member z ts earlier le h (
                  lookup-keep (λ e. not (f.less_eq e.1 (cutoff_of f window now))) member
                    (live_entries now z) (lookup-live member now z new)),
            )
    ]
