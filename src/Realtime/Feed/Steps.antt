-- ===== src/Realtime/Feed/Steps.antt =====
-- What one event of the stream does to the feed.
use bighead.Common.{
  ℕ, suc, ◌-◌, ◌≤◌, String, false, ◌≡◌, refl, inl, inr, List, [], ◌∷◌, ◌++◌, arith, ltb, length,
  drop, length-append, Bool-cases,
}
use bighead.Realtime.Protocol.{RealtimeEvent}
use bighead.Realtime.Feed.{Feed, evict, accept}

pub length-evict : (n : ℕ) (ks : List String) → length (evict n ks) ≤ n
unfolding evict
length-evict n [] = omega arith
length-evict n (k ∷ ks) = ground (arith, length-evict n ks)

-- Nothing is evicted from a list that fits.
pub evict_of_le : (n : ℕ) (ks : List String) → length ks ≤ n → evict n ks ≡ ks
unfolding evict
evict_of_le n [] h = refl
evict_of_le n (k ∷ ks) h = ground arith

pub accept_refused :
    (n : ℕ) (f : Feed) (e : RealtimeEvent) → (accept n f e).1 ≡ false → (accept n f e).0 ≡ f
unfolding accept
accept_refused n f e h = ground arith

-- The newest `n` of a list.
abbrev pub newest {ℓ} : {A : Type ℓ} → ℕ → List A → List A
newest n xs = drop (length xs - n) xs

-- The loop that evicts keeps the newest keys.
pub evict-eq-newest : (n : ℕ) (ks : List String) → evict n ks ≡ newest n ks
unfolding evict
evict-eq-newest n [] = let e : 0 - n ≡ 0 = omega arith in rw e
evict-eq-newest n (k ∷ ks) = elim (Bool-cases (ltb n (length (k ∷ ks)))) [
  | inl over ↦
      let e : suc (length ks) - n ≡ suc (length ks - n) = ground arith in
      rw (over, e) (evict-eq-newest n ks)
  | inr fits ↦ let e : suc (length ks) - n ≡ 0 = ground arith in rw (fits, e)
]

pub evict-evict :
    (n : ℕ) (ks : List String) (x : String)
    → evict n (evict n ks ++ x ∷ []) ≡ evict n (ks ++ x ∷ [])
unfolding evict
evict-evict n [] x = refl
evict-evict n (k ∷ ks) x = ground (arith, evict-evict n ks x, length-append ks (x ∷ []))
