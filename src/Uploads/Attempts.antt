-- ===== src/Uploads/Attempts.antt =====
-- How often an upload is attempted, and which attempt decides.
use bighead.Common.{
  ℕ, zero, suc, ◌+◌, ◌≤◌, ◌<◌, Bool, true, false, ◌≡◌, sym, refl, ap, ◌∙◌, ◌⊎◌, inl, inr, Option,
  none, some, some_inj, arith, eqb, if◌then◌else◌, subst, Bool-cases,
}
use bighead.Uploads.{
  Upload, returns, put_signed_upload, is_retryable, Uploaded, attempts_from,
  put_signed_upload_with_retry,
}

-- The storage asks for another attempt: it responds with 408, with 429, or with 500 or above.
abbrev pub IsBusy : Option ℕ → Type 0
IsBusy o = (status : ℕ) × (o ≡ some status) × ((status ≡ 408) ⊎ (status ≡ 429) ⊎ (500 ≤ status))

is_retryable-IsBusy : (o : Option ℕ) → is_retryable o ≡ true → IsBusy o
unfolding is_retryable
is_retryable-IsBusy none h = cc
is_retryable-IsBusy (some status) h = (status, refl, ground (arith, h))

IsBusy-is_retryable : (o : Option ℕ) → is_retryable o ≡ false → ¬ IsBusy o
unfolding is_retryable
IsBusy-is_retryable none h (status, e, busy) = cc
IsBusy-is_retryable (some n) h (status, e, busy) =
    let same : n ≡ status = some_inj e in
    elim busy [
      | inl timeout ↦ refused n 408 (same ∙ timeout) refl h
      | inr (inl many) ↦ refused n 429 (same ∙ many) refl h
      | inr (inr failed) ↦ absurd (ground (arith, h, same, failed))
    ]
  where
    refused : (n k : ℕ) → n ≡ k → is_retryable (some k) ≡ true → is_retryable (some n) ≡ false → ⊥
    refused n k e busy other = let same = ap (λ m. is_retryable (some m)) e in cc

module _ (respond : ℕ → Option ℕ) where
  -- The attempts before this one may be repeated, and this one decides.
  abbrev EndsAt : ℕ → ℕ → ℕ → Uploaded → Type 0
  EndsAt attempt bound n u =
      (u ≡ record { attempts = suc n; upload = put_signed_upload (respond (attempt + n)) })
      × (n ≤ bound)
      × ((k : ℕ) → attempt ≤ k → k < attempt + n → is_retryable (respond k) ≡ true)
      × (n < bound → is_retryable (respond (attempt + n)) ≡ false)

  same_at : (k n : ℕ) → eqb k n ≡ true → k ≡ n
  same_at k n e = ground (arith, e)

  other_at : (k n : ℕ) → eqb k n ≡ false → n ≤ k → suc n ≤ k
  other_at k n e le = ground (arith, e, le)

  first_EndsAt :
      (attempt bound : ℕ)
      → (0 < bound → is_retryable (respond attempt) ≡ false)
      → EndsAt attempt bound 0
          (record { attempts = 1; upload = put_signed_upload (respond attempt) })
  first_EndsAt attempt bound h =
      let same : attempt ≡ attempt + 0 = omega arith in
      (
        ap (λ a. record { attempts = 1; upload = put_signed_upload (respond a) }) same,
        omega arith,
        λ k low high. absurd (omega (arith, low, high)),
        λ lt. subst (λ a. is_retryable (respond a) ≡ false) same (h lt),
      )

  next_EndsAt :
      (attempt bound n : ℕ) (u : Uploaded)
      → is_retryable (respond attempt) ≡ true
      → EndsAt (suc attempt) bound n u
      → EndsAt attempt (suc bound) (suc n) (record u { attempts = suc u.attempts })
  next_EndsAt attempt bound n u e (made, le, before, last) =
      let same : suc attempt + n ≡ attempt + suc n = omega arith in
      (
        ap (λ (v : Uploaded). record v { attempts = suc v.attempts }) made
            ∙ ap (λ a. record { attempts = suc (suc n); upload = put_signed_upload (respond a) })
                same,
        omega (arith, le),
        λ k low high. elim (Bool-cases (eqb k attempt)) [
          | inl i ↦ subst (λ a. is_retryable (respond a) ≡ true) (sym (same_at k attempt i)) e
          | inr i ↦ before k (other_at k attempt i low) (omega (arith, high))
        ],
        λ lt. subst (λ a. is_retryable (respond a) ≡ false) same (last (omega (arith, lt))),
      )

  attempts_from-EndsAt :
      (attempt bound : ℕ) (last : Upload)
      → (n : ℕ) × EndsAt attempt bound n (attempts_from respond attempt (suc bound) last)
  unfolding attempts_from
  attempts_from-EndsAt attempt zero last = elim (Bool-cases (is_retryable (respond attempt))) [
    | inl e ↦ (0, rw e (first_EndsAt attempt 0 (λ lt. absurd (omega (arith, lt)))))
    | inr e ↦ (0, rw e (first_EndsAt attempt 0 (λ lt. e)))
  ]
  attempts_from-EndsAt attempt (suc bound) last =
      elim (Bool-cases (is_retryable (respond attempt))) [
        | inl e ↦
            let put = put_signed_upload (respond attempt) in
            let (n, ends) = attempts_from-EndsAt (suc attempt) bound put in
            (
              suc n,
              stepped (is_retryable (respond attempt)) attempt bound n
                  (attempts_from respond (suc attempt) (suc bound) put) put e e ends,
            )
        | inr e ↦ (0, stopped (is_retryable (respond attempt)) attempt (suc bound) _ e e)
      ]
    where
      stepped :
          (b : Bool) (attempt bound n : ℕ) (u : Uploaded) (put : Upload)
          → b ≡ true
          → is_retryable (respond attempt) ≡ true
          → EndsAt (suc attempt) bound n u
          → EndsAt attempt (suc bound) (suc n) (
              if b
              then record u { attempts = suc u.attempts }
              else record { attempts = 1; upload = put })
      stepped b attempt bound n u put h e ends = rw h (next_EndsAt attempt bound n u e ends)

      stopped :
          (b : Bool) (attempt bound : ℕ) (u : Uploaded)
          → b ≡ false
          → is_retryable (respond attempt) ≡ false
          → EndsAt attempt bound 0 (
              if b
              then u
              else record { attempts = 1; upload = put_signed_upload (respond attempt) })
      stopped b attempt bound u h e = rw h (first_EndsAt attempt bound (λ lt. e))

  -- An upload with a bound of one attempt at least is attempted once at least and not more often than
  -- the bound; every attempt before the last one got 408, 429 or 500 and above for an answer; the
  -- last one decides what is returned or thrown; and before the bound is reached it is the last one
  -- because it got no such answer.
  pub put_signed_upload_with_retry_bounds :
      (bound : ℕ)
      → (n : ℕ) × (put_signed_upload_with_retry respond (suc bound)
          ≡ record { attempts = suc n; upload = put_signed_upload (respond (1 + n)) })
        × (n ≤ bound)
        × ((k : ℕ) → 1 ≤ k → k < 1 + n → IsBusy (respond k))
        × (n < bound → ¬ IsBusy (respond (1 + n)))
  unfolding put_signed_upload_with_retry
  put_signed_upload_with_retry_bounds bound =
      let (n, (made, le, before, last)) = attempts_from-EndsAt 1 bound (returns none) in
      (
        n,
        made,
        le,
        λ k low high. is_retryable-IsBusy (respond k) (before k low high),
        λ lt. IsBusy-is_retryable (respond (1 + n)) (last lt),
      )
