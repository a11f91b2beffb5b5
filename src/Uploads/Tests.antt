-- ===== src/Uploads/Tests.antt =====
-- Uploads at fixed inputs.
use bighead.Common.{ℕ, suc, ◌+◌, ◌≤◌, ◌<◌, ◌≡◌, refl, Option, none, some, eqb, if◌then◌else◌}
use bighead.Json.Numbers.{of_ℕ}
use bighead.Uploads.{returns, validate_upload_size, put_signed_upload, put_signed_upload_with_retry}
use bighead.Uploads.Attempts.{IsBusy, put_signed_upload_with_retry_bounds}

-- A storage that is busy once.
abbrev busy_once : ℕ → Option ℕ
busy_once attempt = if eqb attempt 1 then some 503 else some 200

stored_at_last :
    put_signed_upload_with_retry busy_once 3 ≡ record { attempts = 2; upload = returns none }
unfolding put_signed_upload_with_retry
stored_at_last = refl

largest_file : validate_upload_size (of_ℕ 52428800) ≡ none
unfolding validate_upload_size
largest_file = refl

put_signed_upload_with_retry_bounds_example :
    (n : ℕ) × (put_signed_upload_with_retry busy_once 3
      ≡ record { attempts = suc n; upload = put_signed_upload (busy_once (1 + n)) })
    × (n ≤ 2)
    × ((k : ℕ) → 1 ≤ k → k < 1 + n → IsBusy (busy_once k))
    × (n < 2 → ¬ IsBusy (busy_once (1 + n)))
put_signed_upload_with_retry_bounds_example = put_signed_upload_with_retry_bounds busy_once 2
