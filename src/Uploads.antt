-- ===== src/Uploads.antt =====
-- apps/web/src/lib/signed-upload.ts and upload-policy.ts: the size of a file, and the repeated
-- attempts to put it where a signed address says. What the storage responds to each attempt is an
-- argument; the digest of the file's bytes is left out.
pub mod Attempts
mod Tests
use bighead.Common.{
  ℕ, zero, suc, ◌/◌, String, Bool, false, not, ◌||◌, ◌&&◌, Option, none, some, leb, eqb,
  if◌then◌else◌,
}
use bighead.Json.Numbers.{Number, is_safe_integer, below, above}
use bighead.Gateway.Mutation.{MutationResult, mutation_failure}

abbrev pub max_upload_bytes : ℕ
max_upload_bytes = 52428800

-- `validateUploadSize`; `none` is `null`.
unfoldable pub validate_upload_size : Number → Option String
validate_upload_size size =
    if not (is_safe_integer size) || below size 1
    then some "Selecione um arquivo."
    else if above size max_upload_bytes
    then some "O arquivo excede o limite de 50 MiB."
    else none

abbrev pub is_ok : ℕ → Bool
is_ok status = eqb (status / 100) 2

-- What an attempt or all of them come to: a failure or `null`, or the error that `fetch` throws.
pub data Upload : Type 0 where
  returns : Option MutationResult → Upload
  throws : Upload

abbrev pub failure_of : ℕ → MutationResult
failure_of status = mutation_failure status (some "Falha ao enviar bytes para o Storage.")

-- `putSignedUpload`, from the status of the response
unfoldable pub put_signed_upload : Option ℕ → Upload
unfolding mutation_failure
put_signed_upload none = throws
put_signed_upload (some status) =
    if is_ok status then returns none else returns (some (failure_of status))

-- Whether an attempt is followed by another one.
unfoldable pub is_retryable : Option ℕ → Bool
is_retryable none = false
is_retryable (some status) =
    not (is_ok status) && (eqb status 408 || (eqb status 429 || leb 500 status))

-- The attempts that were made, and what they came to.
pub record Uploaded : Type 0 where
  pub attempts : ℕ
  pub upload : Upload

abbrev one_more : Uploaded → Uploaded
one_more u = record u { attempts = suc u.attempts }

-- The loop, from this attempt on with this many left and the last failure.
module _ (respond : ℕ → Option ℕ) where
  unfoldable pub attempts_from : (attempt left : ℕ) → Upload → Uploaded
  unfolding put_signed_upload is_retryable
  attempts_from attempt zero last = record { attempts = 0; upload = last }
  attempts_from attempt (suc left) last =
      let put = put_signed_upload (respond attempt) in
      let rest = attempts_from (suc attempt) left put in
      if is_retryable (respond attempt)
      then one_more rest
      else record { attempts = 1; upload = put }

  -- `putSignedUploadWithRetry`
  unfoldable pub put_signed_upload_with_retry : (max_attempts : ℕ) → Uploaded
  unfolding attempts_from
  put_signed_upload_with_retry max_attempts = attempts_from 1 max_attempts (returns none)
