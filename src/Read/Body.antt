-- ===== src/Read/Body.antt =====
-- A response body as an asynchronous generator: the chunks that it yields, and the exception that
-- ends it, if one does.
use camvault.Prelude.{List, [], ◌∷◌, ◌++◌, Option, none, some}
use camvault.Crypto.Bytes.{Bytes}
use camvault.Crypto.Header.{CryptoError, Result, ok, err}

pub data ReadError : Type 0 where
  -- `ArchiveEncryptionError` as it is, and wrapped in `StorageBackendError`.
  decryption : CryptoError → ReadError
  backend : CryptoError → ReadError
  truncated : ReadError
  missing_key : ReadError

pub record Body : Type 0 where
  pub out : List Bytes
  pub failure : Option ReadError

abbrev pub done : Body
done = record { out = []; failure = none }

abbrev pub failed : ReadError → Body
failed e = record { out = []; failure = some e }

abbrev pub yield : List Bytes → Body → Body
yield ys b = record b { out = ys ++ b.out }

-- Yield a computed chunk and go on, or end with its error.
abbrev pub yield_result : Result Bytes → Body → Body
yield_result (ok p) b = yield (p ∷ []) b
yield_result (err e) b = failed (decryption e)
