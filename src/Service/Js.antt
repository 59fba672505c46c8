-- ===== src/Service/Js.antt =====
-- What the services take from JavaScript, Node and the Stellar SDK: parameters of the model.
use clevercon.Prelude.{ℕ, Option, Bool, String, List}
use clevercon.Prelude.Int.{ℤ}
use clevercon.Json.{Json}

pub record Js : Type 0 where
  -- `JSON.parse`, none where it throws; `JSON.stringify`
  pub parse : String → Option Json
  pub stringify : Json → String
  -- `String(v)` and `Number(v)`, none for a value that is no integer
  pub show : Json → String
  pub to_number : Json → Option ℤ
  -- `s.trim()`, `s.slice(0, n)`, and the characters that an iteration over `s` gives
  pub trim : String → String
  pub take : ℕ → String → String
  pub chars : String → List String
  -- `keys.sort()`
  pub sort : List String → List String
  -- `createHash('sha256').update(s).digest('hex')`
  pub sha256_hex : String → String
  -- `Keypair.fromPublicKey(key).verify(payload, signature)`, none where one of them throws
  pub verify_signature : (key : Json) (payload : String) (signature : Json) → Option Bool
  -- the message of a `TypeError`, of a failed `fetch`, and of a write that Prisma refuses
  pub type_error : String
  pub fetch_error : String
  pub prisma_error : String
