-- ===== src/Api/Respond/Keeps.antt =====
-- The steps of a handler keep a property of the database: backend/internal/api/respond.go.
use helboot.Prelude.{ℕ, String, ◌≡◌, refl, Bool, true, false, Option, none, some, ltb}
use helboot.Store.Db.{Db, Result, ok, err, StoreError}
use helboot.Api.Respond.{Response, Handled, decode_json, path_id, on_ok, unless}

module _ {B : Type 0} (P : Db → Type 0) (db : Db) (v : P db) where
  pub unless-keeps :
      (test : Bool) (status : ℕ) (code : String) (k : Handled B)
      → (test ≡ false → P k.1)
      → P (unless test status code db k).1
  unless-keeps true status code k h = v
  unless-keeps false status code k h = h refl

  pub path_id-keeps :
      (raw : Option ℕ) (k : ℕ → Handled B) → ((id : ℕ) → P (k id).1) → P (path_id raw db k).1
  path_id-keeps none k h = v
  path_id-keeps (some id) k h =
      unless-keeps (ltb id 1) 400 "validation.invalid_id" (k id) (λ _. h id)

  pub decode_json-keeps :
      {A : Type 0} (body : Option A) (k : A → Handled B)
      → ((a : A) → P (k a).1)
      → P (decode_json body db k).1
  decode_json-keeps none k h = v
  decode_json-keeps (some a) k h = h a

  -- The continuation may rely on the result that the call gave.
  pub on_ok-keeps :
      {A : Type 0} (r : Result A) (fail : StoreError → Response B) (k : A → Handled B)
      → ((a : A) → r ≡ ok a → P (k a).1)
      → P (on_ok r fail db k).1
  on_ok-keeps (ok a) fail k h = h a refl
  on_ok-keeps (err e) fail k h = v
