-- ===== src/Server/DistributedServer/Admission.antt =====
-- The check of the shared secret in packages/server/src/distributedServer.ts.
use express_token_revoker.Prelude.{◌≡◌, Option, none, some}
use express_token_revoker.Prelude.Text.{Text}
use express_token_revoker.Server.DistributedServer.{DistributedServer}

-- The digest tells the text that the metadata carries from the secret.
abbrev pub TellsApart : (Text → Text) → Text → Option Text → Type 0
TellsApart digest secret none = Unit
TellsApart digest secret (some provided) = digest provided ≡ digest secret → provided ≡ secret
