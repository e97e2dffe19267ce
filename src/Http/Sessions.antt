-- ===== src/Http/Sessions.antt =====
-- From a log-in to the requests that its access token authenticates.
use taskflow_api.Base.{ℕ, String, ◌≡◌}
use taskflow_api.Domain.{Int64}
use taskflow_api.Domain.Errors.{ok}
use taskflow_api.Store.{World}
use taskflow_api.Repository.Users
use taskflow_api.Service.Tokens.{generate}
use taskflow_api.Service.Auth
use taskflow_api.Server.{Deployment, tokens}

-- Generate made this token for this user, after so many effects.
record Made (d : Deployment) (user_id : Int64) (token : String) (n : ℕ) : Type 0 where
  world : World
  step : world.step ≡ n
  generated : (generate d.env d.jwt (tokens d) user_id world).0 ≡ ok token
