-- ===== src/Client.antt =====
-- internal/models/client.go and internal/models/scope.go, without the row's times.
use gtd_api.Prelude.{ℕ, String, Bool, List}

pub record Client : Type 0 where
  pub id : ℕ
  pub client_id : String
  pub name : String
  pub api_key : String
  pub sandbox_key : String
  pub callback_url : String
  pub callback_secret : String
  pub ip_whitelist : List String
  pub scopes : List String
  pub is_active : Bool
