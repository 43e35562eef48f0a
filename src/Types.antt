-- ===== src/Types.antt =====
-- The data of managerServer/frontend/src/types/index.ts. A role is the text that the server sends.
use Prim.Native.String.{String}
use waddle_perf.Common.{ℕ, Bool, Option}

pub record User : Type 0 where
  pub id : ℕ
  pub username : String
  pub email : String
  pub role : String
  pub ou_id : Option ℕ
  pub mfa_enabled : Bool
  pub is_active : Bool
  pub api_key : Option String

pub record OrganizationUnit : Type 0 where
  pub id : ℕ
  pub name : String
  pub description : Option String
  pub created_at : String

pub record CreateUserRequest : Type 0 where
  pub username : String
  pub email : String
  pub password : String
  pub role : String
  pub ou_id : Option ℕ

pub record UpdateUserRequest : Type 0 where
  pub email : String
  pub role : String
  pub ou_id : Option ℕ
  pub is_active : Bool

pub record CreateOrganizationRequest : Type 0 where
  pub name : String
  pub description : String
