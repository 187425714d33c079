-- ===== src/Resource.antt =====
-- pkg/apis/infrakube/v1/tf_types.go: the Terraform resource, its specification and its status.
mod Spec
pub use Spec.*
pub mod Status
pub mod Equality
use infrakube_multicluster.Prelude.{ℕ, String, Option, List, Dict}
use Status.{TerraformStatus}

-- Terraform, with the fields of its ObjectMeta that the code uses.
pub record Terraform : Type 0 where
  pub name : String
  pub namespace : String
  pub uid : String
  pub generation : ℕ
  pub deletion_timestamp : Option ℕ
  pub finalizers : List String
  pub labels : Dict String
  pub spec : TerraformSpec
  pub status : TerraformStatus
