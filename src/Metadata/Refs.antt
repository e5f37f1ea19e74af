-- ===== src/Metadata/Refs.antt =====
-- src/write/metadata.rs: the rows of versions, tags and branches.
use pglance.Base.{ℕ, Option, List, [], ◌∷◌, Text}
use pglance.Base.Int.{ℤ}
use pglance.Base.Map.{cmp_list}
use Prim.Native.Nat.{compare, Ordering}
use pglance.Metadata.{as_i64}

pub record VersionRow : Type 0 where
  pub version : ℤ
  pub timestamp : Text
  pub metadata : Text

-- `Version`, with its time and its metadata as they are printed.
pub record Version : Type 0 where
  pub version : ℕ
  pub timestamp : Text
  pub metadata : Text

abbrev pub version_row : Version → VersionRow
version_row v = record {
  version = as_i64 v.version;
  timestamp = v.timestamp;
  metadata = v.metadata;
}

pub record TagContents : Type 0 where
  pub branch : Option Text
  pub version : ℕ
  pub created_at : Option Text
  pub updated_at : Option Text
  pub manifest_size : ℕ
  pub metadata : Text

pub record TagRow : Type 0 where
  pub tag_name : Text
  pub branch : Option Text
  pub version : ℤ
  pub created_at : Option Text
  pub updated_at : Option Text
  pub manifest_size : ℤ
  pub metadata : Text

abbrev pub tag_row : Text × TagContents → TagRow
tag_row (name, contents) = record {
  tag_name = name;
  branch = contents.branch;
  version = as_i64 contents.version;
  created_at = contents.created_at;
  updated_at = contents.updated_at;
  manifest_size = as_i64 contents.manifest_size;
  metadata = contents.metadata;
}

pub record BranchContents : Type 0 where
  pub parent_branch : Option Text
  pub parent_version : ℕ
  pub create_at : ℕ
  pub manifest_size : ℕ
  pub identifier : Text
  pub metadata : Text

pub record BranchRow : Type 0 where
  pub branch_name : Text
  pub parent_branch : Option Text
  pub parent_version : ℤ
  pub created_at_unix : ℤ
  pub manifest_size : ℤ
  pub identifier : Text
  pub metadata : Text

abbrev pub branch_row : Text × BranchContents → BranchRow
branch_row (name, contents) = record {
  branch_name = name;
  parent_branch = contents.parent_branch;
  parent_version = as_i64 contents.parent_version;
  created_at_unix = as_i64 contents.create_at;
  manifest_size = as_i64 contents.manifest_size;
  identifier = contents.identifier;
  metadata = contents.metadata;
}

-- `sort_by` on the names, which is stable.
unfoldable pub insert_branch :
    Text × BranchContents → List (Text × BranchContents) → List (Text × BranchContents)
insert_branch b [] = b ∷ []
insert_branch b (c ∷ rest) =
    let later = insert_branch b rest in
    elim (cmp_list compare b.0 c.0) [ Ordering.gt ↦ c ∷ later | _ ↦ b ∷ c ∷ rest ]

unfoldable pub sort_branches : List (Text × BranchContents) → List (Text × BranchContents)
sort_branches [] = []
sort_branches (b ∷ bs) = insert_branch b (sort_branches bs)
