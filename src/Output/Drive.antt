-- ===== src/Output/Drive.antt =====
-- internal/drivemcp/output.go, internal/drivemcp/tools.go: the results of the Drive tools that shrink.
use croton_mcp.Base.{Bool, true, false, Option, none, some, List, ltb, if◌then◌else◌, Bytes, length}
use croton_mcp.Output.Mail.{first_half, is_nil}

pub record ListDriveResult (S D E : Type 0) : Type 0 where
  pub path : Bytes
  pub sections : List S
  pub devices : List D
  pub entries : List E
  pub truncated : Bool

-- The public link is there or not; what it says is carried along.
pub record SharingStatusResult (M U : Type 0) : Type 0 where
  pub shared : Bool
  pub proton_invitations : List M
  pub non_proton_invitations : List M
  pub members : List M
  pub url_access : Option U
  pub editors_can_share : Bool
  pub truncated : Bool

abbrev pub shrink_drive : {S D E : Type 0} → ListDriveResult S D E → Option (ListDriveResult S D E)
shrink_drive r =
    if is_nil r.entries
    then if is_nil r.devices
      then if is_nil r.sections
        then none
        else some (record r { sections = first_half r.sections; truncated = true })
      else some (record r { devices = first_half r.devices; truncated = true })
    else some (record r { entries = first_half r.entries; truncated = true })

-- Which of the three lists is the longest, the first of them where several are.
pub data Largest : Type 0 where
  proton non_proton all_members : Largest

abbrev pub largest_of : {M U : Type 0} → SharingStatusResult M U → Largest
largest_of r =
    if ltb (length r.proton_invitations) (length r.non_proton_invitations)
    then if ltb (length r.non_proton_invitations) (length r.members)
      then all_members
      else non_proton
    else if ltb (length r.proton_invitations) (length r.members)
    then all_members
    else proton

abbrev pub list_of : {M U : Type 0} → Largest → SharingStatusResult M U → List M
list_of proton r = r.proton_invitations
list_of non_proton r = r.non_proton_invitations
list_of all_members r = r.members

abbrev pub halved : {M U : Type 0} → Largest → SharingStatusResult M U → SharingStatusResult M U
halved proton r = record r {
  proton_invitations = first_half r.proton_invitations;
  truncated = true;
}
halved non_proton r = record r {
  non_proton_invitations = first_half r.non_proton_invitations;
  truncated = true;
}
halved all_members r = record r { members = first_half r.members; truncated = true }

abbrev pub is_some : {A : Type 0} → Option A → Bool
is_some none = false
is_some (some a) = true

abbrev pub shrink_sharing :
    {M U : Type 0} → SharingStatusResult M U → Option (SharingStatusResult M U)
shrink_sharing r =
    if is_nil (list_of (largest_of r) r)
    then if is_some r.url_access
      then some (record r { url_access = none; truncated = true })
      else none
    else some (halved (largest_of r) r)
