-- ===== src/Local/Inform.antt =====
-- The parameters of an Inform: `cwmp_session_create_inform_parameters` and
-- `cwmp_data_append_parameter_name` of netcwmp_xo/libcwmp/src/session.c. The pool and the list have
-- memory. `none` is a fault of the program.
pub mod Own
use netcwmp_xo.Base.{ℕ, Option, none, some, List, [], ◌∷◌, ◌++◌, codes}
use netcwmp_xo.Param.{Name}
use netcwmp_xo.Model.{type_string}
use netcwmp_xo.Values.{Device, Parameter}
use netcwmp_xo.Local.{Commands}
use netcwmp_xo.Local.Data.{Outside, data_get_parameter_value}

-- `cwmp_data_append_parameter_name` for 1 to 15 names that fit its buffer with the dots
unfoldable pub data_append_parameter_name : List Name → Name
data_append_parameter_name [] = []
data_append_parameter_name (a ∷ []) = a
data_append_parameter_name (a ∷ b ∷ names) =
    a ++ (codes "." ++ data_append_parameter_name (b ∷ names))

abbrev below_info : Name → List Name
below_info name = codes "Device" ∷ codes "DeviceInfo" ∷ name ∷ []

abbrev below_server : Name → List Name
below_server name = codes "Device" ∷ codes "ManagementServer" ∷ name ∷ []

abbrev below_lan : Name → List Name
below_lan name = codes "Device" ∷ codes "LAN" ∷ name ∷ []

-- The names of the calls, in their order
abbrev pub inform_names : List (List Name)
inform_names =
    (codes "Device" ∷ codes "DeviceSummary" ∷ [])
    ∷ below_info (codes "Manufacturer")
    ∷ below_info (codes "ManufacturerOUI")
    ∷ below_info (codes "ProductClass")
    ∷ below_info (codes "SerialNumber")
    ∷ below_info (codes "SpecVersion")
    ∷ below_info (codes "HardwareVersion")
    ∷ below_info (codes "SoftwareVersion")
    ∷ below_info (codes "ProvisioningCode")
    ∷ below_server (codes "ConnectionRequestURL")
    ∷ below_server (codes "ParameterKey")
    ∷ below_server (codes "Username")
    ∷ below_server (codes "Password")
    ∷ below_server (codes "ConnectionRequestUsername")
    ∷ below_server (codes "ConnectionRequestPassword")
    ∷ below_server (codes "URL")
    ∷ below_lan (codes "IPAddress")
    ∷ below_lan (codes "MACAddress")
    ∷ below_lan (codes "AddressingType")
    ∷ (codes "Device" ∷ codes "X_CTC_IPTV" ∷ codes "STBID" ∷ [])
    ∷ []

-- `cwmp_create_parameter` for a text
abbrev pub inform_parameter : Name → Option Name → Parameter
inform_parameter name value = record {
  name = some name;
  value = value;
  type = type_string;
  fault_code = 0;
}

module _ {S : Type 0} (d : Device S) (l : Outside S) (cmds : Commands) where
  -- The four calls for each name, with the list so far
  unfoldable pub add_parameters :
      List (List Name) → List Parameter → S → Option (List Parameter × S)
  add_parameters [] pl s = some (pl, s)
  add_parameters (parts ∷ more) pl s =
      let name = data_append_parameter_name parts in
      elim (data_get_parameter_value d l cmds name s) [
        | none ↦ none
        | some r ↦ add_parameters more (pl ++ inform_parameter name r.0 ∷ []) r.1
      ]

  -- `cwmp_session_create_inform_parameters`
  unfoldable pub create_inform_parameters : S → Option (List Parameter × S)
  create_inform_parameters s = add_parameters inform_names [] s
