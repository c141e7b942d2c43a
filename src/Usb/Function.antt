-- ===== src/Usb/Function.antt =====
-- core/usb/controller.go, rndis.go, adb.go: the state that every gadget function carries.
-- The settings of the two kinds of function (addresses, descriptors, paths) are read only by their
-- `add`, `effect` and `enable`; they are the same for all modes of a kind and never change, but for
-- the name of the interface.
use wifi_stick_usb_switcher.Prelude.{ℕ, Bool, false, [], ◌∷◌, ◌++◌}
use wifi_stick_usb_switcher.Prelude.Text.{Bytes, codes}

-- The concrete type behind the interface value.
pub data Kind : Type 0 where
  rndis adb : Kind

-- `submode` is an int in the source; what is assigned to it is never negative.
pub record UsbGadgetFunction : Type 0 where
  pub kind : Kind
  pub instance_name : Bytes
  pub type_name : Bytes
  pub function_code : ℕ
  pub effected : Bool
  pub submode : ℕ
  pub max_submode : ℕ
  -- Of RNDIS: the name of the interface, which `enable` corrects.
  pub ifname : Bytes

abbrev pub usb_gadget_function_code_rndis : ℕ
usb_gadget_function_code_rndis = 0b1

abbrev pub usb_gadget_function_code_adb : ℕ
usb_gadget_function_code_adb = 0b01

unfoldable pub new_usb_gadget_rndis : Bytes → UsbGadgetFunction
new_usb_gadget_rndis name = record {
  kind = rndis;
  instance_name = [];
  type_name = codes "rndis";
  function_code = usb_gadget_function_code_rndis;
  effected = false;
  submode = 0;
  max_submode = 1;
  ifname = name;
}

unfoldable pub new_usb_gadget_adb : UsbGadgetFunction
new_usb_gadget_adb = record {
  kind = adb;
  instance_name = [];
  type_name = codes "ffs";
  function_code = usb_gadget_function_code_adb;
  effected = false;
  submode = 0;
  max_submode = 0;
  ifname = [];
}

abbrev pub set_submode : ℕ → UsbGadgetFunction → UsbGadgetFunction
set_submode n f = record f { submode = n }

abbrev pub set_effected : Bool → UsbGadgetFunction → UsbGadgetFunction
set_effected b f = record f { effected = b }

abbrev pub get_path : UsbGadgetFunction → Bytes
get_path f = f.type_name ++ (b'.' ∷ f.instance_name)

-- `GetName`, which the ADB function overrides: its kernel type is `ffs`.
abbrev name_of : Kind → Bytes → Bytes
name_of rndis type_name = type_name
name_of adb type_name = codes "adb"

abbrev pub get_name : UsbGadgetFunction → Bytes
get_name f = name_of f.kind f.type_name
