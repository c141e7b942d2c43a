-- ===== src/Usb.antt =====
-- core/usb: gadget functions and the controller that builds a gadget of them.
pub mod Network
pub mod Resolv
pub mod Rndis
pub mod Adb
pub mod Function
pub mod Controller
pub mod Methods
